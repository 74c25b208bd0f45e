-- ===== src/Terminal/Cell/Shift.antt =====
-- What stands in each column after cells were inserted into a row or deleted from it.
use rmosh.Prelude.{
  ℕ, ◌+◌, ◌-◌, ◌<◌, ◌≡◌, some, List, ◌++◌, arith, length, get_elem?, take, drop, replicate, min,
  ltb, leb, if◌then◌else◌, length-take, length-drop, length-append, length-replicate,
  get_elem?-append, get_elem?-take, get_elem?-drop, get_elem?-replicate, get_elem?-resize_list,
  ◌||◌,
}
use rmosh.Terminal.Cell.{Cell, new_cell, insert_cells, delete_cells}

module _ (col count bg : ℕ) (cells : List Cell) (i : ℕ) where
  -- Within the row, the columns before `col` stay, `count` blank ones follow, and the others move
  -- right; nothing changes when `col` is past the row.
  pub get_elem?-insert_cells :
      i < length cells
      → get_elem? (insert_cells col count bg cells) i ≡ (
          if ltb i col || leb (length cells) col
          then get_elem? cells i
          else if ltb i (col + count)
          then some (new_cell bg)
          else get_elem? cells (i - count))
  unfolding insert_cells
  get_elem?-insert_cells h =
      let room = min count (length cells - col) in
      let kept = take (length cells - room) cells in
      ground (
        arith,
        get_elem?-append (take col kept) (replicate room (new_cell bg) ++ drop col kept) i,
        get_elem?-append (replicate room (new_cell bg)) (drop col kept)
            (i - length (take col kept)),
        get_elem?-take col kept i,
        get_elem?-take (length cells - room) cells i,
        get_elem?-replicate room (new_cell bg) (i - length (take col kept)),
        get_elem?-drop col kept
            (i - length (take col kept) - length (replicate room (new_cell bg))),
        get_elem?-take (length cells - room) cells
            (col + (i - length (take col kept) - length (replicate room (new_cell bg)))),
        length-take col kept,
        length-take (length cells - room) cells,
        length-replicate room (new_cell bg),
      )

  -- Within the row, the columns before `col` stay, those after the deleted ones move left by
  -- `count`, and blank ones fill the row up; nothing changes when `col` is past the row.
  pub get_elem?-delete_cells :
      i < length cells
      → get_elem? (delete_cells col count bg cells) i ≡ (
          if ltb i col || leb (length cells) col
          then get_elem? cells i
          else if ltb (i + count) (length cells)
          then get_elem? cells (i + count)
          else some (new_cell bg))
  unfolding delete_cells
  get_elem?-delete_cells h =
      let room = min count (length cells - col) in
      let kept = take col cells ++ drop (col + room) cells in
      ground (
        arith,
        get_elem?-resize_list kept (length cells) (new_cell bg) i h,
        length-append (take col cells) (drop (col + room) cells),
        length-take col cells,
        length-drop (col + room) cells,
        get_elem?-append (take col cells) (drop (col + room) cells) i,
        get_elem?-take col cells i,
        get_elem?-drop (col + room) cells (i - length (take col cells)),
      )
