-- ===== src/Terminal/Framebuffer/Cells.antt =====
-- The operations on the cells of a framebuffer of `w` columns and `h` rows, and its resets and
-- sizes: none panics on a place of the screen.
use rmosh.Prelude.{
  ℕ, suc, ◌-◌, ◌≤◌, ◌<◌, ◌≡◌, refl, ap, ◌∙◌, inl, inr, false, Option, List, [], ◌∷◌, ◌++◌, map,
  arith, length, length-append, length-take, length-drop, length-replicate, length-resize_list, All,
  update_at-All, take, drop, replicate, min, Succeeds, Succeeds-bind, update_at, as_usize, leb,
  Bool-cases,
}
use rmosh.Terminal.Cell.{Cell, Row, new_cell, set_row_wrap}
use rmosh.Terminal.Cell
use rmosh.Terminal.Framebuffer.{
  Framebuffer, count_gen, at_row, at_col, mutable_row, mutable_cell, apply_renditions_to_cell,
  apply_hyperlink_to_cell, insert_cells, delete_cells, reset_cell, reset_row,
}
use rmosh.Terminal.Framebuffer.Bounds.{HasWidth, IsValid}

leb-false : (a b : ℕ) → leb a b ≡ false → b < a
leb-false a b h = ground arith

on_screen : (i n : ℕ) → i < n → n ≤ 2048 → as_usize i ≡ i
on_screen i n h k = ground arith

pub All-any {ℓ} : {A : Type ℓ} (xs : List A) → All (λ _. Unit {0}) xs
All-any [] = tt
All-any (x ∷ xs) = (tt, All-any xs)

pub length-insert_cells :
    (col count bg : ℕ) (cells : List Cell)
    → length (Cell.insert_cells col count bg cells) ≡ length cells
unfolding Cell.insert_cells
length-insert_cells col count bg cells =
    let room = min count (length cells - col) in
    let kept = take (length cells - room) cells in
    elim (Bool-cases (leb (length cells) col)) [
      | inl past ↦ rw past
      | inr within ↦ rw within (
          length-append (take col kept) (replicate room (new_cell bg) ++ drop col kept)
          ∙ omega (
            arith,
            length-append (replicate room (new_cell bg)) (drop col kept),
            length-take col kept,
            length-drop col kept,
            length-replicate room (new_cell bg),
            length-take (length cells - room) cells,
            leb-false (length cells) col within,
          ))
    ]

pub length-delete_cells :
    (col count bg : ℕ) (cells : List Cell)
    → length (Cell.delete_cells col count bg cells) ≡ length cells
unfolding Cell.delete_cells
length-delete_cells col count bg cells = elim (Bool-cases (leb (length cells) col)) [
  | inl past ↦ rw past
  | inr within ↦ rw within (length-resize_list _ (length cells) (new_cell bg))
]

pub length-map {ℓ κ} :
    {A : Type ℓ} {B : Type κ} (f : A → B) (xs : List A) → length (map f xs) ≡ length xs
length-map f [] = refl
length-map f (x ∷ xs) = ap suc (length-map f xs)

module _ {w h : ℕ} where
  pub mutable_row-IsValid :
      (r : ℕ) (f : Row → Option Row) (fb : Framebuffer)
      → at_row fb r < h
      → ((found : Row) → HasWidth w found → Succeeds (HasWidth w) (f found))
      → IsValid w h fb
      → Succeeds (IsValid w h) (mutable_row r f fb)
  unfolding mutable_row
  mutable_row-IsValid r f fb on keep v =
      let place : as_usize (at_row fb r) ≡ at_row fb r =
        on_screen (at_row fb r) h on (omega arith) in
      Succeeds-bind _ (IsValid w h) (update_at fb.rows (as_usize (at_row fb r)) f) _
        (update_at-All (HasWidth w) fb.rows (as_usize (at_row fb r)) f v.widths (omega arith) keep)
        (λ rows hr. record { state = v.state; count = hr.0 ∙ v.count; widths = hr.1 })

  pub mutable_cell-IsValid :
      (r c : ℕ) (f : Cell → Cell) (fb : Framebuffer)
      → at_row fb r < h
      → at_col fb c < w
      → IsValid w h fb
      → Succeeds (IsValid w h) (mutable_cell r c f fb)
  unfolding mutable_cell
  mutable_cell-IsValid r c f fb on_row on_col v =
      let place : as_usize (at_col fb c) ≡ at_col fb c =
        on_screen (at_col fb c) w on_col (omega arith) in
      mutable_row-IsValid r _ fb on_row
        (λ found hf.
          Succeeds-bind _ (HasWidth w) (update_at found.cells (as_usize (at_col fb c)) _) _
            (update_at-All (λ _. Unit {0}) found.cells (as_usize (at_col fb c)) _
              (All-any found.cells) (omega arith) (λ old _. tt))
            (λ cells hc. hc.0 ∙ hf))
        v

  pub reset_cell-IsValid :
      (r c : ℕ) (fb : Framebuffer)
      → at_row fb r < h
      → at_col fb c < w
      → IsValid w h fb
      → Succeeds (IsValid w h) (reset_cell r c fb)
  unfolding reset_cell
  reset_cell-IsValid r c fb on_row on_col v = mutable_cell-IsValid r c _ fb on_row on_col v

  pub apply_renditions_to_cell-IsValid :
      (r c : ℕ) (fb : Framebuffer)
      → at_row fb r < h
      → at_col fb c < w
      → IsValid w h fb
      → Succeeds (IsValid w h) (apply_renditions_to_cell r c fb)
  unfolding apply_renditions_to_cell
  apply_renditions_to_cell-IsValid r c fb on_row on_col v =
      mutable_cell-IsValid r c _ fb on_row on_col v

  pub apply_hyperlink_to_cell-IsValid :
      (r c : ℕ) (fb : Framebuffer)
      → at_row fb r < h
      → at_col fb c < w
      → IsValid w h fb
      → Succeeds (IsValid w h) (apply_hyperlink_to_cell r c fb)
  unfolding apply_hyperlink_to_cell
  apply_hyperlink_to_cell-IsValid r c fb on_row on_col v =
      mutable_cell-IsValid r c _ fb on_row on_col v

  pub insert_cells-IsValid :
      (r col count : ℕ) (fb : Framebuffer)
      → at_row fb r < h
      → IsValid w h fb
      → Succeeds (IsValid w h) (insert_cells r col count fb)
  unfolding insert_cells
  insert_cells-IsValid r col count fb on_row v =
      mutable_row-IsValid r _ fb on_row (λ found hf. length-insert_cells _ _ _ found.cells ∙ hf) v

  pub delete_cells-IsValid :
      (r col count : ℕ) (fb : Framebuffer)
      → at_row fb r < h
      → IsValid w h fb
      → Succeeds (IsValid w h) (delete_cells r col count fb)
  unfolding delete_cells
  delete_cells-IsValid r col count fb on_row v =
      mutable_row-IsValid r _ fb on_row (λ found hf. length-delete_cells _ _ _ found.cells ∙ hf) v

  pub reset_row-IsValid :
      (r : ℕ) (fb : Framebuffer)
      → at_row fb r < h
      → IsValid w h fb
      → Succeeds (IsValid w h) (reset_row r fb)
  unfolding reset_row
  reset_row-IsValid r fb on_row v =
      mutable_row-IsValid r _ (count_gen fb) on_row (λ found hf. length-map _ found.cells ∙ hf)
        (record { state = v.state; count = v.count; widths = v.widths })
