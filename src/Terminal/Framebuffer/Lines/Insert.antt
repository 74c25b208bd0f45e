-- ===== src/Terminal/Framebuffer/Lines/Insert.antt =====
-- Which row stands at each line of the screen after lines were inserted: the rows of the scrolling
-- region from the given one on move down, and no other.
use rmosh.Prelude.{
  ℕ, zero, suc, ◌+◌, ◌-◌, ◌≤◌, ◌≡◌, true, ◌||◌, none, some, List, ◌++◌, arith, length, get_elem?,
  take, drop, replicate, ltb, leb, lt_i32, add_i32, sub_i32, as_usize, if◌then◌else◌, IsI32,
  Succeeds, Succeeds-bind, Succeeds-if, length-take, length-drop, length-append, length-replicate,
  get_elem?-append, get_elem?-take, get_elem?-drop, get_elem?-replicate, Bool-cases, inl, inr,
}
use rmosh.Terminal.Framebuffer.{
  Framebuffer, newrow, drain, splice, lines_moved, insert_lines, insert_line,
}
use rmosh.Terminal.Framebuffer.Bounds.{IsValid}
use rmosh.Terminal.Framebuffer.Lines.{drain-eq, splice-eq, moved, lines_moved_eq}

-- The last `s` elements before the place `top` go, and as many copies of `a` come in at `lo`.
moved_down :
    {A : Type 0} (lo s top : ℕ) (a : A) (xs : List A) (i : ℕ)
    → lo + s ≤ top
    → top ≤ length xs
    → let kept = take (top - s) xs ++ drop top xs in
      get_elem? (take lo kept ++ (replicate s a ++ drop lo kept)) i ≡ (
        if ltb i lo || leb top i
        then get_elem? xs i
        else if ltb i (lo + s)
        then some a
        else get_elem? xs (i - s))
moved_down lo s top a xs i fits short =
    let kept = take (top - s) xs ++ drop top xs in
    ground (
      arith,
      get_elem?-append (take lo kept) (replicate s a ++ drop lo kept) i,
      get_elem?-append (replicate s a) (drop lo kept) (i - length (take lo kept)),
      get_elem?-take lo kept i,
      get_elem?-replicate s a (i - length (take lo kept)),
      get_elem?-drop lo kept (i - length (take lo kept) - length (replicate s a)),
      get_elem?-append (take (top - s) xs) (drop top xs) i,
      get_elem?-take (top - s) xs i,
      get_elem?-append (take (top - s) xs) (drop top xs)
          (lo + (i - length (take lo kept) - length (replicate s a))),
      get_elem?-take (top - s) xs (lo + (i - length (take lo kept) - length (replicate s a))),
      get_elem?-drop top xs
          (lo + (i - length (take lo kept) - length (replicate s a)) - length (take (top - s) xs)),
      length-take lo kept,
      length-replicate s a,
      length-take (top - s) xs,
      length-drop top xs,
      length-append (take (top - s) xs) (drop top xs),
    )

-- How many lines `insert_line` moves; one row past the region is still a place to insert at.
abbrev pub opened_at : Framebuffer → ℕ → ℕ → ℕ
opened_at fb row count =
    let bottom = fb.ds.scrolling_region_bottom_row in
    if ltb row fb.ds.scrolling_region_top_row || ltb bottom row
    then 0
    else moved (bottom + 1 - row) count

-- The rows after the region that ends before `top` moved down by `s` lines from `row` on.
abbrev pub ShiftedDown : Framebuffer → ℕ → ℕ → ℕ → Framebuffer → Type 0
ShiftedDown fb row s top g =
    (i : ℕ)
    → get_elem? g.rows i ≡ (
        if ltb i row || leb top i
        then get_elem? fb.rows i
        else if ltb i (row + s)
        then some (newrow fb)
        else get_elem? fb.rows (i - s))

unmoved : (row top : ℕ) (fb : Framebuffer) → ShiftedDown fb row 0 top fb
unmoved row top fb i = ground arith

-- At the place past the region nothing is moved either.
past_region : (count : ℕ) → lines_moved 0 count ≡ none
past_region count = ground arith

module _ {w h : ℕ} where
  insert_lines_lem :
      (row s : ℕ) (fb : Framebuffer)
      → IsValid w h fb
      → row + s ≤ fb.ds.scrolling_region_bottom_row + 1
      → Succeeds
          (ShiftedDown fb row s (fb.ds.scrolling_region_bottom_row + 1))
          (insert_lines row fb (some s))
  insert_lines_lem row s fb v fits =
      let bottom = fb.ds.scrolling_region_bottom_row in
      let start : as_usize (sub_i32 (add_i32 bottom 1) s) ≡ bottom + 1 - s = ground arith in
      let many : as_usize s ≡ s = ground arith in
      let at : as_usize row ≡ row = ground arith in
      let whole : bottom + 1 - s + s ≡ bottom + 1 = omega arith in
      let kept = take (bottom + 1 - s) fb.rows ++ drop (bottom + 1) fb.rows in
      rw (start, many, at, whole)
        (Succeeds-bind (λ ys. ys ≡ kept) _ (drain (bottom + 1 - s) (bottom + 1) fb.rows) _
          (drain-eq (bottom + 1 - s) (bottom + 1) fb.rows (omega arith) (omega arith))
          λ ys eys. rw eys (
            Succeeds-bind (λ zs. zs ≡ take row kept ++ (replicate s (newrow fb) ++ drop row kept)) _
              (splice row (replicate s (newrow fb)) kept) _
              (splice-eq row (replicate s (newrow fb)) kept (
                omega (
                  arith,
                  length-append (take (bottom + 1 - s) fb.rows) (drop (bottom + 1) fb.rows),
                  length-take (bottom + 1 - s) fb.rows,
                  length-drop (bottom + 1) fb.rows,
                )))
              (λ zs ezs i.
                rw ezs (
                  moved_down row s (bottom + 1) (newrow fb) fb.rows i (omega arith)
                    (omega arith)))))

  insert_opened :
      (row s : ℕ) (fb : Framebuffer)
      → IsValid w h fb
      → row + s ≤ fb.ds.scrolling_region_bottom_row + 1
      → Succeeds
          (ShiftedDown fb row s (fb.ds.scrolling_region_bottom_row + 1))
          (insert_lines row fb (if ltb 0 s then some s else none))
  insert_opened row zero fb v fits = unmoved row (fb.ds.scrolling_region_bottom_row + 1) fb
  insert_opened row (suc s) fb v fits =
      let some_lines : ltb 0 (suc s) ≡ true = ground arith in
      rw some_lines (insert_lines_lem row (suc s) fb v fits)

  -- On a valid screen, whatever the row and the count, `insert_line` succeeds; in the scrolling
  -- region it puts blank rows at the row, moves the rows from there down as far as the region goes
  -- and leaves the other rows alone, and outside it moves none.
  pub insert_line_lem :
      (row count : ℕ) (fb : Framebuffer)
      → IsI32 row
      → IsI32 count
      → IsValid w h fb
      → Succeeds
          (ShiftedDown fb row (opened_at fb row count) (fb.ds.scrolling_region_bottom_row + 1))
          (insert_line row count fb)
  unfolding insert_line
  insert_line_lem row count fb r c v =
      let top = fb.ds.scrolling_region_top_row in
      let bottom = fb.ds.scrolling_region_bottom_row in
      let goal = ShiftedDown fb row (opened_at fb row count) (bottom + 1) in
      Succeeds-if goal (lt_i32 row top || lt_i32 (add_i32 bottom 1) row) _ _
        (λ outside.
          let none_moved : opened_at fb row count ≡ 0 = ground arith in
          rw none_moved (unmoved row (bottom + 1) fb))
        (λ inside. elim (Bool-cases (ltb bottom row)) [
          | inl past ↦
              let room : sub_i32 (add_i32 bottom 1) row ≡ 0 = ground arith in
              let none_moved : opened_at fb row count ≡ 0 = ground arith in
              rw (none_moved, room, past_region count) (unmoved row (bottom + 1) fb)
          | inr within ↦
              let room : sub_i32 (add_i32 bottom 1) row ≡ bottom + 1 - row = ground arith in
              let all_moved : opened_at fb row count ≡ moved (bottom + 1 - row) count =
                ground arith in
              let many = lines_moved_eq (bottom + 1 - row) count (omega arith) (ground arith) c in
              rw (all_moved, room, many)
                (insert_opened row (moved (bottom + 1 - row) count) fb v (ground arith))
        ])
