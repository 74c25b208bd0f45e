-- ===== src/Terminal/Framebuffer/Lines.antt =====
-- Which row stands at each line of the screen after lines were deleted: the rows of the scrolling
-- region from the given one on move up, and no other.
pub mod Insert
use rmosh.Prelude.{
  ℕ, zero, suc, ◌+◌, ◌-◌, ◌^◌, ◌≤◌, ◌<◌, ◌≡◌, refl, Bool, true, false, ◌||◌, Option, none, some,
  List, [], ◌∷◌, ◌++◌, arith, length, get_elem?, take, drop, replicate, min, ltb, leb, lt_i32,
  le_i32, add_i32, sub_i32, as_usize, if◌then◌else◌, IsI32, Succeeds, Succeeds-bind, Succeeds-if,
  length-take, length-drop, length-append, length-replicate, get_elem?-append, get_elem?-take,
  get_elem?-drop, get_elem?-replicate, Option-cases, subst, inl, inr,
}
use rmosh.Terminal.Cell.{Row}
use rmosh.Terminal.Framebuffer.{
  Framebuffer, newrow, drain, splice, lines_moved, delete_lines, delete_line, insert_lines,
  insert_line,
}
use rmosh.Terminal.Framebuffer.Bounds.{IsValid}

module _ {A : Type 0} where
  pub drain-eq :
      (lo hi : ℕ) (xs : List A)
      → lo ≤ hi
      → hi ≤ length xs
      → Succeeds (λ ys. ys ≡ take lo xs ++ drop hi xs) (drain lo hi xs)
  unfolding drain
  drain-eq lo hi xs h k =
      Succeeds-if _ (ltb hi lo || ltb (length xs) hi) none _ (λ bad. absurd (ground arith))
        (λ _. refl)

  pub splice-eq :
      (at : ℕ) (ys xs : List A)
      → at ≤ length xs
      → Succeeds (λ zs. zs ≡ take at xs ++ (ys ++ drop at xs)) (splice at ys xs)
  unfolding splice
  splice-eq at ys xs h =
      Succeeds-if _ (ltb (length xs) at) none _ (λ bad. absurd (ground arith)) (λ _. refl)

  -- `s` elements at `lo` go, and as many copies of `a` come in before the place `top` of the rest.
  moved_up :
      (lo s top : ℕ) (a : A) (xs : List A) (i : ℕ)
      → lo + s ≤ top
      → top ≤ length xs
      → let kept = take lo xs ++ drop (lo + s) xs in
        get_elem? (take (top - s) kept ++ (replicate s a ++ drop (top - s) kept)) i ≡ (
          if ltb i lo || leb top i
          then get_elem? xs i
          else if ltb (i + s) top
          then get_elem? xs (i + s)
          else some a)
  moved_up lo s top a xs i fits short =
      let kept = take lo xs ++ drop (lo + s) xs in
      let at = top - s in
      ground (
        arith,
        get_elem?-append (take at kept) (replicate s a ++ drop at kept) i,
        get_elem?-append (replicate s a) (drop at kept) (i - length (take at kept)),
        get_elem?-take at kept i,
        get_elem?-replicate s a (i - length (take at kept)),
        get_elem?-drop at kept (i - length (take at kept) - length (replicate s a)),
        get_elem?-append (take lo xs) (drop (lo + s) xs) i,
        get_elem?-take lo xs i,
        get_elem?-drop (lo + s) xs (i - length (take lo xs)),
        get_elem?-append (take lo xs) (drop (lo + s) xs)
            (at + (i - length (take at kept) - length (replicate s a))),
        get_elem?-drop (lo + s) xs
            (at + (i - length (take at kept) - length (replicate s a)) - length (take lo xs)),
        length-take at kept,
        length-replicate s a,
        length-take lo xs,
        length-drop (lo + s) xs,
        length-append (take lo xs) (drop (lo + s) xs),
      )

-- How many lines move when `count` are asked for and there is room for `room`.
abbrev pub moved : ℕ → ℕ → ℕ
moved room count = if lt_i32 count 0 then 0 else min count room

pub lines_moved_eq :
    (room count : ℕ)
    → room < 2 ^ 31
    → 0 < room
    → IsI32 count
    → lines_moved room count ≡ (if ltb 0 (moved room count) then some (moved room count) else none)
lines_moved_eq room count small pos i = ground arith

-- How many lines `delete_line` and `insert_line` move at `row`.
abbrev pub moved_at : Framebuffer → ℕ → ℕ → ℕ
moved_at fb row count =
    let bottom = fb.ds.scrolling_region_bottom_row in
    if ltb row fb.ds.scrolling_region_top_row || ltb bottom row
    then 0
    else moved (bottom + 1 - row) count

-- The rows after `s` lines of the region that ends before `top` moved up from `row` on.
abbrev pub ShiftedUp : Framebuffer → ℕ → ℕ → ℕ → Framebuffer → Type 0
ShiftedUp fb row s top g =
    (i : ℕ)
    → get_elem? g.rows i ≡ (
        if ltb i row || leb top i
        then get_elem? fb.rows i
        else if ltb (i + s) top
        then get_elem? fb.rows (i + s)
        else some (newrow fb))

-- Nothing moves.
unmoved : (row top : ℕ) (fb : Framebuffer) → ShiftedUp fb row 0 top fb
unmoved row top fb i = ground arith

module _ {w h : ℕ} where
  delete_lines_lem :
      (row s : ℕ) (fb : Framebuffer)
      → IsValid w h fb
      → row + s ≤ fb.ds.scrolling_region_bottom_row + 1
      → Succeeds
          (ShiftedUp fb row s (fb.ds.scrolling_region_bottom_row + 1))
          (delete_lines row fb (some s))
  delete_lines_lem row s fb v fits =
      let bottom = fb.ds.scrolling_region_bottom_row in
      let from : as_usize row ≡ row = ground arith in
      let to : as_usize (add_i32 row s) ≡ row + s = ground arith in
      let many : as_usize s ≡ s = ground arith in
      let at : as_usize (sub_i32 (add_i32 bottom 1) s) ≡ bottom + 1 - s = ground arith in
      let kept = take row fb.rows ++ drop (row + s) fb.rows in
      rw (from, to, many, at)
        (Succeeds-bind (λ ys. ys ≡ kept) _ (drain row (row + s) fb.rows) _
          (drain-eq row (row + s) fb.rows (omega arith) (omega arith))
          λ ys eys. rw eys (
            Succeeds-bind
              (λ zs.
                zs
                ≡ take (bottom + 1 - s) kept
                  ++ (replicate s (newrow fb) ++ drop (bottom + 1 - s) kept))
              _ (splice (bottom + 1 - s) (replicate s (newrow fb)) kept) _
              (splice-eq (bottom + 1 - s) (replicate s (newrow fb)) kept (
                omega (
                  arith,
                  length-append (take row fb.rows) (drop (row + s) fb.rows),
                  length-take row fb.rows,
                  length-drop (row + s) fb.rows,
                )))
              (λ zs ezs i.
                rw ezs
                  (moved_up row s (bottom + 1) (newrow fb) fb.rows i (omega arith) (omega arith)))))

  delete_moved :
      (row s : ℕ) (fb : Framebuffer)
      → IsValid w h fb
      → row + s ≤ fb.ds.scrolling_region_bottom_row + 1
      → Succeeds
          (ShiftedUp fb row s (fb.ds.scrolling_region_bottom_row + 1))
          (delete_lines row fb (if ltb 0 s then some s else none))
  delete_moved row zero fb v fits = unmoved row (fb.ds.scrolling_region_bottom_row + 1) fb
  delete_moved row (suc s) fb v fits =
      let some_lines : ltb 0 (suc s) ≡ true = ground arith in
      rw some_lines (delete_lines_lem row (suc s) fb v fits)

  -- On a valid screen, whatever the row and the count, `delete_line` succeeds; in the scrolling
  -- region it moves the rows after the deleted ones up, blanks the last ones of the region and
  -- leaves the other rows alone, and outside it moves none.
  pub delete_line_lem :
      (row count : ℕ) (fb : Framebuffer)
      → IsI32 row
      → IsI32 count
      → IsValid w h fb
      → Succeeds
          (ShiftedUp fb row (moved_at fb row count) (fb.ds.scrolling_region_bottom_row + 1))
          (delete_line row count fb)
  unfolding delete_line
  delete_line_lem row count fb r c v =
      let top = fb.ds.scrolling_region_top_row in
      let bottom = fb.ds.scrolling_region_bottom_row in
      let goal = ShiftedUp fb row (moved_at fb row count) (bottom + 1) in
      Succeeds-if goal (lt_i32 row top || lt_i32 bottom row) _ _
        (λ outside.
          let none_moved : moved_at fb row count ≡ 0 = ground arith in
          rw none_moved (unmoved row (bottom + 1) fb))
        (λ inside.
          let room : sub_i32 (add_i32 bottom 1) row ≡ bottom + 1 - row = ground arith in
          let all_moved : moved_at fb row count ≡ moved (bottom + 1 - row) count = ground arith in
          let many = lines_moved_eq (bottom + 1 - row) count (omega arith) (ground arith) c in
          rw (all_moved, room, many)
            (delete_moved row (moved (bottom + 1 - row) count) fb v (ground arith)))
