-- ===== src/Terminal/Emulator/Safety/Characters.antt =====
-- A character is printed without a panic, and the screen stays valid.
use rmosh.Prelude.{
  ℕ, zero, suc, All, ◌<◌, ◌≡◌, refl, ap, ◌∙◌, Bool, true, false, ◌&&◌, ◌||◌, Option, none, some,
  List, [], ◌∷◌, arith, length, IsI32, Succeeds, Succeeds-bind, Succeeds-if, for_range-Succeeds,
  lt_i32, add_i32, sub_i32, minus_one, ◌==◌, get_elem?,
}
use rmosh.Terminal.Cell.{WideChars, Cell, append, set_row_wrap, is_empty}
use rmosh.Terminal.DrawState.{move_col}
use rmosh.Terminal.Framebuffer.{
  Framebuffer, with_ds, mutable_row, reset_cell, cell, combining_cell, at_row, at_col, get_i32,
}
use rmosh.Terminal.Framebuffer.Bounds.{IsValid, HasWidth, move_rows_autoscroll-IsValid}
use rmosh.Terminal.Framebuffer.Cells.{
  All-any, mutable_row-IsValid, mutable_cell-IsValid, reset_cell-IsValid, insert_cells-IsValid,
  apply_renditions_to_cell-IsValid, apply_hyperlink_to_cell-IsValid,
}
use rmosh.Terminal.Dispatcher.Safety.{col_to-IsValid}
use rmosh.Terminal.Dispatcher.Routines.{Keeps}
use rmosh.Terminal.Emulator.{
  mark_wrap, next_line, wrap_line, open_cells, set_wide, cover_next, append_unless_full,
  start_combining, place, print_base, combine_at, combine, print, char_width,
}

length-set_row_wrap : (b : Bool) (cs : List Cell) → length (set_row_wrap b cs) ≡ length cs
unfolding set_row_wrap
length-set_row_wrap b [] = refl
length-set_row_wrap b (c ∷ []) = refl
length-set_row_wrap b (c ∷ d ∷ cs) = ap suc (length-set_row_wrap b (d ∷ cs))

element :
    {A : Type 0} (P : A → Type 0) (xs : List A) (i : ℕ)
    → All P xs
    → i < length xs
    → Succeeds P (get_elem? xs i)
element P [] i all lt = absurd (omega arith)
element P (x ∷ xs) zero all lt = all.0
element P (x ∷ xs) (suc i) all lt = element P xs i all.1 (omega arith)

get_i32-Succeeds :
    {A : Type 0} (P : A → Type 0) (xs : List A) (i : ℕ)
    → All P xs
    → i < length xs
    → i < 2048
    → Succeeds P (get_i32 xs i)
get_i32-Succeeds P xs i all lt small =
    Succeeds-if P (lt_i32 i 0) none _ (λ low. absurd (ground arith)) (λ _. element P xs i all lt)

module _ (w h : ℕ) where
  next_line-IsValid : Keeps w h next_line
  next_line-IsValid fb v =
      Succeeds-bind (IsValid w h) (IsValid w h) (with_ds (move_col 0 false false) fb) _
        (col_to-IsValid w h 0 false false fb (omega arith) v)
        (λ g. move_rows_autoscroll-IsValid 1 g (omega arith))

  marked-IsValid : (b : Bool) → Keeps w h (mutable_row minus_one (mark_wrap b))
  marked-IsValid b fb v =
      mutable_row-IsValid minus_one (mark_wrap b) fb v.state.row
        (λ found hf. length-set_row_wrap b found.cells ∙ hf) v

  wrap_line-IsValid : (chwidth : ℕ) → Keeps w h (wrap_line chwidth)
  unfolding wrap_line
  wrap_line-IsValid chwidth fb v =
      let P = IsValid w h in
      Succeeds-if P (fb.ds.auto_wrap_mode && fb.ds.next_print_will_wrap) _ _
        (λ _. Succeeds-bind P P _ _ (marked-IsValid true fb v) next_line-IsValid)
        λ _.
          Succeeds-if P
            (fb.ds.auto_wrap_mode && chwidth == 2 && fb.ds.cursor_col == sub_i32 fb.ds.width 1) _ _
            (λ _.
              Succeeds-bind P P (reset_cell minus_one minus_one fb) _
                (reset_cell-IsValid minus_one minus_one fb v.state.row v.state.col v)
                (λ g hg. Succeeds-bind P P _ _ (marked-IsValid false g hg) next_line-IsValid))
            (λ _. v)

  open_cells-IsValid : (chwidth : ℕ) → Keeps w h (open_cells chwidth)
  open_cells-IsValid chwidth fb v =
      Succeeds-if (IsValid w h) fb.ds.insert_mode _ _
        (λ _.
          for_range-Succeeds (IsValid w h) 0 chwidth _ fb
            (λ _ g lo hi hg.
              insert_cells-IsValid g.ds.cursor_row g.ds.cursor_col 1 g (ground arith) hg)
            v)
        (λ _. v)

  cover_next-IsValid :
      (chwidth row col : ℕ) → row < h → col < w → Keeps w h (cover_next chwidth row col)
  cover_next-IsValid chwidth row col hr hc fb v =
      Succeeds-if (IsValid w h) (chwidth == 2 && lt_i32 (add_i32 col 1) fb.ds.width) _ _
        (λ room. reset_cell-IsValid row (add_i32 col 1) fb (ground arith) (ground arith) v) (λ _. v)

  module _ (wide : WideChars) where
    place-IsValid :
        (ch chwidth row col : ℕ) → row < h → col < w → Keeps w h (place wide ch chwidth row col)
    unfolding place
    place-IsValid ch chwidth row col hr hc fb v =
        let P = IsValid w h in
        Succeeds-bind P P _ _ (reset_cell-IsValid row col fb (ground arith) (ground arith) v)
          λ g1 h1.
            Succeeds-bind P P _ _
              (mutable_cell-IsValid row col (append wide ch) g1 (ground arith) (ground arith) h1)
              λ g2 h2.
                Succeeds-bind P P _ _
                  (mutable_cell-IsValid row col (set_wide (chwidth == 2)) g2 (ground arith)
                    (ground arith) h2)
                  λ g3 h3.
                    Succeeds-bind P P _ _
                      (apply_renditions_to_cell-IsValid row col g3 (ground arith) (ground arith) h3)
                      λ g4 h4.
                        Succeeds-bind P P _ _
                          (apply_hyperlink_to_cell-IsValid row col g4 (ground arith) (ground arith)
                            h4)
                          (cover_next-IsValid chwidth row col hr hc)

    print_base-IsValid : (ch chwidth : ℕ) → IsI32 chwidth → Keeps w h (print_base wide ch chwidth)
    unfolding print_base
    print_base-IsValid ch chwidth i fb v =
        let P = IsValid w h in
        Succeeds-bind P P _ _ (wrap_line-IsValid chwidth fb v) λ g1 h1.
          Succeeds-bind P P _ _ (open_cells-IsValid chwidth g1 h1) λ g2 h2.
            Succeeds-bind P P _ _
              (place-IsValid ch chwidth g2.ds.cursor_row g2.ds.cursor_col h2.state.row h2.state.col
                g2 h2)
              (λ g3 h3. col_to-IsValid w h chwidth true true g3 i h3)

    combine_at-IsValid :
        (ch row col : ℕ) (old : Cell)
        → row < h
        → col < w
        → Keeps w h (combine_at wide ch row col old)
    unfolding combine_at
    combine_at-IsValid ch row col old hr hc fb v =
        let P = IsValid w h in
        Succeeds-if P (is_empty old) _ _
          (λ _.
            Succeeds-bind P P _ _
              (mutable_cell-IsValid row col (λ c. append_unless_full wide ch (start_combining c)) fb
                (ground arith) (ground arith) v)
              (λ g hg. col_to-IsValid w h 1 true true g (omega arith) hg))
          (λ _.
            mutable_cell-IsValid row col (append_unless_full wide ch) fb (ground arith)
              (ground arith) v)

    -- A place on the screen has a cell.
    cell-Succeeds :
        (row col : ℕ) (fb : Framebuffer)
        → row < h
        → col < w
        → IsValid w h fb
        → Succeeds (λ _. Unit {0}) (cell row col fb)
    unfolding cell
    cell-Succeeds r c fb hr hc v =
        let on_row : at_row fb r < h = ground arith in
        let on_col : at_col fb c < w = ground arith in
        Succeeds-bind (HasWidth w) (λ _. Unit {0}) (get_i32 fb.rows (at_row fb r)) _
          (get_i32-Succeeds (HasWidth w) fb.rows (at_row fb r) v.widths (omega arith) (omega arith))
          (λ found hf.
            get_i32-Succeeds (λ _. Unit {0}) found.cells (at_col fb c) (All-any found.cells)
              (omega arith) (omega arith))

    combine-IsValid :
        (ch : ℕ) (fb : Framebuffer) (o : Option (ℕ × ℕ))
        → ((col row : ℕ) → o ≡ some (col, row) → (row < h) × (col < w))
        → IsValid w h fb
        → Succeeds (IsValid w h) (combine wide ch fb o)
    combine-IsValid ch fb none on v = v
    combine-IsValid ch fb (some (col, row)) on v =
        let (hr, hc) = on col row refl in
        Succeeds-bind (λ _. Unit {0}) (IsValid w h) (cell row col fb) _
          (cell-Succeeds row col fb hr hc v) (λ old _. combine_at-IsValid ch row col old hr hc fb v)

    combining_on_screen :
        (fb : Framebuffer)
        → IsValid w h fb
        → (col row : ℕ) → combining_cell fb ≡ some (col, row)
        → (row < h) × (col < w)
    unfolding combining_cell
    combining_on_screen fb v col row e = ground arith

    pub print-IsValid : (ch : ℕ) → Keeps w h (print wide ch)
    unfolding print
    print-IsValid ch fb v =
        let chwidth = char_width wide ch in
        Succeeds-if (IsValid w h) (chwidth == 1 || chwidth == 2) _ _
          (λ base. print_base-IsValid ch chwidth (ground arith) fb v)
          λ _.
            Succeeds-if (IsValid w h) (chwidth == 0) _ _
              (λ _. combine-IsValid ch fb (combining_cell fb) (combining_on_screen fb v) v) (λ _. v)
