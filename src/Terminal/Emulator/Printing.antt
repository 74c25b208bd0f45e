-- ===== src/Terminal/Emulator/Printing.antt =====
-- What a character of one column does to the screen.
use rmosh.Prelude.{
  ℕ, zero, suc, ◌+◌, ◌-◌, ◌≤◌, ◌<◌, ◌≡◌, refl, ap, subst, ◌∙◌, true, false, ◌&&◌, Option, some,
  List, [], ◌∷◌, arith, length, All, min, leb, add_i32, sub_i32, le_i32, as_usize, clamp_i32,
  update_at, Succeeds, ◌>>=?◌,
}
use mathlib.Core.Path.{fun_ext}
use rmosh.Terminal.Cell.{WideChars, Cell, Row, append, new_cell, reset}
use rmosh.Terminal.DrawState
use rmosh.Terminal.DrawState.Bounds
use rmosh.Terminal.DrawState.{DrawState, move_col, snap_cursor_to_border}
use rmosh.Terminal.Framebuffer.{
  Framebuffer, mutable_row, mutable_cell, reset_cell, apply_renditions_to_cell,
  apply_hyperlink_to_cell, at_row, at_col,
}
use rmosh.Terminal.Framebuffer.Bounds.{IsValid, HasWidth}
use rmosh.Terminal.Framebuffer.Cells.{All-any, mutable_cell-IsValid}
use rmosh.Terminal.Emulator.{place, print_base, print, char_width, wrap_line, open_cells, set_wide}

module _ {A : Type 0} where
  abbrev pub modify : List A → ℕ → (A → A) → List A
  modify [] i f = []
  modify (x ∷ xs) zero f = f x ∷ xs
  modify (x ∷ xs) (suc i) f = x ∷ modify xs i f

  modify-modify :
      (xs : List A) (i : ℕ) (f g : A → A) → modify (modify xs i f) i g ≡ modify xs i (λ x. g (f x))
  modify-modify [] i f g = refl
  modify-modify (x ∷ xs) zero f g = refl
  modify-modify (x ∷ xs) (suc i) f g = ap (λ t. x ∷ t) (modify-modify xs i f g)

  -- A step that does not panic on the elements that there are.
  update_at-modify :
      (P : A → Type 0) (xs : List A) (i : ℕ) (step : A → Option A) (f : A → A)
      → All P xs
      → i < length xs
      → ((x : A) → P x → step x ≡ some (f x))
      → update_at xs i step ≡ some (modify xs i f)
  unfolding update_at
  update_at-modify P [] i step f all h same = absurd (omega arith)
  update_at-modify P (x ∷ xs) zero step f all h same = rw (same x all.0)
  update_at-modify P (x ∷ xs) (suc i) step f all h same =
      rw (update_at-modify P xs i step f all.1 (omega arith) same)

abbrev pub modify_row : ℕ → (Cell → Cell) → Row → Row
modify_row c f r = record r { cells = modify r.cells c f }

-- The cell that a character of one column is printed in.
abbrev pub printed : WideChars → ℕ → DrawState → Cell
printed wide ch d = record (append wide ch (new_cell d.renditions.background_color)) {
  wide = false;
  renditions = d.renditions;
  hyperlink = d.hyperlink;
}

-- The screen with one cell changed.
abbrev pub poke : ℕ → ℕ → (Cell → Cell) → Framebuffer → Framebuffer
poke r c f fb = record fb { rows = modify fb.rows r (modify_row c f) }

poke-poke :
    (r c : ℕ) (f g : Cell → Cell) (fb : Framebuffer)
    → poke r c g (poke r c f fb) ≡ poke r c (λ x. g (f x)) fb
poke-poke r c f g fb =
    ap (λ (rows : List Row). record fb { rows = rows })
      (modify-modify fb.rows r (modify_row c f) (modify_row c g)
        ∙ ap (λ (h : Row → Row). modify fb.rows r h)
            (fun_ext (λ (x : Row).
              ap (λ (cs : List Cell). record x { cells = cs }) (modify-modify x.cells c f g))))

module _ {w h : ℕ} where
  mutable_cell-poke :
      (r c : ℕ) (f : Cell → Cell) (fb : Framebuffer)
      → r < h
      → c < w
      → IsValid w h fb
      → mutable_cell r c f fb ≡ some (poke r c f fb)
  unfolding mutable_cell mutable_row
  mutable_cell-poke r c f fb hr hc v =
      let row : as_usize (at_row fb r) ≡ r = ground arith in
      let col : as_usize (at_col fb c) ≡ c = ground arith in
      let step = λ (found : Row). update_at found.cells c (λ old. some (f old)) >>=? λ cells.
      some (record found { cells = cells }) in
      let inner : (found : Row) → HasWidth w found → step found ≡ some (modify_row c f found) =
        λ found wide. rw (
          update_at-modify (λ _. Unit {0}) found.cells c (λ old. some (f old)) f
            (All-any found.cells) (omega arith) (λ _ _. refl)) in
      rw (row, col)
        (rw (
          update_at-modify (HasWidth w) fb.rows r step (modify_row c f) v.widths (omega arith)
            inner))

  poke-IsValid :
      (r c : ℕ) (f : Cell → Cell) (fb : Framebuffer)
      → r < h
      → c < w
      → IsValid w h fb
      → IsValid w h (poke r c f fb)
  poke-IsValid r c f fb hr hc v =
      subst (Succeeds (IsValid w h)) (mutable_cell-poke r c f fb hr hc v)
        (mutable_cell-IsValid r c f fb (ground arith) (ground arith) v)

  place_narrow :
      (wide : WideChars) (ch row col : ℕ) (fb : Framebuffer)
      → row < h
      → col < w
      → IsValid w h fb
      → place wide ch 1 row col fb ≡ some (poke row col (λ _. printed wide ch fb.ds) fb)
  unfolding place reset_cell apply_renditions_to_cell apply_hyperlink_to_cell
  place_narrow wide ch row col fb hr hc v =
      let f1 = reset fb.ds.renditions.background_color in
      let f2 = append wide ch in
      let f3 = set_wide false in
      let f4 = λ (c : Cell). record c { renditions = fb.ds.renditions } in
      let f5 = λ (c : Cell). record c { hyperlink = fb.ds.hyperlink } in
      let g1 = poke row col f1 fb in
      let v1 = poke-IsValid row col f1 fb hr hc v in
      let g2 = poke row col f2 g1 in
      let v2 = poke-IsValid row col f2 g1 hr hc v1 in
      let g3 = poke row col f3 g2 in
      let v3 = poke-IsValid row col f3 g2 hr hc v2 in
      let g4 = poke row col f4 g3 in
      let v4 = poke-IsValid row col f4 g3 hr hc v3 in
      rw
        (
          mutable_cell-poke row col f1 fb hr hc v,
          mutable_cell-poke row col f2 g1 hr hc v1,
          mutable_cell-poke row col f3 g2 hr hc v2,
          mutable_cell-poke row col f4 g3 hr hc v3,
          mutable_cell-poke row col f5 g4 hr hc v4,
        )
        (ap some (
          ap (poke row col f5) (
            ap (poke row col f4) (
              ap (poke row col f3) (poke-poke row col f1 f2 fb)
              ∙ poke-poke row col (λ c. f2 (f1 c)) f3 fb)
            ∙ poke-poke row col (λ c. f3 (f2 (f1 c))) f4 fb)
          ∙ poke-poke row col (λ c. f4 (f3 (f2 (f1 c)))) f5 fb))

-- The cursor after a character of one column: one column on, or still in the last one and due to wrap.
abbrev pub advanced : DrawState → DrawState
advanced d = record d {
  combining_char_col = d.cursor_col;
  combining_char_row = d.cursor_row;
  cursor_col = min (d.cursor_col + 1) (d.width - 1);
  next_print_will_wrap = leb d.width (d.cursor_col + 1);
}

clamp_col :
    (c w : ℕ)
    → c < w
    → w ≤ 2048
    → clamp_i32 (add_i32 c 1) 0 (sub_i32 w 1) ≡ some (min (c + 1) (w - 1))
unfolding clamp_i32
clamp_col c w a b = ground arith

clamp_row : (r h : ℕ) → r < h → h ≤ 2048 → clamp_i32 r 0 (sub_i32 h 1) ≡ some r
unfolding clamp_i32
clamp_row r h a b = ground arith

wrap_due : (c w : ℕ) → c < w → w ≤ 2048 → le_i32 w (add_i32 c 1) ≡ leb w (c + 1)
wrap_due c w a b = ground arith

stays :
    (fb : Framebuffer)
    → (fb.ds.auto_wrap_mode && fb.ds.next_print_will_wrap) ≡ false
    → wrap_line 1 fb ≡ some fb
unfolding wrap_line
stays fb unwrapped = ground arith

opened : (fb : Framebuffer) → fb.ds.insert_mode ≡ false → open_cells 1 fb ≡ some fb
opened fb uninserted = ground arith

module _ {w h : ℕ} where
  advance :
      (d : DrawState)
      → DrawState.Bounds.IsValid w h d
      → d.origin_mode ≡ false
      → move_col 1 true true d ≡ some (advanced d)
  unfolding move_col snap_cursor_to_border
  advance d v plain =
      let cw : d.cursor_col < d.width = ground arith in
      let rh : d.cursor_row < d.height = ground arith in
      let fc = clamp_col d.cursor_col d.width cw (ground arith) in
      let fr = clamp_row d.cursor_row d.height rh (ground arith) in
      let fw = wrap_due d.cursor_col d.width cw (ground arith) in rw (plain, fr, fc, fw)

  printed_base :
      (wide : WideChars) (ch : ℕ) (fb : Framebuffer)
      → IsValid w h fb
      → (fb.ds.auto_wrap_mode && fb.ds.next_print_will_wrap) ≡ false
      → fb.ds.insert_mode ≡ false
      → fb.ds.origin_mode ≡ false
      → print_base wide ch 1 fb
        ≡ some (record (poke fb.ds.cursor_row fb.ds.cursor_col (λ _. printed wide ch fb.ds) fb) {
          ds = advanced fb.ds;
        })
  unfolding print_base
  printed_base wide ch fb v unwrapped uninserted plain =
      rw
        (
          stays fb unwrapped,
          opened fb uninserted,
          place_narrow wide ch fb.ds.cursor_row fb.ds.cursor_col fb v.state.row v.state.col v,
          advance fb.ds v.state plain,
        )
        refl

  -- On a valid screen with no wrap due and with the insert and the origin mode off, printing a
  -- character of one column succeeds: the cell at the cursor becomes that character in the current
  -- renditions and hyperlink, no other cell changes, and the cursor goes one column on, or stays in
  -- the last one with a wrap due.
  pub print_narrow :
      (wide : WideChars) (ch : ℕ) (fb : Framebuffer)
      → IsValid w h fb
      → char_width wide ch ≡ 1
      → (fb.ds.auto_wrap_mode && fb.ds.next_print_will_wrap) ≡ false
      → fb.ds.insert_mode ≡ false
      → fb.ds.origin_mode ≡ false
      → print wide ch fb
        ≡ some (record (poke fb.ds.cursor_row fb.ds.cursor_col (λ _. printed wide ch fb.ds) fb) {
          ds = advanced fb.ds;
        })
  unfolding print
  print_narrow wide ch fb v one unwrapped uninserted plain =
      rw (one) (printed_base wide ch fb v unwrapped uninserted plain)
