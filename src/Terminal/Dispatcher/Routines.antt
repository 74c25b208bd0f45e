-- ===== src/Terminal/Dispatcher/Routines.antt =====
-- Each of the routines of Dispatcher/Functions keeps the screen and does not panic.
use rmosh.Prelude.{
  ℕ, ◌%◌, ◌^◌, ◌≤◌, ◌<◌, true, false, ◌||◌, Option, arith, Succeeds, Succeeds-bind, Succeeds-if,
  for_range-Succeeds, rounds, add_i32, sub_i32, neg_i32, minus_one, ◌==◌, for_i32,
}
use rmosh.Terminal.Cell.{WideChars, append}
use rmosh.Terminal.DrawState.{move_row, move_col}
use rmosh.Terminal.Framebuffer.{Framebuffer, with_ds, reset_cell, move_rows_autoscroll}
use rmosh.Terminal.Framebuffer.Bounds.{IsValid, move_rows_autoscroll-IsValid}
use rmosh.Terminal.Framebuffer.Cells.{reset_cell-IsValid, reset_row-IsValid, mutable_cell-IsValid}
use rmosh.Terminal.Dispatcher.{getparam}
use rmosh.Terminal.Dispatcher.Params.{getparam-IsArgument}
use rmosh.Terminal.Dispatcher.Functions.{
  State, erase_line, csi_el, erase_display, csi_ed, first_char, move_to, csi_cursormove, csi_da,
  csi_sda, fill_cell, esc_decaln, ctrl_lf, ctrl_cr, ctrl_bs, ctrl_ri, ctrl_nel, clearline,
}
use rmosh.Terminal.Dispatcher.Safety.{
  IsSafe, leaving-IsSafe, on_screen-IsSafe, IsI32-argument, with_param-IsSafe, row_to-IsValid,
  col_to-IsValid, clearline-IsValid, reset_rows-IsValid,
}

module _ (w h : ℕ) where
  abbrev pub Keeps : (Framebuffer → Option Framebuffer) → Type 0
  Keeps f = (fb : Framebuffer) → IsValid w h fb → Succeeds (IsValid w h) (f fb)

  to_margin : Keeps (λ fb. clearline minus_one fb.ds.cursor_col (sub_i32 fb.ds.width 1) fb)
  to_margin fb v =
      clearline-IsValid w h fb.ds.cursor_col (sub_i32 fb.ds.width 1) fb v.state.col (omega arith)
        (ground arith) v

  from_margin : Keeps (λ fb. clearline minus_one 0 fb.ds.cursor_col fb)
  from_margin fb v =
      clearline-IsValid w h 0 fb.ds.cursor_col fb v.state.frame.w_pos (omega arith) (ground arith) v

  erase_line-IsValid : (mode : ℕ) → Keeps (erase_line mode)
  unfolding erase_line
  erase_line-IsValid mode fb v =
      Succeeds-if (IsValid w h) (mode == 0) _ _ (λ zero'. to_margin fb v)
        λ _.
          Succeeds-if (IsValid w h) (mode == 1) _ _ (λ one. from_margin fb v)
            λ _.
              Succeeds-if (IsValid w h) (mode == 2) _ _
                (λ two. reset_row-IsValid minus_one fb v.state.row v) (λ _. v)

  pub csi_el-IsSafe : (s : State) → IsSafe w h s → Succeeds (IsSafe w h) (csi_el s)
  unfolding csi_el
  csi_el-IsSafe s v =
      with_param-IsSafe w h 0 erase_line s (omega arith) (λ n fb a. erase_line-IsValid n fb) v

  erase_display-IsValid : (mode : ℕ) → Keeps (erase_display mode)
  unfolding erase_display
  erase_display-IsValid mode fb v =
      Succeeds-if (IsValid w h) (mode == 0) _ _
        (λ zero'. Succeeds-bind (IsValid w h) (IsValid w h) _ _ (to_margin fb v) (λ g hg.
          reset_rows-IsValid w h (add_i32 g.ds.cursor_row 1) g.ds.height g (omega arith)
            (omega arith) hg))
        λ _.
          Succeeds-if (IsValid w h) (mode == 1) _ _
            (λ one.
              Succeeds-bind (IsValid w h) (IsValid w h) _ _
                (reset_rows-IsValid w h 0 fb.ds.cursor_row fb (omega arith) (omega arith) v)
                from_margin)
            λ _.
              Succeeds-if (IsValid w h) (mode == 2) _ _
                (λ two. reset_rows-IsValid w h 0 fb.ds.height fb (omega arith) (omega arith) v)
                (λ _. v)

  pub csi_ed-IsSafe : (s : State) → IsSafe w h s → Succeeds (IsSafe w h) (csi_ed s)
  unfolding csi_ed
  csi_ed-IsSafe s v =
      with_param-IsSafe w h 0 erase_display s (omega arith) (λ n fb a. erase_display-IsValid n fb) v

  move_to-IsValid : (row col : ℕ) → Keeps (move_to row col)
  unfolding move_to
  move_to-IsValid row col fb v =
      Succeeds-bind (IsValid w h) (IsValid w h) (with_ds (move_row (sub_i32 row 1) false) fb) _
        (row_to-IsValid w h (sub_i32 row 1) false fb v)
        (λ g hg. col_to-IsValid w h (sub_i32 col 1) false false g (omega arith) hg)

  pub csi_cursormove-IsSafe : (s : State) → IsSafe w h s → Succeeds (IsSafe w h) (csi_cursormove s)
  unfolding csi_cursormove
  csi_cursormove-IsSafe (fb, d) v =
      let num = getparam 0 1 d in
      let n = getparam-IsArgument 0 1 d v.parameters in
      let row = getparam 0 1 num.1 in
      let r = getparam-IsArgument 0 1 num.1 n.1 in
      let c = getparam-IsArgument 1 1 row.1 r.1 in
      let key = first_char num.1.dispatch_chars in
      let S = IsSafe w h in
      Succeeds-if S (key == b'A') _ _
        (λ up. leaving-IsSafe w h num.1 _ n.1 (row_to-IsValid w h (neg_i32 num.0) true fb v.screen))
        λ _.
          Succeeds-if S (key == b'B') _ _
            (λ down. leaving-IsSafe w h num.1 _ n.1 (row_to-IsValid w h num.0 true fb v.screen))
            λ _.
              Succeeds-if S (key == b'C') _ _
                (λ right. leaving-IsSafe w h num.1 _ n.1 (
                  col_to-IsValid w h num.0 true false fb (IsI32-argument 1 num.0 (omega arith) n.0)
                    v.screen))
                λ _.
                  Succeeds-if S (key == b'D') _ _
                    (λ left.
                      leaving-IsSafe w h num.1 _ n.1
                        (col_to-IsValid w h (neg_i32 num.0) true false fb (omega arith) v.screen))
                    λ _.
                      Succeeds-if S (key == b'H' || key == b'f') _ _
                        (λ at.
                          leaving-IsSafe w h (getparam 1 1 row.1).1 _ c.1
                            (move_to-IsValid row.0 (getparam 1 1 row.1).0 fb v.screen))
                        λ _. record { screen = v.screen; parameters = n.1 }

  pub csi_da-IsSafe : (s : State) → IsSafe w h s → Succeeds (IsSafe w h) (csi_da s)
  unfolding csi_da
  csi_da-IsSafe (fb, d) v = record { screen = v.screen; parameters = v.parameters }

  pub csi_sda-IsSafe : (s : State) → IsSafe w h s → Succeeds (IsSafe w h) (csi_sda s)
  unfolding csi_sda
  csi_sda-IsSafe (fb, d) v = record { screen = v.screen; parameters = v.parameters }

  module _ (wide : WideChars) where
    fill_cell-IsValid : (y x : ℕ) → y < h → x < w → Keeps (fill_cell wide y x)
    fill_cell-IsValid y x hy hx fb v =
        Succeeds-bind (IsValid w h) (IsValid w h) (reset_cell y x fb) _
          (reset_cell-IsValid y x fb (ground arith) (ground arith) v)
          (λ g hg. mutable_cell-IsValid y x (append wide b'E') g (ground arith) (ground arith) hg)

    fill_row-IsValid : (y n : ℕ) → y < h → n ≤ w → Keeps (for_i32 0 n (fill_cell wide y))
    fill_row-IsValid y n hy hn fb v =
        for_range-Succeeds (IsValid w h) 0 n _ fb
          (λ x g lo hi hg.
            let on : x % 2 ^ 32 < w = omega (arith, v.state.frame.w_max) in
            fill_cell-IsValid y (x % 2 ^ 32) hy on g hg)
          v

    pub esc_decaln-IsSafe : (s : State) → IsSafe w h s → Succeeds (IsSafe w h) (esc_decaln wide s)
    unfolding esc_decaln
    esc_decaln-IsSafe s v =
        on_screen-IsSafe w h _ s
          (λ fb vf.
            let many : rounds 0 fb.ds.height ≤ h = ground arith in
            for_range-Succeeds (IsValid w h) 0 (rounds 0 fb.ds.height) _ fb
              (λ y g lo hi hg.
                let on : y % 2 ^ 32 < h = omega (arith, hg.state.frame.h_max) in
                let few : rounds 0 g.ds.width ≤ w = ground arith in
                fill_row-IsValid (y % 2 ^ 32) (rounds 0 g.ds.width) on few g hg)
              vf)
          v

  pub ctrl_lf-IsSafe : (s : State) → IsSafe w h s → Succeeds (IsSafe w h) (ctrl_lf s)
  unfolding ctrl_lf
  ctrl_lf-IsSafe s v =
      on_screen-IsSafe w h (move_rows_autoscroll 1) s
        (λ fb. move_rows_autoscroll-IsValid 1 fb (omega arith)) v

  pub ctrl_cr-IsSafe : (s : State) → IsSafe w h s → Succeeds (IsSafe w h) (ctrl_cr s)
  unfolding ctrl_cr
  ctrl_cr-IsSafe s v =
      on_screen-IsSafe w h _ s (λ fb. col_to-IsValid w h 0 false false fb (omega arith)) v

  pub ctrl_bs-IsSafe : (s : State) → IsSafe w h s → Succeeds (IsSafe w h) (ctrl_bs s)
  unfolding ctrl_bs
  ctrl_bs-IsSafe s v =
      on_screen-IsSafe w h _ s (λ fb. col_to-IsValid w h minus_one true false fb (omega arith)) v

  pub ctrl_ri-IsSafe : (s : State) → IsSafe w h s → Succeeds (IsSafe w h) (ctrl_ri s)
  unfolding ctrl_ri
  ctrl_ri-IsSafe s v =
      on_screen-IsSafe w h (move_rows_autoscroll minus_one) s
        (λ fb. move_rows_autoscroll-IsValid minus_one fb (omega arith)) v

  pub ctrl_nel-IsSafe : (s : State) → IsSafe w h s → Succeeds (IsSafe w h) (ctrl_nel s)
  unfolding ctrl_nel
  ctrl_nel-IsSafe s v =
      on_screen-IsSafe w h _ s
        (λ fb vf.
          Succeeds-bind (IsValid w h) (IsValid w h) (with_ds (move_col 0 false false) fb) _
            (col_to-IsValid w h 0 false false fb (omega arith) vf)
            (λ g. move_rows_autoscroll-IsValid 1 g (omega arith)))
        v
