-- ===== src/Terminal/Dispatcher/Edits.antt =====
-- Each of the routines of Dispatcher/Editing keeps the screen and does not panic.
use rmosh.Prelude.{
  ℕ, arith, Succeeds, Succeeds-bind, Succeeds-if, le_i32, add_i32, sub_i32, neg_i32, ◌==◌,
  if◌then◌else◌, false,
}
use rmosh.Terminal.DrawState.{move_col, save_cursor, restore_cursor}
use rmosh.Terminal.DrawState.Bounds.{save_cursor-IsValid, restore_cursor-IsValid}
use rmosh.Terminal.Framebuffer.{with_ds, insert_line, delete_line, scroll, soft_reset}
use rmosh.Terminal.Framebuffer.Bounds.{
  IsValid, with_ds-IsValid, insert_line-IsValid, delete_line-IsValid, scroll-IsValid,
}
use rmosh.Terminal.Framebuffer.Cells.{insert_cells-IsValid, delete_cells-IsValid}
use rmosh.Terminal.Framebuffer.Sizes.{reset-IsValid, soft_reset-IsValid}
use rmosh.Terminal.Dispatcher.{getparam, param_count}
use rmosh.Terminal.Dispatcher.Params.{getparam-IsArgument, parse_params-HasParams}
use rmosh.Terminal.Dispatcher.Functions.{State, set_ds}
use rmosh.Terminal.Dispatcher.Editing.{
  sgr_loop, csi_sgr, esc_decsc, esc_decrc, csi_dsr, csi_il, csi_dl, csi_ich, csi_dch, csi_vpa,
  csi_hpa, erase_chars, csi_ech, esc_ris, csi_decstr, csi_sd, csi_su, count_of,
}
use rmosh.Terminal.Dispatcher.Safety.{
  IsSafe, leaving-IsSafe, on_screen-IsSafe, IsI32-argument, with_param-IsSafe, set_ds-IsValid,
  row_to-IsValid, col_to-IsValid, clearline-IsValid,
}
use rmosh.Terminal.Dispatcher.Routines.{Keeps}

module _ (w h : ℕ) where
  pub csi_sgr-IsSafe : (s : State) → IsSafe w h s → Succeeds (IsSafe w h) (csi_sgr s)
  unfolding csi_sgr param_count
  csi_sgr-IsSafe (fb, d) v =
      let counted = param_count d in
      leaving-IsSafe w h counted.1
        (set_ds
          (λ ds. record ds { renditions = sgr_loop counted.0 counted.1 counted.0 0 ds.renditions })
          fb)
        (parse_params-HasParams d v.parameters) (ground arith)

  pub esc_decsc-IsSafe : (s : State) → IsSafe w h s → Succeeds (IsSafe w h) (esc_decsc s)
  unfolding esc_decsc
  esc_decsc-IsSafe s v =
      on_screen-IsSafe w h (set_ds save_cursor) s
        (λ fb vf. set_ds-IsValid w h save_cursor fb (save_cursor-IsValid fb.ds) vf) v

  pub esc_decrc-IsSafe : (s : State) → IsSafe w h s → Succeeds (IsSafe w h) (esc_decrc s)
  unfolding esc_decrc
  esc_decrc-IsSafe s v =
      on_screen-IsSafe w h (with_ds restore_cursor) s
        (λ fb vf. with_ds-IsValid restore_cursor fb vf (restore_cursor-IsValid fb.ds vf.state)) v

  pub csi_dsr-IsSafe : (s : State) → IsSafe w h s → Succeeds (IsSafe w h) (csi_dsr s)
  unfolding csi_dsr
  csi_dsr-IsSafe (fb, d) v =
      let got = getparam 0 0 d in
      let n = getparam-IsArgument 0 0 d v.parameters in
      Succeeds-if (IsSafe w h) (got.0 == 5) _ _
        (λ _. record { screen = v.screen; parameters = n.1 })
        λ _.
          Succeeds-if (IsSafe w h) (got.0 == 6) _ _
            (λ _. record { screen = v.screen; parameters = n.1 })
            (λ _. record { screen = v.screen; parameters = n.1 })

  to_first : Keeps w h (with_ds (move_col 0 false false))
  to_first fb v = col_to-IsValid w h 0 false false fb (omega arith) v

  pub csi_il-IsSafe : (s : State) → IsSafe w h s → Succeeds (IsSafe w h) (csi_il s)
  unfolding csi_il
  csi_il-IsSafe s v =
      with_param-IsSafe w h 1 _ s (omega arith)
        (λ n fb a vf.
          Succeeds-bind (IsValid w h) (IsValid w h) (insert_line fb.ds.cursor_row n fb) _
            (insert_line-IsValid fb.ds.cursor_row n fb vf.state.frame.row_i32
              (IsI32-argument 1 n (omega arith) a) vf)
            to_first)
        v

  pub csi_dl-IsSafe : (s : State) → IsSafe w h s → Succeeds (IsSafe w h) (csi_dl s)
  unfolding csi_dl
  csi_dl-IsSafe s v =
      with_param-IsSafe w h 1 _ s (omega arith)
        (λ n fb a vf.
          Succeeds-bind (IsValid w h) (IsValid w h) (delete_line fb.ds.cursor_row n fb) _
            (delete_line-IsValid fb.ds.cursor_row n fb vf.state.frame.row_i32
              (IsI32-argument 1 n (omega arith) a) vf)
            to_first)
        v

  pub csi_ich-IsSafe : (s : State) → IsSafe w h s → Succeeds (IsSafe w h) (csi_ich s)
  unfolding csi_ich
  csi_ich-IsSafe s v =
      with_param-IsSafe w h 1 _ s (omega arith)
        (λ n fb a vf.
          insert_cells-IsValid fb.ds.cursor_row fb.ds.cursor_col (count_of n) fb (ground arith) vf)
        v

  pub csi_dch-IsSafe : (s : State) → IsSafe w h s → Succeeds (IsSafe w h) (csi_dch s)
  unfolding csi_dch
  csi_dch-IsSafe s v =
      with_param-IsSafe w h 1 _ s (omega arith)
        (λ n fb a vf.
          delete_cells-IsValid fb.ds.cursor_row fb.ds.cursor_col (count_of n) fb (ground arith) vf)
        v

  pub csi_vpa-IsSafe : (s : State) → IsSafe w h s → Succeeds (IsSafe w h) (csi_vpa s)
  unfolding csi_vpa
  csi_vpa-IsSafe s v =
      with_param-IsSafe w h 1 _ s (omega arith)
        (λ n fb a vf. row_to-IsValid w h (sub_i32 n 1) false fb vf) v

  pub csi_hpa-IsSafe : (s : State) → IsSafe w h s → Succeeds (IsSafe w h) (csi_hpa s)
  unfolding csi_hpa
  csi_hpa-IsSafe s v =
      with_param-IsSafe w h 1 _ s (omega arith)
        (λ n fb a vf. col_to-IsValid w h (sub_i32 n 1) false false fb (omega arith) vf) v

  erase_chars-IsValid : (num : ℕ) → Keeps w h (erase_chars num)
  unfolding erase_chars
  erase_chars-IsValid num fb v =
      let limit = sub_i32 (add_i32 fb.ds.cursor_col num) 1 in
      clearline-IsValid w h fb.ds.cursor_col
        (if le_i32 fb.ds.width limit then sub_i32 fb.ds.width 1 else limit) fb v.state.col
        (ground arith) (ground arith) v

  pub csi_ech-IsSafe : (s : State) → IsSafe w h s → Succeeds (IsSafe w h) (csi_ech s)
  unfolding csi_ech
  csi_ech-IsSafe s v =
      with_param-IsSafe w h 1 erase_chars s (omega arith) (λ n fb a. erase_chars-IsValid n fb) v

  pub esc_ris-IsSafe : (s : State) → IsSafe w h s → Succeeds (IsSafe w h) (esc_ris s)
  unfolding esc_ris
  esc_ris-IsSafe (fb, d) v = record {
    screen = reset-IsValid fb v.screen;
    parameters = v.parameters;
  }

  pub csi_decstr-IsSafe : (s : State) → IsSafe w h s → Succeeds (IsSafe w h) (csi_decstr s)
  unfolding csi_decstr
  csi_decstr-IsSafe s v =
      on_screen-IsSafe w h (with_ds soft_reset) s
        (λ fb vf. with_ds-IsValid soft_reset fb vf (soft_reset-IsValid fb.ds vf.state)) v

  pub csi_sd-IsSafe : (s : State) → IsSafe w h s → Succeeds (IsSafe w h) (csi_sd s)
  unfolding csi_sd
  csi_sd-IsSafe s v =
      with_param-IsSafe w h 1 scroll s (omega arith)
        (λ n fb a. scroll-IsValid n fb (IsI32-argument 1 n (omega arith) a)) v

  pub csi_su-IsSafe : (s : State) → IsSafe w h s → Succeeds (IsSafe w h) (csi_su s)
  unfolding csi_su
  csi_su-IsSafe s v =
      with_param-IsSafe w h 1 _ s (omega arith)
        (λ n fb a. scroll-IsValid (neg_i32 n) fb (omega arith)) v
