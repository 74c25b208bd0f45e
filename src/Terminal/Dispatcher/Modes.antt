-- ===== src/Terminal/Dispatcher/Modes.antt =====
-- The routines of Dispatcher/Functions on tab stops, modes and margins keep the screen and do not
-- panic.
use rmosh.Prelude.{
  ℕ, ◌%◌, ◌^◌, ◌≤◌, ◌<◌, ◌≡◌, refl, ◌>>=?◌, inl, inr, Bool, true, false, ◌||◌, ◌&&◌, arith, IsI32,
  Succeeds, Succeeds-bind, Succeeds-if, for_range-Succeeds, rounds, lt_i32, le_i32, sub_i32,
  neg_i32, minus_one, ◌==◌, if◌then◌else◌,
}
use rmosh.Terminal.DrawState
use rmosh.Terminal.DrawState.{
  DrawState, move_row, move_col, next_tab, clear_default_tabs, clear_tab, set_tab,
  set_scrolling_region,
}
use rmosh.Terminal.DrawState.Bounds.{
  move_col-IsValid, next_tab-IsI32, set_tab-IsValid, clear_tab-IsValid,
  set_scrolling_region-IsValid,
}
use rmosh.Terminal.Framebuffer.{Framebuffer, with_ds}
use rmosh.Terminal.Framebuffer.Bounds.{IsValid, with_ds-IsValid}
use rmosh.Terminal.Dispatcher.{getparam}
use rmosh.Terminal.Dispatcher.Params.{IsArgument, getparam-IsArgument}
use rmosh.Terminal.Dispatcher.Functions.{
  State, first_char, ht_n, ctrl_ht, csi_cxt, ctrl_hts, clear_tabs, csi_tbc, set_plain_mode,
  set_dec_mode, set_private, clear_private, csi_decsm, csi_decrm, csi_sm, csi_rm, csi_decstbm,
  ctrl_bel, home, set_insert_mode, set_ds, is_reporting, is_encoding,
}
use rmosh.Terminal.Dispatcher.Safety.{
  IsSafe, leaving-IsSafe, on_screen-IsSafe, with_param-IsSafe, each_param-IsSafe, set_ds-IsValid,
  home-IsValid, reset_rows-IsValid,
}
use rmosh.Terminal.Dispatcher.Routines.{Keeps}

middle_false : (a b c : Bool) → (a || b || c) ≡ false → b ≡ false
middle_false true b c e = cc
middle_false false true c e = cc
middle_false false false c e = refl

module _ (w h : ℕ) where
  ht_n-IsValid :
      (count : ℕ) (ds : DrawState)
      → DrawState.Bounds.IsValid w h ds
      → Succeeds (DrawState.Bounds.IsValid w h) (ht_n count ds)
  unfolding ht_n
  ht_n-IsValid count ds v =
      let P = DrawState.Bounds.IsValid w h in
      Succeeds-bind IsI32 P (next_tab count ds) _ (next_tab-IsI32 count ds v) λ col hc.
        let target = if col == minus_one then sub_i32 ds.width 1 else col in
        Succeeds-bind P P (move_col target false false ds) _
          (move_col-IsValid target false false ds (ground arith) v)
          (λ e he. record { frame = ground arith; col = he.col; row = he.row })

  pub ctrl_ht-IsSafe : (s : State) → IsSafe w h s → Succeeds (IsSafe w h) (ctrl_ht s)
  unfolding ctrl_ht
  ctrl_ht-IsSafe s v =
      on_screen-IsSafe w h _ s
        (λ fb vf. with_ds-IsValid (ht_n 1) fb vf (ht_n-IsValid 1 fb.ds vf.state)) v

  pub csi_cxt-IsSafe : (s : State) → IsSafe w h s → Succeeds (IsSafe w h) (csi_cxt s)
  unfolding csi_cxt
  csi_cxt-IsSafe (fb, d) v =
      let got = getparam 0 1 d in
      let n = getparam-IsArgument 0 1 d v.parameters in
      let param = if first_char got.1.dispatch_chars == b'Z' then neg_i32 got.0 else got.0 in
      Succeeds-if (IsSafe w h) (param == 0) _ _
        (λ _. record { screen = v.screen; parameters = n.1 })
        (λ _.
          leaving-IsSafe w h got.1 _ n.1
            (with_ds-IsValid (ht_n param) fb v.screen (ht_n-IsValid param fb.ds v.screen.state)))

  pub ctrl_hts-IsSafe : (s : State) → IsSafe w h s → Succeeds (IsSafe w h) (ctrl_hts s)
  unfolding ctrl_hts
  ctrl_hts-IsSafe s v =
      on_screen-IsSafe w h (set_ds set_tab) s
        (λ fb vf. set_ds-IsValid w h set_tab fb (set_tab-IsValid fb.ds) vf) v

  clear_tabs-IsValid : (mode : ℕ) → Keeps w h (clear_tabs mode)
  unfolding clear_tabs
  clear_tabs-IsValid mode fb v =
      Succeeds-if (IsValid w h) (mode == 0) _ _
        (λ _.
          set_ds-IsValid w h (clear_tab fb.ds.cursor_col) fb
            (clear_tab-IsValid fb.ds.cursor_col fb.ds) v)
        λ _.
          Succeeds-if (IsValid w h) (mode == 3) _ _
            (λ _.
              for_range-Succeeds (IsValid w h) 0 (rounds 0 fb.ds.width) _ _
                (λ x g lo hi vg.
                  set_ds-IsValid w h (clear_tab (x % 2 ^ 32)) g
                    (clear_tab-IsValid (x % 2 ^ 32) g.ds) vg)
                (record { state = ground arith; count = v.count; widths = v.widths }))
            (λ _. v)

  pub csi_tbc-IsSafe : (s : State) → IsSafe w h s → Succeeds (IsSafe w h) (csi_tbc s)
  unfolding csi_tbc
  csi_tbc-IsSafe s v =
      with_param-IsSafe w h 0 clear_tabs s (omega arith) (λ n fb a. clear_tabs-IsValid n fb) v

  set_plain_mode-IsValid : (param : ℕ) (value : Bool) → Keeps w h (set_plain_mode param value)
  unfolding set_plain_mode
  set_plain_mode-IsValid param value fb v =
      let S = Succeeds-if (IsValid w h) in
      S (param == 7) _ _ (λ _. ground arith)
        λ _.
          S (param == 25) _ _ (λ _. ground arith)
            λ _.
              S (param == 1004) _ _ (λ _. ground arith)
                λ _.
                  S (param == 1007) _ _ (λ _. ground arith)
                    λ _. S (param == 2004) _ _ (λ _. ground arith) (λ _. v)

  set_dec_mode-IsValid : (param : ℕ) (value : Bool) → Keeps w h (set_dec_mode param value)
  unfolding set_dec_mode
  set_dec_mode-IsValid param value fb v =
      let S = Succeeds-if (IsValid w h) in
      S (param == 1) _ _ (λ _. ground arith)
        λ _.
          S (param == 3) _ _
            (λ _.
              Succeeds-bind (IsValid w h) (IsValid w h) (home fb) _ (home-IsValid w h fb v)
                (λ g hg. reset_rows-IsValid w h 0 g.ds.height g (omega arith) (omega arith) hg))
            λ _.
              S (param == 5) _ _ (λ _. ground arith)
                λ _.
                  S (param == 6) _ _
                    (λ _.
                      Succeeds-bind (IsValid w h) (IsValid w h) (home fb) _ (home-IsValid w h fb v)
                        (λ g hg. ground arith))
                    λ _. set_plain_mode-IsValid param value fb v

  set_private-IsValid : (param : ℕ) → Keeps w h (set_private param)
  unfolding set_private
  set_private-IsValid param fb v =
      Succeeds-if (IsValid w h) (is_reporting param) _ _ (λ _. ground arith)
        λ _.
          Succeeds-if (IsValid w h) (is_encoding param) _ _ (λ _. ground arith)
            (λ _. set_dec_mode-IsValid param true fb v)

  clear_private-IsValid : (param : ℕ) → Keeps w h (clear_private param)
  unfolding clear_private
  clear_private-IsValid param fb v =
      Succeeds-if (IsValid w h) (is_reporting param) _ _ (λ _. ground arith)
        λ _.
          Succeeds-if (IsValid w h) (is_encoding param) _ _ (λ _. ground arith)
            (λ _. set_dec_mode-IsValid param false fb v)

  set_insert_mode-IsValid : (value : Bool) (param : ℕ) → Keeps w h (set_insert_mode value param)
  set_insert_mode-IsValid value param fb v =
      Succeeds-if (IsValid w h) (param == 4) _ _ (λ _. ground arith) (λ _. v)

  pub csi_decsm-IsSafe : (s : State) → IsSafe w h s → Succeeds (IsSafe w h) (csi_decsm s)
  unfolding csi_decsm
  csi_decsm-IsSafe s v = each_param-IsSafe w h set_private s (λ n fb a. set_private-IsValid n fb) v

  pub csi_decrm-IsSafe : (s : State) → IsSafe w h s → Succeeds (IsSafe w h) (csi_decrm s)
  unfolding csi_decrm
  csi_decrm-IsSafe s v =
      each_param-IsSafe w h clear_private s (λ n fb a. clear_private-IsValid n fb) v

  pub csi_sm-IsSafe : (s : State) → IsSafe w h s → Succeeds (IsSafe w h) (csi_sm s)
  unfolding csi_sm
  csi_sm-IsSafe s v =
      each_param-IsSafe w h (set_insert_mode true) s (λ n fb a. set_insert_mode-IsValid true n fb) v

  pub csi_rm-IsSafe : (s : State) → IsSafe w h s → Succeeds (IsSafe w h) (csi_rm s)
  unfolding csi_rm
  csi_rm-IsSafe s v =
      each_param-IsSafe w h (set_insert_mode false) s (λ n fb a. set_insert_mode-IsValid false n fb)
        v

  -- The top margin that passes the tests is a row of the screen.
  top_on_screen :
      (top height : ℕ)
      → IsArgument 1 top
      → height ≡ h
      → 0 < h
      → h ≤ 2048
      → lt_i32 height top ≡ false
      → sub_i32 top 1 < h
  top_on_screen top height (inl e) eh h0 h1 low = omega arith
  top_on_screen top height (inr a) eh h0 h1 low = ground arith

  region_set :
      (top bottom : ℕ)
      → IsArgument 1 top
      → (fb : Framebuffer) → lt_i32 fb.ds.height top ≡ false
      → IsValid w h fb
      → Succeeds
          (IsValid w h)
          (with_ds (set_scrolling_region (sub_i32 top 1) (sub_i32 bottom 1)) fb >>=? home)
  region_set top bottom a fb low v =
      Succeeds-bind (IsValid w h) (IsValid w h)
        (with_ds (set_scrolling_region (sub_i32 top 1) (sub_i32 bottom 1)) fb) _
        (with_ds-IsValid (set_scrolling_region (sub_i32 top 1) (sub_i32 bottom 1)) fb v (
          set_scrolling_region-IsValid (sub_i32 top 1) (sub_i32 bottom 1) fb.ds
            (top_on_screen top fb.ds.height a v.state.frame.high v.state.frame.h_pos
              v.state.frame.h_max low)
            (omega arith) v.state))
        (home-IsValid w h)

  pub csi_decstbm-IsSafe : (s : State) → IsSafe w h s → Succeeds (IsSafe w h) (csi_decstbm s)
  unfolding csi_decstbm
  csi_decstbm-IsSafe (fb, d) v =
      let top = getparam 0 1 d in
      let t = getparam-IsArgument 0 1 d v.parameters in
      let bottom = getparam 1 fb.ds.height top.1 in
      let b = getparam-IsArgument 1 fb.ds.height top.1 t.1 in
      Succeeds-if (IsSafe w h)
        (le_i32 bottom.0 top.0 || lt_i32 fb.ds.height top.0 || top.0 == 0 && bottom.0 == 1) _ _
        (λ _. record { screen = v.screen; parameters = b.1 })
        (λ good.
          leaving-IsSafe w h bottom.1 _ b.1
            (region_set top.0 bottom.0 t.0 fb (middle_false _ _ _ good) v.screen))

  pub ctrl_bel-IsSafe : (s : State) → IsSafe w h s → Succeeds (IsSafe w h) (ctrl_bel s)
  unfolding ctrl_bel
  ctrl_bel-IsSafe (fb, d) v = record {
    screen = record { state = v.screen.state; count = v.screen.count; widths = v.screen.widths };
    parameters = v.parameters;
  }
