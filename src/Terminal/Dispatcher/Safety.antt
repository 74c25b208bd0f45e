-- ===== src/Terminal/Dispatcher/Safety.antt =====
-- The routines keep the screen of `w` columns and `h` rows, and none of them panics.
use rmosh.Prelude.{
  ℕ, ◌+◌, ◌%◌, ◌^◌, ◌≤◌, ◌<◌, ◌≡◌, inl, inr, Bool, true, false, Option, arith, IsI32, Succeeds,
  Succeeds-bind, for_range-Succeeds, rounds, rounds_inclusive, lt_i32, minus_one,
}
use rmosh.Terminal.DrawState
use rmosh.Terminal.DrawState.{DrawState, move_row, move_col}
use rmosh.Terminal.DrawState.Bounds.{move_row-IsValid, move_col-IsValid}
use rmosh.Terminal.DrawState.Bounds
use rmosh.Terminal.Framebuffer.{Framebuffer, with_ds}
use rmosh.Terminal.Framebuffer.Bounds.{IsValid, with_ds-IsValid}
use rmosh.Terminal.Framebuffer.Cells.{reset_cell-IsValid, reset_row-IsValid}
use rmosh.Terminal.Dispatcher.{Dispatcher, getparam, param_count}
use rmosh.Terminal.Dispatcher.Params.{
  HasParams, IsArgument, getparam-IsArgument, parse_params-HasParams,
}
use rmosh.Terminal.Dispatcher.Functions.{
  State, leaving, on_screen, with_param, each_param, set_ds, home, clearline, reset_rows,
}

-- The screen and the parameters that were parsed are in order.
pub record IsSafe (w h : ℕ) (s : State) : Type 0 where
  pub screen : IsValid w h s.0
  pub parameters : HasParams s.1

pub IsI32-argument : (default v : ℕ) → IsI32 default → IsArgument default v → IsI32 v
IsI32-argument default v i (inl e) = rw e i
IsI32-argument default v i (inr a) = omega arith

module _ (w h : ℕ) where
  pub leaving-IsSafe :
      (d : Dispatcher) (r : Option Framebuffer)
      → HasParams d
      → Succeeds (IsValid w h) r
      → Succeeds (IsSafe w h) (leaving d r)
  leaving-IsSafe d r p good =
      Succeeds-bind (IsValid w h) (IsSafe w h) r _ good
        (λ fb v. record { screen = v; parameters = p })

  pub on_screen-IsSafe :
      (f : Framebuffer → Option Framebuffer) (s : State)
      → ((fb : Framebuffer) → IsValid w h fb → Succeeds (IsValid w h) (f fb))
      → IsSafe w h s
      → Succeeds (IsSafe w h) (on_screen f s)
  on_screen-IsSafe f (fb, d) good v = leaving-IsSafe d (f fb) v.parameters (good fb v.screen)

  pub with_param-IsSafe :
      (default : ℕ) (f : ℕ → Framebuffer → Option Framebuffer) (s : State)
      → IsI32 default
      → ((n : ℕ) (fb : Framebuffer)
          → IsArgument default n
          → IsValid w h fb
          → Succeeds (IsValid w h) (f n fb))
      → IsSafe w h s
      → Succeeds (IsSafe w h) (with_param default f s)
  with_param-IsSafe default f (fb, d) i good v =
      let got = getparam-IsArgument 0 default d v.parameters in
      leaving-IsSafe (getparam 0 default d).1 (f (getparam 0 default d).0 fb) got.1
        (good (getparam 0 default d).0 fb got.0 v.screen)

  pub each_param-IsSafe :
      (f : ℕ → Framebuffer → Option Framebuffer) (s : State)
      → ((n : ℕ) (fb : Framebuffer)
          → IsArgument 0 n
          → IsValid w h fb
          → Succeeds (IsValid w h) (f n fb))
      → IsSafe w h s
      → Succeeds (IsSafe w h) (each_param f s)
  unfolding param_count
  each_param-IsSafe f (fb, d) good v =
      for_range-Succeeds (IsSafe w h) 0 (param_count d).0 _ (fb, (param_count d).1)
        (λ i t lo hi vt.
          let got = getparam-IsArgument i 0 t.1 vt.parameters in
          leaving-IsSafe (getparam i 0 t.1).1 (f (getparam i 0 t.1).0 t.0) got.1
            (good (getparam i 0 t.1).0 t.0 got.0 vt.screen))
        (record { screen = v.screen; parameters = parse_params-HasParams d v.parameters })

  pub set_ds-IsValid :
      (f : DrawState → DrawState) (fb : Framebuffer)
      → (DrawState.Bounds.IsValid w h fb.ds → DrawState.Bounds.IsValid w h (f fb.ds))
      → IsValid w h fb
      → Succeeds (IsValid w h) (set_ds f fb)
  set_ds-IsValid f fb good v = record { state = good v.state; count = v.count; widths = v.widths }

  pub row_to-IsValid :
      (n : ℕ) (relative : Bool) (fb : Framebuffer)
      → IsValid w h fb
      → Succeeds (IsValid w h) (with_ds (move_row n relative) fb)
  row_to-IsValid n relative fb v =
      with_ds-IsValid (move_row n relative) fb v (move_row-IsValid n relative fb.ds v.state)

  pub col_to-IsValid :
      (n : ℕ) (relative implicit : Bool) (fb : Framebuffer)
      → IsI32 n
      → IsValid w h fb
      → Succeeds (IsValid w h) (with_ds (move_col n relative implicit) fb)
  col_to-IsValid n relative implicit fb i v =
      with_ds-IsValid (move_col n relative implicit) fb v
        (move_col-IsValid n relative implicit fb.ds i v.state)

  pub home-IsValid : (fb : Framebuffer) → IsValid w h fb → Succeeds (IsValid w h) (home fb)
  home-IsValid fb v =
      Succeeds-bind (IsValid w h) (IsValid w h) (with_ds (move_row 0 false) fb) _
        (row_to-IsValid 0 false fb v) (λ g hg. col_to-IsValid 0 false false g (omega arith) hg)

  pub clearline-IsValid :
      (start end : ℕ) (fb : Framebuffer)
      → start < w
      → IsI32 end
      → lt_i32 end w ≡ true
      → IsValid w h fb
      → Succeeds (IsValid w h) (clearline minus_one start end fb)
  unfolding clearline
  clearline-IsValid start end fb low i high v =
      let few : start + rounds_inclusive start end ≤ w = ground arith in
      for_range-Succeeds (IsValid w h) start (rounds_inclusive start end) _ fb
        (λ col g lo hi vg.
          let same : col % 2 ^ 32 ≡ col = omega arith in
          rw same (reset_cell-IsValid minus_one col g vg.state.row (ground arith) vg))
        v

  pub reset_rows-IsValid :
      (lo hi : ℕ) (fb : Framebuffer)
      → lo < 2 ^ 31
      → hi ≤ h
      → IsValid w h fb
      → Succeeds (IsValid w h) (reset_rows lo hi fb)
  reset_rows-IsValid lo hi fb low high v =
      for_range-Succeeds (IsValid w h) lo (rounds lo hi) _ fb
        (λ row g a b vg.
          let on : row < h = ground arith in
          let same : row % 2 ^ 32 ≡ row = omega arith in
          rw same (reset_row-IsValid row g (ground arith) vg))
        v
