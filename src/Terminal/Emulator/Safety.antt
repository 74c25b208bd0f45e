-- ===== src/Terminal/Emulator/Safety.antt =====
-- No bytes from the host make the emulator panic: the screen keeps its size, the cursor, the tab stops
-- and the scrolling region stay within it, and every row has a cell for every column.
pub mod Characters
use rmosh.Prelude.{
  ℕ, zero, suc, All, ◌+◌, ◌<◌, ◌≡◌, refl, ap, ◌∙◌, Bool, true, false, ◌&&◌, ◌||◌, Option, none,
  some, List, [], ◌∷◌, arith, length, IsI32, Succeeds, Succeeds-bind, Succeeds-if,
  for_range-Succeeds, lt_i32, add_i32, sub_i32, minus_one, leb, ◌==◌, get_elem?,
}
use rmosh.Terminal.Parser.{Kind, Action}
use rmosh.Terminal.Parser
use rmosh.Terminal.Utf8.{Locale, input_byte}
use rmosh.Terminal.Renditions.{is_empty_text}
use rmosh.Terminal.Cell.{WideChars, Cell, append, set_row_wrap, is_empty}
use rmosh.Terminal.DrawState.{move_col}
use rmosh.Terminal.Framebuffer.{
  Framebuffer, with_ds, mutable_row, reset_cell, cell, combining_cell, resize, clamp_dimension,
  at_row, at_col, get_i32,
}
use rmosh.Terminal.Framebuffer.Bounds.{IsValid, HasWidth, move_rows_autoscroll-IsValid}
use rmosh.Terminal.Framebuffer.Cells.{
  All-any, mutable_row-IsValid, mutable_cell-IsValid, reset_cell-IsValid, insert_cells-IsValid,
  apply_renditions_to_cell-IsValid, apply_hyperlink_to_cell-IsValid,
}
use rmosh.Terminal.Framebuffer.Sizes.{new_framebuffer-IsValid, resize_lem}
use rmosh.Terminal.Dispatcher
use rmosh.Terminal.Dispatcher.{Dispatcher, clear, collect, new_param_char, osc_put, osc_start}
use rmosh.Terminal.Dispatcher.Params.{HasParams}
use rmosh.Terminal.Dispatcher.Functions.{State}
use rmosh.Terminal.Dispatcher.Safety.{IsSafe, leaving-IsSafe, col_to-IsValid}
use rmosh.Terminal.Dispatcher.Routines.{Keeps}
use rmosh.Terminal.Dispatcher.Dispatch.{dispatch-IsSafe, osc_dispatch-IsValid}
use rmosh.Terminal.Emulator.{
  Emulator, new_emulator, resize_emulator, mark_wrap, next_line, wrap_line, open_cells, set_wide,
  cover_next, append_unless_full, start_combining, place, print_base, combine_at, combine, print,
  char_width, with_char, esc_dispatch, act, act_all, input_one, input,
}
use rmosh.Terminal.Emulator.Safety.Characters.{print-IsValid}

module _ (w h : ℕ) where
  module _ (wide : WideChars) where
    esc_dispatch-IsSafe :
        (ch : ℕ) (s : State) → IsSafe w h s → Succeeds (IsSafe w h) (esc_dispatch wide ch s)
    unfolding esc_dispatch
    esc_dispatch-IsSafe ch (fb, d) v =
        Succeeds-if (IsSafe w h) (is_empty_text d.dispatch_chars && (leb 0x40 ch && leb ch 0x5f)) _
          _ (λ _. dispatch-IsSafe w h wide Dispatcher.control (ch + 0x40) (fb, d) v)
          (λ _. dispatch-IsSafe w h wide Dispatcher.escape ch (fb, d) v)

    -- A step for each character that an action may carry.
    with_char-IsSafe :
        (ch : Option ℕ) (f : ℕ → State → Option State) (s : State)
        → ((c : ℕ) → Succeeds (IsSafe w h) (f c s))
        → IsSafe w h s
        → Succeeds (IsSafe w h) (with_char wide ch f s)
    with_char-IsSafe none f s good v = v
    with_char-IsSafe (some c) f s good v = good c

    act-IsSafe :
        (kind : Kind) (ch : Option ℕ) (s : State)
        → IsSafe w h s
        → Succeeds (IsSafe w h) (act wide kind ch s)
    unfolding act clear collect new_param_char osc_put
    act-IsSafe Parser.print ch (fb, d) v =
        with_char-IsSafe ch _ (fb, d)
          (λ c.
            leaving-IsSafe w h d (print wide c fb) v.parameters
              (print-IsValid w h wide c fb v.screen))
          v
    act-IsSafe Parser.execute ch s v =
        with_char-IsSafe ch _ s (λ c. dispatch-IsSafe w h wide Dispatcher.control c s v) v
    act-IsSafe Parser.clear ch (fb, d) v = record { screen = v.screen; parameters = v.parameters }
    act-IsSafe Parser.param ch (fb, d) v =
        with_char-IsSafe ch _ (fb, d) (λ c. record { screen = v.screen; parameters = v.parameters })
          v
    act-IsSafe Parser.collect ch (fb, d) v = with_char-IsSafe ch _ (fb, d) (λ c. ground arith) v
    act-IsSafe Parser.csi_dispatch ch s v =
        with_char-IsSafe ch _ s (λ c. dispatch-IsSafe w h wide Dispatcher.csi c s v) v
    act-IsSafe Parser.esc_dispatch ch s v =
        with_char-IsSafe ch _ s (λ c. esc_dispatch-IsSafe c s v) v
    act-IsSafe Parser.osc_start ch (fb, d) v = record {
      screen = v.screen;
      parameters = v.parameters;
    }
    act-IsSafe Parser.osc_put ch (fb, d) v = with_char-IsSafe ch _ (fb, d) (λ c. ground arith) v
    act-IsSafe Parser.osc_end ch (fb, d) v = record {
      screen = osc_dispatch-IsValid w h d fb v.screen;
      parameters = v.parameters;
    }
    act-IsSafe Parser.hook ch s v = v
    act-IsSafe Parser.put ch s v = v
    act-IsSafe Parser.unhook ch s v = v
    act-IsSafe Parser.ignore ch s v = v

    act_all-IsSafe :
        (actions : List Action) (s : State)
        → IsSafe w h s
        → Succeeds (IsSafe w h) (act_all wide actions s)
    unfolding act_all
    act_all-IsSafe [] s v = v
    act_all-IsSafe (a ∷ as') s v =
        Succeeds-bind (IsSafe w h) (IsSafe w h) (act wide a.kind a.ch s) _
          (act-IsSafe a.kind a.ch s v) (λ t ht. act_all-IsSafe as' t ht)

-- What holds of an emulator of `w` columns and `h` rows.
pub record Runs (w h : ℕ) (e : Emulator) : Type 0 where
  pub screen : IsValid w h e.fb
  pub parameters : HasParams e.dispatch

module _ {M : Type 0} (wide : WideChars) (locale : Locale M) where
  input_one-Runs :
      {w h : ℕ} (b : ℕ) (e : Emulator)
      → Runs w h e
      → Succeeds (Runs w h) (input_one wide locale b e)
  unfolding input_one
  input_one-Runs {w} {h} b e v =
      let one = input_byte locale e.parser b in
      Succeeds-bind (IsSafe w h) (Runs w h) (act_all wide one.0 (e.fb, e.dispatch)) _
        (act_all-IsSafe w h wide one.0 (e.fb, e.dispatch)
          (record { screen = v.screen; parameters = v.parameters }))
        (λ s hs. record { screen = hs.screen; parameters = hs.parameters })

  -- An emulator with a valid screen and with parsed parameters in range does not panic, whatever
  -- bytes the host sends; the screen is valid, of the same size, and the parameters are in range
  -- afterwards.
  pub input-Runs :
      {w h : ℕ} (bytes : List ℕ) (e : Emulator)
      → Runs w h e
      → Succeeds (Runs w h) (input wide locale bytes e)
  unfolding input
  input-Runs [] e v = v
  input-Runs {w} {h} (b ∷ bs) e v =
      Succeeds-bind (Runs w h) (Runs w h) (input_one wide locale b e) _ (input_one-Runs b e v)
        (λ f hf. input-Runs bs f hf)

-- A new emulator of any size asked for has a valid screen of the clamped size.
pub new_emulator-Runs :
    (gen width height : ℕ)
    → IsI32 width
    → IsI32 height
    → Runs (clamp_dimension width) (clamp_dimension height) (new_emulator gen width height)
unfolding new_emulator
new_emulator-Runs gen width height i j = record {
  screen = new_framebuffer-IsValid gen width height i j;
  parameters = tt;
}

-- Whatever size is asked for, resizing an emulator that runs does not panic, and its screen has then
-- the clamped size.
pub resize_emulator-Runs :
    {w h : ℕ} (width height : ℕ) (e : Emulator)
    → IsI32 width
    → IsI32 height
    → Runs w h e
    → Succeeds
        (Runs (clamp_dimension width) (clamp_dimension height))
        (resize_emulator width height e)
unfolding resize_emulator
resize_emulator-Runs width height e i j v =
    let w' = clamp_dimension width in
    let h' = clamp_dimension height in
    Succeeds-bind (IsValid w' h') (Runs w' h') (resize width height e.fb) _
      (resize_lem width height e.fb i j v.screen)
      (λ fb hf. record { screen = hf; parameters = v.parameters })
