-- ===== src/Terminal/Emulator.antt =====
-- crates/mosh-terminal/src/emulator.rs: `Emulator`, the parser, the dispatcher and the framebuffer
-- wired together. The C library's functions on characters are parameters.
pub mod Safety
pub mod Printing
use rmosh.Prelude.{
  ℕ, zero, suc, ◌+◌, Bool, true, false, ◌&&◌, ◌||◌, Option, none, some, List, [], ◌∷◌, ◌++◌, leb,
  lt_i32, add_i32, sub_i32, minus_one, update_at, for_range, ◌>>=?◌, ◌==◌, if◌then◌else◌,
}
use rmosh.Terminal.Parser.{Kind, Action}
use rmosh.Terminal.Parser
use rmosh.Terminal.Utf8.{Locale, Utf8Parser, new_utf8_parser, input_byte}
use rmosh.Terminal.Renditions.{is_empty_text}
use rmosh.Terminal.Cell.{
  WideChars, wcwidth, Cell, Row, isprint_iso8859_1, append, is_empty, is_full, set_row_wrap,
}
use rmosh.Terminal.DrawState.{DrawState, move_col}
use rmosh.Terminal.Framebuffer.{
  Framebuffer, new_framebuffer, with_ds, mutable_row, mutable_cell, reset_cell, insert_cells,
  apply_renditions_to_cell, apply_hyperlink_to_cell, combining_cell, cell, move_rows_autoscroll,
  clear_color_queries, resize,
}
use rmosh.Terminal.Dispatcher.{
  FunctionType, Dispatcher, new_dispatcher, new_param_char, collect, clear, osc_start, osc_put,
}
use rmosh.Terminal.Dispatcher
use rmosh.Terminal.Dispatcher.Functions.{State, leaving}
use rmosh.Terminal.Dispatcher.Table.{dispatch}
use rmosh.Terminal.Dispatcher.Osc.{osc_dispatch}
use rmosh.Terminal.UserInput.{UserInputState}
use rmosh.Terminal.UserInput

pub record Emulator : Type 0 where
  pub fb : Framebuffer
  pub dispatch : Dispatcher
  pub parser : Utf8Parser
  pub user : UserInputState

-- `Emulator::new`, GEN_COUNTER being at `gen`.
unfoldable pub new_emulator : ℕ → ℕ → ℕ → Emulator
new_emulator gen width height = record {
  fb = new_framebuffer gen width height;
  dispatch = new_dispatcher;
  parser = new_utf8_parser;
  user = UserInput.ground;
}

-- The reply that is owed to the application, and the emulator without it.
unfoldable pub read_octets_to_host : Emulator → List ℕ × Emulator
read_octets_to_host e = (
  e.dispatch.terminal_to_host,
  record e { dispatch = record e.dispatch { terminal_to_host = [] } },
)

unfoldable pub resize_emulator : ℕ → ℕ → Emulator → Option Emulator
resize_emulator width height e = resize width height e.fb >>=? λ fb. some (record e { fb = fb })

abbrev pub mark_wrap : Bool → Row → Option Row
mark_wrap w r = some (record r { cells = set_row_wrap w r.cells })

abbrev pub next_line : Framebuffer → Option Framebuffer
next_line fb = with_ds (move_col 0 false false) fb >>=? move_rows_autoscroll 1

-- The two ways in which a character goes on to the next line.
unfoldable pub wrap_line : ℕ → Framebuffer → Option Framebuffer
wrap_line chwidth fb =
    if fb.ds.auto_wrap_mode && fb.ds.next_print_will_wrap
    then (mutable_row minus_one (mark_wrap true) fb >>=? next_line)
    else if fb.ds.auto_wrap_mode && chwidth == 2 && fb.ds.cursor_col == sub_i32 fb.ds.width 1
    then (reset_cell minus_one minus_one fb >>=? λ g.
        mutable_row minus_one (mark_wrap false) g >>=? next_line)
    else some fb

abbrev pub open_cells : ℕ → Framebuffer → Option Framebuffer
open_cells chwidth fb =
    if fb.ds.insert_mode
    then for_range 0 chwidth (λ _ g. insert_cells g.ds.cursor_row g.ds.cursor_col 1 g) fb
    else some fb

abbrev pub set_wide : Bool → Cell → Cell
set_wide w c = record c { wide = w }

-- A wide character covers the cell after it.
abbrev pub cover_next : ℕ → ℕ → ℕ → Framebuffer → Option Framebuffer
cover_next chwidth row col fb =
    if chwidth == 2 && lt_i32 (add_i32 col 1) fb.ds.width
    then reset_cell row (add_i32 col 1) fb
    else some fb

abbrev pub start_combining : Cell → Cell
start_combining c = record c { fallback = true }

module _ (wide : WideChars) where
  abbrev pub append_unless_full : ℕ → Cell → Cell
  append_unless_full ch c = if is_full c then c else append wide ch c

  -- The character in the cell at `row`, `col`.
  unfoldable pub place : ℕ → ℕ → ℕ → ℕ → Framebuffer → Option Framebuffer
  place ch chwidth row col fb = reset_cell row col fb >>=? λ g1.
      mutable_cell row col (append wide ch) g1 >>=? λ g2.
      mutable_cell row col (set_wide (chwidth == 2)) g2 >>=? λ g3.
      apply_renditions_to_cell row col g3 >>=? λ g4.
      apply_hyperlink_to_cell row col g4 >>=? cover_next chwidth row col

  abbrev pub place_at_cursor : ℕ → ℕ → Framebuffer → Option Framebuffer
  place_at_cursor ch chwidth fb = place ch chwidth fb.ds.cursor_row fb.ds.cursor_col fb

  -- A character of one or two columns.
  unfoldable pub print_base : ℕ → ℕ → Framebuffer → Option Framebuffer
  print_base ch chwidth fb = wrap_line chwidth fb >>=? λ g1. open_cells chwidth g1 >>=? λ g2.
      place_at_cursor ch chwidth g2 >>=? with_ds (move_col chwidth true true)

  -- A combining character, at a cell that is on the screen.
  unfoldable pub combine_at : ℕ → ℕ → ℕ → Cell → Framebuffer → Option Framebuffer
  combine_at ch row col old fb =
      if is_empty old
      then (mutable_cell row col (λ c. append_unless_full ch (start_combining c)) fb
          >>=? with_ds (move_col 1 true true))
      else mutable_cell row col (append_unless_full ch) fb

  abbrev pub combine : ℕ → Framebuffer → Option (ℕ × ℕ) → Option Framebuffer
  combine ch fb none = some fb
  combine ch fb (some (col, row)) = cell row col fb >>=? λ old. combine_at ch row col old fb

  -- `wcwidth(ch).map(|w| w as i32).unwrap_or(-1)`
  abbrev pub signed_width : Option ℕ → ℕ
  signed_width none = minus_one
  signed_width (some w) = w

  unfoldable pub char_width : ℕ → ℕ
  char_width ch =
      if ch == 0
      then minus_one
      else if isprint_iso8859_1 ch
      then 1
      else signed_width (wcwidth wide ch)

  -- `Emulator::print`
  unfoldable pub print : ℕ → Framebuffer → Option Framebuffer
  print ch fb =
      let chwidth = char_width ch in
      if chwidth == 1 || chwidth == 2
      then print_base ch chwidth fb
      else if chwidth == 0
      then combine ch fb (combining_cell fb)
      else some fb

  -- The seven-bit form of a control character is turned into it.
  unfoldable pub esc_dispatch : ℕ → State → Option State
  esc_dispatch ch (fb, d) =
      if is_empty_text d.dispatch_chars && (leb 0x40 ch && leb ch 0x5f)
      then dispatch wide Dispatcher.control (ch + 0x40) (fb, d)
      else dispatch wide Dispatcher.escape ch (fb, d)

  -- `if let Some(ch) = action.ch`
  abbrev pub with_char : Option ℕ → (ℕ → State → Option State) → State → Option State
  with_char none f s = some s
  with_char (some ch) f s = f ch s

  abbrev pub on_dispatcher : (ℕ → Dispatcher → Dispatcher) → ℕ → State → Option State
  on_dispatcher f ch (fb, d) = some (fb, f ch d)

  -- `Emulator::act`, on the framebuffer and the dispatcher.
  unfoldable pub act : Kind → Option ℕ → State → Option State
  act Parser.print ch s = with_char ch (λ c t. leaving t.1 (print c t.0)) s
  act Parser.execute ch s = with_char ch (dispatch wide Dispatcher.control) s
  act Parser.clear ch (fb, d) = some (fb, clear d)
  act Parser.param ch s = with_char ch (on_dispatcher new_param_char) s
  act Parser.collect ch s = with_char ch (on_dispatcher collect) s
  act Parser.csi_dispatch ch s = with_char ch (dispatch wide Dispatcher.csi) s
  act Parser.esc_dispatch ch s = with_char ch esc_dispatch s
  act Parser.osc_start ch (fb, d) = some (fb, osc_start d)
  act Parser.osc_put ch s = with_char ch (on_dispatcher osc_put) s
  act Parser.osc_end ch (fb, d) = some (osc_dispatch d fb, d)
  act Parser.hook ch s = some s
  act Parser.put ch s = some s
  act Parser.unhook ch s = some s
  act Parser.ignore ch s = some s

  -- The actions of one byte, in order.
  unfoldable pub act_all : List Action → State → Option State
  act_all [] s = some s
  act_all (a ∷ as') s = act a.kind a.ch s >>=? act_all as'

  module _ {M : Type 0} (locale : Locale M) where
    unfoldable pub input_one : ℕ → Emulator → Option Emulator
    input_one b e =
        let (actions, parser) = input_byte locale e.parser b in
        act_all actions (e.fb, e.dispatch) >>=? λ s.
        some (record e { fb = s.0; dispatch = s.1; parser = parser })

    -- `Emulator::input`
    unfoldable pub input : List ℕ → Emulator → Option Emulator
    input [] e = some e
    input (b ∷ bs) e = input_one b e >>=? input bs
