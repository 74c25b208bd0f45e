-- ===== src/Tests/Screen.antt =====
-- A small screen, and what the host and the user send.
use rmosh.Prelude.{
  ℕ, ◌+◌, ◌-◌, ◌||◌, ◌≡◌, refl, true, some, List, [], ◌∷◌, ◌++◌, arith, All, length, Succeeds,
  if◌then◌else◌, get_elem?, ltb, leb, minus_one,
}
use rmosh.Terminal.Cell.{Cell, WideChars, new_cell, insert_cells, delete_cells}
use rmosh.Terminal.Cell.Shift.{get_elem?-insert_cells, get_elem?-delete_cells}
use rmosh.Terminal.DrawState
use rmosh.Terminal.DrawState.{
  DrawState, new_draw_state, next_tab, save_cursor, restore_cursor, new_grapheme,
}
use rmosh.Terminal.DrawState.Bounds.{new_draw_state-IsValid, placed-IsValid, save_cursor-IsValid}
use rmosh.Terminal.DrawState.Cursor.{restore_cursor-save_cursor}
use rmosh.Terminal.DrawState.Bounds
use rmosh.Terminal.Framebuffer.{
  Framebuffer, new_framebuffer, clamp_dimension, delete_line, insert_line,
}
use rmosh.Terminal.Framebuffer.Bounds.{IsValid}
use rmosh.Terminal.Framebuffer.Sizes.{new_framebuffer-IsValid}
use rmosh.Terminal.Framebuffer.Lines.{ShiftedUp, moved_at, delete_line_lem}
use rmosh.Terminal.Framebuffer.Lines.Insert.{ShiftedDown, opened_at, insert_line_lem}
use rmosh.Terminal.Text.{text_eq}
use rmosh.Terminal.Dispatcher.{split_segments}
use rmosh.Terminal.Dispatcher.Functions.{ht_n}
use rmosh.Terminal.Dispatcher.Tabbing.{TabbedTo, at_col, ht_n_lem}
use rmosh.Terminal.Dispatcher.Osc.{
  parse_color_query, parse_printable_osc, split_once, palette_query, quoted,
}
use rmosh.Terminal.Dispatcher.Osc.Queries.{IsPrintable, Query, parse_color_query_sound}
use rmosh.Terminal.UserInput.{user_inputs, ss3}
use rmosh.Terminal.UserInput.Lossless.{held, user_inputs_lossless}
use rmosh.Terminal.Emulator.{Emulator, new_emulator, resize_emulator, input, print, char_width}
use rmosh.Terminal.Emulator.Safety.{Runs, new_emulator-Runs, input-Runs, resize_emulator-Runs}
use rmosh.Terminal.Emulator.Printing.{poke, printed, advanced, print_narrow}
use rmosh.Tests.Terminal.{locale}

-- A C library to which every character that is not ASCII has one column, in two bytes at most.
abbrev wide : WideChars
wide = record { c_wcwidth = λ _. 1; wcrtomb = λ _. some (195 ∷ 169 ∷ []) }

-- ESC [ 2 ; 3 H, ESC [ 1 M, ESC [ 31 m and A.
abbrev host_bytes : List ℕ
host_bytes = 27 ∷ 91 ∷ 50 ∷ 59 ∷ 51 ∷ 72 ∷ 27 ∷ 91 ∷ 49 ∷ 77 ∷ 27 ∷ 91 ∷ 51 ∷ 49 ∷ 109 ∷ 65 ∷ []

abbrev start : Emulator
start = new_emulator 0 4 3

start-Runs : Runs (clamp_dimension 4) (clamp_dimension 3) start
start-Runs = new_emulator-Runs 0 4 3 (omega arith) (omega arith)

input-Runs_example :
    Succeeds (Runs (clamp_dimension 4) (clamp_dimension 3)) (input wide locale host_bytes start)
input-Runs_example = input-Runs wide locale host_bytes start start-Runs

resize_emulator-Runs_example :
    Succeeds
      (Runs (clamp_dimension 9000) (clamp_dimension minus_one))
      (resize_emulator 9000 minus_one start)
resize_emulator-Runs_example =
    resize_emulator-Runs 9000 minus_one start (omega arith) (omega arith) start-Runs

abbrev screen : Framebuffer
screen = new_framebuffer 0 4 3

screen-IsValid : IsValid (clamp_dimension 4) (clamp_dimension 3) screen
screen-IsValid = new_framebuffer-IsValid 0 4 3 (omega arith) (omega arith)

delete_line_example :
    Succeeds
      (ShiftedUp screen 1 (moved_at screen 1 1) (screen.ds.scrolling_region_bottom_row + 1))
      (delete_line 1 1 screen)
delete_line_example = delete_line_lem 1 1 screen (omega arith) (omega arith) screen-IsValid

insert_line_example :
    Succeeds
      (ShiftedDown screen 1 (opened_at screen 1 1) (screen.ds.scrolling_region_bottom_row + 1))
      (insert_line 1 1 screen)
insert_line_example = insert_line_lem 1 1 screen (omega arith) (omega arith) screen-IsValid

print_narrow_example :
    print wide 65 screen
    ≡ some
        (record (poke screen.ds.cursor_row screen.ds.cursor_col
          (λ _. printed wide 65 screen.ds)
          screen) { ds = advanced screen.ds })
print_narrow_example =
    print_narrow wide 65 screen screen-IsValid (unfold char_width in refl)
      (unfold new_framebuffer new_draw_state in refl)
      (unfold new_framebuffer new_draw_state in refl)
      (unfold new_framebuffer new_draw_state in refl)

abbrev cells : List Cell
cells = new_cell 1 ∷ new_cell 2 ∷ new_cell 3 ∷ new_cell 4 ∷ []

delete_cells_example : get_elem? (delete_cells 1 2 0 cells) 1 ≡ (
    if ltb 1 1 || leb (length cells) 1
    then get_elem? cells 1
    else if ltb (1 + 2) (length cells)
    then get_elem? cells (1 + 2)
    else some (new_cell 0))
delete_cells_example = get_elem?-delete_cells 1 2 0 cells 1 (omega arith)

insert_cells_example : get_elem? (insert_cells 1 2 0 cells) 3 ≡ (
    if ltb 3 1 || leb (length cells) 1
    then get_elem? cells 3
    else if ltb 3 (1 + 2)
    then some (new_cell 0)
    else get_elem? cells (3 - 2))
insert_cells_example = get_elem?-insert_cells 1 2 0 cells 3 (omega arith)

abbrev drawing : DrawState
drawing = new_draw_state 20 3

drawing-IsValid : DrawState.Bounds.IsValid 20 3 drawing
drawing-IsValid =
    new_draw_state-IsValid 20 3 (omega arith) (omega arith) (omega arith) (omega arith)

ht_n_example :
    Succeeds
      (λ e. TabbedTo 20 drawing e.cursor_col × (e ≡ at_col drawing e.cursor_col))
      (ht_n 1 drawing)
unfolding new_draw_state
ht_n_example = ht_n_lem drawing drawing-IsValid (omega arith, omega arith)

-- The cursor was saved at the third column, and has moved since.
abbrev saved : DrawState
saved = record drawing { cursor_row = 1; cursor_col = 2 }

abbrev later : DrawState
later = record (save_cursor saved) { cursor_row = 2; cursor_col = 5 }

saved-IsValid : DrawState.Bounds.IsValid 20 3 saved
saved-IsValid = placed-IsValid drawing 1 2 drawing-IsValid.frame (omega arith) (omega arith)

later-IsValid : DrawState.Bounds.IsValid 20 3 later
later-IsValid =
    placed-IsValid (save_cursor saved) 2 5 (save_cursor-IsValid saved saved-IsValid).frame
      (omega arith) (omega arith)

restore_cursor_example :
    restore_cursor later
    ≡ some (
        new_grapheme (record later {
          cursor_col = saved.cursor_col;
          cursor_row = saved.cursor_row;
          renditions = saved.renditions;
          auto_wrap_mode = saved.auto_wrap_mode;
          origin_mode = saved.origin_mode;
        }))
restore_cursor_example =
    restore_cursor-save_cursor saved later saved-IsValid later-IsValid
      (unfold new_draw_state in (omega arith, omega arith)) refl (unfold save_cursor in refl)
      (unfold save_cursor in refl)

-- 4;1;?
abbrev ask : List ℕ
ask = 52 ∷ 59 ∷ 49 ∷ 59 ∷ 63 ∷ []

asked : parse_color_query ask ≡ some (quoted ask)
unfolding parse_color_query parse_printable_osc split_once text_eq palette_query split_segments
asked = refl

parse_color_query_example : (quoted ask ≡ quoted ask) × All IsPrintable ask × Query ask
parse_color_query_example = parse_color_query_sound ask (quoted ask) asked

user_inputs_example :
    (user_inputs ss3 (65 ∷ 27 ∷ 79 ∷ []) true).0
      ++ held (user_inputs ss3 (65 ∷ 27 ∷ 79 ∷ []) true).1
    ≡ held ss3 ++ 65 ∷ 27 ∷ 79 ∷ []
user_inputs_example = user_inputs_lossless ss3 (65 ∷ 27 ∷ 79 ∷ [])
