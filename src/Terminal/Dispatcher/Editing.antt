-- ===== src/Terminal/Dispatcher/Editing.antt =====
-- crates/mosh-terminal/src/dispatcher.rs: the routines that set renditions, report, save the cursor,
-- and edit or scroll lines and cells.
pub mod Rounds
use rmosh.Prelude.{
  ℕ, zero, suc, ◌+◌, ◌-◌, Bool, true, false, ◌&&◌, ◌||◌, Option, none, some, List, [], ◌∷◌, ◌++◌,
  ltb, leb, lt_i32, le_i32, add_i32, sub_i32, neg_i32, minus_one, ◌>>=?◌, ◌==◌, if◌then◌else◌,
}
use rmosh.Terminal.Text.{decimal_i32}
use rmosh.Terminal.Renditions.{
  Renditions, make_true_color, set_foreground_color, set_background_color, set_rendition,
}
use rmosh.Terminal.DrawState.{DrawState, move_row, move_col, save_cursor, restore_cursor}
use rmosh.Terminal.Framebuffer.{
  Framebuffer, with_ds, insert_line, delete_line, insert_cells, delete_cells, reset, soft_reset,
  scroll,
}
use rmosh.Terminal.Dispatcher.{Dispatcher, getparam, param_count}
use rmosh.Terminal.Dispatcher.Functions.{
  State, leaving, on_screen, with_param, set_ds, clearline, reply,
}

abbrev pub set_color : ℕ → ℕ → Renditions → Renditions
set_color rendition color r =
    if rendition == 38 then set_foreground_color color r else set_background_color color r

-- Parameter `n`, once they are parsed.
abbrev pub value : Dispatcher → ℕ → ℕ → ℕ
value d n default = (getparam n default d).0

-- What the loop of `csi_sgr` does at parameter `i` of `count`, and where it goes on.
unfoldable pub sgr_step : Dispatcher → ℕ → ℕ → Renditions → Renditions × ℕ
sgr_step d count i r =
    let rendition = value d i 0 in
    let is_color = rendition == 38 || rendition == 48 in
    if is_color && leb 3 (count - i) && value d (i + 1) minus_one == 5
    then (set_color rendition (value d (i + 2) 0) r, i + 3)
    else if is_color && leb 5 (count - i) && value d (i + 1) minus_one == 2
    then (
      set_color rendition
          (make_true_color (value d (i + 2) 0) (value d (i + 3) 0) (value d (i + 4) 0)) r,
      i + 5,
    )
    else (set_rendition rendition r, i + 1)

-- The `while` loop of `csi_sgr`; each round takes a parameter, so as many rounds are enough.
unfoldable pub sgr_loop : ℕ → Dispatcher → ℕ → ℕ → Renditions → Renditions
sgr_loop zero d count i r = r
sgr_loop (suc fuel) d count i r =
    let one = sgr_step d count i r in
    let more = sgr_loop fuel d count one.1 one.0 in if ltb i count then more else r

unfoldable pub csi_sgr : State → Option State
csi_sgr (fb, d) =
    let counted = param_count d in
    let count = counted.0 in
    leaving counted.1
      (set_ds (λ ds. record ds { renditions = sgr_loop count counted.1 count 0 ds.renditions }) fb)

unfoldable pub esc_decsc : State → Option State
esc_decsc = on_screen (set_ds save_cursor)

unfoldable pub esc_decrc : State → Option State
esc_decrc = on_screen (with_ds restore_cursor)

-- ESC [ row ; column R, counted from one.
abbrev pub position_report : DrawState → List ℕ
position_report ds =
    (27 ∷ b'[' ∷ [])
    ++ (decimal_i32 (add_i32 ds.cursor_row 1)
        ++ (b';' ∷ (decimal_i32 (add_i32 ds.cursor_col 1) ++ b'R' ∷ [])))

unfoldable pub csi_dsr : State → Option State
csi_dsr (fb, d) =
    let got = getparam 0 0 d in
    if got.0 == 5
    then some (fb, reply (27 ∷ b'[' ∷ b'0' ∷ b'n' ∷ []) got.1)
    else if got.0 == 6
    then some (fb, reply (position_report fb.ds) got.1)
    else some (fb, got.1)

unfoldable pub csi_il : State → Option State
csi_il =
    with_param 1
      (λ lines fb. insert_line fb.ds.cursor_row lines fb >>=? with_ds (move_col 0 false false))

unfoldable pub csi_dl : State → Option State
csi_dl =
    with_param 1
      (λ lines fb. delete_line fb.ds.cursor_row lines fb >>=? with_ds (move_col 0 false false))

-- `.max(0) as usize`
abbrev pub count_of : ℕ → ℕ
count_of n = if lt_i32 n 0 then 0 else n

unfoldable pub csi_ich : State → Option State
csi_ich =
    with_param 1 (λ cells fb. insert_cells fb.ds.cursor_row fb.ds.cursor_col (count_of cells) fb)

unfoldable pub csi_dch : State → Option State
csi_dch =
    with_param 1 (λ cells fb. delete_cells fb.ds.cursor_row fb.ds.cursor_col (count_of cells) fb)

unfoldable pub csi_vpa : State → Option State
csi_vpa = with_param 1 (λ row. with_ds (move_row (sub_i32 row 1) false))

unfoldable pub csi_hpa : State → Option State
csi_hpa = with_param 1 (λ col. with_ds (move_col (sub_i32 col 1) false false))

unfoldable pub erase_chars : ℕ → Framebuffer → Option Framebuffer
erase_chars num fb =
    let limit = sub_i32 (add_i32 fb.ds.cursor_col num) 1 in
    clearline minus_one fb.ds.cursor_col
      (if le_i32 fb.ds.width limit then sub_i32 fb.ds.width 1 else limit) fb

unfoldable pub csi_ech : State → Option State
csi_ech = with_param 1 erase_chars

unfoldable pub esc_ris : State → Option State
esc_ris (fb, d) = some (reset fb, d)

unfoldable pub csi_decstr : State → Option State
csi_decstr = on_screen (with_ds soft_reset)

unfoldable pub csi_sd : State → Option State
csi_sd = with_param 1 scroll

unfoldable pub csi_su : State → Option State
csi_su = with_param 1 (λ n. scroll (neg_i32 n))
