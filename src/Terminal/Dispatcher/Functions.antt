-- ===== src/Terminal/Dispatcher/Functions.antt =====
-- crates/mosh-terminal/src/dispatcher.rs: the routines that a CSI, an escape or a control character
-- activates. A routine takes the framebuffer and the dispatcher, and panics with `none`.
use rmosh.Prelude.{
  ℕ, Bool, true, false, ◌&&◌, ◌||◌, Option, some, List, [], ◌∷◌, ◌++◌, leb, lt_i32, le_i32, add_i32,
  sub_i32, neg_i32, minus_one, rounds, rounds_inclusive, for_range, for_i32, ◌>>=?◌, ◌==◌,
  if◌then◌else◌,
}
use rmosh.Terminal.Cell.{WideChars, append}
use rmosh.Terminal.DrawState.{
  DrawState, move_row, move_col, next_tab, no_reporting, x10, vt220, vt220_hilight, btn_event,
  any_event, default_encoding, utf8, sgr, urxvt, MouseReportingMode, MouseEncodingMode,
  clear_default_tabs, clear_tab, set_tab, set_scrolling_region,
}
use rmosh.Terminal.Framebuffer.{
  Framebuffer, with_ds, reset_cell, reset_row, mutable_cell, move_rows_autoscroll, ring_bell,
}
use rmosh.Terminal.Dispatcher.{Dispatcher, getparam, param_count}

abbrev pub State : Type 0
State = Framebuffer × Dispatcher

-- A routine's step on the framebuffer, when the dispatcher ends as `d`.
abbrev pub leaving : Dispatcher → Option Framebuffer → Option State
leaving d r = r >>=? λ fb. some (fb, d)

-- A routine whose dispatcher stays as it is.
abbrev pub on_screen : (Framebuffer → Option Framebuffer) → State → Option State
on_screen f (fb, d) = leaving d (f fb)

-- A routine of one parameter with its default.
abbrev pub with_param : ℕ → (ℕ → Framebuffer → Option Framebuffer) → State → Option State
with_param default f (fb, d) = let got = getparam 0 default d in leaving got.1 (f got.0 fb)

-- A write of a field of the draw state, which does not panic.
abbrev pub set_ds : (DrawState → DrawState) → Framebuffer → Option Framebuffer
set_ds f fb = some (record fb { ds = f fb.ds })

abbrev pub home : Framebuffer → Option Framebuffer
home fb = with_ds (move_row 0 false) fb >>=? with_ds (move_col 0 false false)

unfoldable pub clearline : ℕ → ℕ → ℕ → Framebuffer → Option Framebuffer
clearline row start end =
    for_i32 start (rounds_inclusive start end) (λ col fb. reset_cell row col fb)

-- `for y in lo..hi { fb.reset_row(y) }`
abbrev pub reset_rows : ℕ → ℕ → Framebuffer → Option Framebuffer
reset_rows lo hi = for_i32 lo (rounds lo hi) reset_row

unfoldable pub erase_line : ℕ → Framebuffer → Option Framebuffer
erase_line mode fb =
    if mode == 0
    then clearline minus_one fb.ds.cursor_col (sub_i32 fb.ds.width 1) fb
    else if mode == 1
    then clearline minus_one 0 fb.ds.cursor_col fb
    else if mode == 2
    then reset_row minus_one fb
    else some fb

unfoldable pub csi_el : State → Option State
csi_el = with_param 0 erase_line

unfoldable pub erase_display : ℕ → Framebuffer → Option Framebuffer
erase_display mode fb =
    if mode == 0
    then (clearline minus_one fb.ds.cursor_col (sub_i32 fb.ds.width 1) fb >>=? λ g.
        reset_rows (add_i32 g.ds.cursor_row 1) g.ds.height g)
    else if mode == 1
    then (reset_rows 0 fb.ds.cursor_row fb >>=? λ g. clearline minus_one 0 g.ds.cursor_col g)
    else if mode == 2
    then reset_rows 0 fb.ds.height fb
    else some fb

unfoldable pub csi_ed : State → Option State
csi_ed = with_param 0 erase_display

-- The first of the dispatch characters, 0 standing for none.
abbrev pub first_char : List ℕ → ℕ
first_char [] = 0
first_char (c ∷ cs) = c

unfoldable pub move_to : ℕ → ℕ → Framebuffer → Option Framebuffer
move_to row col fb =
    with_ds (move_row (sub_i32 row 1) false) fb >>=? with_ds (move_col (sub_i32 col 1) false false)

unfoldable pub csi_cursormove : State → Option State
csi_cursormove (fb, d) =
    let num = getparam 0 1 d in
    let key = first_char num.1.dispatch_chars in
    let row = getparam 0 1 num.1 in
    let col = getparam 1 1 row.1 in
    if key == b'A'
    then leaving num.1 (with_ds (move_row (neg_i32 num.0) true) fb)
    else if key == b'B'
    then leaving num.1 (with_ds (move_row num.0 true) fb)
    else if key == b'C'
    then leaving num.1 (with_ds (move_col num.0 true false) fb)
    else if key == b'D'
    then leaving num.1 (with_ds (move_col (neg_i32 num.0) true false) fb)
    else if key == b'H' || key == b'f'
    then leaving col.1 (move_to row.0 col.0 fb)
    else some (fb, num.1)

-- `dispatch.terminal_to_host.push_str(s)`
abbrev pub reply : List ℕ → Dispatcher → Dispatcher
reply s d = record d { terminal_to_host = d.terminal_to_host ++ s }

unfoldable pub csi_da : State → Option State
csi_da (fb, d) = some (fb, reply (27 ∷ b'[' ∷ b'?' ∷ b'6' ∷ b'2' ∷ b'c' ∷ []) d)

unfoldable pub csi_sda : State → Option State
csi_sda (fb, d) =
    some (fb, reply (27 ∷ b'[' ∷ b'>' ∷ b'1' ∷ b';' ∷ b'1' ∷ b'0' ∷ b';' ∷ b'0' ∷ b'c' ∷ []) d)

module _ (wide : WideChars) where
  abbrev pub fill_cell : ℕ → ℕ → Framebuffer → Option Framebuffer
  fill_cell y x fb = reset_cell y x fb >>=? mutable_cell y x (append wide b'E')

  unfoldable pub esc_decaln : State → Option State
  esc_decaln = on_screen (λ fb.
      for_i32 0 (rounds 0 fb.ds.height) (λ y g. for_i32 0 (rounds 0 g.ds.width) (fill_cell y) g) fb)

unfoldable pub ctrl_lf : State → Option State
ctrl_lf = on_screen (move_rows_autoscroll 1)

unfoldable pub ctrl_cr : State → Option State
ctrl_cr = on_screen (with_ds (move_col 0 false false))

unfoldable pub ctrl_bs : State → Option State
ctrl_bs = on_screen (with_ds (move_col minus_one true false))

unfoldable pub ctrl_ri : State → Option State
ctrl_ri = on_screen (move_rows_autoscroll minus_one)

unfoldable pub ctrl_nel : State → Option State
ctrl_nel = on_screen (λ fb. with_ds (move_col 0 false false) fb >>=? move_rows_autoscroll 1)

unfoldable pub ht_n : ℕ → DrawState → Option DrawState
ht_n count ds = next_tab count ds >>=? λ col.
    move_col (if col == minus_one then sub_i32 ds.width 1 else col) false false ds >>=? λ e.
    some (record e { next_print_will_wrap = ds.next_print_will_wrap })

unfoldable pub ctrl_ht : State → Option State
ctrl_ht = on_screen (with_ds (ht_n 1))

unfoldable pub csi_cxt : State → Option State
csi_cxt (fb, d) =
    let got = getparam 0 1 d in
    let param = if first_char got.1.dispatch_chars == b'Z' then neg_i32 got.0 else got.0 in
    if param == 0 then some (fb, got.1) else leaving got.1 (with_ds (ht_n param) fb)

unfoldable pub ctrl_hts : State → Option State
ctrl_hts = on_screen (set_ds set_tab)

unfoldable pub clear_tabs : ℕ → Framebuffer → Option Framebuffer
clear_tabs mode fb =
    if mode == 0
    then set_ds (clear_tab fb.ds.cursor_col) fb
    else if mode == 3
    then (set_ds clear_default_tabs fb >>=? λ g.
        for_i32 0 (rounds 0 g.ds.width) (λ x. set_ds (clear_tab x)) g)
    else some fb

unfoldable pub csi_tbc : State → Option State
csi_tbc = with_param 0 clear_tabs

-- The arms of `set_dec_mode` that only set a flag, past the first three.
unfoldable pub set_plain_mode : ℕ → Bool → Framebuffer → Option Framebuffer
set_plain_mode param value fb =
    if param == 7
    then set_ds (λ d. record d { auto_wrap_mode = value }) fb
    else if param == 25
    then set_ds (λ d. record d { cursor_visible = value }) fb
    else if param == 1004
    then set_ds (λ d. record d { mouse_focus_event = value }) fb
    else if param == 1007
    then set_ds (λ d. record d { mouse_alternate_scroll = value }) fb
    else if param == 2004
    then set_ds (λ d. record d { bracketed_paste = value }) fb
    else some fb

unfoldable pub set_dec_mode : ℕ → Bool → Framebuffer → Option Framebuffer
set_dec_mode param value fb =
    if param == 1
    then set_ds (λ d. record d { application_mode_cursor_keys = value }) fb
    else if param == 3
    then (home fb >>=? λ g. reset_rows 0 g.ds.height g)
    else if param == 5
    then set_ds (λ d. record d { reverse_video = value }) fb
    else if param == 6
    then (home fb >>=? set_ds (λ d. record d { origin_mode = value }))
    else set_plain_mode param value fb

abbrev pub is_reporting : ℕ → Bool
is_reporting param = param == 9 || leb 1000 param && leb param 1003

abbrev pub is_encoding : ℕ → Bool
is_encoding param = param == 1005 || param == 1006 || param == 1015

abbrev pub reporting_mode : ℕ → MouseReportingMode
reporting_mode param =
    if param == 9
    then x10
    else if param == 1000
    then vt220
    else if param == 1001
    then vt220_hilight
    else if param == 1002
    then btn_event
    else any_event

abbrev pub encoding_mode : ℕ → MouseEncodingMode
encoding_mode param = if param == 1005 then utf8 else if param == 1006 then sgr else urxvt

-- One parameter of `csi_decsm`, and of `csi_decrm`.
unfoldable pub set_private : ℕ → Framebuffer → Option Framebuffer
set_private param fb =
    if is_reporting param
    then set_ds (λ d. record d { mouse_reporting_mode = reporting_mode param }) fb
    else if is_encoding param
    then set_ds (λ d. record d { mouse_encoding_mode = encoding_mode param }) fb
    else set_dec_mode param true fb

unfoldable pub clear_private : ℕ → Framebuffer → Option Framebuffer
clear_private param fb =
    if is_reporting param
    then set_ds (λ d. record d { mouse_reporting_mode = no_reporting }) fb
    else if is_encoding param
    then set_ds (λ d. record d { mouse_encoding_mode = default_encoding }) fb
    else set_dec_mode param false fb

-- A step for each parameter, its default being 0.
abbrev pub each_param : (ℕ → Framebuffer → Option Framebuffer) → State → Option State
each_param f (fb, d) =
    let counted = param_count d in
    for_range 0 counted.0 (λ i s. let got = getparam i 0 s.1 in leaving got.1 (f got.0 s.0))
      (fb, counted.1)

unfoldable pub csi_decsm : State → Option State
csi_decsm = each_param set_private

unfoldable pub csi_decrm : State → Option State
csi_decrm = each_param clear_private

abbrev pub set_insert_mode : Bool → ℕ → Framebuffer → Option Framebuffer
set_insert_mode value param fb =
    if param == 4 then set_ds (λ d. record d { insert_mode = value }) fb else some fb

unfoldable pub csi_sm : State → Option State
csi_sm = each_param (set_insert_mode true)

unfoldable pub csi_rm : State → Option State
csi_rm = each_param (set_insert_mode false)

unfoldable pub csi_decstbm : State → Option State
csi_decstbm (fb, d) =
    let top = getparam 0 1 d in
    let bottom = getparam 1 fb.ds.height top.1 in
    if le_i32 bottom.0 top.0 || lt_i32 fb.ds.height top.0 || top.0 == 0 && bottom.0 == 1
    then some (fb, bottom.1)
    else leaving bottom.1
        (with_ds (set_scrolling_region (sub_i32 top.0 1) (sub_i32 bottom.0 1)) fb >>=? home)

unfoldable pub ctrl_bel : State → Option State
ctrl_bel (fb, d) = some (ring_bell fb, d)
