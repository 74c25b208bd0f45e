-- ===== src/Terminal/DrawState.antt =====
-- crates/mosh-terminal/src/framebuffer.rs: `SavedCursor`, the mouse modes and `DrawState`. An i32 is
-- its 32-bit pattern; what may panic returns an Option.
pub mod Bounds
pub mod Tabs
pub mod Cursor
use rmosh.Prelude.{
  ℕ, zero, suc, ◌+◌, ◌%◌, ◌^◌, Bool, true, false, ◌&&◌, ◌||◌, Option, none, some, List, [], ◌∷◌,
  length, get_elem?, replicate, resize_list, ltb, leb, lt_i32, le_i32, add_i32, sub_i32, rounds,
  as_usize, minus_one, clamp_i32, ◌>>=?◌, ◌==◌, if◌then◌else◌,
}
use rmosh.Terminal.Renditions.{
  Renditions, new_renditions, renditions_eq, Hyperlink, no_hyperlink, hyperlink_eq,
}
use rmosh.Terminal.Renditions

pub record SavedCursor : Type 0 where
  pub cursor_col : ℕ
  pub cursor_row : ℕ
  pub renditions : Renditions
  pub auto_wrap_mode : Bool
  pub origin_mode : Bool

abbrev pub default_saved_cursor : SavedCursor
default_saved_cursor = record {
  cursor_col = 0;
  cursor_row = 0;
  renditions = new_renditions 0;
  auto_wrap_mode = true;
  origin_mode = false;
}

pub data MouseReportingMode : Type 0 where
  no_reporting : MouseReportingMode
  x10 : MouseReportingMode
  vt220 : MouseReportingMode
  vt220_hilight : MouseReportingMode
  btn_event : MouseReportingMode
  any_event : MouseReportingMode

pub data MouseEncodingMode : Type 0 where
  default_encoding : MouseEncodingMode
  utf8 : MouseEncodingMode
  sgr : MouseEncodingMode
  urxvt : MouseEncodingMode

pub record DrawState : Type 0 where
  pub width : ℕ
  pub height : ℕ
  pub cursor_col : ℕ
  pub cursor_row : ℕ
  pub combining_char_col : ℕ
  pub combining_char_row : ℕ
  pub default_tabs : Bool
  pub tabs : List Bool
  pub scrolling_region_top_row : ℕ
  pub scrolling_region_bottom_row : ℕ
  pub renditions : Renditions
  pub hyperlink : Hyperlink
  pub save : SavedCursor
  pub next_print_will_wrap : Bool
  pub origin_mode : Bool
  pub auto_wrap_mode : Bool
  pub insert_mode : Bool
  pub cursor_visible : Bool
  pub reverse_video : Bool
  pub bracketed_paste : Bool
  pub mouse_reporting_mode : MouseReportingMode
  pub mouse_focus_event : Bool
  pub mouse_alternate_scroll : Bool
  pub mouse_encoding_mode : MouseEncodingMode
  pub application_mode_cursor_keys : Bool

-- `DrawState::reinitialize_tabs`, `i` being the place of the first tab of the list.
unfoldable pub reinitialize_tabs : ℕ → ℕ → List Bool → List Bool
reinitialize_tabs start i [] = []
reinitialize_tabs start i (t ∷ ts) =
    (if leb start i then i % 8 == 0 else t) ∷ reinitialize_tabs start (i + 1) ts

-- `x.max(0) as usize`
abbrev pub to_length : ℕ → ℕ
to_length x = if lt_i32 x 0 then 0 else x

unfoldable pub new_draw_state : ℕ → ℕ → DrawState
new_draw_state width height = record {
  width = width;
  height = height;
  cursor_col = 0;
  cursor_row = 0;
  combining_char_col = 0;
  combining_char_row = 0;
  default_tabs = true;
  tabs = reinitialize_tabs 0 0 (replicate (to_length width) false);
  scrolling_region_top_row = 0;
  scrolling_region_bottom_row = sub_i32 height 1;
  renditions = new_renditions 0;
  hyperlink = no_hyperlink;
  save = default_saved_cursor;
  next_print_will_wrap = false;
  origin_mode = false;
  auto_wrap_mode = true;
  insert_mode = false;
  cursor_visible = true;
  reverse_video = false;
  bracketed_paste = false;
  mouse_reporting_mode = no_reporting;
  mouse_focus_event = false;
  mouse_alternate_scroll = false;
  mouse_encoding_mode = default_encoding;
  application_mode_cursor_keys = false;
}

abbrev pub new_grapheme : DrawState → DrawState
new_grapheme d = record d { combining_char_col = d.cursor_col; combining_char_row = d.cursor_row }

abbrev pub limit_top : DrawState → ℕ
limit_top d = if d.origin_mode then d.scrolling_region_top_row else 0

abbrev pub limit_bottom : DrawState → ℕ
limit_bottom d = if d.origin_mode then d.scrolling_region_bottom_row else sub_i32 d.height 1

unfoldable pub snap_cursor_to_border : DrawState → Option DrawState
snap_cursor_to_border d = clamp_i32 d.cursor_row (limit_top d) (limit_bottom d) >>=? λ row.
    clamp_i32 d.cursor_col 0 (sub_i32 d.width 1) >>=? λ col.
    some (record d { cursor_row = row; cursor_col = col })

unfoldable pub move_row : ℕ → Bool → DrawState → Option DrawState
move_row n relative d =
    snap_cursor_to_border (
      if relative
      then record d { cursor_row = add_i32 d.cursor_row n }
      else record d { cursor_row = add_i32 n (limit_top d) })
    >>=? λ e. some (record (new_grapheme e) { next_print_will_wrap = false })

-- `DrawState::move_col` up to the call of `snap_cursor_to_border`.
abbrev pub move_col_before : ℕ → Bool → Bool → DrawState → DrawState
move_col_before n relative implicit d =
    let started = if implicit then new_grapheme d else d in
    let moved = record started {
      cursor_col = if relative then add_i32 started.cursor_col n else n;
    } in
    if implicit
    then record moved { next_print_will_wrap = le_i32 moved.width moved.cursor_col }
    else moved

unfoldable pub move_col : ℕ → Bool → Bool → DrawState → Option DrawState
move_col n relative implicit d =
    snap_cursor_to_border (move_col_before n relative implicit d) >>=? λ e.
    some (if implicit then e else record (new_grapheme e) { next_print_will_wrap = false })

-- `if let Some(slot) = tabs.get_mut(i)`: a place out of range is passed over.
unfoldable pub put_tab : List Bool → ℕ → Bool → List Bool
put_tab [] i v = []
put_tab (t ∷ ts) zero v = v ∷ ts
put_tab (t ∷ ts) (suc i) v = t ∷ put_tab ts i v

unfoldable pub set_tab : DrawState → DrawState
set_tab d = record d { tabs = put_tab d.tabs (as_usize d.cursor_col) true }

-- A negative column fails the conversion to usize.
unfoldable pub clear_tab : ℕ → DrawState → DrawState
clear_tab col d = if lt_i32 col 0 then d else record d { tabs = put_tab d.tabs col false }

abbrev pub clear_default_tabs : DrawState → DrawState
clear_default_tabs d = record d { default_tabs = false }

-- The loop for a count from 0 on, at column `i`, with `n` columns left.
unfoldable pub tab_ahead : List Bool → ℕ → ℕ → ℕ → Option ℕ
tab_ahead tabs i zero count = some minus_one
tab_ahead tabs i (suc n) count = get_elem? tabs (as_usize i) >>=? λ stop.
    let left = if stop then sub_i32 count 1 else count in
    let rest = tab_ahead tabs (add_i32 i 1) n left in if stop && left == 0 then some i else rest

-- The loop for a negative count, at the column of its second argument.
unfoldable pub tab_behind : List Bool → ℕ → ℕ → Option ℕ
tab_behind tabs zero count = some 0
tab_behind tabs (suc i) count = get_elem? tabs (suc i) >>=? λ stop.
    let left = if stop then add_i32 count 1 else count in
    let rest = tab_behind tabs i left in if stop && left == 0 then some (suc i) else rest

unfoldable pub next_tab : ℕ → DrawState → Option ℕ
next_tab count d =
    let ahead = add_i32 d.cursor_col 1 in
    let behind = sub_i32 d.cursor_col 1 in
    if le_i32 0 count
    then tab_ahead d.tabs ahead (rounds ahead d.width) count
    else tab_behind d.tabs (if lt_i32 0 behind then behind else 0) count

-- The region after its three corrections.
abbrev pub corrected_region : ℕ → ℕ → DrawState → DrawState
corrected_region top bottom d =
    let from = if lt_i32 top 0 then 0 else top in
    let to = if le_i32 d.height bottom then sub_i32 d.height 1 else bottom in
    record d {
      scrolling_region_top_row = from;
      scrolling_region_bottom_row = if lt_i32 to from then from else to;
    }

unfoldable pub set_scrolling_region : ℕ → ℕ → DrawState → Option DrawState
set_scrolling_region top bottom d =
    let e = corrected_region top bottom d in
    if lt_i32 d.height 1
    then some d
    else if e.origin_mode
    then (snap_cursor_to_border e >>=? λ f. some (new_grapheme f))
    else some e

abbrev pub with_renditions : (Renditions → Renditions) → DrawState → DrawState
with_renditions f d = record d { renditions = f d.renditions }

abbrev pub set_foreground_color : ℕ → DrawState → DrawState
set_foreground_color x = with_renditions (Renditions.set_foreground_color x)

abbrev pub set_background_color : ℕ → DrawState → DrawState
set_background_color x = with_renditions (Renditions.set_background_color x)

abbrev pub add_rendition : ℕ → DrawState → DrawState
add_rendition x = with_renditions (Renditions.set_rendition x)

abbrev pub background_rendition : DrawState → ℕ
background_rendition d = d.renditions.background_color

unfoldable pub save_cursor : DrawState → DrawState
save_cursor d = record d {
  save = record {
    cursor_col = d.cursor_col;
    cursor_row = d.cursor_row;
    renditions = d.renditions;
    auto_wrap_mode = d.auto_wrap_mode;
    origin_mode = d.origin_mode;
  };
}

unfoldable pub restore_cursor : DrawState → Option DrawState
restore_cursor d =
    snap_cursor_to_border (record d {
      cursor_col = d.save.cursor_col;
      cursor_row = d.save.cursor_row;
      renditions = d.save.renditions;
      auto_wrap_mode = d.save.auto_wrap_mode;
      origin_mode = d.save.origin_mode;
    })
    >>=? λ e. some (new_grapheme e)

abbrev pub clear_saved_cursor : DrawState → DrawState
clear_saved_cursor d = record d { save = default_saved_cursor }

-- `DrawState::resize` up to the call of `snap_cursor_to_border`.
abbrev pub resize_before : ℕ → ℕ → DrawState → DrawState
resize_before width height d =
    let same = d.width == width && d.height == height in
    let tabs = resize_list d.tabs (to_length width) false in
    record d {
      scrolling_region_top_row = if same then d.scrolling_region_top_row else 0;
      scrolling_region_bottom_row =
          if same then d.scrolling_region_bottom_row else sub_i32 height 1;
      tabs = if d.default_tabs then reinitialize_tabs (to_length d.width) 0 tabs else tabs;
      width = width;
      height = height;
    }

abbrev pub forget_combining : DrawState → DrawState
forget_combining d =
    if le_i32 d.width d.combining_char_col || le_i32 d.height d.combining_char_row
    then record d { combining_char_col = minus_one; combining_char_row = minus_one }
    else d

unfoldable pub resize : ℕ → ℕ → DrawState → Option DrawState
resize width height d =
    snap_cursor_to_border (resize_before width height d) >>=? λ e. some (forget_combining e)

abbrev bool_eq : Bool → Bool → Bool
bool_eq true b = b
bool_eq false b = if b then false else true

-- The numbers of the modes.
abbrev pub reporting_number : MouseReportingMode → ℕ
reporting_number m = elim m [
  | no_reporting ↦ 0
  | x10 ↦ 9
  | vt220 ↦ 1000
  | vt220_hilight ↦ 1001
  | btn_event ↦ 1002
  | any_event ↦ 1003
]

abbrev pub encoding_number : MouseEncodingMode → ℕ
encoding_number m = elim m [ default_encoding ↦ 0 | utf8 ↦ 1005 | sgr ↦ 1006 | urxvt ↦ 1015 ]

unfoldable pub draw_state_eq : DrawState → DrawState → Bool
draw_state_eq a b =
    a.width == b.width
    && a.height == b.height
    && a.cursor_col == b.cursor_col
    && a.cursor_row == b.cursor_row
    && bool_eq a.cursor_visible b.cursor_visible
    && bool_eq a.reverse_video b.reverse_video
    && renditions_eq a.renditions b.renditions
    && bool_eq a.bracketed_paste b.bracketed_paste
    && reporting_number a.mouse_reporting_mode == reporting_number b.mouse_reporting_mode
    && bool_eq a.mouse_focus_event b.mouse_focus_event
    && bool_eq a.mouse_alternate_scroll b.mouse_alternate_scroll
    && encoding_number a.mouse_encoding_mode == encoding_number b.mouse_encoding_mode
    && hyperlink_eq a.hyperlink b.hyperlink
