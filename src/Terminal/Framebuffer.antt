-- ===== src/Terminal/Framebuffer.antt =====
-- crates/mosh-terminal/src/framebuffer.rs: `Framebuffer`. What may panic returns an Option.
--
-- The static GEN_COUNTER is the field `gen_counter`. Rows are values, so that they are shared and
-- copied on write is not seen, nor is the comparison of framebuffers by the identity of their rows.
pub mod Bounds
pub mod Cells
pub mod Sizes
pub mod Lines
use rmosh.Prelude.{
  ℕ, zero, suc, ◌+◌, ◌-◌, Bool, true, false, ◌&&◌, ◌||◌, Option, none, some, List, [], ◌∷◌, ◌++◌,
  map, length, get_elem?, take, drop, replicate, resize_list, update_at, ltb, leb, lt_i32, le_i32,
  add_i32, sub_i32, neg_i32, as_usize, minus_one, clamp_i32, wrapping_add, ◌>>=?◌, ◌==◌,
  if◌then◌else◌, min,
}
use rmosh.Terminal.Text.{text_eq}
use rmosh.Terminal.Renditions.{no_hyperlink}
use rmosh.Terminal.Cell.{Cell, Row, new_cell, new_row, set_row_wrap}
use rmosh.Terminal.Cell
use rmosh.Terminal.DrawState.{DrawState, new_draw_state, background_rendition}
use rmosh.Terminal.DrawState

abbrev pub maximum_color_queries : ℕ
maximum_color_queries = 4096

abbrev pub max_dimension : ℕ
max_dimension = 2048

pub record Framebuffer : Type 0 where
  pub rows : List Row
  pub icon_name : List ℕ
  pub window_title : List ℕ
  pub clipboard : List ℕ
  pub clipboard_seq : ℕ
  pub color_queries : List ℕ
  pub color_query_seq : ℕ
  pub bell_count : ℕ
  pub title_initialized : Bool
  pub ds : DrawState
  pub gen_counter : ℕ

-- `clamp_size` in one direction; its bounds are in order, so it does not panic.
unfoldable pub clamp_dimension : ℕ → ℕ
clamp_dimension x = if lt_i32 x 1 then 1 else if lt_i32 max_dimension x then max_dimension else x

-- `Framebuffer::new`, the counter being at `gen`.
unfoldable pub new_framebuffer : ℕ → ℕ → ℕ → Framebuffer
new_framebuffer gen width height =
    let w = clamp_dimension width in
    let h = clamp_dimension height in
    record {
      rows = replicate (as_usize h) (new_row gen (as_usize w) 0);
      icon_name = [];
      window_title = [];
      clipboard = [];
      clipboard_seq = 0;
      color_queries = [];
      color_query_seq = 0;
      bell_count = 0;
      title_initialized = false;
      ds = new_draw_state w h;
      gen_counter = wrapping_add 64 gen 1;
    }

-- The row that `newrow` makes.
abbrev pub newrow : Framebuffer → Row
newrow fb = new_row fb.gen_counter (as_usize fb.ds.width) (background_rendition fb.ds)

-- The counter after a row was made or reset.
abbrev pub count_gen : Framebuffer → Framebuffer
count_gen fb = record fb { gen_counter = wrapping_add 64 fb.gen_counter 1 }

-- A step of the draw state.
abbrev pub with_ds : (DrawState → Option DrawState) → Framebuffer → Option Framebuffer
with_ds f fb = f fb.ds >>=? λ d. some (record fb { ds = d })

-- `v.drain(lo..hi)`
unfoldable pub drain : {A : Type 0} → ℕ → ℕ → List A → Option (List A)
drain lo hi xs = if ltb hi lo || ltb (length xs) hi then none else some (take lo xs ++ drop hi xs)

-- `v.splice(at..at, ys)`
unfoldable pub splice : {A : Type 0} → ℕ → List A → List A → Option (List A)
splice at ys xs = if ltb (length xs) at then none else some (take at xs ++ (ys ++ drop at xs))

-- How many lines are moved, and `none` for none at all.
abbrev pub lines_moved : ℕ → ℕ → Option ℕ
lines_moved room count =
    let scroll = if lt_i32 count room then count else room in
    if le_i32 scroll 0 then none else some scroll

abbrev pub insert_lines : ℕ → Framebuffer → Option ℕ → Option Framebuffer
insert_lines before_row fb none = some fb
insert_lines before_row fb (some scroll) =
    let bottom = fb.ds.scrolling_region_bottom_row in
    let start = as_usize (sub_i32 (add_i32 bottom 1) scroll) in
    drain start (start + as_usize scroll) fb.rows >>=? λ kept.
    splice (as_usize before_row) (replicate (as_usize scroll) (newrow fb)) kept >>=? λ rows.
    some (record (count_gen fb) { rows = rows })

unfoldable pub insert_line : ℕ → ℕ → Framebuffer → Option Framebuffer
insert_line before_row count fb =
    let top = fb.ds.scrolling_region_top_row in
    let bottom = fb.ds.scrolling_region_bottom_row in
    if lt_i32 before_row top || lt_i32 (add_i32 bottom 1) before_row
    then some fb
    else insert_lines before_row fb (lines_moved (sub_i32 (add_i32 bottom 1) before_row) count)

abbrev pub delete_lines : ℕ → Framebuffer → Option ℕ → Option Framebuffer
delete_lines row fb none = some fb
delete_lines row fb (some scroll) =
    let bottom = fb.ds.scrolling_region_bottom_row in
    drain (as_usize row) (as_usize (add_i32 row scroll)) fb.rows >>=? λ kept.
    splice (as_usize (sub_i32 (add_i32 bottom 1) scroll)) (replicate (as_usize scroll) (newrow fb))
      kept
    >>=? λ rows. some (record (count_gen fb) { rows = rows })

unfoldable pub delete_line : ℕ → ℕ → Framebuffer → Option Framebuffer
delete_line row count fb =
    let top = fb.ds.scrolling_region_top_row in
    let bottom = fb.ds.scrolling_region_bottom_row in
    if lt_i32 row top || lt_i32 bottom row
    then some fb
    else delete_lines row fb (lines_moved (sub_i32 (add_i32 bottom 1) row) count)

unfoldable pub scroll : ℕ → Framebuffer → Option Framebuffer
scroll n fb =
    if le_i32 0 n
    then delete_line fb.ds.scrolling_region_top_row n fb
    else insert_line fb.ds.scrolling_region_top_row (neg_i32 n) fb

-- Scroll by `n` and take the cursor back by as much.
abbrev pub scroll_back : ℕ → Framebuffer → Option Framebuffer
scroll_back n fb = scroll n fb >>=? with_ds (DrawState.move_row (neg_i32 n) true)

unfoldable pub move_rows_autoscroll : ℕ → Framebuffer → Option Framebuffer
move_rows_autoscroll rows fb =
    let at = fb.ds.cursor_row in
    let top = fb.ds.scrolling_region_top_row in
    let bottom = fb.ds.scrolling_region_bottom_row in
    let target = add_i32 at rows in
    if lt_i32 at top || lt_i32 bottom at
    then with_ds (DrawState.move_row rows true) fb
    else (if lt_i32 bottom target
        then scroll_back (sub_i32 target bottom) fb
        else if lt_i32 target top
        then scroll_back (sub_i32 target top) fb
        else some fb)
      >>=? with_ds (DrawState.move_row rows true)

-- -1 stands for the row or the column of the cursor.
abbrev pub at_row : Framebuffer → ℕ → ℕ
at_row fb row = if row == minus_one then fb.ds.cursor_row else row

abbrev pub at_col : Framebuffer → ℕ → ℕ
at_col fb col = if col == minus_one then fb.ds.cursor_col else col

-- A negative row or column fails the conversion to usize.
abbrev pub get_i32 : {A : Type 0} → List A → ℕ → Option A
get_i32 xs i = if lt_i32 i 0 then none else get_elem? xs i

-- `Framebuffer::row`
unfoldable pub row : ℕ → Framebuffer → Option Row
row r fb = get_i32 fb.rows (at_row fb r)

-- `Framebuffer::cell`
unfoldable pub cell : ℕ → ℕ → Framebuffer → Option Cell
cell r c fb = get_i32 fb.rows (at_row fb r) >>=? λ found. get_i32 found.cells (at_col fb c)

-- A write through `mutable_row`.
unfoldable pub mutable_row : ℕ → (Row → Option Row) → Framebuffer → Option Framebuffer
mutable_row r f fb =
    update_at fb.rows (as_usize (at_row fb r)) f >>=? λ rows. some (record fb { rows = rows })

-- A write through `mutable_cell`.
unfoldable pub mutable_cell : ℕ → ℕ → (Cell → Cell) → Framebuffer → Option Framebuffer
mutable_cell r c f fb =
    mutable_row r
      (λ found. update_at found.cells (as_usize (at_col fb c)) (λ old. some (f old)) >>=? λ cells.
        some (record found { cells = cells }))
      fb

-- Where `combining_cell` is, if it is still on the screen: the column and the row.
unfoldable pub combining_cell : Framebuffer → Option (ℕ × ℕ)
combining_cell fb =
    let col = fb.ds.combining_char_col in
    let row = fb.ds.combining_char_row in
    if lt_i32 col 0 || lt_i32 row 0 || le_i32 fb.ds.width col || le_i32 fb.ds.height row
    then none
    else some (col, row)

unfoldable pub apply_renditions_to_cell : ℕ → ℕ → Framebuffer → Option Framebuffer
apply_renditions_to_cell r c fb =
    mutable_cell r c (λ old. record old { renditions = fb.ds.renditions }) fb

unfoldable pub apply_hyperlink_to_cell : ℕ → ℕ → Framebuffer → Option Framebuffer
apply_hyperlink_to_cell r c fb =
    mutable_cell r c (λ old. record old { hyperlink = fb.ds.hyperlink }) fb

unfoldable pub insert_cells : ℕ → ℕ → ℕ → Framebuffer → Option Framebuffer
insert_cells r col count fb =
    mutable_row r
      (λ found. some (record found {
        cells = Cell.insert_cells (as_usize col) count (background_rendition fb.ds) found.cells;
      }))
      fb

unfoldable pub delete_cells : ℕ → ℕ → ℕ → Framebuffer → Option Framebuffer
delete_cells r col count fb =
    mutable_row r
      (λ found. some (record found {
        cells = Cell.delete_cells (as_usize col) count (background_rendition fb.ds) found.cells;
      }))
      fb

unfoldable pub reset_cell : ℕ → ℕ → Framebuffer → Option Framebuffer
reset_cell r c fb = mutable_cell r c (Cell.reset (background_rendition fb.ds)) fb

unfoldable pub reset_row : ℕ → Framebuffer → Option Framebuffer
reset_row r fb =
    mutable_row r (λ found. some (Cell.reset_row fb.gen_counter (background_rendition fb.ds) found))
      (count_gen fb)

unfoldable pub reset : Framebuffer → Framebuffer
reset fb =
    let fresh = record fb { ds = new_draw_state fb.ds.width fb.ds.height } in
    record (count_gen fresh) {
      rows = replicate (as_usize fb.ds.height) (newrow fresh);
      window_title = [];
      clipboard = [];
      color_queries = [];
    }

-- `Framebuffer::soft_reset`, on the draw state, which is all that it changes.
unfoldable pub soft_reset : DrawState → Option DrawState
soft_reset d =
    DrawState.set_scrolling_region 0 (sub_i32 d.height 1) (record d {
      insert_mode = false;
      origin_mode = false;
      cursor_visible = true;
      application_mode_cursor_keys = false;
    })
    >>=? λ e. some (
        DrawState.clear_saved_cursor
          (record (DrawState.add_rendition 0 e) { hyperlink = no_hyperlink }))

abbrev pub set_title_initialized : Framebuffer → Framebuffer
set_title_initialized fb = record fb { title_initialized = true }

abbrev pub set_icon_name : List ℕ → Framebuffer → Framebuffer
set_icon_name s fb = record fb { icon_name = s }

abbrev pub set_window_title : List ℕ → Framebuffer → Framebuffer
set_window_title s fb = record fb { window_title = s }

unfoldable pub set_clipboard : List ℕ → Framebuffer → Framebuffer
set_clipboard s fb = record fb { clipboard = s; clipboard_seq = wrapping_add 32 fb.clipboard_seq 1 }

unfoldable pub add_color_query : List ℕ → Framebuffer → Framebuffer
add_color_query query fb = record fb {
  color_queries =
      if leb (length fb.color_queries + length query) maximum_color_queries
      then fb.color_queries ++ query
      else fb.color_queries;
  color_query_seq = wrapping_add 32 fb.color_query_seq 1;
}

abbrev pub clear_color_queries : Framebuffer → Framebuffer
clear_color_queries fb = record fb { color_queries = [] }

unfoldable pub prefix_window_title : List ℕ → Framebuffer → Framebuffer
prefix_window_title s fb = record fb {
  icon_name = if text_eq fb.icon_name fb.window_title then s ++ fb.icon_name else fb.icon_name;
  window_title = s ++ fb.window_title;
}

abbrev pub resize_row : ℕ → ℕ → Row → Row
resize_row width background_color r = record r {
  cells = resize_list (set_row_wrap false r.cells) width (new_cell background_color);
}

-- The loop over the rows stops at the first that is the blank row itself; that row was made just
-- before, so those are the rows that were appended, from `kept` on.
abbrev pub resize_rows : ℕ → ℕ → ℕ → List Row → List Row
resize_rows kept width background_color rows =
    map (resize_row width background_color) (take kept rows) ++ drop kept rows

abbrev pub resized : ℕ → ℕ → Framebuffer → DrawState → Framebuffer
resized width height fb d =
    let fresh = record fb { ds = d } in
    let same = fb.ds.height == height in
    let rows = if same then fb.rows else resize_list fb.rows (as_usize height) (newrow fresh) in
    let kept = if same then length fb.rows else min (length fb.rows) (as_usize height) in
    record (count_gen fresh) {
      rows =
          if fb.ds.width == width
          then rows
          else resize_rows kept (as_usize width) (background_rendition d) rows;
    }

unfoldable pub resize : ℕ → ℕ → Framebuffer → Option Framebuffer
resize width height fb =
    let w = clamp_dimension width in
    let h = clamp_dimension height in DrawState.resize w h fb.ds >>=? λ d. some (resized w h fb d)

abbrev pub ring_bell : Framebuffer → Framebuffer
ring_bell fb = record fb { bell_count = wrapping_add 32 fb.bell_count 1 }
