-- ===== src/Terminal/Cell.antt =====
-- crates/mosh-terminal/src/framebuffer.rs: `Cell` and `Row`, over `append_wchar` and `wcwidth` of
-- crates/mosh-sys/src/locale.rs, for which the C library is a parameter.
--
-- The static GEN_COUNTER is a number that the functions that make or reset a row take; whoever calls
-- them counts it up. Rows are values, so sharing them and copying on write are not seen.
pub mod Shift
use rmosh.Prelude.{
  ℕ, ◌+◌, ◌-◌, ◌%◌, Bool, true, false, ◌&&◌, ◌||◌, Option, none, some, List, [], ◌∷◌, ◌++◌, map,
  length, take, drop, replicate, resize_list, min, leb, lt_i32, ◌==◌, if◌then◌else◌,
}
use rmosh.Terminal.Text.{text_eq, is_utf8}
use rmosh.Terminal.Renditions.{
  Renditions, new_renditions, renditions_eq, Hyperlink, no_hyperlink, hyperlink_eq, is_empty_text,
}

-- `wcwidth` of the C library, an i32, and the bytes of `wcrtomb`, `none` on failure.
pub record WideChars : Type 0 where
  pub c_wcwidth : ℕ → ℕ
  pub wcrtomb : ℕ → Option (List ℕ)

unfoldable pub wcwidth : WideChars → ℕ → Option ℕ
wcwidth wide c = if lt_i32 (wide.c_wcwidth c) 0 then none else some (wide.c_wcwidth c % 256)

abbrev or_nothing : Option (List ℕ) → List ℕ
or_nothing none = []
or_nothing (some bs) = bs

-- What `append_wchar` appends.
unfoldable pub append_wchar : WideChars → ℕ → List ℕ
append_wchar wide c = if leb c 127 then c ∷ [] else or_nothing (wide.wcrtomb c)

abbrev pub max_cell_bytes : ℕ
max_cell_bytes = 32

pub record Cell : Type 0 where
  pub contents : List ℕ
  pub renditions : Renditions
  pub hyperlink : Hyperlink
  pub wide : Bool
  pub fallback : Bool
  pub wrap : Bool

abbrev pub new_cell : ℕ → Cell
new_cell background_color = record {
  contents = [];
  renditions = new_renditions background_color;
  hyperlink = no_hyperlink;
  wide = false;
  fallback = false;
  wrap = false;
}

-- `Cell::reset`
abbrev pub reset : ℕ → Cell → Cell
reset background_color c = record c {
  contents = [];
  renditions = new_renditions background_color;
  hyperlink = no_hyperlink;
  wide = false;
  fallback = false;
  wrap = false;
}

abbrev pub is_empty : Cell → Bool
is_empty c = is_empty_text c.contents

abbrev pub is_full : Cell → Bool
is_full c = leb max_cell_bytes (length c.contents)

-- Empty, a space, or a no-break space, which is 194 160 in UTF-8.
unfoldable pub is_blank : Cell → Bool
is_blank c = is_empty c || text_eq c.contents (32 ∷ []) || text_eq c.contents (194 ∷ 160 ∷ [])

unfoldable pub contents_match : Cell → Cell → Bool
contents_match a b = is_blank a && is_blank b || text_eq a.contents b.contents

abbrev pub isprint_iso8859_1 : ℕ → Bool
isprint_iso8859_1 c = leb 0xa0 c && leb c 0xff || leb 0x20 c && leb c 0x7e

-- `Cell::append`
unfoldable pub append : WideChars → ℕ → Cell → Cell
append wide ch c =
    if leb ch 0x7f
    then record c { contents = c.contents ++ ch ∷ [] }
    else let bytes = append_wchar wide ch in
      if is_utf8 bytes then record c { contents = c.contents ++ bytes } else c

-- What `Cell::print_grapheme` appends.
unfoldable pub print_grapheme : Cell → List ℕ
print_grapheme c =
    if is_empty c then 32 ∷ [] else (if c.fallback then 194 ∷ 160 ∷ [] else []) ++ c.contents

-- `Cell::width`
abbrev pub cell_width : Cell → ℕ
cell_width c = (if c.wide then 1 else 0) + 1

abbrev bool_eq : Bool → Bool → Bool
bool_eq true b = b
bool_eq false b = if b then false else true

unfoldable pub cell_eq : Cell → Cell → Bool
cell_eq a b =
    text_eq a.contents b.contents
    && renditions_eq a.renditions b.renditions
    && hyperlink_eq a.hyperlink b.hyperlink
    && bool_eq a.wide b.wide
    && bool_eq a.fallback b.fallback
    && bool_eq a.wrap b.wrap

pub record Row : Type 0 where
  pub cells : List Cell
  pub gen : ℕ

-- `Row::new`, with the generation that it draws.
abbrev pub new_row : ℕ → ℕ → ℕ → Row
new_row gen width background_color = record {
  cells = replicate width (new_cell background_color);
  gen = gen;
}

-- `Row::insert_cells`, on the cells: truncate, then splice.
unfoldable pub insert_cells : ℕ → ℕ → ℕ → List Cell → List Cell
insert_cells col count background_color cells =
    let width = length cells in
    let room = min count (width - col) in
    let kept = take (width - room) cells in
    if leb width col
    then cells
    else take col kept ++ (replicate room (new_cell background_color) ++ drop col kept)

-- `Row::delete_cells`, on the cells: drain, then resize.
unfoldable pub delete_cells : ℕ → ℕ → ℕ → List Cell → List Cell
delete_cells col count background_color cells =
    let width = length cells in
    let room = min count (width - col) in
    if leb width col
    then cells
    else resize_list (take col cells ++ drop (col + room) cells) width (new_cell background_color)

abbrev pub reset_row : ℕ → ℕ → Row → Row
reset_row gen background_color r = record {
  cells = map (reset background_color) r.cells;
  gen = gen;
}

-- `Row::wrap`
abbrev pub row_wrap : List Cell → Bool
row_wrap [] = false
row_wrap (c ∷ []) = c.wrap
row_wrap (c ∷ d ∷ cs) = row_wrap (d ∷ cs)

-- `Row::set_wrap`
unfoldable pub set_row_wrap : Bool → List Cell → List Cell
set_row_wrap w [] = []
set_row_wrap w (c ∷ []) = record c { wrap = w } ∷ []
set_row_wrap w (c ∷ d ∷ cs) = c ∷ set_row_wrap w (d ∷ cs)

cells_eq : List Cell → List Cell → Bool
cells_eq [] [] = true
cells_eq [] (b ∷ bs) = false
cells_eq (a ∷ as') [] = false
cells_eq (a ∷ as') (b ∷ bs) = cell_eq a b && cells_eq as' bs

unfoldable pub row_eq : Row → Row → Bool
unfolding cells_eq
row_eq a b = a.gen == b.gen && cells_eq a.cells b.cells
