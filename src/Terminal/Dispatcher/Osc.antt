-- ===== src/Terminal/Dispatcher/Osc.antt =====
-- crates/mosh-terminal/src/dispatcher.rs: `osc_dispatch`, which acts on a completed operating system
-- command. None of it can panic: every index stands behind a test of the length.
pub mod Queries
use rmosh.Prelude.{
  ℕ, zero, suc, ◌+◌, ◌-◌, ◌%◌, ◌^◌, Bool, true, false, ◌&&◌, ◌||◌, not, Option, none, some, List,
  [], ◌∷◌, ◌++◌, length, take, drop, get_elem?, ltb, leb, min, wrapping_sub, ◌>>=?◌, ◌==◌,
  if◌then◌else◌,
}
use rmosh.Terminal.Text.{text_eq, is_ascii_digit}
use rmosh.Terminal.Renditions.{Hyperlink, new_hyperlink, is_empty_text}
use rmosh.Terminal.Framebuffer.{
  Framebuffer, set_clipboard, add_color_query, set_title_initialized, set_icon_name,
  set_window_title,
}
use rmosh.Terminal.Dispatcher.{Dispatcher, split}

-- The text, unless a character of it is not printable ASCII.
unfoldable pub parse_printable_osc : List ℕ → Option (List ℕ)
parse_printable_osc [] = some []
parse_printable_osc (c ∷ cs) =
    let rest = parse_printable_osc cs in
    if ltb c 32 || ltb 126 c then none else rest >>=? λ out. some (c ∷ out)

-- `s.split_once(';')`
unfoldable pub split_once : List ℕ → Option (List ℕ × List ℕ)
split_once [] = none
split_once (c ∷ cs) =
    let later = split_once cs >>=? λ found. some (c ∷ found.0, found.1) in
    if c == b';' then some ([], cs) else later

abbrev pub set_link : Option (List ℕ × List ℕ) → Framebuffer → Framebuffer
set_link none fb = fb
set_link (some (params, url)) fb = record fb {
  ds = record fb.ds { hyperlink = new_hyperlink params url };
}

abbrev pub second_is_semicolon : List ℕ → Bool
second_is_semicolon (a ∷ b ∷ rest) = b == b';'
second_is_semicolon (a ∷ []) = false
second_is_semicolon [] = false

unfoldable pub osc_8 : List ℕ → Framebuffer → Framebuffer
osc_8 osc fb =
    if leb (length osc) 2 || not (second_is_semicolon osc)
    then fb
    else set_link (split_once (drop 2 osc)) fb

abbrev pub all_digits : List ℕ → Bool
all_digits [] = true
all_digits (c ∷ cs) = is_ascii_digit c && all_digits cs

abbrev pub is_question : List ℕ → Bool
is_question s = text_eq s (b'?' ∷ [])

-- An even number of fields, each second of them a question for the index before it.
unfoldable pub palette_query : List (List ℕ) → Bool
palette_query [] = true
palette_query (index ∷ []) = false
palette_query (index ∷ question ∷ fields) =
    not (is_empty_text index) && all_digits index && is_question question && palette_query fields

-- Two characters, a 1 and a digit.
abbrev pub is_dynamic : List ℕ → Bool
is_dynamic (a ∷ b ∷ []) = a == b'1' && is_ascii_digit b
is_dynamic (a ∷ b ∷ c ∷ cs) = false
is_dynamic (a ∷ []) = false
is_dynamic [] = false

abbrev pub is_query : List ℕ → List ℕ → Bool
is_query command rest =
    if text_eq command (b'4' ∷ [])
    then palette_query (split rest)
    else is_dynamic command && is_question rest

abbrev pub quoted : List ℕ → List ℕ
quoted body = (27 ∷ b']' ∷ []) ++ (body ++ 27 ∷ 92 ∷ [])

unfoldable pub parse_color_query : List ℕ → Option (List ℕ)
parse_color_query osc = parse_printable_osc osc >>=? λ body.
    split_once body >>=? λ parts. if is_query parts.0 parts.1 then some (quoted body) else none

abbrev pub clipboard_prefix : List ℕ
clipboard_prefix = b'5' ∷ b'2' ∷ b';' ∷ b'c' ∷ b';' ∷ []

-- The number of the command, an i64, and where its text starts.
abbrev pub osc_command : List ℕ → ℕ × ℕ
osc_command [] = (2 ^ 64 - 1, 0)
osc_command (a ∷ rest) =
    if a == b';'
    then (0, 1)
    else if second_is_semicolon (a ∷ rest)
    then (wrapping_sub 64 a b'0', 2)
    else (2 ^ 64 - 1, 0)

abbrev pub set_titles : Bool → Bool → List ℕ → Framebuffer → Framebuffer
set_titles icon title text fb =
    let begun = set_title_initialized fb in
    let named = if icon then set_icon_name text begun else begun in
    if title then set_window_title text named else named

abbrev pub open_link : Option (List ℕ) → Framebuffer → Framebuffer
open_link none fb = fb
open_link (some osc) fb = osc_8 osc fb

-- The commands that have a number.
unfoldable pub numbered : ℕ → ℕ → List ℕ → Framebuffer → Framebuffer
numbered cmd offset osc fb =
    let icon = cmd == 0 || cmd == 1 in
    let title = cmd == 0 || cmd == 2 in
    if cmd == 8
    then open_link (parse_printable_osc osc) fb
    else if icon || title
    then set_titles icon title (drop offset (take (min (length osc) 256) osc)) fb
    else fb

abbrev pub query_or : Option (List ℕ) → List ℕ → Framebuffer → Framebuffer
query_or (some query) osc fb = add_color_query query fb
query_or none osc fb = numbered (osc_command osc).0 (osc_command osc).1 osc fb

unfoldable pub osc_dispatch : Dispatcher → Framebuffer → Framebuffer
osc_dispatch d fb =
    if leb 5 (length d.osc_string) && text_eq (take 5 d.osc_string) clipboard_prefix
    then set_clipboard (drop 5 d.osc_string) fb
    else query_or (parse_color_query d.osc_string) d.osc_string fb
