-- ===== src/Strings.antt =====
-- The functions on strings of Rust's standard library that crates/mosh and crates/mosh-server use. A
-- string is the list of its characters here, a character its code point.
use rmosh.Prelude.{
  refl, inl, inr, Bool-cases, Option-cases, ==_iff, ℕ, ◌+◌, ◌-◌, ◌*◌, ◌%◌, ◌^◌, ◌≤◌, ◌≡◌, arith,
  Bool, true, false, ◌&&◌, ◌||◌, Option, none, some, List, [], ◌∷◌, ◌++◌, leb, ◌>>=?◌, ◌==◌,
  if◌then◌else◌,
}
use rmosh.Terminal.Text.{encode_utf8, is_ascii_digit}

-- `char::is_whitespace`
abbrev pub is_whitespace : ℕ → Bool
is_whitespace c =
    (leb 9 c && leb c 13)
    || c == 32
    || c == 0x85
    || c == 0xa0
    || c == 0x1680
    || (leb 0x2000 c && leb c 0x200a)
    || c == 0x2028
    || c == 0x2029
    || c == 0x202f
    || c == 0x205f
    || c == 0x3000

abbrev pub add_word : List ℕ → List (List ℕ) → List (List ℕ)
add_word [] ws = ws
add_word (c ∷ cs) ws = (c ∷ cs) ∷ ws

-- The word that the text begins with, and the words after it.
unfoldable pub words_from : List ℕ → List ℕ × List (List ℕ)
words_from [] = ([], [])
words_from (c ∷ cs) =
    let later = words_from cs in
    if is_whitespace c then ([], add_word later.0 later.1) else (c ∷ later.0, later.1)

-- `s.split_whitespace()`
abbrev pub split_whitespace : List ℕ → List (List ℕ)
split_whitespace s = add_word (words_from s).0 (words_from s).1

abbrev pub trim_start : List ℕ → List ℕ
trim_start [] = []
trim_start (c ∷ cs) = if is_whitespace c then trim_start cs else c ∷ cs

abbrev is_nil : List ℕ → Bool
is_nil [] = true
is_nil (c ∷ cs) = false

abbrev pub trim_end : List ℕ → List ℕ
trim_end [] = []
trim_end (c ∷ cs) =
    let rest = trim_end cs in if is_whitespace c && is_nil rest then [] else c ∷ rest

-- `s.trim()`
abbrev pub trim : List ℕ → List ℕ
trim s = trim_end (trim_start s)

-- `s.strip_prefix(p)`
unfoldable pub strip_prefix : List ℕ → List ℕ → Option (List ℕ)
strip_prefix [] s = some s
strip_prefix (p ∷ ps) [] = none
strip_prefix (p ∷ ps) (c ∷ cs) = if p == c then strip_prefix ps cs else none

-- `s.split_once(sep)`
unfoldable pub split_at_first : ℕ → List ℕ → Option (List ℕ × List ℕ)
split_at_first sep [] = none
split_at_first sep (c ∷ cs) =
    let later = split_at_first sep cs >>=? λ found. some (c ∷ found.0, found.1) in
    if c == sep then some ([], cs) else later

-- `s.bytes()`
abbrev pub utf8_bytes : List ℕ → List ℕ
utf8_bytes [] = []
utf8_bytes (c ∷ cs) = encode_utf8 c ++ utf8_bytes cs

-- The number that the digits make after the number `n` before them.
unfoldable pub digits_from : ℕ → List ℕ → Option ℕ
digits_from n [] = some n
digits_from n (c ∷ cs) =
    let rest = digits_from (n * 10 + (c - 48)) cs in if is_ascii_digit c then rest else none

abbrev pub digits : List ℕ → Option ℕ
digits [] = none
digits (c ∷ cs) = digits_from 0 (c ∷ cs)

abbrev pub at_most : ℕ → ℕ → Option ℕ
at_most bound n = if leb n bound then some n else none

-- `s.parse::<u16>().ok()`: a plus sign is allowed, and a minus sign is not.
unfoldable pub parse_u16 : List ℕ → Option ℕ
parse_u16 [] = none
parse_u16 (c ∷ cs) = (if c == b'+' then digits cs else digits (c ∷ cs)) >>=? at_most 65535

-- `s.parse::<i32>().ok()`
unfoldable pub parse_i32 : List ℕ → Option ℕ
parse_i32 [] = none
parse_i32 (c ∷ cs) =
    if c == b'-'
    then (digits cs >>=? at_most (2 ^ 31) >>=? λ n. some ((2 ^ 32 - n) % 2 ^ 32))
    else ((if c == b'+' then digits cs else digits (c ∷ cs)) >>=? at_most (2 ^ 31 - 1))

at_most-bound : (o : Option ℕ) (bound n : ℕ) → (o >>=? at_most bound) ≡ some n → n ≤ bound
at_most-bound none bound n h = cc
at_most-bound (some m) bound n h = ground arith

pub parse_u16-bound : (s : List ℕ) (n : ℕ) → parse_u16 s ≡ some n → n ≤ 65535
unfolding parse_u16
parse_u16-bound [] n h = cc
parse_u16-bound (c ∷ cs) n h =
    at_most-bound (if c == b'+' then digits cs else digits (c ∷ cs)) 65535 n h

-- Text that is put after a separator is found again.
pub split_at_first-name :
    (sep : ℕ) (var value : List ℕ)
    → split_at_first sep var ≡ none
    → split_at_first sep (var ++ sep ∷ value) ≡ some (var, value)
unfolding split_at_first
split_at_first-name sep [] value h = rw ((==_iff sep sep).1 refl) refl
split_at_first-name sep (c ∷ cs) value h = elim (Bool-cases (c == sep)) [
  | inl here ↦ let never : some ([], cs) ≡ none = rw here at h in cc
  | inr further ↦ elim (Option-cases (split_at_first sep cs)) [
    | inl none_there ↦ rw (further, split_at_first-name sep cs value none_there) refl
    | inr (found, there) ↦
        let never : some (c ∷ found.0, found.1) ≡ none = rw (further, there) at h in cc
  ]
]
