-- ===== src/Terminal/Text.antt =====
-- The text functions of Rust's standard library that crates/mosh-terminal/src uses. A `String` is
-- the list of its UTF-8 bytes, a `char` its code point.
use rmosh.Prelude.{
  ℕ, zero, suc, ◌+◌, ◌/◌, ◌%◌, Bool, true, false, ◌&&◌, Option, none, some, List, [], ◌∷◌, ◌++◌,
  ltb, leb, lt_i32, neg_i32, ◌==◌, if◌then◌else◌,
}

unfoldable pub text_eq : List ℕ → List ℕ → Bool
text_eq [] [] = true
text_eq [] (b ∷ bs) = false
text_eq (a ∷ as') [] = false
text_eq (a ∷ as') (b ∷ bs) = a == b && text_eq as' bs

unfoldable pub encode_utf8 : ℕ → List ℕ
encode_utf8 c =
    if ltb c 128
    then c ∷ []
    else if ltb c 2048
    then (192 + c / 64) ∷ (128 + c % 64) ∷ []
    else if ltb c 65536
    then (224 + c / 4096) ∷ (128 + c / 64 % 64) ∷ (128 + c % 64) ∷ []
    else (240 + c / 262144) ∷ (128 + c / 4096 % 64) ∷ (128 + c / 64 % 64) ∷ (128 + c % 64) ∷ []

-- `s.push(c)`
abbrev pub push : List ℕ → ℕ → List ℕ
push s c = s ++ encode_utf8 c

-- How many bytes follow a first byte, and the range that the next of them must be in.
utf8_first : ℕ → Option (ℕ × ℕ × ℕ)
utf8_first b =
    if ltb b 128
    then some (0, 0, 0)
    else if leb 194 b && leb b 223
    then some (1, 128, 191)
    else if b == 224
    then some (2, 160, 191)
    else if b == 237
    then some (2, 128, 159)
    else if leb 225 b && leb b 239
    then some (2, 128, 191)
    else if b == 240
    then some (3, 144, 191)
    else if leb 241 b && leb b 243
    then some (3, 128, 191)
    else if b == 244
    then some (3, 128, 143)
    else none

utf8_next : ℕ → ℕ → ℕ → ℕ → Option (ℕ × ℕ × ℕ)
unfolding utf8_first
utf8_next zero lo hi b = utf8_first b
utf8_next (suc need) lo hi b = if leb lo b && leb b hi then some (need, 128, 191) else none

utf8_run : Option (ℕ × ℕ × ℕ) → List ℕ → Bool
unfolding utf8_next
utf8_run none bs = false
utf8_run (some (need, lo, hi)) [] = need == 0
utf8_run (some (need, lo, hi)) (b ∷ bs) = utf8_run (utf8_next need lo hi b) bs

-- `std::str::from_utf8(bs)` succeeds.
unfoldable pub is_utf8 : List ℕ → Bool
unfolding utf8_run
is_utf8 = utf8_run (some (0, 0, 0))

decimal_digits : ℕ → ℕ → List ℕ → List ℕ
decimal_digits zero n acc = acc
decimal_digits (suc left) n acc =
    let digit = 48 + n % 10 in
    let more = decimal_digits left (n / 10) (digit ∷ acc) in if ltb n 10 then digit ∷ acc else more

-- A u32 as `format!` prints it: ten digits are enough.
unfoldable pub decimal : ℕ → List ℕ
unfolding decimal_digits
decimal n = decimal_digits 10 n []

abbrev pub is_ascii_digit : ℕ → Bool
is_ascii_digit c = leb 48 c && leb c 57

-- An i32 as `format!` prints it.
unfoldable pub decimal_i32 : ℕ → List ℕ
unfolding decimal
decimal_i32 n = if lt_i32 n 0 then b'-' ∷ decimal (neg_i32 n) else decimal n
