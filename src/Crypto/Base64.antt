-- ===== src/Crypto/Base64.antt =====
-- crates/mosh-crypto/src/base64.rs: 16-byte keys as 24 characters. A character is its ASCII code,
-- `x >> k` is `x / 2 ^ k`, `x & 0x3f` is `x % 64`, and `as u8` is `% 256`.
pub mod Table
pub mod RoundTrip
use rmosh.Prelude.{
  ℕ, zero, suc, ◌+◌, ◌-◌, ◌*◌, ◌/◌, ◌%◌, ◌^◌, Bool, true, false, ◌&&◌, Option, none, some, List, [],
  ◌∷◌, ◌++◌, get_elem?, length, take, drop, leb, ◌==◌, if◌then◌else◌, unwrap_or,
}
use Prim.Native.Char.{code}
use Prim.Native.String.{String}
use Prim.Native.String

-- The characters of a text, by their codes.
abbrev pub codes : String → List ℕ
codes String.[] = []
codes (String.◌∷◌ c s) = code c ∷ codes s

-- TABLE
abbrev pub table : List ℕ
table = codes "ABCDEFGHIJKLMNOPQRSTUVWXYZabcdefghijklmnopqrstuvwxyz0123456789+/"

abbrev within : ℕ → ℕ → ℕ → Bool
within lo hi c = leb lo c && leb c hi

pub sixbit : ℕ → Option ℕ
sixbit c =
    if within b'A' b'Z' c
    then some (c - b'A')
    else if within b'a' b'z' c
    then some (c - b'a' + 26)
    else if within b'0' b'9' c
    then some (c - b'0' + 52)
    else if c == b'+'
    then some 62
    else if c == b'/'
    then some 63
    else none

-- `TABLE[v]` for a six-bit `v`.
pub letter : ℕ → ℕ
letter v = unwrap_or (get_elem? table v) 0

-- The loop of `decode_key` from character `i` on: `bytes` is the u32, and `raw` what has been
-- written to the front of the array. `raw[15]` is written behind the loop.
pub decode_loop : ℕ → ℕ → List ℕ → List ℕ → Option (List ℕ)
decode_loop i bytes raw [] = some (raw ++ (bytes / 2 ^ 4 % 256) ∷ [])
decode_loop i bytes raw (c ∷ cs) = elim (sixbit c) [
  | none ↦ none
  | some v ↦
      let next = (bytes * 2 ^ 6 % 2 ^ 32) + v in
      if i % 4 == 3
      then decode_loop (i + 1) 0
          (raw ++ (next / 2 ^ 16 % 256) ∷ (next / 2 ^ 8 % 256) ∷ (next % 256) ∷ []) cs
      else decode_loop (i + 1) next raw cs
]

-- `b64[22] != b'=' || b64[23] != b'='`, looked at after the loop.
padded : List ℕ → Bool
padded (x ∷ y ∷ []) = x == b'=' && y == b'='
padded _ = false

check_padding : Option (List ℕ) → List ℕ → Option (List ℕ)
unfolding padded
check_padding none tail = none
check_padding (some raw) tail = if padded tail then some raw else none

pub decode_key : List ℕ → Option (List ℕ)
unfolding check_padding
decode_key b64 =
    if length b64 == 24
    then check_padding (decode_loop 0 0 [] (take 22 b64)) (drop 22 b64)
    else none

abbrev pub group : ℕ → ℕ → ℕ → ℕ
group a b c = a * 2 ^ 16 + b * 2 ^ 8 + c

-- One round of the loop of `encode_key` for each three bytes; then the last byte and the padding.
pub encode_loop : ℕ → List ℕ → List ℕ
encode_loop (suc n) (a ∷ b ∷ c ∷ raw) =
    letter (group a b c / 2 ^ 18 % 64)
    ∷ letter (group a b c / 2 ^ 12 % 64)
    ∷ letter (group a b c / 2 ^ 6 % 64)
    ∷ letter (group a b c % 64)
    ∷ encode_loop n raw
encode_loop zero (last ∷ raw) =
    letter (last / 2 ^ 2 % 64) ∷ letter (last * 2 ^ 4 % 256 % 64) ∷ b'=' ∷ b'=' ∷ []
encode_loop _ _ = []

pub encode_key : List ℕ → List ℕ
encode_key raw = encode_loop 5 raw
