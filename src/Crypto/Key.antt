-- ===== src/Crypto/Key.antt =====
-- crates/mosh-crypto/src/lib.rs: keys and nonces. A `&str` is its bytes.
pub mod Laws
use rmosh.Prelude.{
  ℕ, ◌+◌, ◌^◌, Bool, true, false, Option, none, some, List, [], ◌∷◌, ◌++◌, Result, ok, err, ◌>>=◌,
  ok_or, length, take, drop, ◌==◌, if◌then◌else◌, wrapping_add, be_bytes, from_be_bytes,
}
use rmosh.Crypto.Base64.{decode_key, encode_key}

pub data CryptoError : Type 0 where
  bad_key_length bad_key_encoding not_a_128_bit_key bad_nonce_length : CryptoError
  too_short integrity_check counter_wrapped block_limit_reached : CryptoError

pub record Base64Key : Type 0 where
  pub key : List ℕ

-- `!=` of two strings.
abbrev str_eq : List ℕ → List ℕ → Bool
str_eq [] [] = true
str_eq [] (y ∷ ys) = false
str_eq (x ∷ xs) [] = false
str_eq (x ∷ xs) (y ∷ ys) = if x == y then str_eq xs ys else false

pub printable : Base64Key → List ℕ
printable k = take 22 (encode_key k.key)

same_print : List ℕ → Base64Key → Result CryptoError Base64Key
same_print text this = if str_eq (printable this) text then ok this else err not_a_128_bit_key

parse_key : List ℕ → Result CryptoError Base64Key
unfolding same_print
parse_key text = do
  key ← ok_or (decode_key (text ++ b'=' ∷ b'=' ∷ [])) bad_key_encoding
  same_print text (record { key = key })

pub parse : List ℕ → Result CryptoError Base64Key
unfolding parse_key
parse text = if length text == 22 then parse_key text else err bad_key_length

-- Twelve bytes: four of zero and the counter.
pub record Nonce : Type 0 where
  pub bytes : List ℕ

unfoldable pub new_nonce : ℕ → Nonce
new_nonce val = record { bytes = 0 ∷ 0 ∷ 0 ∷ 0 ∷ be_bytes 8 val }

unfoldable pub from_wire : List ℕ → Result CryptoError Nonce
from_wire wire =
    if length wire == 8 then ok (record { bytes = 0 ∷ 0 ∷ 0 ∷ 0 ∷ wire }) else err bad_nonce_length

unfoldable pub val : Nonce → ℕ
val n = from_be_bytes (drop 4 n.bytes)

unfoldable pub wire : Nonce → List ℕ
wire n = drop 4 n.bytes

-- Message::new takes both fields.
pub record Message : Type 0 where
  pub nonce : Nonce
  pub text : List ℕ

-- `Unique`, a counter: the state after the call, and its result.
unfoldable pub next_value : ℕ → ℕ × Result CryptoError ℕ
next_value counter =
    let next = wrapping_add 64 counter 1 in
    (next, if next == 0 then err counter_wrapped else ok counter)
