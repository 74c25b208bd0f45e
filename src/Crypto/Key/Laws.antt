-- ===== src/Crypto/Key/Laws.antt =====
-- Keys and nonces survive their printed and their wire form.
use rmosh.Prelude.{
  ℕ, zero, suc, ◌+◌, ◌%◌, ◌^◌, ◌<◌, ◌≡◌, ◌↔◌, refl, ap, ◌∙◌, inl, inr, true, some, List, [], ◌∷◌,
  ◌++◌, arith, Result, ok, length, get_elem?, length-take, length-be_bytes, take, All, IsByte,
  IsU64, ◌==◌, Option-cases, from_be_bytes-be_bytes,
}
use rmosh.Crypto.Base64.{decode_key, encode_key}
use rmosh.Crypto.Base64.RoundTrip.{decode_key-encode_key, encode_key-padding, length-encode_key}
use rmosh.Crypto.Key.{
  CryptoError, Base64Key, str_eq, printable, parse, new_nonce, from_wire, val, wire, next_value,
}

str_eq_refl : (xs : List ℕ) → str_eq xs xs ≡ true
str_eq_refl [] = refl
str_eq_refl (x ∷ xs) = ground (arith, str_eq_refl xs)

str_eq→eq : (xs ys : List ℕ) → str_eq xs ys ≡ true → xs ≡ ys
str_eq→eq [] [] e = refl
str_eq→eq [] (y ∷ ys) e = cc
str_eq→eq (x ∷ xs) [] e = cc
str_eq→eq (x ∷ xs) (y ∷ ys) e = ground (arith, str_eq→eq xs ys)

-- A key is sixteen bytes.
pub record IsKey (k : Base64Key) : Type 0 where
  pub bytes : All IsByte k.key
  pub sixteen : length k.key ≡ 16

parse-printable : (k : Base64Key) → IsKey k → parse (printable k) ≡ ok k
unfolding parse printable
parse-printable k v =
    let size : (length (take 22 (encode_key k.key)) == 22) ≡ true =
      ground (arith, length-take 22 (encode_key k.key), length-encode_key k.key v.sixteen) in
    rw
      (
        size,
        encode_key-padding k.key v.sixteen,
        decode_key-encode_key k.key v.bytes v.sixteen,
        str_eq_refl (take 22 (encode_key k.key)),
      )
      refl

printable-parse : (text : List ℕ) (k : Base64Key) → parse text ≡ ok k → text ≡ printable k
unfolding parse printable
printable-parse text k e = elim (Option-cases (decode_key (text ++ b'=' ∷ b'=' ∷ []))) [
  | inl bad ↦ ground (arith, bad)
  | inr (key, good) ↦ ground (arith, good, str_eq→eq (take 22 (encode_key key)) text)
]

-- A text parses to a key exactly when it is what the key prints as: no two texts stand for one key.
pub parse-printable_iff :
    (text : List ℕ) (k : Base64Key) → IsKey k → (parse text ≡ ok k) ↔ (text ≡ printable k)
parse-printable_iff text k v = (printable-parse text k, λ e. ap parse e ∙ parse-printable k v)

-- A counter's nonce keeps it, travels as eight bytes, and is rebuilt from those.
pub from_wire-wire :
    (v : ℕ)
    → IsU64 v
    → (val (new_nonce v) ≡ v)
      × (length (wire (new_nonce v)) ≡ 8)
      × (from_wire (wire (new_nonce v)) ≡ ok (new_nonce v))
unfolding val new_nonce wire from_wire
from_wire-wire v h = (
  from_be_bytes-be_bytes 8 v (omega arith),
  length-be_bytes 8 v,
  ground (arith, length-be_bytes 8 v),
)

-- The results of `n` calls of `next_value`, the first one from `counter`.
abbrev pub handed_out : ℕ → ℕ → List (Result CryptoError ℕ)
handed_out counter zero = []
handed_out counter (suc n) = (next_value counter).1 ∷ handed_out (next_value counter).0 n

-- Until the counter wraps, call number `i` hands out the start plus `i`; so no value comes twice.
pub handed_out_lem :
    (counter n i : ℕ)
    → counter + n < 2 ^ 64
    → i < n
    → get_elem? (handed_out counter n) i ≡ some (ok (counter + i))
unfolding next_value
handed_out_lem counter zero i h lt = absurd (omega arith)
handed_out_lem counter (suc n) zero h lt = ground arith
handed_out_lem counter (suc n) (suc i) h lt =
    let next : (counter + 1) % 2 ^ 64 ≡ suc counter = omega arith in
    rw next (
      handed_out_lem (suc counter) n i (omega arith) (omega arith)
      ∙ ap (λ k. some (ok k)) (omega arith))
