-- ===== src/Crypto/Base64/Table.antt =====
-- The alphabet: `sixbit` inverts `TABLE`.
use rmosh.Prelude.{
  ℕ, zero, suc, ◌<◌, ◌≡◌, refl, Bool, true, ◌&&◌, some, none, Option, option_eq, arith, ◌==◌,
  Bool-cases, inl, inr,
}
use rmosh.Crypto.Base64.{sixbit, letter}

option_eq-some : (o : Option ℕ) (v : ℕ) → option_eq o (some v) ≡ true → o ≡ some v
option_eq-some none v h = cc
option_eq-some (some u) v h = ground arith

-- The letters of the first numbers read back.
inverted : ℕ → Bool
inverted zero = true
inverted (suc top) = inverted top && option_eq (sixbit (letter top)) (some top)

inverted_lem : (top v : ℕ) → v < top → inverted top ≡ true → sixbit (letter v) ≡ some v
unfolding inverted
inverted_lem zero v below h = absurd (omega arith)
inverted_lem (suc top) v below h = elim (Bool-cases (v == top)) [
  | inl last ↦
      let same : v ≡ top = ground arith in
      rw same (option_eq-some (sixbit (letter top)) top (ground arith))
  | inr other ↦ inverted_lem top v (ground arith) (ground arith)
]

table_inverted : inverted 64 ≡ true
unfolding inverted sixbit letter
table_inverted = refl

pub sixbit-letter : (v : ℕ) → v < 64 → sixbit (letter v) ≡ some v
sixbit-letter v h = inverted_lem 64 v h table_inverted
