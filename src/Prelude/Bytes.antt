-- ===== src/Prelude/Bytes.antt =====
-- Machine words and bytes: wrap-around, single bits and the big-endian forms of std.
use rmosh.Prelude.Tests.{◌==◌, if◌then◌else◌}
use rmosh.Prelude.Lists.{length, length-append, All}
use Prim.Native.Nat.{ℕ, zero, suc, ◌+◌, ◌-◌, ◌*◌, ◌/◌, ◌%◌, ◌^◌, ◌<◌}
use mathlib.Core.Path.{◌≡◌, refl, sym, ap, ap₂, subst, ◌∙◌}
use mathlib.Core.Bool.{Bool}
use mathlib.Core.List.{List, [], ◌∷◌, ◌++◌, append-nil, append_assoc}
use native.Mathlib.Nat.{add-zero}
use native.Mathlib.Omega.{arith}

abbrev pub IsByte : ℕ → Type 0
IsByte b = b < 256

abbrev pub IsU16 : ℕ → Type 0
IsU16 n = n < 2 ^ 16

abbrev pub IsU64 : ℕ → Type 0
IsU64 n = n < 2 ^ 64

-- `wrapping_add` and `wrapping_sub` at w bits, and `+=`, `-=` of a release build.
abbrev pub wrapping_add : ℕ → ℕ → ℕ → ℕ
wrapping_add w a b = (a + b) % 2 ^ w

abbrev pub wrapping_sub : ℕ → ℕ → ℕ → ℕ
wrapping_sub w a b = (a + 2 ^ w - b) % 2 ^ w

-- `x & (1 << k) != 0`, `x | (1 << k)` and `x & ((1 << k) - 1)`.
abbrev pub test_bit : ℕ → ℕ → Bool
test_bit k x = x / 2 ^ k % 2 == 1

abbrev pub set_bit : ℕ → ℕ → ℕ
set_bit k x = if test_bit k x then x else x + 2 ^ k

abbrev pub low_bits : ℕ → ℕ → ℕ
low_bits k x = x % 2 ^ k

-- `to_be_bytes` of a number of `k` bytes.
unfoldable pub be_bytes : ℕ → ℕ → List ℕ
be_bytes zero v = []
be_bytes (suc k) v = be_bytes k (v / 256) ++ (v % 256) ∷ []

be_value : ℕ → List ℕ → ℕ
be_value acc [] = acc
be_value acc (b ∷ bs) = be_value (acc * 256 + b) bs

-- `from_be_bytes`
unfoldable pub from_be_bytes : List ℕ → ℕ
unfolding be_value
from_be_bytes = be_value 0

be_value-append :
    (acc : ℕ) (xs : List ℕ) (b : ℕ) → be_value acc (xs ++ b ∷ []) ≡ be_value acc xs * 256 + b
unfolding be_value
be_value-append acc [] b = refl
be_value-append acc (x ∷ xs) b = be_value-append (acc * 256 + x) xs b

pub length-be_bytes : (k v : ℕ) → length (be_bytes k v) ≡ k
unfolding be_bytes
length-be_bytes zero v = refl
length-be_bytes (suc k) v =
    omega
      (arith, length-append (be_bytes k (v / 256)) ((v % 256) ∷ []), length-be_bytes k (v / 256))

pub from_be_bytes-be_bytes : (k v : ℕ) → v < 256 ^ k → from_be_bytes (be_bytes k v) ≡ v
unfolding be_bytes from_be_bytes
from_be_bytes-be_bytes zero v h = omega arith
from_be_bytes-be_bytes (suc k) v h = omega (
  arith,
  be_value-append 0 (be_bytes k (v / 256)) (v % 256),
  from_be_bytes-be_bytes k (v / 256) (omega arith),
)

be_bytes-be_value :
    (j acc : ℕ) (bs : List ℕ)
    → All IsByte bs
    → be_bytes (j + length bs) (be_value acc bs) ≡ be_bytes j acc ++ bs
unfolding be_value
be_bytes-be_value j acc [] h =
    ap (λ k. be_bytes k acc) (omega arith) ∙ sym (append-nil (be_bytes j acc))
be_bytes-be_value j acc (b ∷ bs) h =
    ap (λ k. be_bytes k (be_value (acc * 256 + b) bs)) (omega arith)
    ∙ be_bytes-be_value (suc j) (acc * 256 + b) bs h.1
    ∙ unfold be_bytes in
      rw (append_assoc (be_bytes j ((acc * 256 + b) / 256)))
        (ap₂ (λ q r. be_bytes j q ++ r ∷ bs) (omega arith) (omega arith))

-- The bytes of the value of a byte string are that string.
pub be_bytes-from_be_bytes :
    (bs : List ℕ) → All IsByte bs → be_bytes (length bs) (from_be_bytes bs) ≡ bs
unfolding from_be_bytes
be_bytes-from_be_bytes bs h =
    ap (λ k. be_bytes k (be_value 0 bs)) (omega arith)
    ∙ be_bytes-be_value 0 0 bs h
    ∙ unfold be_bytes in refl

be_value-lt :
    (j acc : ℕ) (bs : List ℕ)
    → All IsByte bs
    → acc < 256 ^ j
    → be_value acc bs < 256 ^ (j + length bs)
unfolding be_value
be_value-lt j acc [] h lt = rw (add-zero j) lt
be_value-lt j acc (b ∷ bs) h lt =
    subst (λ k. be_value (acc * 256 + b) bs < 256 ^ k) (omega arith)
      (be_value-lt (suc j) (acc * 256 + b) bs h.1 (omega arith))

pub from_be_bytes-lt : (bs : List ℕ) → All IsByte bs → from_be_bytes bs < 256 ^ length bs
unfolding from_be_bytes
from_be_bytes-lt bs h =
    subst (λ k. be_value 0 bs < 256 ^ k) (omega arith) (be_value-lt 0 0 bs h (omega arith))
