-- ===== src/Prelude/Words.antt =====
-- The signed 32-bit integers of Rust as their bit patterns, and panics.
--
-- An i32 is a number below 2 ^ 32 that stands for itself below 2 ^ 31 and for itself less 2 ^ 32
-- from there on; arithmetic wraps around, as in a release build. A step that may panic returns an
-- Option, with `none` for the panic.
use rmosh.Prelude.Tests.{ltb, leb, if◌then◌else◌}
use rmosh.Prelude.Lists.{length, get_elem?, All}
use Prim.Native.Nat.{ℕ, zero, suc, ◌+◌, ◌-◌, ◌%◌, ◌^◌, ◌<◌, ◌≤◌}
use mathlib.Core.Path.{◌≡◌, refl, ap}
use mathlib.Core.Bool.{Bool, true, false}
use mathlib.Core.Option.{Option, none, some}
use mathlib.Core.List.{List, [], ◌∷◌, ◌++◌}
use native.Mathlib.Omega.{arith}

abbrev pub IsI32 : ℕ → Type 0
IsI32 a = a < 2 ^ 32

abbrev pub minus_one : ℕ
minus_one = 2 ^ 32 - 1

abbrev pub add_i32 : ℕ → ℕ → ℕ
add_i32 a b = (a + b) % 2 ^ 32

abbrev pub sub_i32 : ℕ → ℕ → ℕ
sub_i32 a b = (a + 2 ^ 32 - b) % 2 ^ 32

abbrev pub neg_i32 : ℕ → ℕ
neg_i32 a = (2 ^ 32 - a) % 2 ^ 32

-- `a < b` and `a <= b` of the signed values.
abbrev pub lt_i32 : ℕ → ℕ → Bool
lt_i32 a b = ltb ((a + 2 ^ 31) % 2 ^ 32) ((b + 2 ^ 31) % 2 ^ 32)

abbrev pub le_i32 : ℕ → ℕ → Bool
le_i32 a b = leb ((a + 2 ^ 31) % 2 ^ 32) ((b + 2 ^ 31) % 2 ^ 32)

-- `a as usize`: the sign is extended.
abbrev pub as_usize : ℕ → ℕ
as_usize a = if ltb a (2 ^ 31) then a else a + (2 ^ 64 - 2 ^ 32)

infixl 5 ◌>>=?◌
abbrev pub ◌>>=?◌ {ℓ κ} : {A : Type ℓ} {B : Type κ} → Option A → (A → Option B) → Option B
none >>=? f = none
some a >>=? f = f a

-- `x.clamp(lo, hi)`, which panics on an empty range.
unfoldable pub clamp_i32 : ℕ → ℕ → ℕ → Option ℕ
clamp_i32 x lo hi =
    if lt_i32 hi lo then none else some (if lt_i32 x lo then lo else if lt_i32 hi x then hi else x)

-- A loop over `start..end`, of `n` rounds from `start` on, each of which may panic.
unfoldable pub for_range {ℓ} : {S : Type ℓ} → ℕ → ℕ → (ℕ → S → Option S) → S → Option S
for_range start zero body s = some s
for_range start (suc n) body s = body start s >>=? for_range (start + 1) n body

-- How many numbers `lo..hi` and `lo..=hi` have.
abbrev pub rounds : ℕ → ℕ → ℕ
rounds lo hi = if lt_i32 lo hi then sub_i32 hi lo else 0

abbrev pub rounds_inclusive : ℕ → ℕ → ℕ
rounds_inclusive lo hi = if le_i32 lo hi then sub_i32 hi lo + 1 else 0

-- A loop over i32 numbers.
abbrev pub for_i32 {ℓ} : {S : Type ℓ} → ℕ → ℕ → (ℕ → S → Option S) → S → Option S
for_i32 start n body = for_range start n (λ i. body (i % 2 ^ 32))

module _ {ℓ} {A : Type ℓ} where
  -- `v[i] = ...` with a step on the element; out of range it panics.
  unfoldable pub update_at : List A → ℕ → (A → Option A) → Option (List A)
  update_at [] i f = none
  update_at (x ∷ xs) zero f = f x >>=? λ y. some (y ∷ xs)
  update_at (x ∷ xs) (suc i) f = update_at xs i f >>=? λ ys. some (x ∷ ys)

  abbrev pub replicate : ℕ → A → List A
  replicate zero a = []
  replicate (suc n) a = a ∷ replicate n a

  -- The first `n` elements, filled up with `x`: `v.resize(n, x)`.
  unfoldable pub resize_list : List A → ℕ → A → List A
  resize_list xs zero a = []
  resize_list [] (suc n) a = a ∷ replicate n a
  resize_list (x ∷ xs) (suc n) a = x ∷ resize_list xs n a

  pub length-replicate : (n : ℕ) (a : A) → length (replicate n a) ≡ n
  length-replicate zero a = refl
  length-replicate (suc n) a = ap suc (length-replicate n a)

  pub length-resize_list : (xs : List A) (n : ℕ) (a : A) → length (resize_list xs n a) ≡ n
  unfolding resize_list
  length-resize_list [] zero a = refl
  length-resize_list (x ∷ xs) zero a = refl
  length-resize_list [] (suc n) a = ap suc (length-replicate n a)
  length-resize_list (x ∷ xs) (suc n) a = ap suc (length-resize_list xs n a)

  -- What a run of steps leaves, when none of them panics.
  abbrev pub Succeeds : (A → Type 0) → Option A → Type 0
  Succeeds P none = ⊥
  Succeeds P (some a) = P a

module _ {ℓ} {A : Type ℓ} where
  pub get_elem?-Succeeds :
      (xs : List A) (n : ℕ) → n < length xs → Succeeds (λ _. Unit {0}) (get_elem? xs n)
  get_elem?-Succeeds [] n h = absurd (omega arith)
  get_elem?-Succeeds (x ∷ xs) zero h = tt
  get_elem?-Succeeds (x ∷ xs) (suc n) h = get_elem?-Succeeds xs n (omega arith)

-- In bounds, a clamp does not panic and lands between them.
pub clamp_i32-bounds :
    (x lo hi : ℕ)
    → IsI32 x
    → lo ≤ hi
    → hi < 2 ^ 31
    → Succeeds (λ y. (lo ≤ y) × (y ≤ hi)) (clamp_i32 x lo hi)
unfolding clamp_i32
clamp_i32-bounds x lo hi wx h small = ground arith

module _ {ℓ} {A : Type ℓ} (P : A → Type 0) where
  pub Succeeds-bind {ι} :
      {B : Type ι} (Q : B → Type 0) (m : Option A) (f : A → Option B)
      → Succeeds P m
      → ((a : A) → P a → Succeeds Q (f a))
      → Succeeds Q (m >>=? f)
  Succeeds-bind Q none f h k = absurd h
  Succeeds-bind Q (some a) f h k = k a h

  pub Succeeds-map :
      (Q : A → Type 0) (m : Option A) → ((a : A) → P a → Q a) → Succeeds P m → Succeeds Q m
  Succeeds-map Q none f h = h
  Succeeds-map Q (some a) f h = f a h

  pub Succeeds-if :
      (b : Bool) (m n : Option A)
      → (b ≡ true → Succeeds P m)
      → (b ≡ false → Succeeds P n)
      → Succeeds P (if b then m else n)
  Succeeds-if true m n h k = h refl
  Succeeds-if false m n h k = k refl

  pub for_range-Succeeds :
      (start n : ℕ) (body : ℕ → A → Option A) (s : A)
      → ((i : ℕ) (t : A) → start ≤ i → i < start + n → P t → Succeeds P (body i t))
      → P s
      → Succeeds P (for_range start n body s)
  unfolding for_range
  for_range-Succeeds start zero body s keep h = h
  for_range-Succeeds start (suc n) body s keep h =
      Succeeds-bind P (body start s) (for_range (start + 1) n body)
        (keep start s (omega arith) (omega arith) h)
        (λ t ht.
          for_range-Succeeds (start + 1) n body t
            (λ i u lo hi. keep i u (omega arith) (omega arith)) ht)

module _ {ℓ} {A : Type ℓ} where
  pub All-append : (P : A → Type 0) (xs ys : List A) → All P xs → All P ys → All P (xs ++ ys)
  All-append P [] ys h k = k
  All-append P (x ∷ xs) ys h k = (h.0, All-append P xs ys h.1 k)

  pub All-replicate : (P : A → Type 0) (n : ℕ) (a : A) → P a → All P (replicate n a)
  All-replicate P zero a h = tt
  All-replicate P (suc n) a h = (h, All-replicate P n a h)

  pub update_at-All :
      (P : A → Type 0) (xs : List A) (i : ℕ) (f : A → Option A)
      → All P xs
      → i < length xs
      → ((x : A) → P x → Succeeds P (f x))
      → Succeeds (λ ys. (length ys ≡ length xs) × All P ys) (update_at xs i f)
  unfolding update_at
  update_at-All P [] i f h lt keep = absurd (omega arith)
  update_at-All P (x ∷ xs) zero f h lt keep =
      Succeeds-bind P _ (f x) _ (keep x h.0) (λ y hy. (refl, (hy, h.1)))
  update_at-All P (x ∷ xs) (suc i) f h lt keep =
      Succeeds-bind (λ ys. (length ys ≡ length xs) × All P ys) _ (update_at xs i f) _
        (update_at-All P xs i f h.1 (omega arith) keep) (λ ys hy. (ap suc hy.0, (h.0, hy.1)))
