-- ===== src/Prelude/Indexing.antt =====
-- What stands at a place of a list that was put together from others.
use rmosh.Prelude.Tests.{ltb, if◌then◌else◌}
use rmosh.Prelude.Lists.{length, get_elem?, take, drop}
use rmosh.Prelude.Words.{replicate, resize_list}
use Prim.Native.Nat.{ℕ, zero, suc, ◌+◌, ◌-◌, ◌<◌}
use mathlib.Core.Path.{◌≡◌, refl}
use mathlib.Core.Option.{none, some}
use mathlib.Core.List.{List, [], ◌∷◌, ◌++◌}
use native.Mathlib.Nat.{zero-add, suc-add}
use native.Mathlib.Omega.{arith}

module _ {ℓ} {A : Type ℓ} where
  pub get_elem?-append :
      (xs ys : List A) (i : ℕ)
      → get_elem? (xs ++ ys) i
        ≡ (if ltb i (length xs) then get_elem? xs i else get_elem? ys (i - length xs))
  get_elem?-append [] ys i = ground arith
  get_elem?-append (x ∷ xs) ys zero = ground arith
  get_elem?-append (x ∷ xs) ys (suc i) = ground (arith, get_elem?-append xs ys i)

  pub get_elem?-nil : (i : ℕ) → get_elem? {A = A} [] i ≡ none
  get_elem?-nil i = refl

  pub get_elem?-take :
      (n : ℕ) (xs : List A) (i : ℕ)
      → get_elem? (take n xs) i ≡ (if ltb i n then get_elem? xs i else none)
  get_elem?-take zero xs i = ground arith
  get_elem?-take (suc n) [] i = ground arith
  get_elem?-take (suc n) (x ∷ xs) zero = ground arith
  get_elem?-take (suc n) (x ∷ xs) (suc i) = ground (arith, get_elem?-take n xs i)

  pub get_elem?-drop :
      (n : ℕ) (xs : List A) (i : ℕ) → get_elem? (drop n xs) i ≡ get_elem? xs (n + i)
  get_elem?-drop zero xs i = rw zero-add refl
  get_elem?-drop (suc n) [] i = refl
  get_elem?-drop (suc n) (x ∷ xs) i = rw suc-add (get_elem?-drop n xs i)

  pub get_elem?-replicate :
      (n : ℕ) (a : A) (i : ℕ) → get_elem? (replicate n a) i ≡ (if ltb i n then some a else none)
  get_elem?-replicate zero a i = ground arith
  get_elem?-replicate (suc n) a zero = ground arith
  get_elem?-replicate (suc n) a (suc i) = ground (arith, get_elem?-replicate n a i)

  pub get_elem?-resize_list :
      (xs : List A) (n : ℕ) (a : A) (i : ℕ)
      → i < n
      → get_elem? (resize_list xs n a) i ≡ (if ltb i (length xs) then get_elem? xs i else some a)
  unfolding resize_list
  get_elem?-resize_list xs zero a i h = absurd (omega arith)
  get_elem?-resize_list [] (suc n) a zero h = ground arith
  get_elem?-resize_list [] (suc n) a (suc i) h = ground (arith, get_elem?-replicate n a i)
  get_elem?-resize_list (x ∷ xs) (suc n) a zero h = ground arith
  get_elem?-resize_list (x ∷ xs) (suc n) a (suc i) h =
      ground (arith, get_elem?-resize_list xs n a i)
