-- ===== src/Network/Transport/Order.antt =====
-- The queue of received states: never empty, and in the order of strictly rising numbers.
use rmosh.Prelude.{
  ℕ, zero, suc, ◌-◌, ◌≤◌, ◌<◌, ◌≡◌, refl, ap, subst, ◌∙◌, inl, inr, true, false, Option, none, some,
  List, [], ◌∷◌, ◌++◌, length, take, drop, ltb, leb, ◌==◌, if◌then◌else◌, unwrap_or, arith,
  Bool-cases,
}
use rmosh.Network.Sync.{SyncState, TimestampedState}
use rmosh.Network.Sender.{has_num}
use rmosh.Network.Transport.{position, find_num, throw_away, insert_state, subtract_each}

module _ {R : Type 0} where
  -- The numbers rise from `lo` on.
  abbrev pub Above : ℕ → List (TimestampedState R) → Type 0
  Above lo [] = Unit {0}
  Above lo (x ∷ xs) = (lo ≤ x.num) × Above (suc x.num) xs

  Above-le : (lo lo' : ℕ) (xs : List (TimestampedState R)) → lo' ≤ lo → Above lo xs → Above lo' xs
  Above-le lo lo' [] le h = tt
  Above-le lo lo' (x ∷ xs) le h = (omega (arith, h.0), h.1)

  Above-drop : (lo n : ℕ) (xs : List (TimestampedState R)) → Above lo xs → Above lo (drop n xs)
  Above-drop lo zero xs h = h
  Above-drop lo (suc n) [] h = tt
  Above-drop lo (suc n) (x ∷ xs) h =
      Above-drop lo n xs (Above-le (suc x.num) lo xs (omega (arith, h.0)) h.1)

  -- What the two operations do, by recursion on the queue.
  abbrev pub insert_sorted :
      TimestampedState R → List (TimestampedState R) → List (TimestampedState R)
  insert_sorted x [] = x ∷ []
  insert_sorted x (y ∷ ys) = if ltb x.num y.num then x ∷ y ∷ ys else y ∷ insert_sorted x ys

  insert_at : TimestampedState R → List (TimestampedState R) → Option ℕ → List (TimestampedState R)
  insert_at x xs o = take (unwrap_or o (length xs)) xs ++ x ∷ drop (unwrap_or o (length xs)) xs

  insert_at_later :
      (x y : TimestampedState R) (ys : List (TimestampedState R)) (o : Option ℕ)
      → insert_at x (y ∷ ys) (elim o [ none ↦ none | some i ↦ some (suc i) ]) ≡ y ∷ insert_at x ys o
  unfolding insert_at
  insert_at_later x y ys none = refl
  insert_at_later x y ys (some i) = refl

  insert_at-insert_sorted :
      (x : TimestampedState R) (xs : List (TimestampedState R))
      → insert_at x xs (position (λ k. ltb x.num k) xs) ≡ insert_sorted x xs
  insert_at-insert_sorted x [] = unfold insert_at in refl
  insert_at-insert_sorted x (y ∷ ys) = elim (Bool-cases (ltb x.num y.num)) [
    | inl here ↦ rw here (unfold insert_at in refl)
    | inr later ↦ rw later (
        insert_at_later x y ys (position (λ k. ltb x.num k) ys)
        ∙ ap (λ r. y ∷ r) (insert_at-insert_sorted x ys))
  ]

  pub insert_state-insert_sorted :
      (x : TimestampedState R) (xs : List (TimestampedState R))
      → insert_state x xs ≡ insert_sorted x xs
  unfolding insert_state insert_at
  insert_state-insert_sorted x xs = insert_at-insert_sorted x xs

  pub insert_sorted-Above :
      (lo : ℕ) (x : TimestampedState R) (xs : List (TimestampedState R))
      → lo ≤ x.num
      → has_num x.num xs ≡ false
      → Above lo xs
      → Above lo (insert_sorted x xs)
  insert_sorted-Above lo x [] le new h = (le, tt)
  insert_sorted-Above lo x (y ∷ ys) le new h = elim (Bool-cases (ltb x.num y.num)) [
    | inl here ↦ rw here (le, (ground arith, h.1))
    | inr later ↦
        rw later (h.0, insert_sorted-Above (suc y.num) x ys (ground arith) (ground arith) h.1)
  ]

  pub find_num-insert_sorted :
      (x : TimestampedState R) (xs : List (TimestampedState R)) (k : ℕ)
      → has_num x.num xs ≡ false
      → find_num k (insert_sorted x xs) ≡ (if x.num == k then some x else find_num k xs)
  find_num-insert_sorted x [] k new = refl
  find_num-insert_sorted x (y ∷ ys) k new = elim (Bool-cases (ltb x.num y.num)) [
    | inl here ↦ rw here refl
    | inr later ↦ elim (Bool-cases (y.num == k)) [
      | inl found ↦ let other : (x.num == k) ≡ false = ground arith in rw (later, found, other) refl
      | inr not_it ↦ rw (later, not_it) (find_num-insert_sorted x ys k (ground arith))
    ]
  ]

  abbrev pub throw_sorted : ℕ → List (TimestampedState R) → List (TimestampedState R)
  throw_sorted n [] = []
  throw_sorted n (x ∷ []) = x ∷ []
  throw_sorted n (x ∷ y ∷ r) = if leb n x.num then x ∷ y ∷ r else throw_sorted n (y ∷ r)

  drop_at : List (TimestampedState R) → Option ℕ → List (TimestampedState R)
  drop_at xs o = drop (unwrap_or o (length xs - 1)) xs

  drop_at_later :
      (x y : TimestampedState R) (r : List (TimestampedState R)) (o : Option ℕ)
      → drop_at (x ∷ y ∷ r) (elim o [ none ↦ none | some i ↦ some (suc i) ]) ≡ drop_at (y ∷ r) o
  unfolding drop_at
  drop_at_later x y r none =
      let long : suc (suc (length r)) - 1 ≡ suc (length r) = omega arith in
      let short : suc (length r) - 1 ≡ length r = omega arith in rw (long, short) refl
  drop_at_later x y r (some i) = refl

  drop_at-throw_sorted :
      (n : ℕ) (xs : List (TimestampedState R))
      → drop_at xs (position (λ k. leb n k) xs) ≡ throw_sorted n xs
  drop_at-throw_sorted n [] = unfold drop_at in refl
  drop_at-throw_sorted n (x ∷ []) = elim (Bool-cases (leb n x.num)) [
    | inl here ↦ rw here (unfold drop_at in refl)
    | inr later ↦ rw later (unfold drop_at in refl)
  ]
  drop_at-throw_sorted n (x ∷ y ∷ r) = elim (Bool-cases (leb n x.num)) [
    | inl here ↦ rw here (unfold drop_at in refl)
    | inr later ↦
        rw later
          (drop_at_later x y r (position (λ k. leb n k) (y ∷ r)) ∙ drop_at-throw_sorted n (y ∷ r))
  ]

  pub throw_away-throw_sorted :
      (n : ℕ) (xs : List (TimestampedState R)) → throw_away n xs ≡ throw_sorted n xs
  unfolding throw_away drop_at
  throw_away-throw_sorted n xs = drop_at-throw_sorted n xs

  pub throw_sorted-Above :
      (lo n : ℕ) (xs : List (TimestampedState R)) → Above lo xs → Above lo (throw_sorted n xs)
  throw_sorted-Above lo n [] h = tt
  throw_sorted-Above lo n (x ∷ []) h = h
  throw_sorted-Above lo n (x ∷ y ∷ r) h = elim (Bool-cases (leb n x.num)) [
    | inl here ↦ rw here h
    | inr later ↦ rw later (
        Above-le (suc x.num) lo (throw_sorted n (y ∷ r)) (omega (arith, h.0))
          (throw_sorted-Above (suc x.num) n (y ∷ r) h.1))
  ]

  pub throw_sorted_nonempty :
      (n : ℕ) (xs : List (TimestampedState R)) → 0 < length xs → 0 < length (throw_sorted n xs)
  throw_sorted_nonempty n [] h = absurd (omega arith)
  throw_sorted_nonempty n (x ∷ []) h = omega arith
  throw_sorted_nonempty n (x ∷ y ∷ r) h = elim (Bool-cases (leb n x.num)) [
    | inl here ↦ rw here (omega arith)
    | inr later ↦ rw later (throw_sorted_nonempty n (y ∷ r) (omega arith))
  ]

  -- A state that is not older than the number stays.
  pub find_num-throw_sorted :
      (n k : ℕ) (xs : List (TimestampedState R))
      → n ≤ k
      → find_num k (throw_sorted n xs) ≡ find_num k xs
  find_num-throw_sorted n k [] le = refl
  find_num-throw_sorted n k (x ∷ []) le = refl
  find_num-throw_sorted n k (x ∷ y ∷ r) le = elim (Bool-cases (leb n x.num)) [
    | inl here ↦ rw here refl
    | inr later ↦
        let other : (x.num == k) ≡ false = ground arith in
        rw (later, other) (find_num-throw_sorted n k (y ∷ r) le)
  ]

  pub has_num-throw_sorted :
      (n k : ℕ) (xs : List (TimestampedState R))
      → has_num k xs ≡ false
      → has_num k (throw_sorted n xs) ≡ false
  has_num-throw_sorted n k [] h = h
  has_num-throw_sorted n k (x ∷ []) h = h
  has_num-throw_sorted n k (x ∷ y ∷ r) h = elim (Bool-cases (leb n x.num)) [
    | inl here ↦ rw here h
    | inr later ↦ rw later (has_num-throw_sorted n k (y ∷ r) (ground arith))
  ]

  pub find_num-has_num :
      (k : ℕ) (xs : List (TimestampedState R)) (x : TimestampedState R)
      → find_num k xs ≡ some x
      → has_num k xs ≡ true
  find_num-has_num k [] x h = cc
  find_num-has_num k (y ∷ ys) x h = elim (Bool-cases (y.num == k)) [
    | inl here ↦ rw here refl
    | inr later ↦
        let rest : find_num k ys ≡ some x =
          subst (λ b. (if b then some y else find_num k ys) ≡ some x) later h in
        rw later (find_num-has_num k ys x rest)
  ]

  pub length-insert_sorted :
      (x : TimestampedState R) (xs : List (TimestampedState R))
      → length (insert_sorted x xs) ≡ suc (length xs)
  length-insert_sorted x [] = refl
  length-insert_sorted x (y ∷ ys) = ground (arith, length-insert_sorted x ys)

  pub subtract_each-Above :
      (remote : SyncState R) (known : R) (lo : ℕ) (xs : List (TimestampedState R))
      → Above lo xs
      → Above lo (subtract_each remote known xs)
  subtract_each-Above remote known lo [] h = tt
  subtract_each-Above remote known lo (x ∷ xs) h =
      (h.0, subtract_each-Above remote known (suc x.num) xs h.1)

  pub length-subtract_each :
      (remote : SyncState R) (known : R) (xs : List (TimestampedState R))
      → length (subtract_each remote known xs) ≡ length xs
  length-subtract_each remote known [] = refl
  length-subtract_each remote known (x ∷ xs) = ap suc (length-subtract_each remote known xs)

  pub length-throw_sorted :
      (n : ℕ) (xs : List (TimestampedState R)) → length (throw_sorted n xs) ≤ length xs
  length-throw_sorted n [] = omega arith
  length-throw_sorted n (x ∷ []) = omega arith
  length-throw_sorted n (x ∷ y ∷ r) = elim (Bool-cases (leb n x.num)) [
    | inl here ↦ rw here (omega arith)
    | inr later ↦ rw later (omega (arith, length-throw_sorted n (y ∷ r)))
  ]
