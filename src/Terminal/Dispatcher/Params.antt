-- ===== src/Terminal/Dispatcher/Params.antt =====
-- The parameters of a sequence: each is -1 or at most 65535, so that `getparam` returns its default or
-- a number from 1 to 65535, and no sequence drives a long loop.
use rmosh.Prelude.{
  ℕ, ◌≤◌, ◌<◌, ◌≡◌, refl, ◌⊎◌, inl, inr, true, Option, none, some, List, [], ◌∷◌, map, arith,
  get_elem?, All, All-get_elem?, Option-cases, Bool-cases, lt_i32, minus_one, leb, if◌then◌else◌,
}
use rmosh.Terminal.Dispatcher.{
  Dispatcher, param_max, segment_value, within_param_max, parse_i64, take_digits, split,
  parse_params, getparam,
}

abbrev pub IsParam : ℕ → Type 0
IsParam v = (v ≡ minus_one) ⊎ (v ≤ param_max)

abbrev pub HasParams : Dispatcher → Type 0
HasParams d = All IsParam d.parsed_params

leb-true : (a b : ℕ) → leb a b ≡ true → a ≤ b
leb-true a b h = ground arith

within_param_max-IsParam : (o : Option ℕ) → IsParam (within_param_max o)
within_param_max-IsParam none = inl refl
within_param_max-IsParam (some v) = elim (Bool-cases (leb v param_max)) [
  | inl small ↦ rw small (inr (omega (arith, leb-true v param_max small)))
  | inr large ↦ rw large (inl refl)
]

All-segments : (ss : List (List ℕ)) → All IsParam (map segment_value ss)
unfolding segment_value
All-segments [] = tt
All-segments (s ∷ ss) = (within_param_max-IsParam (parse_i64 (take_digits s)), All-segments ss)

pub parse_params-HasParams : (d : Dispatcher) → HasParams d → HasParams (parse_params d)
unfolding parse_params
parse_params-HasParams d h = elim (Bool-cases d.parsed) [
  | inl done ↦ rw done h
  | inr todo ↦ rw todo (All-segments (split d.params))
]

-- The default, or a number from 1 to 65535.
abbrev pub IsArgument : ℕ → ℕ → Type 0
IsArgument default v = (v ≡ default) ⊎ ((0 < v) × (v ≤ param_max))

chosen : (v default : ℕ) → IsParam v → IsArgument default (if lt_i32 v 1 then default else v)
chosen v default (inl e) = rw e (inl refl)
chosen v default (inr small) = elim (Bool-cases (lt_i32 v 1)) [
  | inl low ↦ rw low (inl refl)
  | inr high ↦ rw high (inr (ground arith, small))
]

default_chosen : (v : ℕ) → IsArgument v (if lt_i32 v 1 then v else v)
default_chosen v = elim (Bool-cases (lt_i32 v 1)) [
  | inl low ↦ rw low (inl refl)
  | inr high ↦ rw high (inl refl)
]

-- With parsed parameters in range, what `getparam` gives is the default or a number up to 65535, and
-- the parameters stay in range.
pub getparam-IsArgument :
    (n default : ℕ) (d : Dispatcher)
    → HasParams d
    → IsArgument default (getparam n default d).0 × HasParams (getparam n default d).1
unfolding getparam
getparam-IsArgument n default d h =
    let e = parse_params d in
    let he = parse_params-HasParams d h in
    elim (Option-cases (get_elem? e.parsed_params n)) [
      | inl missing ↦ rw missing (default_chosen default, he)
      | inr (v, found) ↦
          rw found (chosen v default (All-get_elem? IsParam n e.parsed_params v he found), he)
    ]
