-- ===== src/Terminal/Parser/Brackets.antt =====
-- `Parser::input`: the strings that the state machine opens and closes.
use rmosh.Prelude.{
  ℕ, ◌+◌, ◌≡◌, refl, inl, inr, Bool, true, false, Option, none, some, List, [], ◌∷◌, ◌++◌, arith,
  leb, if◌then◌else◌, Bool-cases,
}
use rmosh.Terminal.Parser.{
  Kind, hook, unhook, osc_start, osc_end, clear, ignore, Action, State, dcs_passthrough, osc_string,
  escape, ground_state, escape_intermediate, csi_entry, csi_param, csi_intermediate, csi_ignore,
  dcs_entry, dcs_param, dcs_intermediate, dcs_ignore, sos_pm_apc_string, Transition, or_rule,
  anywhere_rule, enter, exit, is_ignore, input_state_rule, state_input, push_unless_ignore, follow,
  input,
}

-- The kinds that only entering or leaving a state raises.
abbrev pub is_edge : Kind → Bool
is_edge k = elim k [
  | hook ↦ true
  | unhook ↦ true
  | osc_start ↦ true
  | osc_end ↦ true
  | clear ↦ true
  | _ ↦ false
]

input_state_rule-is_edge : (s : State) (ch : ℕ) → is_edge (input_state_rule s ch).kind ≡ false
unfolding input_state_rule
input_state_rule-is_edge ground_state ch = ground arith
input_state_rule-is_edge escape ch = ground arith
input_state_rule-is_edge escape_intermediate ch = ground arith
input_state_rule-is_edge csi_entry ch = ground arith
input_state_rule-is_edge csi_param ch = ground arith
input_state_rule-is_edge csi_intermediate ch = ground arith
input_state_rule-is_edge csi_ignore ch = ground arith
input_state_rule-is_edge dcs_entry ch = ground arith
input_state_rule-is_edge dcs_param ch = ground arith
input_state_rule-is_edge dcs_intermediate ch = ground arith
input_state_rule-is_edge dcs_passthrough ch = ground arith
input_state_rule-is_edge dcs_ignore ch = ground arith
input_state_rule-is_edge osc_string ch = ground arith
input_state_rule-is_edge sos_pm_apc_string ch = ground arith

anywhere_rule-is_edge :
    (ch : ℕ) (tx : Transition) → anywhere_rule ch ≡ some tx → is_edge tx.kind ≡ false
unfolding anywhere_rule
anywhere_rule-is_edge ch tx h = ground arith

or_rule-is_edge :
    (o : Option Transition) (own : Transition)
    → ((tx : Transition) → o ≡ some tx → is_edge tx.kind ≡ false)
    → is_edge own.kind ≡ false
    → is_edge (or_rule o own).kind ≡ false
or_rule-is_edge none own h k = k
or_rule-is_edge (some tx) own h k = h tx refl

-- A transition itself raises none of them.
state_input-is_edge : (s : State) (ch : ℕ) → is_edge (state_input s ch).kind ≡ false
unfolding state_input
state_input-is_edge s ch =
    or_rule-is_edge (anywhere_rule ch) (input_state_rule s (if leb 160 ch then 65 else ch))
      (anywhere_rule-is_edge ch) (input_state_rule-is_edge s (if leb 160 ch then 65 else ch))

-- The number of actions that pass a test.
abbrev pub count : (Kind → Bool) → List Action → ℕ
count p [] = 0
count p (a ∷ out) = (if p a.kind then 1 else 0) + count p out

count-append :
    (p : Kind → Bool) (xs ys : List Action) → count p (xs ++ ys) ≡ count p xs + count p ys
count-append p [] ys = omega arith
count-append p (x ∷ xs) ys = omega (arith, count-append p xs ys)

-- The parser over a sequence of characters.
abbrev pub run : State → List ℕ → List Action × State
run s [] = ([], s)
run s (ch ∷ chs) = let one = input s ch in let rest = run one.1 chs in (one.0 ++ rest.0, rest.1)

-- One action that opens a string, the one that closes it, and the state between them.
abbrev Brackets : (Kind → Bool) → (Kind → Bool) → (State → ℕ) → Type 0
Brackets opens closes inside =
    ((k : Kind) → is_edge k ≡ false → (opens k ≡ false) × (closes k ≡ false))
    × ((s : State)
        → (count opens (push_unless_ignore (exit s) none) ≡ 0)
          × (count closes (push_unless_ignore (exit s) none) ≡ inside s)
          × (count opens (push_unless_ignore (enter s) none) ≡ inside s)
          × (count closes (push_unless_ignore (enter s) none) ≡ 0))

abbrev pub is_hook : Kind → Bool
is_hook k = elim k [ hook ↦ true | _ ↦ false ]

abbrev pub is_unhook : Kind → Bool
is_unhook k = elim k [ unhook ↦ true | _ ↦ false ]

abbrev pub is_osc_start : Kind → Bool
is_osc_start k = elim k [ osc_start ↦ true | _ ↦ false ]

abbrev pub is_osc_end : Kind → Bool
is_osc_end k = elim k [ osc_end ↦ true | _ ↦ false ]

abbrev pub in_dcs : State → ℕ
in_dcs s = elim s [ dcs_passthrough ↦ 1 | _ ↦ 0 ]

abbrev pub in_osc : State → ℕ
in_osc s = elim s [ osc_string ↦ 1 | _ ↦ 0 ]

hooks : Brackets is_hook is_unhook in_dcs
unfolding enter exit
hooks = (
  (λ k. elim k as (λ k. is_edge k ≡ false → (is_hook k ≡ false) × (is_unhook k ≡ false)) [
    | ignore ↦ (λ h. (refl, refl))
    | hook ↦ (λ h. cc)
    | unhook ↦ (λ h. cc)
    | _ ↦ (λ h. (refl, refl))
  ]),
  (λ s.
      elim s
        as (λ s.
          (count is_hook (push_unless_ignore (exit s) none) ≡ 0)
          × (count is_unhook (push_unless_ignore (exit s) none) ≡ in_dcs s)
          × (count is_hook (push_unless_ignore (enter s) none) ≡ in_dcs s)
          × (count is_unhook (push_unless_ignore (enter s) none) ≡ 0)) [
            | dcs_passthrough ↦ (refl, refl, refl, refl)
            | _ ↦ (refl, refl, refl, refl)
          ]),
)

oscs : Brackets is_osc_start is_osc_end in_osc
unfolding enter exit
oscs = (
  (λ k. elim k as (λ k. is_edge k ≡ false → (is_osc_start k ≡ false) × (is_osc_end k ≡ false)) [
    | ignore ↦ (λ h. (refl, refl))
    | osc_start ↦ (λ h. cc)
    | osc_end ↦ (λ h. cc)
    | _ ↦ (λ h. (refl, refl))
  ]),
  (λ s.
      elim s
        as (λ s.
          (count is_osc_start (push_unless_ignore (exit s) none) ≡ 0)
          × (count is_osc_end (push_unless_ignore (exit s) none) ≡ in_osc s)
          × (count is_osc_start (push_unless_ignore (enter s) none) ≡ in_osc s)
          × (count is_osc_end (push_unless_ignore (enter s) none) ≡ 0)) [
            | dcs_passthrough ↦ (refl, refl, refl, refl)
            | _ ↦ (refl, refl, refl, refl)
          ]),
)

-- An inner action counts for neither.
count_inner :
    (p : Kind → Bool) (k : Kind) (ch : Option ℕ)
    → p k ≡ false
    → count p (push_unless_ignore k ch) ≡ 0
count_inner p k ch h = elim (Bool-cases (is_ignore k)) [
  | inl quiet ↦ rw quiet refl
  | inr loud ↦ rw (loud, h) refl
]

module _ (opens closes : Kind → Bool) (inside : State → ℕ) (b : Brackets opens closes inside) where
  joined :
      (xs ys zs : List Action) (i j : ℕ)
      → count opens xs ≡ 0
      → count closes xs ≡ i
      → count opens ys ≡ 0
      → count closes ys ≡ 0
      → count opens zs ≡ j
      → count closes zs ≡ 0
      → count opens (xs ++ (ys ++ zs)) + i ≡ count closes (xs ++ (ys ++ zs)) + j
  joined xs ys zs i j ox cx oy cy oz cz = omega (
    arith,
    count-append opens xs (ys ++ zs),
    count-append opens ys zs,
    count-append closes xs (ys ++ zs),
    count-append closes ys zs,
  )

  follow_lem :
      (s : State) (ch : ℕ) (kind : Kind) (next : Option State)
      → is_edge kind ≡ false
      → let r = follow s ch kind next in count opens r.0 + inside s ≡ count closes r.0 + inside r.1
  follow_lem s ch kind none inner =
      let q = b.0 kind inner in
      rw (count_inner opens kind (some ch) q.0, count_inner closes kind (some ch) q.1) refl
  follow_lem s ch kind (some next) inner =
      let q = b.0 kind inner in
      let out = b.1 s in
      let in_ = b.1 next in
      joined (push_unless_ignore (exit s) none) (push_unless_ignore kind (some ch))
        (push_unless_ignore (enter next) none) (inside s) (inside next) out.0 out.1
        (count_inner opens kind (some ch) q.0) (count_inner closes kind (some ch) q.1) in_.2 in_.3

  input_lem :
      (s : State) (ch : ℕ)
      → let r = input s ch in count opens r.0 + inside s ≡ count closes r.0 + inside r.1
  unfolding input
  input_lem s ch =
      follow_lem s ch (state_input s ch).kind (state_input s ch).next (state_input-is_edge s ch)

  run_lem :
      (s : State) (chs : List ℕ)
      → let r = run s chs in count opens r.0 + inside s ≡ count closes r.0 + inside r.1
  run_lem s [] = refl
  run_lem s (ch ∷ chs) =
      let one = input s ch in
      let rest = run one.1 chs in
      omega (
        arith,
        input_lem s ch,
        run_lem one.1 chs,
        count-append opens one.0 rest.0,
        count-append closes one.0 rest.0,
      )

-- Over any sequence of characters from any state, the device control strings and the operating
-- system commands that are opened are the ones that are closed, but for the one that the last
-- state is in, and the one that the first state was in.
pub run_brackets :
    (s : State) (chs : List ℕ)
    → let r = run s chs in
      (count is_hook r.0 + in_dcs s ≡ count is_unhook r.0 + in_dcs r.1)
      × (count is_osc_start r.0 + in_osc s ≡ count is_osc_end r.0 + in_osc r.1)
run_brackets s chs = (
  run_lem is_hook is_unhook in_dcs hooks s chs,
  run_lem is_osc_start is_osc_end in_osc oscs s chs,
)
