-- ===== src/Terminal/Parser/Dispatch.antt =====
-- The states in which the state machine dispatches and prints.
use rmosh.Prelude.{
  ℕ, ◌≡◌, refl, inl, inr, Bool, true, false, ◌||◌, not, Option, none, some, List, [], ◌∷◌, ◌++◌,
  ◌&&◌, arith, leb, All, if◌then◌else◌, Bool-cases,
}
use rmosh.Terminal.Parser.{
  Kind, print, esc_dispatch, csi_dispatch, Action, State, dcs_passthrough, osc_string, escape,
  ground_state, escape_intermediate, csi_entry, csi_param, csi_intermediate, csi_ignore, dcs_entry,
  dcs_param, dcs_intermediate, dcs_ignore, sos_pm_apc_string, Transition, or_rule, anywhere_rule,
  enter, exit, is_ignore, input_state_rule, state_input, push_unless_ignore, follow, input,
}

-- The printing action, and the states that raise it.
abbrev pub is_print : Kind → Bool
is_print k = elim k [ print ↦ true | _ ↦ false ]

abbrev pub is_ground : State → Bool
is_ground s = elim s [ ground_state ↦ true | _ ↦ false ]

-- Which actions need which state.
abbrev pub is_dispatch : Kind → Bool
is_dispatch k = elim k [ csi_dispatch ↦ true | esc_dispatch ↦ true | _ ↦ false ]

abbrev lands : State → Kind → Option State → Bool
lands s k none = not (is_dispatch k) && (not (is_print k) || is_ground s)
lands s k (some next) = (not (is_dispatch k) || is_ground next) && not (is_print k)

-- A rule that dispatches goes back to the ground state, and one that prints is the ground state's.
input_state_rule-lands :
    (s : State) (ch : ℕ) → let tx = input_state_rule s ch in lands s tx.kind tx.next ≡ true
unfolding input_state_rule
input_state_rule-lands ground_state ch = ground arith
input_state_rule-lands escape ch = ground arith
input_state_rule-lands escape_intermediate ch = ground arith
input_state_rule-lands csi_entry ch = ground arith
input_state_rule-lands csi_param ch = ground arith
input_state_rule-lands csi_intermediate ch = ground arith
input_state_rule-lands csi_ignore ch = ground arith
input_state_rule-lands dcs_entry ch = ground arith
input_state_rule-lands dcs_param ch = ground arith
input_state_rule-lands dcs_intermediate ch = ground arith
input_state_rule-lands dcs_passthrough ch = ground arith
input_state_rule-lands dcs_ignore ch = ground arith
input_state_rule-lands osc_string ch = ground arith
input_state_rule-lands sos_pm_apc_string ch = ground arith

anywhere_rule-lands :
    (s : State) (ch : ℕ) (own : Transition)
    → lands s own.kind own.next ≡ true
    → let tx = or_rule (anywhere_rule ch) own in lands s tx.kind tx.next ≡ true
unfolding anywhere_rule
anywhere_rule-lands s ch own h = ground arith

-- What an action says of the step that raised it.
abbrev pub Fits : State → State → Action → Type 0
Fits s t a =
    ((not (is_dispatch a.kind) || is_ground t) ≡ true)
    × ((not (is_print a.kind) || (is_ground s && is_ground t)) ≡ true)

push_unless_ignore-Fits :
    (s t : State) (kind : Kind) (ch : Option ℕ)
    → (not (is_dispatch kind) || is_ground t) ≡ true
    → (not (is_print kind) || (is_ground s && is_ground t)) ≡ true
    → All (Fits s t) (push_unless_ignore kind ch)
push_unless_ignore-Fits s t kind ch d p = elim (Bool-cases (is_ignore kind)) [
  | inl quiet ↦ rw quiet tt
  | inr loud ↦ rw loud ((d, p), tt)
]

All-append : (P : Action → Type 0) (xs ys : List Action) → All P xs → All P ys → All P (xs ++ ys)
All-append P [] ys h k = k
All-append P (x ∷ xs) ys h k = (h.0, All-append P xs ys h.1 k)

exit_inner : (s : State) → (is_dispatch (exit s) ≡ false) × (is_print (exit s) ≡ false)
unfolding exit
exit_inner s = elim s as (λ s. (is_dispatch (exit s) ≡ false) × (is_print (exit s) ≡ false)) [
  | dcs_passthrough ↦ (refl, refl)
  | _ ↦ (refl, refl)
]

enter_inner : (s : State) → (is_dispatch (enter s) ≡ false) × (is_print (enter s) ≡ false)
unfolding enter
enter_inner s = elim s as (λ s. (is_dispatch (enter s) ≡ false) × (is_print (enter s) ≡ false)) [
  | dcs_passthrough ↦ (refl, refl)
  | _ ↦ (refl, refl)
]

follow-Fits :
    (s : State) (ch : ℕ) (kind : Kind) (next : Option State)
    → lands s kind next ≡ true
    → let r = follow s ch kind next in All (Fits s r.1) r.0
follow-Fits s ch kind none h =
    push_unless_ignore-Fits s s kind (some ch) (ground arith) (ground arith)
follow-Fits s ch kind (some next) h =
    All-append (Fits s next) (push_unless_ignore (exit s) none)
      (push_unless_ignore kind (some ch) ++ push_unless_ignore (enter next) none)
      (push_unless_ignore-Fits s next (exit s) none (ground (arith, exit_inner s))
        (ground (arith, exit_inner s)))
      (All-append (Fits s next) (push_unless_ignore kind (some ch))
        (push_unless_ignore (enter next) none)
        (push_unless_ignore-Fits s next kind (some ch) (ground arith) (ground arith))
        (push_unless_ignore-Fits s next (enter next) none (ground (arith, enter_inner next))
          (ground (arith, enter_inner next))))

-- A control sequence or an escape sequence is dispatched only on the way back to the ground state,
-- and a character is printed only in the ground state, which printing does not leave.
pub input_dispatch : (s : State) (ch : ℕ) → let r = input s ch in All (Fits s r.1) r.0
unfolding input state_input
input_dispatch s ch =
    let own = input_state_rule s (if leb 160 ch then 65 else ch) in
    let tx = or_rule (anywhere_rule ch) own in
    follow-Fits s ch tx.kind tx.next
      (anywhere_rule-lands s ch own (input_state_rule-lands s (if leb 160 ch then 65 else ch)))
