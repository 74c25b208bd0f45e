-- ===== src/Terminal/Parser/Anywhere.antt =====
-- `anywhere_rule`: the characters that every state treats alike.
use rmosh.Prelude.{ℕ, ◌≡◌, refl, subst, Bool, true, false, Option, none, some, List, ◌++◌, arith}
use rmosh.Terminal.Parser.{
  Kind, Action, State, Transition, anywhere_rule, enter, exit, state_input, push_unless_ignore,
  follow, input,
}

-- Every rule of the anywhere rules moves.
abbrev moves : Option Transition → Bool
moves none = true
moves (some tx) = elim tx.next [ none ↦ false | some next ↦ true ]

anywhere_rule-moves : (ch : ℕ) → moves (anywhere_rule ch) ≡ true
unfolding anywhere_rule
anywhere_rule-moves ch = ground arith

follow_anywhere :
    (ch : ℕ) (kind : Kind) (next : Option State)
    → moves (some (record { kind = kind; next = next })) ≡ true
    → (rest : List Action) × (to : State) × ((s : State)
        → follow s ch kind next ≡ (push_unless_ignore (exit s) none ++ rest, to))
follow_anywhere ch kind none h = cc
follow_anywhere ch kind (some next) h =
    (push_unless_ignore kind (some ch) ++ push_unless_ignore (enter next) none, next, λ s. refl)

-- A character of the anywhere rules leads to the same state with the same actions from any two
-- states, but for the action of leaving the state it was in.
pub input_anywhere :
    (s t : State) (ch : ℕ) (tx : Transition)
    → anywhere_rule ch ≡ some tx
    → (rest : List Action) × (next : State) × (input s ch
        ≡ (push_unless_ignore (exit s) none ++ rest, next))
      × (input t ch ≡ (push_unless_ignore (exit t) none ++ rest, next))
unfolding input state_input
input_anywhere s t ch tx h =
    let moved : moves (some tx) ≡ true = subst (λ o. moves o ≡ true) h (anywhere_rule-moves ch) in
    let (rest, next, same) = follow_anywhere ch tx.kind tx.next moved in
    rw h (rest, next, same s, same t)
