-- ===== src/Terminal/UserInput/Lossless.antt =====
-- What the user types reaches the host.
use rmosh.Prelude.{
  ℕ, ◌≡◌, refl, ap, true, List, [], ◌∷◌, ◌++◌, ◌==◌, append_assoc, append-nil, Bool-cases, ==_iff,
  inl, inr, sym, ◌∙◌,
}
use rmosh.Terminal.UserInput.{UserInputState, ground, esc, ss3, user_input, user_inputs}

-- What is held back: the O of an ESC O.
abbrev pub held : UserInputState → List ℕ
held ground = []
held esc = []
held ss3 = b'O' ∷ []

step_lossless :
    (s : UserInputState) (c : ℕ)
    → (user_input s c true).0 ++ held (user_input s c true).1 ≡ held s ++ c ∷ []
unfolding user_input
step_lossless ground c = elim (Bool-cases (c == 0x1b)) [ inl e ↦ rw e | inr e ↦ rw e ]
step_lossless esc c = elim (Bool-cases (c == b'O')) [
  | inl e ↦ let same : c ≡ b'O' = (==_iff c b'O').0 e in rw e (rw same)
  | inr e ↦ rw e
]
step_lossless ss3 c = refl

-- With the host in application mode nothing is changed: what was sent, with what is held back, is what
-- was held back before, with what was typed.
pub user_inputs_lossless :
    (s : UserInputState) (cs : List ℕ)
    → (user_inputs s cs true).0 ++ held (user_inputs s cs true).1 ≡ held s ++ cs
user_inputs_lossless s [] = sym (append-nil (held s))
user_inputs_lossless s (c ∷ cs) =
    let one = user_input s c true in
    append_assoc one.0 (user_inputs one.1 cs true).0 (held (user_inputs one.1 cs true).1)
    ∙ ap (λ t. one.0 ++ t) (user_inputs_lossless one.1 cs)
    ∙ sym (append_assoc one.0 (held one.1) cs)
    ∙ ap (λ t. t ++ cs) (step_lossless s c)
    ∙ append_assoc (held s) (c ∷ []) cs
