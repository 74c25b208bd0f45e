-- ===== src/Mosh/Shell/Quoting.antt =====
-- A word that is quoted is read as that word.
use rmosh.Prelude.{
  and_left, and_right, ℕ, ◌≡◌, refl, sym, ap, ◌∙◌, inl, inr, Bool, true, false, ◌&&◌, ◌||◌, not,
  List, [], ◌∷◌, ◌++◌, arith, ◌==◌, ==_iff, Bool-cases, append_assoc, append-nil,
}
use rmosh.Strings.{is_whitespace}
use rmosh.Mosh.Shell.{
  plain, quoted, Lexer, start, is_nil, step, words, shellwords, is_safe, all_safe, spelled,
  shell_quote, command_line,
}

abbrev within : List ℕ → Lexer
within cur = record { mode = quoted 39; cur = cur; has_word = true }

abbrev holding : List ℕ → Lexer
holding cur = record { mode = plain; cur = cur; has_word = true }

-- One character that ends no word.
words-step :
    (c : ℕ) (s t : Lexer) (rest : List ℕ) → step c s ≡ ([], t) → words s (c ∷ rest) ≡ words t rest
unfolding words
words-step c s t rest h = ap (λ p. p.0 ++ words p.1 rest) h

step-within :
    (c : ℕ) (cur : List ℕ) → (c == 39) ≡ false → step c (within cur) ≡ ([], within (cur ++ c ∷ []))
unfolding step
step-within c cur h = rw h refl

words-spelled :
    (w cur rest : List ℕ) → words (within cur) (spelled w ++ rest) ≡ words (within (cur ++ w)) rest
unfolding words step
words-spelled [] cur rest = ap (λ t. words (within t) rest) (sym (append-nil cur))
words-spelled (c ∷ w) cur rest =
    let on =
      words-spelled w (cur ++ c ∷ []) rest
      ∙ ap (λ t. words (within t) rest) (append_assoc cur (c ∷ []) w) in
    elim (Bool-cases (c == 39)) [
      | inl quote ↦ let e : c ≡ 39 = (==_iff c 39).0 quote in rw e (rw e at on)
      | inr other ↦
          let plainly : spelled (c ∷ w) ≡ c ∷ spelled w = rw other refl in
          ap (λ t. words (within cur) (t ++ rest)) plainly
          ∙ words-step c (within cur) (within (cur ++ c ∷ [])) (spelled w ++ rest)
              (step-within c cur other)
          ∙ on
    ]

no_quote : (c : ℕ) → is_safe c ≡ true → (c == 39 || c == 34) ≡ false
no_quote c h = ground arith

no_backslash : (c : ℕ) → is_safe c ≡ true → (c == 92) ≡ false
no_backslash c h = ground arith

no_whitespace : (c : ℕ) → is_safe c ≡ true → is_whitespace c ≡ false
no_whitespace c h = ground arith

is_safe-step :
    (c : ℕ) (cur : List ℕ) (any : Bool)
    → is_safe c ≡ true
    → let s : Lexer = record { mode = plain; cur = cur; has_word = any } in
      step c s ≡ ([], holding (cur ++ c ∷ []))
unfolding step
is_safe-step c cur any h = rw (no_quote c h, no_backslash c h, no_whitespace c h) refl

words-safe :
    (w cur rest : List ℕ)
    → all_safe w ≡ true
    → words (holding cur) (w ++ rest) ≡ words (holding (cur ++ w)) rest
words-safe [] cur rest h = ap (λ t. words (holding t) rest) (sym (append-nil cur))
words-safe (c ∷ w) cur rest h =
    words-step c (holding cur) (holding (cur ++ c ∷ [])) (w ++ rest)
      (is_safe-step c cur true (and_left (is_safe c) (all_safe w) h))
    ∙ words-safe w (cur ++ c ∷ []) rest (and_right (is_safe c) (all_safe w) h)
    ∙ ap (λ t. words (holding t) rest) (append_assoc cur (c ∷ []) w)

words-bare :
    (w rest : List ℕ)
    → (not (is_nil w) && all_safe w) ≡ true
    → words start (w ++ rest) ≡ words (holding w) rest
words-bare [] rest h = cc
words-bare (c ∷ w) rest h =
    words-step c start (holding (c ∷ [])) (w ++ rest)
      (is_safe-step c [] false (and_left (is_safe c) (all_safe w) h))
    ∙ words-safe w (c ∷ []) rest (and_right (is_safe c) (all_safe w) h)

words-wrapped :
    (w rest : List ℕ) → words start ((39 ∷ (spelled w ++ 39 ∷ [])) ++ rest) ≡ words (holding w) rest
unfolding words step
words-wrapped w rest =
    ap (λ t. words (within []) t) (append_assoc (spelled w) (39 ∷ []) rest)
    ∙ words-spelled w [] (39 ∷ rest)

words-shell_quote : (w rest : List ℕ) → words start (shell_quote w ++ rest) ≡ words (holding w) rest
unfolding shell_quote
words-shell_quote w rest = elim (Bool-cases (not (is_nil w) && all_safe w)) [
  | inl bare ↦ rw bare (words-bare w rest bare)
  | inr wrap ↦ rw wrap (words-wrapped w rest)
]

ended : (w rest : List ℕ) → words (holding w) (32 ∷ rest) ≡ w ∷ words start rest
unfolding words step
ended w rest = refl

-- Words that are each quoted and put together with a space between them are read as those words,
-- whatever they hold.
pub shellwords-shell_quote : (ws : List (List ℕ)) → shellwords (command_line ws) ≡ ws
unfolding words
shellwords-shell_quote [] = refl
shellwords-shell_quote (w ∷ []) =
    ap (λ t. words start t) (sym (append-nil (shell_quote w))) ∙ words-shell_quote w []
shellwords-shell_quote (w ∷ v ∷ ws) =
    words-shell_quote w (32 ∷ command_line (v ∷ ws))
    ∙ ended w (command_line (v ∷ ws))
    ∙ ap (λ t. w ∷ t) (shellwords-shell_quote (v ∷ ws))
