-- ===== src/Server/Args/Command.antt =====
-- The command after `--`.
use rmosh.Prelude.{
  ℕ, ◌≡◌, refl, sym, ap, ◌∙◌, inl, inr, Bool, true, false, ◌||◌, Option, none, some, List, [], ◌∷◌,
  ◌++◌, All, Result, ok, err, ◌>>=◌, ◌>>=?◌, ◌==◌, if◌then◌else◌, Bool-cases, append_assoc,
  append-nil, unwrap_or,
}
use rmosh.Terminal.Text.{text_eq}
use rmosh.Strings.{parse_i32, split_at_first}
use rmosh.Server.Args.{
  Args, ArgError, default_args, set_value, set_colors, add_locale_var, set_flag, flags, is_option,
  letters, options, positional, parse_options, word_new, word_pipe, is_help, is_version, dashes,
  scan, parse, takes_value,
}
use rmosh.Server.Args.Bundling.{continued}

-- Neither `--` nor a request for help or for the version.
abbrev pub IsPlain : List ℕ → Type 0
IsPlain a = (is_help a ≡ false) × (is_version a ≡ false) × (text_eq a dashes ≡ false)

-- The same but for the command.
abbrev pub with_command : List (List ℕ) → Result ArgError Args → Result ArgError Args
with_command cmd (err e) = err e
with_command cmd (ok args) = ok (record args { command = cmd })

abbrev commanded : List (List ℕ) → Args → Args
commanded cmd args = record args { command = cmd }

module _ (cmd : List (List ℕ)) where
  choose :
      (b : Bool) (x y z t : Result ArgError Args)
      → x ≡ with_command cmd y
      → z ≡ with_command cmd t
      → (if b then x else z) ≡ with_command cmd (if b then y else t)
  choose true x y z t h k = h
  choose false x y z t h k = k

  set_colors-command :
      (v : List ℕ) (o : Option ℕ) (args : Args)
      → set_colors v o (commanded cmd args) ≡ with_command cmd (set_colors v o args)
  set_colors-command v none args = refl
  set_colors-command v (some n) args = refl

  add_locale_var-command :
      (o : Option (List ℕ × List ℕ)) (args : Args)
      → add_locale_var o (commanded cmd args) ≡ commanded cmd (add_locale_var o args)
  add_locale_var-command none args = refl
  add_locale_var-command (some var) args = refl

  set_value-command :
      (c : ℕ) (value : Option (List ℕ)) (args : Args)
      → set_value c value (commanded cmd args) ≡ with_command cmd (set_value c value args)
  unfolding set_value
  set_value-command c value args = choose (c == b'i') _ _ _ _ refl (
      choose (c == b'p') _ _ _ _ refl (
        choose (c == b'c') _ _ _ _
          (set_colors-command (unwrap_or value []) (parse_i32 (unwrap_or value [])) args)
          (choose (c == b'l') _ _ _ _
            (ap ok (add_locale_var-command (value >>=? split_at_first b'=') args)) refl)))

  bind-command :
      (r : Result ArgError Args) (f : Args → Result ArgError Args)
      → ((a : Args) → f (commanded cmd a) ≡ with_command cmd (f a))
      → (with_command cmd r >>= f) ≡ with_command cmd (r >>= f)
  bind-command (ok a) f h = h a
  bind-command (err e) f h = refl

  module _ (env : Option (List ℕ)) where
    set_flag-command :
        (c : ℕ) (args : Args)
        → set_flag env c (commanded cmd args) ≡ commanded cmd (set_flag env c args)
    unfolding set_flag
    set_flag-command c args = elim (Bool-cases (c == b'v')) [
      | inl v ↦ rw v refl
      | inr not_v ↦ elim (Bool-cases (c == b's')) [
        | inl s ↦ rw (not_v, s) refl
        | inr not_s ↦ rw (not_v, not_s) refl
      ]
    ]

    flags-command :
        (cs : List ℕ) (args : Args)
        → flags env cs (commanded cmd args)
          ≡ (commanded cmd (flags env cs args).0, (flags env cs args).1)
    unfolding flags
    flags-command [] args = refl
    flags-command (c ∷ cs) args = elim (Bool-cases (takes_value c)) [
      | inl takes ↦ rw takes refl
      | inr plain ↦ rw (plain, set_flag-command c args) (flags-command cs (set_flag env c args))
    ]

    continued-command :
        (rest : List (List ℕ)) (args : Args) (pending : Option (ℕ × List ℕ))
        → ((w : Option ℕ) (a : Args)
            → options env w rest (commanded cmd a) ≡ with_command cmd (options env w rest a))
        → continued env rest (commanded cmd args, pending)
          ≡ with_command cmd (continued env rest (args, pending))
    continued-command rest args none later = later none args
    continued-command rest args (some (c, [])) later = later (some c) args
    continued-command rest args (some (c, x ∷ xs)) later =
        ap (λ r. r >>= options env none rest) (set_value-command c (some (x ∷ xs)) args)
        ∙ bind-command (set_value c (some (x ∷ xs)) args) (options env none rest) (later none)

    is_option-continued :
        (a : List ℕ) (rest : List (List ℕ)) (args : Args)
        → is_option a ≡ true
        → options env none (a ∷ rest) args ≡ continued env rest (flags env (letters a) args)
    unfolding options
    is_option-continued a rest args h = rw (h, options) refl

    skipped :
        (a : List ℕ) (rest : List (List ℕ)) (args : Args)
        → is_option a ≡ false
        → options env none (a ∷ rest) args ≡ options env none rest args
    unfolding options
    skipped a rest args h = rw (h, options) refl

    options-command :
        (rest : List (List ℕ)) (w : Option ℕ) (args : Args)
        → options env w rest (commanded cmd args) ≡ with_command cmd (options env w rest args)
    unfolding options
    options-command [] none args = refl
    options-command [] (some c) args = set_value-command c none args
    options-command (v ∷ rest) (some c) args =
        ap (λ r. r >>= options env none rest) (set_value-command c (some v) args)
        ∙ bind-command (set_value c (some v) args) (options env none rest)
            (options-command rest none)
    options-command (a ∷ rest) none args = elim (Bool-cases (is_option a)) [
      | inr no_option ↦
          skipped a rest (commanded cmd args) no_option
          ∙ options-command rest none args
          ∙ sym (ap (with_command cmd) (skipped a rest args no_option))
      | inl an_option ↦
          let found = flags env (letters a) args in
          is_option-continued a rest (commanded cmd args) an_option
          ∙ ap (continued env rest) (flags-command (letters a) args)
          ∙ continued-command rest found.0 found.1 (options-command rest)
          ∙ sym (ap (with_command cmd) (is_option-continued a rest args an_option))
    ]

    positional-command :
        (os : List (List ℕ)) (args : Args)
        → positional os (commanded cmd args) ≡ with_command cmd (positional os args)
    positional-command [] args = refl
    positional-command (a ∷ []) args = refl
    positional-command (a ∷ b ∷ []) args = refl
    positional-command (a ∷ b ∷ c ∷ rest) args = refl

    parse_options-command :
        (os : List (List ℕ)) (args : Args)
        → parse_options env os (commanded cmd args) ≡ with_command cmd (parse_options env os args)
    unfolding parse_options
    parse_options-command [] args = refl
    parse_options-command (o ∷ os) args =
        choose (text_eq o word_new || text_eq o word_pipe) _ _ _ _
          (options-command os none (record args { pipe = text_eq o word_pipe }))
          (positional-command (o ∷ os) args)

    pub scan-plain :
        (seen os : List (List ℕ))
        → All IsPlain os
        → scan env seen os ≡ parse_options env (seen ++ os) default_args
    unfolding scan
    scan-plain seen [] h = ap (λ t. parse_options env t default_args) (sym (append-nil seen))
    scan-plain seen (a ∷ os) h =
        rw (h.0.0, h.0.1, h.0.2)
          (scan-plain (seen ++ a ∷ []) os h.1
            ∙ ap (λ t. parse_options env t default_args) (append_assoc seen (a ∷ []) os))

    scan-dashes :
        (seen os : List (List ℕ))
        → All IsPlain os
        → scan env seen (os ++ dashes ∷ cmd)
          ≡ parse_options env (seen ++ os) (commanded cmd default_args)
    unfolding scan text_eq
    scan-dashes seen [] h =
        ap (λ t. parse_options env t (commanded cmd default_args)) (sym (append-nil seen))
    scan-dashes seen (a ∷ os) h =
        rw (h.0.0, h.0.1, h.0.2)
          (scan-dashes (seen ++ a ∷ []) os h.1
            ∙ ap (λ t. parse_options env t (commanded cmd default_args))
                (append_assoc seen (a ∷ []) os))

    -- After arguments none of which reads as `--` or as a request for help or the version, what
    -- stands after `--` is the command, word for word, and has no other effect: the rest is read, or
    -- refused, as without it.
    pub parse-command :
        (program : List ℕ) (os : List (List ℕ))
        → All IsPlain os
        → parse env (program ∷ (os ++ dashes ∷ cmd)) ≡ with_command cmd (parse env (program ∷ os))
    unfolding parse
    parse-command program os h =
        scan-dashes [] os h
        ∙ parse_options-command os default_args
        ∙ sym (ap (with_command cmd) (scan-plain [] os h))
