-- ===== src/Mosh/Launch/Agreement.antt =====
-- The server reads what the launcher writes.
use rmosh.Prelude.{
  ℕ, ◌≡◌, refl, sym, ap, ◌∙◌, ◌⊎◌, inl, inr, Bool, true, false, Option, none, some, List, [], ◌∷◌,
  ◌++◌, All, ok, ◌>>=◌, if◌then◌else◌, Bool-cases, unwrap_or, append-nil, append_assoc,
}
use rmosh.Terminal.Text.{text_eq, decimal}
use rmosh.Strings.{split_at_first, split_at_first-name, parse_i32, digits_from}
use rmosh.Server.Args.{
  Args, default_args, ssh_ip, takes_value, set_value, add_locale_var, set_colors, set_flag, flags,
  options, parse_options, parse,
}
use rmosh.Server.Args.Bundling.{continued, flags-takes}
use rmosh.Server.Args.Command.{with_command, IsPlain, parse-command, scan-plain}
use rmosh.Mosh.Opts.{Opts}
use rmosh.Mosh.Launch.{
  contains, many_colors, colors, flag, is_ssh, is_any, reply_args, address_args, port_args,
  locale_args, command_args, mode_word, option_args, server_args,
}

-- No equals sign in the name of a variable.
abbrev pub IsName : List ℕ × List ℕ → Type 0
IsName (var, value) = split_at_first b'=' var ≡ none

colors-cases : (term : Option (List ℕ)) → (colors term ≡ 256) ⊎ (colors term ≡ 8)
unfolding colors
colors-cases none = inr refl
colors-cases (some term) = elim (Bool-cases (contains many_colors term)) [
  | inl many ↦ rw many (inl refl)
  | inr few ↦ rw few (inr refl)
]

parse_i32-colors : (term : Option (List ℕ)) → parse_i32 (decimal (colors term)) ≡ some (colors term)
unfolding parse_i32 digits_from decimal
parse_i32-colors term = elim (colors-cases term) [ inl many ↦ rw many refl | inr few ↦ rw few refl ]

-- The address that the server replies from.
abbrev pub reply_address : Opts → Option (List ℕ) → Option (List ℕ)
reply_address o env = if o.localhost then some (unwrap_or o.userhost []) else ssh_ip env

abbrev pub address : Opts → Option (List ℕ) → Option (List ℕ) → Option (List ℕ)
address o none env = reply_address o env
address o (some ip) env =
    if is_ssh ip then reply_address o env else if is_any ip then none else some ip

module _ (env : Option (List ℕ)) where
  valued :
      (c : ℕ) (v : List ℕ) (rest : List (List ℕ)) (args : Args)
      → takes_value c ≡ true
      → options env none (flag c ∷ v ∷ rest) args
        ≡ (set_value c (some v) args >>= options env none rest)
  unfolding options
  valued c v rest args h = ap (continued env (v ∷ rest)) (flags-takes env c [] args h)

  switched :
      (rest : List (List ℕ)) (args : Args)
      → options env none (flag b's' ∷ rest) args
        ≡ options env none rest (record args { desired_ip = ssh_ip env })
  unfolding options flags set_flag
  switched rest args = refl

  set_locale_var :
      (var value : List ℕ) (args : Args)
      → IsName (var, value)
      → set_value b'l' (some (var ++ b'=' ∷ value)) args
        ≡ ok (record args { locale_vars = args.locale_vars ++ (var, value) ∷ [] })
  unfolding set_value
  set_locale_var var value args h =
      ap (λ f. ok (add_locale_var f args)) (split_at_first-name b'=' var value h)

  options-locale_args :
      (vars : List (List ℕ × List ℕ)) (args : Args)
      → All IsName vars
      → options env none (locale_args vars) args
        ≡ ok (record args { locale_vars = args.locale_vars ++ vars })
  unfolding options
  options-locale_args [] args h =
      ap (λ t. ok (record args { locale_vars = t })) (sym (append-nil args.locale_vars))
  options-locale_args ((var, value) ∷ rest) args h =
      let next = record args { locale_vars = args.locale_vars ++ (var, value) ∷ [] } in
      valued b'l' (var ++ b'=' ∷ value) (locale_args rest) args refl
      ∙ ap (λ r. r >>= options env none (locale_args rest)) (set_locale_var var value args h.0)
      ∙ options-locale_args rest next h.1
      ∙ ap (λ t. ok (record args { locale_vars = t }))
          (append_assoc args.locale_vars ((var, value) ∷ []) rest)

  set_ip :
      (v : List ℕ) (args : Args)
      → set_value b'i' (some v) args ≡ ok (record args { desired_ip = some v })
  unfolding set_value
  set_ip v args = refl

  set_port :
      (v : List ℕ) (args : Args)
      → set_value b'p' (some v) args ≡ ok (record args { desired_port = some v })
  unfolding set_value
  set_port v args = refl

  set_color_count :
      (term : Option (List ℕ)) (args : Args)
      → set_value b'c' (some (decimal (colors term))) args
        ≡ ok (record args { colors = colors term })
  unfolding set_value
  set_color_count term args =
      ap (λ n. set_colors (decimal (colors term)) n args) (parse_i32-colors term)

  ip_given :
      (v : List ℕ) (rest : List (List ℕ)) (args : Args)
      → options env none (flag b'i' ∷ v ∷ rest) args
        ≡ options env none rest (record args { desired_ip = some v })
  ip_given v rest args =
      valued b'i' v rest args refl ∙ ap (λ r. r >>= options env none rest) (set_ip v args)

  options-reply_args :
      (o : Opts) (rest : List (List ℕ)) (args : Args)
      → options env none (reply_args o ++ rest) args
        ≡ options env none rest (record args { desired_ip = reply_address o env })
  options-reply_args o rest args = elim (Bool-cases o.localhost) [
    | inl here ↦ rw here (ip_given (unwrap_or o.userhost []) rest args)
    | inr far ↦ rw far (switched rest args)
  ]

  options-address_args :
      (o : Opts) (b : Option (List ℕ)) (rest : List (List ℕ)) (args : Args)
      → options env none (address_args o b ++ rest) (record args { desired_ip = none })
        ≡ options env none rest (record args { desired_ip = address o b env })
  unfolding address_args
  options-address_args o none rest args =
      options-reply_args o rest (record args { desired_ip = none })
  options-address_args o (some ip) rest args = elim (Bool-cases (is_ssh ip)) [
    | inl ssh ↦ rw ssh (options-reply_args o rest (record args { desired_ip = none }))
    | inr other ↦ elim (Bool-cases (is_any ip)) [
      | inl any ↦ rw (other, any) refl
      | inr given ↦ rw (other, given) (ip_given ip rest (record args { desired_ip = none }))
    ]
  ]

  options-port_args :
      (p : Option (List ℕ)) (rest : List (List ℕ)) (args : Args)
      → options env none (port_args p ++ rest) (record args { desired_port = none })
        ≡ options env none rest (record args { desired_port = p })
  options-port_args none rest args = refl
  options-port_args (some p) rest args =
      valued b'p' p rest (record args { desired_port = none }) refl
      ∙ ap (λ r. r >>= options env none rest) (set_port p (record args { desired_port = none }))

  options-mode_word :
      (p : Bool) (os : List (List ℕ))
      → parse_options env (mode_word p ∷ os) default_args
        ≡ options env none os (record default_args { pipe = p })
  unfolding parse_options text_eq
  options-mode_word true os = refl
  options-mode_word false os = refl

  -- What the server is asked for, but for the command.
  abbrev pub asked : Option (List ℕ) → Opts → List (List ℕ × List ℕ) → Args
  asked term o locale = record default_args {
    desired_ip = address o o.bind_ip env;
    desired_port = o.port_request;
    colors = colors term;
    locale_vars = locale;
    pipe = o.pipe;
  }

  parse_options-option_args :
      (term : Option (List ℕ)) (o : Opts) (locale : List (List ℕ × List ℕ))
      → All IsName locale
      → parse_options env (option_args term o locale) default_args ≡ ok (asked term o locale)
  parse_options-option_args term o locale names =
      let last = locale_args locale in
      let later = port_args o.port_request ++ last in
      let args1 = record default_args { pipe = o.pipe } in
      let args2 = record args1 { colors = colors term } in
      let args3 = record args2 { desired_ip = address o o.bind_ip env } in
      options-mode_word o.pipe
        (flag b'c' ∷ decimal (colors term) ∷ (address_args o o.bind_ip ++ later))
      ∙ valued b'c' (decimal (colors term)) (address_args o o.bind_ip ++ later) args1 refl
      ∙ ap (λ r. r >>= options env none (address_args o o.bind_ip ++ later))
          (set_color_count term args1)
      ∙ options-address_args o o.bind_ip later args2
      ∙ options-port_args o.port_request last args3
      ∙ options-locale_args locale (record args3 { desired_port = o.port_request }) names

  parsed :
      (program : List ℕ) (os : List (List ℕ))
      → All IsPlain os
      → parse env (program ∷ os) ≡ parse_options env os default_args
  unfolding parse
  parsed program os h = scan-plain [] env [] os h

  -- When no argument before the command reads as `--` or as a request for help or the version, and no
  -- name of a locale variable has an equals sign in it, the server reads what the launcher writes as
  -- just the address, the ports, the colours, the variables and the command that were asked for.
  pub parse-server_args :
      (program : List ℕ) (term : Option (List ℕ)) (o : Opts) (locale : List (List ℕ × List ℕ))
      → All IsPlain (option_args term o locale)
      → All IsName locale
      → parse env (program ∷ server_args term o locale)
        ≡ ok (record (asked term o locale) { command = o.command })
  unfolding server_args
  parse-server_args program term o locale plain names =
      let options =
        parsed program (option_args term o locale) plain
        ∙ parse_options-option_args term o locale names in
      with_cmd o.command options
    where
      with_cmd :
          (cmd : List (List ℕ))
          → parse env (program ∷ option_args term o locale) ≡ ok (asked term o locale)
          → parse env (program ∷ (option_args term o locale ++ command_args cmd))
            ≡ ok (record (asked term o locale) { command = cmd })
      with_cmd [] h = ap (λ t. parse env (program ∷ t)) (append-nil (option_args term o locale)) ∙ h
      with_cmd (a ∷ as') h =
          parse-command (a ∷ as') env program (option_args term o locale) plain
          ∙ ap (with_command (a ∷ as')) h
