-- ===== src/Server/Args/Bundling.antt =====
-- Letters and values in one argument.
use rmosh.Prelude.{ℕ, ◌≡◌, refl, true, Option, none, some, List, [], ◌∷◌, Result, ◌>>=◌}
use rmosh.Server.Args.{Args, ArgError, set_value, flags, options, takes_value}

module _ (env : Option (List ℕ)) where
  -- What is read after the letters of an argument.
  abbrev pub continued : List (List ℕ) → Args × Option (ℕ × List ℕ) → Result ArgError Args
  continued rest found = elim found.1 [
    | none ↦ options env none rest found.0
    | some (c, value) ↦ elim value [
      | [] ↦ options env (some c) rest found.0
      | x ∷ xs ↦ set_value c (some (x ∷ xs)) found.0 >>= options env none rest
    ]
  ]

  pub flags-takes :
      (c : ℕ) (cs : List ℕ) (args : Args)
      → takes_value c ≡ true
      → flags env (c ∷ cs) args ≡ (args, some (c, cs))
  unfolding flags
  flags-takes c cs args h = rw h refl
