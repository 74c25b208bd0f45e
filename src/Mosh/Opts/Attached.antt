-- ===== src/Mosh/Opts/Attached.antt =====
-- A value that is attached to its option, and one that stands alone.
use rmosh.Prelude.{
  ℕ, ◌≡◌, refl, sym, ap, ◌∙◌, Bool, true, false, ◌&&◌, Option, none, some, List, [], ◌∷◌, ◌++◌,
  arith, ◌==◌, ◌>>=◌, Result,
}
use rmosh.Terminal.Text.{text_eq}
use rmosh.Strings.{split_at_first, split_at_first-name}
use rmosh.Mosh.Opts.{
  Opts, OptError, Valued, valued_name, split_value, is_option, is_dashes, set_valued, set_flag,
  read_args,
}

-- What is read of an argument that is neither `--` nor a word.
abbrev chosen :
    (List ℕ → List ℕ)
    → List (List ℕ)
    → List ℕ
    → List (List ℕ)
    → Opts
    → List ℕ × Option (List ℕ)
    → Result OptError (Opts × List (List ℕ))
chosen lower words a rest o parts = elim (valued_name parts.0) [
  | none ↦ read_args lower none words rest (set_flag a parts.0 o)
  | some v ↦ elim parts.1 [
    | none ↦ read_args lower (some (v, parts.0)) words rest o
    | some value ↦ set_valued lower v value o >>= read_args lower none words rest
  ]
]

chosen_option :
    (lower : List ℕ → List ℕ) (words : List (List ℕ)) (a : List ℕ) (rest : List (List ℕ)) (o : Opts)
    → is_dashes a ≡ false
    → is_option a ≡ true
    → read_args lower none words (a ∷ rest) o ≡ chosen lower words a rest o (split_value a)
unfolding read_args
chosen_option lower words a rest o h k = rw (h, k, read_args) refl

and_false : (a b : Bool) → (a && (b && false)) ≡ false
and_false a b = ground arith

is_dashes-attached :
    (name value : List ℕ) → is_option name ≡ true → is_dashes (name ++ b'=' ∷ value) ≡ false
unfolding text_eq
is_dashes-attached [] value h = cc
is_dashes-attached (d ∷ []) value h = cc
is_dashes-attached (d ∷ c ∷ []) value h = and_false (d == b'-') (c == b'-')
is_dashes-attached (d ∷ c ∷ x ∷ xs) value h = and_false (d == b'-') (c == b'-')

is_option-attached :
    (name value : List ℕ) → is_option name ≡ true → is_option (name ++ b'=' ∷ value) ≡ true
is_option-attached [] value h = cc
is_option-attached (d ∷ []) value h = cc
is_option-attached (d ∷ c ∷ cs) value h = h

read_value :
    (lower : List ℕ → List ℕ) (words : List (List ℕ)) (name a value : List ℕ) (v : Valued)
    (rest : List (List ℕ)) (o : Opts)
    → valued_name name ≡ some v
    → chosen lower words a rest o (name, some value)
      ≡ chosen lower words name (value ∷ rest) o (name, none)
unfolding read_args
read_value lower words name a value v rest o valued = rw (valued, chosen) refl

-- `--name=value` is read as `--name value` is, for an option that takes a value.
pub read_args_attached :
    (lower : List ℕ → List ℕ) (words : List (List ℕ)) (name value : List ℕ) (v : Valued)
    (rest : List (List ℕ)) (o : Opts)
    → is_dashes name ≡ false
    → is_option name ≡ true
    → split_at_first b'=' name ≡ none
    → valued_name name ≡ some v
    → read_args lower none words ((name ++ b'=' ∷ value) ∷ rest) o
      ≡ read_args lower none words (name ∷ value ∷ rest) o
read_args_attached lower words name value v rest o dashes option bare valued =
    let parts : split_value (name ++ b'=' ∷ value) ≡ (name, some value) =
      rw (split_at_first-name b'=' name value bare, split_value) refl in
    let alone : split_value name ≡ (name, none) = rw (bare, split_value) refl in
    chosen_option lower words (name ++ b'=' ∷ value) rest o (is_dashes-attached name value option)
      (is_option-attached name value option)
    ∙ ap (chosen lower words (name ++ b'=' ∷ value) rest o) parts
    ∙ read_value lower words name (name ++ b'=' ∷ value) value v rest o valued
    ∙ sym (ap (chosen lower words name (value ∷ rest) o) alone)
    ∙ sym (chosen_option lower words name (value ∷ rest) o dashes option)
