-- ===== src/Server/Args.antt =====
-- crates/mosh-server/src/args.rs: the command line of the server. The value of $SSH_CONNECTION is an
-- argument.
pub mod Ports
pub mod Bundling
pub mod Command
use rmosh.Prelude.{
  ℕ, zero, suc, ◌+◌, ◌%◌, ◌^◌, Bool, true, false, ◌&&◌, ◌||◌, not, Option, none, some, List, [],
  ◌∷◌, ◌++◌, leb, unwrap_or, Result, ok, err, ◌>>=◌, ◌>>=?◌, ◌==◌, if◌then◌else◌, get_elem?,
}
use rmosh.Terminal.Text.{text_eq}
use rmosh.Strings.{split_whitespace, split_at_first, parse_u16, parse_i32}

pub record Args : Type 0 where
  pub desired_ip : Option (List ℕ)
  pub desired_port : Option (List ℕ)
  pub command : List (List ℕ)
  pub colors : ℕ
  pub verbose : ℕ
  pub locale_vars : List (List ℕ × List ℕ)
  pub help : Bool
  pub version : Bool
  pub pipe : Bool

abbrev pub default_args : Args
default_args = record {
  desired_ip = none;
  desired_port = none;
  command = [];
  colors = 0;
  verbose = 0;
  locale_vars = [];
  help = false;
  version = false;
  pipe = false;
}

pub data ArgError : Type 0 where
  bad_colors : List ℕ → ArgError
  bad_usage : ArgError

-- The two ends of a range, a bound that is 0 or above the other one being refused.
abbrev pub port_range : ℕ → ℕ → Option (ℕ × ℕ)
port_range lo hi = if not (lo == 0) && leb lo hi then some (lo, hi) else none

unfoldable pub parse_portrange : List ℕ → Option (ℕ × ℕ)
parse_portrange s = elim (split_at_first b':' s) [
  | none ↦ parse_u16 s >>=? λ p. port_range p p
  | some (lo, hi) ↦ parse_u16 lo >>=? λ from. parse_u16 hi >>=? λ to. port_range from to
]

-- The value of `$SSH_CONNECTION`, the third word of it.
abbrev pub ssh_ip : Option (List ℕ) → Option (List ℕ)
ssh_ip conn = conn >>=? λ s. get_elem? (split_whitespace s) 2

-- A letter of `TAKES_VALUE`.
abbrev pub takes_value : ℕ → Bool
takes_value c = c == b'@' || c == b'i' || c == b'p' || c == b'c' || c == b'l'

abbrev pub add_locale_var : Option (List ℕ × List ℕ) → Args → Args
add_locale_var none args = args
add_locale_var (some var) args = record args { locale_vars = args.locale_vars ++ var ∷ [] }

abbrev pub set_colors : List ℕ → Option ℕ → Args → Result ArgError Args
set_colors v none args = err (bad_colors v)
set_colors v (some n) args = ok (record args { colors = n })

-- A letter and its value, which is missing when the arguments end.
unfoldable pub set_value : ℕ → Option (List ℕ) → Args → Result ArgError Args
set_value c value args =
    if c == b'i'
    then ok (record args { desired_ip = value })
    else if c == b'p'
    then ok (record args { desired_port = value })
    else if c == b'c'
    then set_colors (unwrap_or value []) (parse_i32 (unwrap_or value [])) args
    else if c == b'l'
    then ok (add_locale_var (value >>=? split_at_first b'=') args)
    else ok args

abbrev pub is_option : List ℕ → Bool
is_option (d ∷ c ∷ cs) = d == b'-'
is_option (d ∷ []) = false
is_option [] = false

abbrev pub letters : List ℕ → List ℕ
letters [] = []
letters (d ∷ cs) = cs

-- `new`
abbrev pub word_new : List ℕ
word_new = b'n' ∷ b'e' ∷ b'w' ∷ []

-- `pipe`
abbrev pub word_pipe : List ℕ
word_pipe = b'p' ∷ b'i' ∷ b'p' ∷ b'e' ∷ []

abbrev pub positional : List (List ℕ) → Args → Result ArgError Args
positional [] args = ok args
positional (ip ∷ []) args = ok (record args { desired_ip = some ip })
positional (ip ∷ port ∷ []) args =
    ok (record args { desired_ip = some ip; desired_port = some port })
positional (ip ∷ port ∷ a ∷ as') args = err bad_usage

-- `--`
abbrev pub dashes : List ℕ
dashes = b'-' ∷ b'-' ∷ []

-- `-h` or `--help`
abbrev pub is_help : List ℕ → Bool
is_help a = text_eq a (dashes ++ b'h' ∷ b'e' ∷ b'l' ∷ b'p' ∷ []) || text_eq a (b'-' ∷ b'h' ∷ [])

-- `--version`
abbrev pub is_version : List ℕ → Bool
is_version a = text_eq a (dashes ++ b'v' ∷ b'e' ∷ b'r' ∷ b's' ∷ b'i' ∷ b'o' ∷ b'n' ∷ [])

module _ (ssh_connection : Option (List ℕ)) where
  -- A letter without a value.
  unfoldable pub set_flag : ℕ → Args → Args
  set_flag c args =
      if c == b'v'
      then record args { verbose = (args.verbose + 1) % 2 ^ 32 }
      else if c == b's'
      then record args { desired_ip = ssh_ip ssh_connection }
      else args

  -- The letters of an argument up to the first one that takes a value, and that one with what follows
  -- it in the argument.
  unfoldable pub flags : List ℕ → Args → Args × Option (ℕ × List ℕ)
  flags [] args = (args, none)
  flags (c ∷ cs) args =
      let rest = flags cs (set_flag c args) in if takes_value c then (args, some (c, cs)) else rest

  -- The options, after a letter that still waits for its value.
  unfoldable pub options : Option ℕ → List (List ℕ) → Args → Result ArgError Args
  options none [] args = ok args
  options (some c) [] args = set_value c none args
  options (some c) (v ∷ rest) args = set_value c (some v) args >>= options none rest
  options none (a ∷ rest) args =
      let found = flags (letters a) args in
      elim (is_option a) [
        | false ↦ options none rest args
        | true ↦ elim found.1 [
          | none ↦ options none rest found.0
          | some (c, value) ↦ elim value [
            | [] ↦ options (some c) rest found.0
            | x ∷ xs ↦ set_value c (some (x ∷ xs)) found.0 >>= options none rest
          ]
        ]
      ]

  -- What stands before `--`, without the name of the program.
  unfoldable pub parse_options : List (List ℕ) → Args → Result ArgError Args
  parse_options [] args = ok args
  parse_options (o ∷ os) args =
      if text_eq o word_new || text_eq o word_pipe
      then options none os (record args { pipe = text_eq o word_pipe })
      else positional (o ∷ os) args

  -- The loop up to `--`, with the options that it has passed.
  unfoldable pub scan : List (List ℕ) → List (List ℕ) → Result ArgError Args
  scan opts [] = parse_options opts default_args
  scan opts (a ∷ rest) =
      let later = scan (opts ++ a ∷ []) rest in
      if is_help a
      then ok (record default_args { help = true })
      else if is_version a
      then ok (record default_args { version = true })
      else if text_eq a dashes
      then parse_options opts (record default_args { command = rest })
      else later

  unfoldable pub parse : List (List ℕ) → Result ArgError Args
  parse [] = ok default_args
  parse (program ∷ rest) = scan [] rest
