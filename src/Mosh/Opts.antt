-- ===== src/Mosh/Opts.antt =====
-- crates/mosh/src/opts.rs: what the launcher is asked for. The environment is an argument: the values
-- of $MOSH_PREDICTION_DISPLAY and $MOSH_PREDICTION_OVERWRITE, and Unicode's lower case.
pub mod Attached
use rmosh.Prelude.{
  ℕ, Bool, true, false, ◌&&◌, ◌||◌, not, Option, none, some, List, [], ◌∷◌, ◌++◌, Result, ok, err,
  ok_or, ◌>>=◌, ◌==◌, if◌then◌else◌,
}
use rmosh.Terminal.Text.{text_eq}
use rmosh.Strings.{split_at_first}
use rmosh.Mosh.Shell.{shellwords}

pub data Predict : Type 0 where
  always : Predict
  never : Predict
  adaptive : Predict
  experimental : Predict

pub record Opts : Type 0 where
  pub client : List ℕ
  pub server : List ℕ
  pub predict : Predict
  pub predict_overwrite : Bool
  pub port_request : Option (List ℕ)
  pub family : List ℕ
  pub ssh : List (List ℕ)
  pub ssh_pty : Bool
  pub term_init : Bool
  pub localhost : Bool
  pub bind_ip : Option (List ℕ)
  pub help : Bool
  pub version : Bool
  pub fake_proxy : Bool
  pub remote_ip : List ℕ
  pub userhost : Option (List ℕ)
  pub command : List (List ℕ)
  pub pipe : Bool

abbrev pub default_opts : Opts
default_opts = record {
  client = (b'm' ∷ b'o' ∷ b's' ∷ b'h' ∷ b'-' ∷ b'c' ∷ b'l' ∷ b'i' ∷ b'e' ∷ b'n' ∷ b't' ∷ []);
  server = (b'm' ∷ b'o' ∷ b's' ∷ b'h' ∷ b'-' ∷ b's' ∷ b'e' ∷ b'r' ∷ b'v' ∷ b'e' ∷ b'r' ∷ []);
  predict = adaptive;
  predict_overwrite = false;
  port_request = none;
  family = (b'p' ∷ b'r' ∷ b'e' ∷ b'f' ∷ b'e' ∷ b'r' ∷ b'-' ∷ b'i' ∷ b'n' ∷ b'e' ∷ b't' ∷ []);
  ssh = (b's' ∷ b's' ∷ b'h' ∷ []) ∷ [];
  ssh_pty = true;
  term_init = true;
  localhost = false;
  bind_ip = none;
  help = false;
  version = false;
  fake_proxy = false;
  remote_ip = (b'p' ∷ b'r' ∷ b'o' ∷ b'x' ∷ b'y' ∷ []);
  userhost = none;
  command = [];
  pipe = false;
}

-- `Predict::parse`
unfoldable pub parse_predict : List ℕ → Option Predict
parse_predict name =
    if text_eq name (b'a' ∷ b'l' ∷ b'w' ∷ b'a' ∷ b'y' ∷ b's' ∷ [])
    then some always
    else if text_eq name (b'n' ∷ b'e' ∷ b'v' ∷ b'e' ∷ b'r' ∷ [])
    then some never
    else if text_eq name (b'a' ∷ b'd' ∷ b'a' ∷ b'p' ∷ b't' ∷ b'i' ∷ b'v' ∷ b'e' ∷ [])
    then some adaptive
    else if text_eq name
        (b'e' ∷ b'x' ∷ b'p' ∷ b'e' ∷ b'r' ∷ b'i' ∷ b'm' ∷ b'e' ∷ b'n' ∷ b't' ∷ b'a' ∷ b'l' ∷ [])
    then some experimental
    else none

pub data OptError : Type 0 where
  bad_predict : List ℕ → OptError
  missing_value : List ℕ → OptError
  bad_remote_ip : List ℕ → OptError

-- `--opt=value`, in its parts.
abbrev pub split_value : List ℕ → List ℕ × Option (List ℕ)
split_value arg = elim (split_at_first b'=' arg) [ none ↦ (arg, none) | some (k, v) ↦ (k, some v) ]

-- The options that take a value.
pub data Valued : Type 0 where
  to_client : Valued
  to_server : Valued
  to_predict : Valued
  to_port : Valued
  to_family : Valued
  to_ssh : Valued
  to_bind : Valued
  to_remote_ip : Valued

unfoldable pub valued_name : List ℕ → Option Valued
valued_name name =
    if text_eq name (b'-' ∷ b'-' ∷ b'c' ∷ b'l' ∷ b'i' ∷ b'e' ∷ b'n' ∷ b't' ∷ [])
    then some to_client
    else if text_eq name (b'-' ∷ b'-' ∷ b's' ∷ b'e' ∷ b'r' ∷ b'v' ∷ b'e' ∷ b'r' ∷ [])
    then some to_server
    else if text_eq name (b'-' ∷ b'-' ∷ b'p' ∷ b'r' ∷ b'e' ∷ b'd' ∷ b'i' ∷ b'c' ∷ b't' ∷ [])
    then some to_predict
    else if text_eq name (b'-' ∷ b'-' ∷ b'p' ∷ b'o' ∷ b'r' ∷ b't' ∷ [])
        || text_eq name (b'-' ∷ b'p' ∷ [])
    then some to_port
    else if text_eq name (b'-' ∷ b'-' ∷ b'f' ∷ b'a' ∷ b'm' ∷ b'i' ∷ b'l' ∷ b'y' ∷ [])
    then some to_family
    else if text_eq name (b'-' ∷ b'-' ∷ b's' ∷ b's' ∷ b'h' ∷ [])
    then some to_ssh
    else if text_eq name (
        b'-' ∷ b'-' ∷ b'b' ∷ b'i' ∷ b'n' ∷ b'd' ∷ b'-' ∷ b's' ∷ b'e' ∷ b'r' ∷ b'v' ∷ b'e' ∷ b'r'
        ∷ [])
    then some to_bind
    else if text_eq name (
        b'-' ∷ b'-' ∷ b'e' ∷ b'x' ∷ b'p' ∷ b'e' ∷ b'r' ∷ b'i' ∷ b'm' ∷ b'e' ∷ b'n' ∷ b't' ∷ b'a'
        ∷ b'l' ∷ b'-' ∷ b'r' ∷ b'e' ∷ b'm' ∷ b'o' ∷ b't' ∷ b'e' ∷ b'-' ∷ b'i' ∷ b'p' ∷ [])
    then some to_remote_ip
    else none

abbrev pub set_predict : List ℕ → Option Predict → Opts → Result OptError Opts
set_predict v none o = err (bad_predict v)
set_predict v (some p) o = ok (record o { predict = p })

abbrev pub set_ssh : List (List ℕ) → Opts → Result OptError Opts
set_ssh [] o = err (missing_value (b'-' ∷ b'-' ∷ b's' ∷ b's' ∷ b'h' ∷ []))
set_ssh (word ∷ words) o = ok (record o { ssh = word ∷ words })

abbrev pub is_remote_ip : List ℕ → Bool
is_remote_ip name =
    text_eq name (b'l' ∷ b'o' ∷ b'c' ∷ b'a' ∷ b'l' ∷ [])
    || text_eq name (b'r' ∷ b'e' ∷ b'm' ∷ b'o' ∷ b't' ∷ b'e' ∷ [])
    || text_eq name (b'p' ∷ b'r' ∷ b'o' ∷ b'x' ∷ b'y' ∷ [])

-- The host, and a command after it if there was none after `--`.
abbrev pub or_command : List (List ℕ) → List (List ℕ) → List (List ℕ)
or_command [] words = words
or_command (a ∷ as') words = a ∷ as'

abbrev pub with_words : Opts × List (List ℕ) → Result OptError Opts
with_words (o, []) = ok o
with_words (o, host ∷ words) =
    ok (record o { userhost = some host; command = or_command o.command words })

abbrev pub is_yes : Option (List ℕ) → Bool
is_yes none = false
is_yes (some name) = text_eq name (b'y' ∷ b'e' ∷ b's' ∷ [])

module _ (to_lowercase : List ℕ → List ℕ) where
  unfoldable pub set_valued : Valued → List ℕ → Opts → Result OptError Opts
  set_valued to_client v o = ok (record o { client = v })
  set_valued to_server v o = ok (record o { server = v })
  set_valued to_predict v o = set_predict v (parse_predict v) o
  set_valued to_port v o = ok (record o { port_request = some v })
  set_valued to_family v o = ok (record o { family = to_lowercase v })
  set_valued to_ssh v o = set_ssh (shellwords v) o
  set_valued to_bind v o = ok (record o { bind_ip = some v })
  set_valued to_remote_ip v o =
      if is_remote_ip (to_lowercase v)
      then ok (record o { remote_ip = to_lowercase v })
      else err (bad_remote_ip (to_lowercase v))

-- An option without a value; what is not known goes to ssh, the whole argument of it.
unfoldable pub set_flag : List ℕ → List ℕ → Opts → Opts
set_flag arg name o =
    if text_eq name (
        b'-' ∷ b'-' ∷ b'p' ∷ b'r' ∷ b'e' ∷ b'd' ∷ b'i' ∷ b'c' ∷ b't' ∷ b'-' ∷ b'o' ∷ b'v' ∷ b'e'
        ∷ b'r' ∷ b'w' ∷ b'r' ∷ b'i' ∷ b't' ∷ b'e' ∷ [])
      || text_eq name (b'-' ∷ b'o' ∷ [])
    then record o { predict_overwrite = true }
    else if text_eq name (
        b'-' ∷ b'-' ∷ b'n' ∷ b'o' ∷ b'-' ∷ b'p' ∷ b'r' ∷ b'e' ∷ b'd' ∷ b'i' ∷ b'c' ∷ b't' ∷ b'-'
        ∷ b'o' ∷ b'v' ∷ b'e' ∷ b'r' ∷ b'w' ∷ b'r' ∷ b'i' ∷ b't' ∷ b'e' ∷ [])
    then record o { predict_overwrite = false }
    else if text_eq name (b'-' ∷ b'a' ∷ [])
    then record o { predict = always }
    else if text_eq name (b'-' ∷ b'n' ∷ [])
    then record o { predict = never }
    else if text_eq name (b'-' ∷ b'4' ∷ [])
    then record o { family = (b'i' ∷ b'n' ∷ b'e' ∷ b't' ∷ []) }
    else if text_eq name (b'-' ∷ b'6' ∷ [])
    then record o { family = (b'i' ∷ b'n' ∷ b'e' ∷ b't' ∷ b'6' ∷ []) }
    else if text_eq name (b'-' ∷ b'-' ∷ b's' ∷ b's' ∷ b'h' ∷ b'-' ∷ b'p' ∷ b't' ∷ b'y' ∷ [])
    then record o { ssh_pty = true }
    else if text_eq name
        (b'-' ∷ b'-' ∷ b'n' ∷ b'o' ∷ b'-' ∷ b's' ∷ b's' ∷ b'h' ∷ b'-' ∷ b'p' ∷ b't' ∷ b'y' ∷ [])
    then record o { ssh_pty = false }
    else if text_eq name (b'-' ∷ b'-' ∷ b'i' ∷ b'n' ∷ b'i' ∷ b't' ∷ [])
    then record o { term_init = true }
    else if text_eq name (b'-' ∷ b'-' ∷ b'n' ∷ b'o' ∷ b'-' ∷ b'i' ∷ b'n' ∷ b'i' ∷ b't' ∷ [])
    then record o { term_init = false }
    else if text_eq name (b'-' ∷ b'-' ∷ b'l' ∷ b'o' ∷ b'c' ∷ b'a' ∷ b'l' ∷ [])
    then record o { localhost = true }
    else if text_eq name
        (b'-' ∷ b'-' ∷ b'f' ∷ b'a' ∷ b'k' ∷ b'e' ∷ b'-' ∷ b'p' ∷ b'r' ∷ b'o' ∷ b'x' ∷ b'y' ∷ [])
    then record o { fake_proxy = true }
    else if text_eq name (b'-' ∷ b'-' ∷ b'p' ∷ b'i' ∷ b'p' ∷ b'e' ∷ [])
    then record o { pipe = true }
    else if text_eq name (
        b'-' ∷ b'-' ∷ b'n' ∷ b'o' ∷ b'-' ∷ b'f' ∷ b'a' ∷ b'k' ∷ b'e' ∷ b'-' ∷ b'p' ∷ b'r' ∷ b'o'
        ∷ b'x' ∷ b'y' ∷ [])
    then record o { fake_proxy = false }
    else if text_eq name (b'-' ∷ b'-' ∷ b'h' ∷ b'e' ∷ b'l' ∷ b'p' ∷ [])
    then record o { help = true }
    else if text_eq name (b'-' ∷ b'-' ∷ b'v' ∷ b'e' ∷ b'r' ∷ b's' ∷ b'i' ∷ b'o' ∷ b'n' ∷ [])
    then record o { version = true }
    else record o { ssh = o.ssh ++ arg ∷ [] }

abbrev pub is_option : List ℕ → Bool
is_option (d ∷ c ∷ cs) = d == b'-'
is_option (d ∷ []) = false
is_option [] = false

abbrev pub is_dashes : List ℕ → Bool
is_dashes a = text_eq a (b'-' ∷ b'-' ∷ [])

module _ (to_lowercase : List ℕ → List ℕ) where
  -- The loop: an option that waits for its value, with its name, and the arguments that are no options.
  unfoldable pub read_args :
      Option (Valued × List ℕ)
      → List (List ℕ)
      → List (List ℕ)
      → Opts
      → Result OptError (Opts × List (List ℕ))
  read_args none words [] o = ok (o, words)
  read_args (some (v, name)) words [] o = err (missing_value name)
  read_args (some (v, name)) words (a ∷ rest) o =
      set_valued to_lowercase v a o >>= read_args none words rest
  read_args none words (a ∷ rest) o =
      let (name, attached) = split_value a in
      elim (is_dashes a) [
        | true ↦ ok (record o { command = rest }, words)
        | false ↦ elim (is_option a) [
          | false ↦ read_args none (words ++ a ∷ []) rest o
          | true ↦ elim (valued_name name) [
            | none ↦ read_args none words rest (set_flag a name o)
            | some v ↦ elim attached [
              | none ↦ read_args (some (v, name)) words rest o
              | some value ↦ set_valued to_lowercase v value o >>= read_args none words rest
            ]
          ]
        ]
      ]

  abbrev pub predict_from : Option (List ℕ) → Opts → Result OptError Opts
  predict_from none o = ok o
  predict_from (some v) o = set_predict v (parse_predict v) o

  -- `parse`, on the arguments after the name of the program.
  unfoldable pub parse_opts :
      Option (List ℕ) → Option (List ℕ) → List (List ℕ) → Result OptError Opts
  parse_opts display overwrite args = predict_from display default_opts >>= λ o.
      read_args none [] args (if is_yes overwrite then record o { predict_overwrite = true } else o)
      >>= with_words
