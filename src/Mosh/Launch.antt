-- ===== src/Mosh/Launch.antt =====
-- crates/mosh/src/launch.rs: the arguments that the far end's server is started with. The value of
-- $TERM is an argument.
pub mod Agreement
use rmosh.Prelude.{
  ℕ, Bool, true, false, ◌||◌, Option, none, some, List, [], ◌∷◌, ◌++◌, unwrap_or, if◌then◌else◌,
}
use rmosh.Terminal.Text.{text_eq, decimal}
use rmosh.Strings.{strip_prefix}
use rmosh.Mosh.Opts.{Opts}
use rmosh.Mosh.Shell.{command_line}

abbrev is_some : Option (List ℕ) → Bool
is_some none = false
is_some (some s) = true

-- `s.contains(p)`
unfoldable pub contains : List ℕ → List ℕ → Bool
contains p [] = is_some (strip_prefix p [])
contains p (c ∷ cs) = is_some (strip_prefix p (c ∷ cs)) || contains p cs

-- `256color`
abbrev many_colors : List ℕ
many_colors = b'2' ∷ b'5' ∷ b'6' ∷ b'c' ∷ b'o' ∷ b'l' ∷ b'o' ∷ b'r' ∷ []

unfoldable pub colors : Option (List ℕ) → ℕ
colors none = 8
colors (some term) = if contains many_colors term then 256 else 8

abbrev pub flag : ℕ → List ℕ
flag c = b'-' ∷ c ∷ []

-- `ssh`, `any`
abbrev pub is_ssh : List ℕ → Bool
is_ssh s = text_eq s (b's' ∷ b's' ∷ b'h' ∷ [])

abbrev pub is_any : List ℕ → Bool
is_any s = text_eq s (b'a' ∷ b'n' ∷ b'y' ∷ [])

abbrev pub reply_args : Opts → List (List ℕ)
reply_args o = if o.localhost then flag b'i' ∷ unwrap_or o.userhost [] ∷ [] else flag b's' ∷ []

unfoldable pub address_args : Opts → Option (List ℕ) → List (List ℕ)
address_args o none = reply_args o
address_args o (some ip) =
    if is_ssh ip then reply_args o else if is_any ip then [] else flag b'i' ∷ ip ∷ []

abbrev pub port_args : Option (List ℕ) → List (List ℕ)
port_args none = []
port_args (some p) = flag b'p' ∷ p ∷ []

abbrev pub locale_args : List (List ℕ × List ℕ) → List (List ℕ)
locale_args [] = []
locale_args ((var, value) ∷ rest) = flag b'l' ∷ (var ++ b'=' ∷ value) ∷ locale_args rest

abbrev pub command_args : List (List ℕ) → List (List ℕ)
command_args [] = []
command_args (a ∷ as') = (b'-' ∷ b'-' ∷ []) ∷ a ∷ as'

abbrev pub mode_word : Bool → List ℕ
mode_word true = b'p' ∷ b'i' ∷ b'p' ∷ b'e' ∷ []
mode_word false = b'n' ∷ b'e' ∷ b'w' ∷ []

-- What stands before the command.
abbrev pub option_args : Option (List ℕ) → Opts → List (List ℕ × List ℕ) → List (List ℕ)
option_args term o locale =
    mode_word o.pipe
    ∷ flag b'c'
    ∷ decimal (colors term)
    ∷ (address_args o o.bind_ip ++ (port_args o.port_request ++ locale_args locale))

unfoldable pub server_args : Option (List ℕ) → Opts → List (List ℕ × List ℕ) → List (List ℕ)
server_args term o locale = option_args term o locale ++ command_args o.command

unfoldable pub server_command : Option (List ℕ) → Opts → List (List ℕ × List ℕ) → List ℕ
server_command term o locale = o.server ++ 32 ∷ command_line (server_args term o locale)
