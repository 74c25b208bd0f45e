-- ===== src/Tests/Programs.antt =====
-- What the programs are started with.
use rmosh.Prelude.{◌<◌, length, All, ok, some, ℕ, ◌≡◌, refl, none, List, [], ◌∷◌, ◌++◌}
use rmosh.Terminal.Text.{decimal, text_eq, encode_utf8}
use rmosh.Strings.{split_at_first, words_from, strip_prefix, digits_from, parse_u16}
use rmosh.Mosh.Handshake.{Handshake, new_handshake, line, connect_prefix, connect_words}
use rmosh.Mosh.Handshake.Safety.{IsKeyChar, line-IsConnect}
use rmosh.Mosh.Shell.{shellwords, command_line}
use rmosh.Mosh.Shell.Quoting.{shellwords-shell_quote}
use rmosh.Mosh.Opts.{Opts, default_opts}
use rmosh.Mosh.Launch.{option_args, server_args, address_args, colors}
use rmosh.Mosh.Launch.Agreement.{IsName, asked, parse-server_args}
use rmosh.Server.Args.{parse, dashes, word_new}
use rmosh.Server.Args.Command.{IsPlain, with_command, parse-command}

-- A key of 22 characters.
abbrev far_key : List ℕ
far_key =
    b'i' ∷ b'A' ∷ b'4' ∷ b'f' ∷ b'B' ∷ b'Y' ∷ b'J' ∷ b'0' ∷ b'b' ∷ b'L' ∷ b'Z' ∷ b'0' ∷ b'C' ∷ b'n'
    ∷ b'y' ∷ b'Q' ∷ b'L' ∷ b'X' ∷ b'T' ∷ b'F' ∷ b'L' ∷ b'g' ∷ []

-- MOSH CONNECT 60001 and the key.
abbrev connect_line : List ℕ
connect_line = connect_prefix ++ (b'6' ∷ b'0' ∷ b'0' ∷ b'0' ∷ b'1' ∷ 32 ∷ far_key)

abbrev connected : Handshake
connected = record new_handshake { connect = some (60001, far_key) }

connect_line-accepted : line connect_line new_handshake ≡ ok (connected, none)
unfolding line strip_prefix connect_words encode_utf8 digits_from parse_u16 words_from
connect_line-accepted = refl

line-IsConnect_example :
    ((60001 < 65536) × (length far_key ≡ 22) × All IsKeyChar far_key)
    × ((ip : List ℕ) → none ≡ some ip → none ≡ some ip)
line-IsConnect_example =
    line-IsConnect connect_line new_handshake connected none tt connect_line-accepted

-- mosh-server new -v -- ls -h
abbrev program : List ℕ
program = b'm' ∷ []

abbrev before : List (List ℕ)
before = word_new ∷ (b'-' ∷ b'v' ∷ []) ∷ []

abbrev after : List (List ℕ)
after = (b'l' ∷ b's' ∷ []) ∷ (b'-' ∷ b'h' ∷ []) ∷ []

parse-command_example :
    parse none (program ∷ (before ++ dashes ∷ after))
    ≡ with_command after (parse none (program ∷ before))
unfolding text_eq
parse-command_example =
    parse-command after none program before ((refl, refl, refl), ((refl, refl, refl), tt))

-- it's, an empty word, and ls.
abbrev spoken : List (List ℕ)
spoken = (b'i' ∷ b't' ∷ 39 ∷ b's' ∷ []) ∷ [] ∷ (b'l' ∷ b's' ∷ []) ∷ []

shellwords-shell_quote_example : shellwords (command_line spoken) ≡ spoken
shellwords-shell_quote_example = shellwords-shell_quote spoken

-- mosh --port=8 h ls, with LANG=C.
abbrev wanted : Opts
wanted = record default_opts {
  port_request = some (b'8' ∷ []);
  userhost = some (b'h' ∷ []);
  command = (b'l' ∷ b's' ∷ []) ∷ [];
}

abbrev variables : List (List ℕ × List ℕ)
variables = (b'L' ∷ b'A' ∷ b'N' ∷ b'G' ∷ [], b'C' ∷ []) ∷ []

option_args-IsPlain : All IsPlain (option_args none wanted variables)
unfolding address_args colors decimal text_eq
option_args-IsPlain = (
  (refl, refl, refl),
  (
    (refl, refl, refl),
    (
      (refl, refl, refl),
      (
        (refl, refl, refl),
        ((refl, refl, refl), ((refl, refl, refl), ((refl, refl, refl), ((refl, refl, refl), tt)))),
      ),
    ),
  ),
)

variables-IsName : All IsName variables
unfolding split_at_first
variables-IsName = (refl, tt)

parse-server_args_example :
    parse none (program ∷ server_args none wanted variables)
    ≡ ok (record (asked none none wanted variables) { command = wanted.command })
parse-server_args_example =
    parse-server_args none program none wanted variables option_args-IsPlain variables-IsName
