-- ===== src/Mosh/Handshake.antt =====
-- crates/mosh/src/handshake.rs: what the far end of an ssh session announces, line by line.
pub mod Safety
use rmosh.Prelude.{
  ℕ, Bool, true, false, ◌&&◌, ◌||◌, Option, none, some, List, [], ◌∷◌, ◌++◌, length, leb, Result,
  ok, err, ◌==◌, if◌then◌else◌,
}
use rmosh.Strings.{split_whitespace, trim, strip_prefix, utf8_bytes, parse_u16}

pub record Handshake : Type 0 where
  pub ip : Option (List ℕ)
  pub ssh_connection_ip : Option (List ℕ)
  pub connect : Option (ℕ × List ℕ)

abbrev pub new_handshake : Handshake
new_handshake = record { ip = none; ssh_connection_ip = none; connect = none }

-- The messages of the errors, the last two with the line after them.
pub data LineError : Type 0 where
  redefined_ip : LineError
  bad_ssh_connection : List ℕ → LineError
  bad_connect : List ℕ → LineError

-- `MOSH IP `
abbrev pub ip_prefix : List ℕ
ip_prefix = b'M' ∷ b'O' ∷ b'S' ∷ b'H' ∷ 32 ∷ b'I' ∷ b'P' ∷ 32 ∷ []

-- `MOSH SSH_CONNECTION `
abbrev pub ssh_prefix : List ℕ
ssh_prefix =
    b'M' ∷ b'O' ∷ b'S' ∷ b'H' ∷ 32 ∷ b'S' ∷ b'S' ∷ b'H' ∷ b'_' ∷ b'C' ∷ b'O' ∷ b'N' ∷ b'N' ∷ b'E'
    ∷ b'C' ∷ b'T' ∷ b'I' ∷ b'O' ∷ b'N' ∷ 32 ∷ []

-- `MOSH CONNECT `
abbrev pub connect_prefix : List ℕ
connect_prefix =
    b'M' ∷ b'O' ∷ b'S' ∷ b'H' ∷ 32 ∷ b'C' ∷ b'O' ∷ b'N' ∷ b'N' ∷ b'E' ∷ b'C' ∷ b'T' ∷ 32 ∷ []

abbrev pub Answer : Type 0
Answer = Result LineError (Handshake × Option (List ℕ))

abbrev pub is_key_byte : ℕ → Bool
is_key_byte c =
    (leb b'0' c && leb c b'9')
    || (leb b'A' c && leb c b'Z')
    || (leb b'a' c && leb c b'z')
    || c == b'+'
    || c == b'/'

abbrev pub all_key_bytes : List ℕ → Bool
all_key_bytes [] = true
all_key_bytes (c ∷ cs) = is_key_byte c && all_key_bytes cs

abbrev pub is_key : List ℕ → Bool
is_key k = length (utf8_bytes k) == 22 && all_key_bytes (utf8_bytes k)

abbrev pub set_ip : List ℕ → Handshake → Answer
set_ip rest h = elim h.ip [
  | some ip ↦ err redefined_ip
  | none ↦ ok (record h { ip = some (trim rest) }, none)
]

-- The third of four words.
abbrev pub server_word : List (List ℕ) → Option (List ℕ)
server_word (a ∷ b ∷ c ∷ d ∷ []) = some c
server_word _ = none

abbrev pub set_server : List ℕ → Handshake → Option (List ℕ) → Answer
set_server line h none = err (bad_ssh_connection line)
set_server line h (some server) = ok (record h { ssh_connection_ip = some server }, none)

abbrev pub set_connect : List ℕ → List ℕ → Handshake → Option ℕ → Answer
set_connect line k h none = err (bad_connect line)
set_connect line k h (some port) = ok (record h { connect = some (port, k) }, none)

unfoldable pub connect_words : List ℕ → Handshake → List (List ℕ) → Answer
connect_words line h (p ∷ k ∷ []) =
    if is_key k then set_connect line k h (parse_u16 p) else err (bad_connect line)
connect_words line h _ = err (bad_connect line)

-- `Handshake::line`, with the line again when the user should see it.
unfoldable pub line : List ℕ → Handshake → Answer
line l h = elim (strip_prefix ip_prefix l) [
  | some rest ↦ set_ip rest h
  | none ↦ elim (strip_prefix ssh_prefix l) [
    | some rest ↦ set_server l h (server_word (split_whitespace rest))
    | none ↦ elim (strip_prefix connect_prefix l) [
      | some rest ↦ connect_words l h (split_whitespace rest)
      | none ↦ ok (h, some l)
    ]
  ]
]

abbrev pub is_connected : Option (ℕ × List ℕ) → Bool
is_connected (some c) = true
is_connected none = false

abbrev pub complete : Handshake → Bool
complete h = is_connected h.connect

abbrev pub target : Handshake → Option (List ℕ)
target h = elim h.ip [ some ip ↦ some ip | none ↦ h.ssh_connection_ip ]
