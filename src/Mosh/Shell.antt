-- ===== src/Mosh/Shell.antt =====
-- crates/mosh/src/opts.rs: `shellwords` and `shell_quote`, and the arguments of
-- `server_command` in crates/mosh/src/launch.rs.
pub mod Quoting
use rmosh.Prelude.{
  ℕ, Bool, true, false, ◌&&◌, ◌||◌, not, List, [], ◌∷◌, ◌++◌, leb, ◌==◌, if◌then◌else◌,
}
use rmosh.Strings.{is_whitespace}

-- Outside of quotes, within the quotes of its argument, or after a backslash.
pub data Mode : Type 0 where
  plain : Mode
  quoted : ℕ → Mode
  escaped : Mode

-- The variables of the loop but for `out`.
pub record Lexer : Type 0 where
  pub mode : Mode
  pub cur : List ℕ
  pub has_word : Bool

abbrev pub start : Lexer
start = record { mode = plain; cur = []; has_word = false }

abbrev pub is_nil : List ℕ → Bool
is_nil [] = true
is_nil (c ∷ cs) = false

-- `has_word || !cur.is_empty()`
abbrev pub has_any : Lexer → Bool
has_any s = s.has_word || not (is_nil s.cur)

abbrev pub push_char : ℕ → Lexer → Lexer
push_char c s = record { mode = plain; cur = s.cur ++ c ∷ []; has_word = true }

-- The words that a character ends, and what comes next.
abbrev pub step_plain : ℕ → Lexer → List (List ℕ) × Lexer
step_plain c s =
    if c == 39 || c == 34
    then ([], record { mode = quoted c; cur = s.cur; has_word = true })
    else if c == 92
    then ([], record s { mode = escaped })
    else if is_whitespace c
    then (if has_any s then (s.cur ∷ [], start) else ([], s))
    else ([], push_char c s)

abbrev pub step_quoted : ℕ → ℕ → Lexer → List (List ℕ) × Lexer
step_quoted q c s =
    if c == q then ([], record s { mode = plain }) else ([], record s { cur = s.cur ++ c ∷ [] })

unfoldable pub step : ℕ → Lexer → List (List ℕ) × Lexer
step c s = elim s.mode [
  | plain ↦ step_plain c s
  | quoted q ↦ step_quoted q c s
  | escaped ↦ ([], push_char c s)
]

unfoldable pub words : Lexer → List ℕ → List (List ℕ)
words s [] = if has_any s then s.cur ∷ [] else []
words s (c ∷ cs) = (step c s).0 ++ words (step c s).1 cs

abbrev pub shellwords : List ℕ → List (List ℕ)
shellwords s = words start s

-- A letter, a digit, or one of `-_./:=@`.
abbrev pub is_safe : ℕ → Bool
is_safe c =
    (leb b'0' c && leb c b'9')
    || (leb b'A' c && leb c b'Z')
    || (leb b'a' c && leb c b'z')
    || c == b'-'
    || c == b'_'
    || c == b'.'
    || c == b'/'
    || c == b':'
    || c == b'='
    || c == b'@'

abbrev pub all_safe : List ℕ → Bool
all_safe [] = true
all_safe (c ∷ cs) = is_safe c && all_safe cs

-- The word with every quote spelled out.
abbrev pub spelled : List ℕ → List ℕ
spelled [] = []
spelled (c ∷ cs) = if c == 39 then 39 ∷ 92 ∷ 39 ∷ 39 ∷ spelled cs else c ∷ spelled cs

unfoldable pub shell_quote : List ℕ → List ℕ
shell_quote word =
    if not (is_nil word) && all_safe word then word else 39 ∷ (spelled word ++ 39 ∷ [])

-- The arguments in the command for the far end, each quoted, with a space between them.
abbrev pub command_line : List (List ℕ) → List ℕ
command_line [] = []
command_line (w ∷ []) = shell_quote w
command_line (w ∷ v ∷ ws) = shell_quote w ++ 32 ∷ command_line (v ∷ ws)
