-- ===== src/Terminal/UserInput.antt =====
-- crates/mosh-terminal/src/emulator.rs: `UserInput`, which rewrites the user's cursor keys for a host
-- that is not in application mode.
pub mod Lossless
use rmosh.Prelude.{ℕ, Bool, true, false, ◌&&◌, not, List, [], ◌∷◌, ◌++◌, leb, ◌==◌, if◌then◌else◌}

pub data UserInputState : Type 0 where
  ground : UserInputState
  esc : UserInputState
  ss3 : UserInputState

-- `UserInput::input`, the user input being its state.
unfoldable pub user_input : UserInputState → ℕ → Bool → List ℕ × UserInputState
user_input ground c application = (c ∷ [], if c == 0x1b then esc else ground)
user_input esc c application = if c == b'O' then ([], ss3) else (c ∷ [], ground)
user_input ss3 c application =
    (if not application && (leb b'A' c && leb c b'D') then b'[' ∷ c ∷ [] else b'O' ∷ c ∷ [], ground)

-- Bytes one after the other.
abbrev pub user_inputs : UserInputState → List ℕ → Bool → List ℕ × UserInputState
user_inputs s [] application = ([], s)
user_inputs s (c ∷ cs) application =
    let one = user_input s c application in
    let rest = user_inputs one.1 cs application in (one.0 ++ rest.0, rest.1)
