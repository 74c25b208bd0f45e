-- ===== src/State/User.antt =====
-- crates/mosh-state/src/user.rs: the client's state, which is what the user has typed. The messages
-- of prost are records with its fields, and its coding of them is a parameter.
pub mod Diff
pub mod Synchronised
use rmosh.Prelude.{
  ℕ, zero, suc, Bool, true, false, ◌&&◌, Option, none, some, List, [], ◌∷◌, ◌++◌, Result, ok, err,
  length, get_elem?, drop, ◌==◌, if◌then◌else◌, unwrap_or, ◌≡◌,
}
use rmosh.Network.Sync.{SyncState}

-- An i32 is the number of its bits; -1 is the largest one.
pub data UserEvent : Type 0 where
  byte : ℕ → UserEvent
  resize : ℕ → ℕ → UserEvent

abbrev pub minus_one : ℕ
minus_one = 4294967295

-- The stream is its events, oldest first.
abbrev pub UserStream : Type 0
UserStream = List UserEvent

abbrev pub push_byte : UserStream → ℕ → UserStream
push_byte s c = s ++ byte c ∷ []

abbrev pub push_resize : UserStream → ℕ → ℕ → UserStream
push_resize s width height = s ++ resize width height ∷ []

abbrev pub event_eq : UserEvent → UserEvent → Bool
event_eq (byte a) (byte b) = a == b
event_eq (byte a) (resize w h) = false
event_eq (resize w h) (byte b) = false
event_eq (resize w h) (resize w' h') = w == w' && h == h'

-- `==` of two streams.
abbrev pub stream_eq : UserStream → UserStream → Bool
stream_eq [] [] = true
stream_eq [] (y ∷ ys) = false
stream_eq (x ∷ xs) [] = false
stream_eq (x ∷ xs) (y ∷ ys) = event_eq x y && stream_eq xs ys

-- `subtract`, of another stream object than itself: the events that the two share are dropped.
unfoldable pub subtract : UserStream → UserStream → UserStream
subtract s [] = s
subtract [] (p ∷ prefix) = []
subtract (e ∷ s) (p ∷ prefix) = if event_eq e p then subtract s prefix else e ∷ s

pub record Keystroke : Type 0 where
  pub keys : Option (List ℕ)

pub record ResizeMessage : Type 0 where
  pub width : Option ℕ
  pub height : Option ℕ

pub record UserInstruction : Type 0 where
  pub keystroke : Option Keystroke
  pub resize : Option ResizeMessage

abbrev pub keystroke_of : List ℕ → UserInstruction
keystroke_of keys = record { keystroke = some (record { keys = some keys }); resize = none }

abbrev pub resize_of : ℕ → ℕ → UserInstruction
resize_of w h = record {
  keystroke = none;
  resize = some (record { width = some w; height = some h });
}

-- `keys.get_or_insert_with(Vec::new).push(c)` on the last instruction, if it is a keystroke.
abbrev pub with_key : UserInstruction → ℕ → Option UserInstruction
with_key inst c = elim inst.keystroke [
  | none ↦ none
  | some k ↦
      some
        (record inst { keystroke = some (record { keys = some (unwrap_or k.keys [] ++ c ∷ []) }) })
]

abbrev pub or_new : UserInstruction → ℕ → Option UserInstruction → List UserInstruction
or_new last c none = last ∷ keystroke_of (c ∷ []) ∷ []
or_new last c (some extended) = extended ∷ []

abbrev pub add_key : List UserInstruction → ℕ → List UserInstruction
add_key [] c = keystroke_of (c ∷ []) ∷ []
add_key (i ∷ []) c = or_new i c (with_key i c)
add_key (i ∷ j ∷ r) c = i ∷ add_key (j ∷ r) c

-- One event of the loop of `diff_from`, and the loop.
abbrev pub add_event : List UserInstruction → UserEvent → List UserInstruction
add_event output (byte c) = add_key output c
add_event output (resize w h) = output ++ resize_of w h ∷ []

abbrev pub add_events : List UserInstruction → List UserEvent → List UserInstruction
add_events output [] = output
add_events output (e ∷ es) = add_events (add_event output e) es

-- What one instruction adds in `apply_string`.
abbrev pub keys_events : List ℕ → List UserEvent
keys_events [] = []
keys_events (b ∷ bs) = byte b ∷ keys_events bs

abbrev pub instruction_events : UserInstruction → List UserEvent
instruction_events inst = elim inst.keystroke [
  | some k ↦ keys_events (unwrap_or k.keys [])
  | none ↦ elim inst.resize [
    | none ↦ []
    | some r ↦ resize (unwrap_or r.width minus_one) (unwrap_or r.height minus_one) ∷ []
  ]
]

abbrev pub message_events : List UserInstruction → List UserEvent
message_events [] = []
message_events (i ∷ r) = instruction_events i ++ message_events r

-- prost on `UserMessage`, which is its list of instructions.
pub record UserCodec : Type 0 where
  pub encode_to_vec : List UserInstruction → List ℕ
  pub decode : List ℕ → Option (List UserInstruction)

-- Documented of prost: decoding gives back what was encoded, and no bytes are the empty message.
pub record IsUserCodec (codec : UserCodec) : Type 0 where
  pub decodes : (m : List UserInstruction) → codec.decode (codec.encode_to_vec m) ≡ some m
  pub empty : codec.decode [] ≡ some []

module _ (codec : UserCodec) where
  unfoldable pub diff_from : UserStream → UserStream → List ℕ
  diff_from s existing = codec.encode_to_vec (add_events [] (drop (length existing) s))

  unfoldable pub init_diff : UserStream → List ℕ
  init_diff s = diff_from s []

  -- The stream after `apply_string`; none is the error, which leaves it as it was.
  unfoldable pub apply_string : UserStream → List ℕ → Option UserStream
  apply_string s diff = elim (codec.decode diff) [
    | none ↦ none
    | some input ↦ some (s ++ message_events input)
  ]

  -- The `SyncState` of a stream; `reset_input` does nothing to it.
  abbrev pub user_sync : SyncState UserStream
  user_sync = record {
    subtract = subtract;
    diff_from = diff_from;
    init_diff = init_diff;
    apply_string = apply_string;
    reset_input = λ s. s;
    eq = stream_eq;
  }
