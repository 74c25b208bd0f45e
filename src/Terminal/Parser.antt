-- ===== src/Terminal/Parser.antt =====
-- crates/mosh-terminal/src/parser.rs: the escape-sequence state machine and the byte decoder that
-- feeds it. A character is its code point. What the code appends to `out` is returned.
pub mod Brackets
pub mod Anywhere
pub mod Dispatch
use rmosh.Prelude.{
  ℕ, ◌+◌, ◌-◌, ◌<◌, ◌≡◌, Bool, true, false, ◌&&◌, ◌||◌, Option, none, some, List, [], ◌∷◌, ◌++◌,
  length, drop, leb, ◌==◌, if◌then◌else◌,
}

pub data Kind : Type 0 where
  ignore : Kind
  print : Kind
  execute : Kind
  clear : Kind
  collect : Kind
  param : Kind
  esc_dispatch : Kind
  csi_dispatch : Kind
  hook : Kind
  put : Kind
  unhook : Kind
  osc_start : Kind
  osc_put : Kind
  osc_end : Kind

pub record Action : Type 0 where
  pub kind : Kind
  pub ch : Option ℕ

abbrev pub is_ignore : Kind → Bool
is_ignore k = elim k [ ignore ↦ true | _ ↦ false ]

pub data State : Type 0 where
  ground_state : State
  escape : State
  escape_intermediate : State
  csi_entry : State
  csi_param : State
  csi_intermediate : State
  csi_ignore : State
  dcs_entry : State
  dcs_param : State
  dcs_intermediate : State
  dcs_passthrough : State
  dcs_ignore : State
  osc_string : State
  sos_pm_apc_string : State

pub record Transition : Type 0 where
  pub kind : Kind
  pub next : Option State

abbrev act : Kind → Transition
act kind = record { kind = kind; next = none }

abbrev act_to : Kind → State → Transition
act_to kind next = record { kind = kind; next = some next }

abbrev to : State → Transition
to next = record { kind = ignore; next = some next }

abbrev nothing : Transition
nothing = record { kind = ignore; next = none }

-- `(lo..=hi).contains(&ch)`
abbrev within : ℕ → ℕ → ℕ → Bool
within lo hi ch = leb lo ch && leb ch hi

abbrev pub c0_prime : ℕ → Bool
c0_prime ch = leb ch 23 || ch == 25 || within 28 31 ch

abbrev pub glgr : ℕ → Bool
glgr ch = within 32 127 ch || within 160 255 ch

unfoldable pub anywhere_rule : ℕ → Option Transition
anywhere_rule ch =
    if ch == 24 || ch == 26 || within 128 143 ch || within 145 151 ch || ch == 153 || ch == 154
    then some (act_to execute ground_state)
    else if ch == 156
    then some (to ground_state)
    else if ch == 27
    then some (to escape)
    else if ch == 152 || ch == 158 || ch == 159
    then some (to sos_pm_apc_string)
    else if ch == 144
    then some (to dcs_entry)
    else if ch == 157
    then some (to osc_string)
    else if ch == 155
    then some (to csi_entry)
    else none

unfoldable pub enter : State → Kind
enter s = elim s [
  | escape ↦ clear
  | csi_entry ↦ clear
  | dcs_entry ↦ clear
  | dcs_passthrough ↦ hook
  | osc_string ↦ osc_start
  | _ ↦ ignore
]

unfoldable pub exit : State → Kind
exit s = elim s [ dcs_passthrough ↦ unhook | osc_string ↦ osc_end | _ ↦ ignore ]

unfoldable pub input_state_rule : State → ℕ → Transition
input_state_rule ground_state ch =
    if c0_prime ch then act execute else if glgr ch then act print else nothing
input_state_rule escape ch =
    if c0_prime ch
    then act execute
    else if within 32 47 ch
    then act_to collect escape_intermediate
    else if within 48 79 ch
        || within 81 87 ch
        || ch == 89
        || ch == 90
        || ch == 92
        || within 96 126 ch
    then act_to esc_dispatch ground_state
    else if ch == 91
    then to csi_entry
    else if ch == 93
    then to osc_string
    else if ch == 80
    then to dcs_entry
    else if ch == 88 || ch == 94 || ch == 95
    then to sos_pm_apc_string
    else nothing
input_state_rule escape_intermediate ch =
    if c0_prime ch
    then act execute
    else if within 32 47 ch
    then act collect
    else if within 48 126 ch
    then act_to esc_dispatch ground_state
    else nothing
input_state_rule csi_entry ch =
    if c0_prime ch
    then act execute
    else if within 64 126 ch
    then act_to csi_dispatch ground_state
    else if within 48 57 ch || ch == 59
    then act_to param csi_param
    else if within 60 63 ch
    then act_to collect csi_param
    else if ch == 58
    then to csi_ignore
    else if within 32 47 ch
    then act_to collect csi_intermediate
    else nothing
input_state_rule csi_param ch =
    if c0_prime ch
    then act execute
    else if within 48 57 ch || ch == 59
    then act param
    else if ch == 58 || within 60 63 ch
    then to csi_ignore
    else if within 32 47 ch
    then act_to collect csi_intermediate
    else if within 64 126 ch
    then act_to csi_dispatch ground_state
    else nothing
input_state_rule csi_intermediate ch =
    if c0_prime ch
    then act execute
    else if within 32 47 ch
    then act collect
    else if within 64 126 ch
    then act_to csi_dispatch ground_state
    else if within 48 63 ch
    then to csi_ignore
    else nothing
input_state_rule csi_ignore ch =
    if c0_prime ch then act execute else if within 64 126 ch then to ground_state else nothing
input_state_rule dcs_entry ch =
    if within 32 47 ch
    then act_to collect dcs_intermediate
    else if ch == 58
    then to dcs_ignore
    else if within 48 57 ch || ch == 59
    then act_to param dcs_param
    else if within 60 63 ch
    then act_to collect dcs_param
    else if within 64 126 ch
    then to dcs_passthrough
    else nothing
input_state_rule dcs_param ch =
    if within 48 57 ch || ch == 59
    then act param
    else if ch == 58 || within 60 63 ch
    then to dcs_ignore
    else if within 32 47 ch
    then act_to collect dcs_intermediate
    else if within 64 126 ch
    then to dcs_passthrough
    else nothing
input_state_rule dcs_intermediate ch =
    if within 32 47 ch
    then act collect
    else if within 64 126 ch
    then to dcs_passthrough
    else if within 48 63 ch
    then to dcs_ignore
    else nothing
input_state_rule dcs_passthrough ch =
    if c0_prime ch || within 32 126 ch
    then act put
    else if ch == 156
    then to ground_state
    else nothing
input_state_rule dcs_ignore ch = if ch == 156 then to ground_state else nothing
input_state_rule osc_string ch =
    if within 32 127 ch
    then act osc_put
    else if ch == 156 || ch == 7
    then to ground_state
    else nothing
input_state_rule sos_pm_apc_string ch = if ch == 156 then to ground_state else nothing

abbrev pub or_rule : Option Transition → Transition → Transition
or_rule none own = own
or_rule (some anywhere) own = anywhere

-- `State::input`: a code point from 0xa0 on is looked up as 'A'.
unfoldable pub state_input : State → ℕ → Transition
state_input s ch = or_rule (anywhere_rule ch) (input_state_rule s (if leb 160 ch then 65 else ch))

abbrev pub push_unless_ignore : Kind → Option ℕ → List Action
push_unless_ignore kind ch = if is_ignore kind then [] else record { kind = kind; ch = ch } ∷ []

-- The actions of one transition, and the state it leads to.
abbrev pub follow : State → ℕ → Kind → Option State → List Action × State
follow s ch kind none = (push_unless_ignore kind (some ch), s)
follow s ch kind (some next) = (
  push_unless_ignore (exit s) none
      ++ (push_unless_ignore kind (some ch) ++ push_unless_ignore (enter next) none),
  next,
)

-- `Parser::input`, the parser being its state.
unfoldable pub input : State → ℕ → List Action × State
input s ch = follow s ch (state_input s ch).kind (state_input s ch).next
