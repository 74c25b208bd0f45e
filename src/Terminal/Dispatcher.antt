-- ===== src/Terminal/Dispatcher.antt =====
-- crates/mosh-terminal/src/dispatcher.rs: the parameters of an escape sequence and the text of an
-- operating system command, as `Dispatcher` gathers them.
pub mod Params
pub mod Functions
pub mod Editing
pub mod Osc
pub mod Table
pub mod Safety
pub mod Routines
pub mod Modes
pub mod Edits
pub mod Dispatch
pub mod Tabbing
use rmosh.Prelude.{
  ℕ, zero, suc, ◌+◌, ◌-◌, ◌*◌, ◌^◌, Bool, true, false, ◌&&◌, Option, none, some, List, [], ◌∷◌,
  ◌++◌, map, length, get_elem?, ltb, leb, lt_i32, minus_one, ◌==◌, if◌then◌else◌, unwrap_or,
}
use rmosh.Terminal.Text.{push, is_ascii_digit}

pub data FunctionType : Type 0 where
  escape : FunctionType
  csi : FunctionType
  control : FunctionType

abbrev pub param_max : ℕ
param_max = 65535

abbrev pub max_param_bytes : ℕ
max_param_bytes = 100

abbrev pub max_dispatch_chars : ℕ
max_dispatch_chars = 8

abbrev pub maximum_clipboard_size : ℕ
maximum_clipboard_size = 16 * 1024

pub record Dispatcher : Type 0 where
  pub params : List ℕ
  pub parsed_params : List ℕ
  pub parsed : Bool
  pub dispatch_chars : List ℕ
  pub osc_string : List ℕ
  pub terminal_to_host : List ℕ

abbrev pub new_dispatcher : Dispatcher
new_dispatcher = record {
  params = [];
  parsed_params = [];
  parsed = false;
  dispatch_chars = [];
  osc_string = [];
  terminal_to_host = [];
}

unfoldable pub new_param_char : ℕ → Dispatcher → Dispatcher
new_param_char ch d = record d {
  params = if ltb (length d.params) max_param_bytes then push d.params ch else d.params;
  parsed = false;
}

unfoldable pub collect : ℕ → Dispatcher → Dispatcher
collect ch d =
    if ltb (length d.dispatch_chars) max_dispatch_chars && leb ch 255
    then record d { dispatch_chars = push d.dispatch_chars ch }
    else d

unfoldable pub clear : Dispatcher → Dispatcher
clear d = record d { params = []; dispatch_chars = []; parsed = false }

-- `s.split(';')`: the first segment, and the others.
unfoldable pub split_segments : List ℕ → List ℕ × List (List ℕ)
split_segments [] = ([], [])
split_segments (c ∷ cs) =
    let rest = split_segments cs in
    if c == b';' then ([], rest.0 ∷ rest.1) else (c ∷ rest.0, rest.1)

abbrev pub split : List ℕ → List (List ℕ)
split s = (split_segments s).0 ∷ (split_segments s).1

-- `take_while(|c| c.is_ascii_digit())`
unfoldable pub take_digits : List ℕ → List ℕ
take_digits [] = []
take_digits (c ∷ cs) = if is_ascii_digit c then c ∷ take_digits cs else []

abbrev pub digits_value : ℕ → List ℕ → ℕ
digits_value acc [] = acc
digits_value acc (c ∷ cs) = digits_value (acc * 10 + (c - 48)) cs

-- `digits.parse::<i64>()`, which fails on no digits and beyond i64.
abbrev pub parse_i64 : List ℕ → Option ℕ
parse_i64 [] = none
parse_i64 (c ∷ cs) =
    if ltb (digits_value 0 (c ∷ cs)) (2 ^ 63) then some (digits_value 0 (c ∷ cs)) else none

abbrev pub within_param_max : Option ℕ → ℕ
within_param_max none = minus_one
within_param_max (some v) = if leb v param_max then v else minus_one

-- The value of one segment, an i32.
unfoldable pub segment_value : List ℕ → ℕ
segment_value s = within_param_max (parse_i64 (take_digits s))

-- `Dispatcher::parse_params`
unfoldable pub parse_params : Dispatcher → Dispatcher
parse_params d =
    if d.parsed
    then d
    else record d { parsed_params = map segment_value (split d.params); parsed = true }

-- `Dispatcher::getparam`: the value, and the dispatcher with its parameters parsed.
unfoldable pub getparam : ℕ → ℕ → Dispatcher → ℕ × Dispatcher
getparam n default d =
    let e = parse_params d in
    let ret = unwrap_or (get_elem? e.parsed_params n) default in
    (if lt_i32 ret 1 then default else ret, e)

unfoldable pub param_count : Dispatcher → ℕ × Dispatcher
param_count d = let e = parse_params d in (length e.parsed_params, e)

unfoldable pub osc_put : ℕ → Dispatcher → Dispatcher
osc_put ch d =
    if ltb (length d.osc_string) maximum_clipboard_size
    then record d { osc_string = d.osc_string ++ ch ∷ [] }
    else d

abbrev pub osc_start : Dispatcher → Dispatcher
osc_start d = record d { osc_string = [] }
