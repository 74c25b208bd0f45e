-- ===== src/Terminal/Utf8.antt =====
-- crates/mosh-terminal/src/parser.rs: `Utf8Parser`, which decodes bytes for the state machine, over
-- crates/mosh-sys/src/locale.rs: `MbDecoder`. The C library's `mbrtowc` is a parameter.
pub mod Stream
pub mod Safety
use rmosh.Prelude.{
  ℕ, zero, suc, ◌+◌, ◌-◌, ◌^◌, Bool, false, ◌&&◌, ◌||◌, Option, none, some, List, [], ◌∷◌, ◌++◌,
  length, drop, ltb, leb, ◌==◌, if◌then◌else◌,
}
use rmosh.Terminal.Parser.{Action, State, ground_state, input}

pub data Decoded : Type 0 where
  char_of : ℕ → ℕ → Decoded
  nul : Decoded
  incomplete : Decoded
  invalid : Decoded

-- `mbstate_t`, its initial value, and `mbrtowc`: its result, the wide character as u32, the state.
pub record Locale (M : Type 0) : Type 0 where
  pub initial : M
  pub mbrtowc : M → List ℕ → ℕ × ℕ × M

abbrev pub usize_max : ℕ
usize_max = 2 ^ 64 - 1

-- `char::from_u32` succeeds.
abbrev pub is_scalar : ℕ → Bool
is_scalar c = ltb c 55296 || (leb 57344 c && leb c 1114111)

abbrev pub decoded : ℕ → ℕ → Decoded
decoded n wc =
    if n == 0
    then nul
    else if n == usize_max
    then invalid
    else if n == usize_max - 1
    then incomplete
    else if is_scalar wc
    then char_of wc n
    else invalid

abbrev pub buf_size : ℕ
buf_size = 8

abbrev pub replacement : ℕ
replacement = 65533

-- What one answer of the decoder makes of the buffer: a character, the count of bytes parsed, and
-- the bytes that stay. `drain(..n)` would panic past the end; `mbrtowc` takes no more than it has.
abbrev pub take_decoded : Decoded → List ℕ → Option (ℕ × ℕ × List ℕ)
take_decoded (char_of ch n) buf = some (ch, n, drop n buf)
take_decoded nul buf = some (0, 1, [])
take_decoded incomplete buf = none
take_decoded invalid buf =
    if ltb 1 (length buf)
    then some (replacement, length buf - 1, drop (length buf - 1) buf)
    else some (replacement, 1, [])

-- A surrogate is replaced.
abbrev pub replaced : ℕ → ℕ
replaced ch = if leb 55296 ch && leb ch 57343 then replacement else ch

abbrev on_decoded : {A : Type 0} → Option (ℕ × ℕ × List ℕ) → A → (ℕ → ℕ → List ℕ → A) → A
on_decoded none stop go = stop
on_decoded (some (ch, parsed, rest)) stop go = go ch parsed rest

pub record Utf8Parser : Type 0 where
  pub parser : State
  pub buf : List ℕ

abbrev pub new_utf8_parser : Utf8Parser
new_utf8_parser = record { parser = ground_state; buf = [] }

abbrev cap : List ℕ → List ℕ
cap buf = if leb buf_size (length buf) then [] else buf

abbrev fast_input : Utf8Parser → ℕ → List Action × Utf8Parser
fast_input p c = let one = input p.parser c in (one.0, record p { parser = one.1 })

abbrev is_fast : List ℕ → ℕ → Bool
is_fast [] c = leb c 127
is_fast (b ∷ bs) c = false

-- What is left in the buffer is dropped when it is too long.
abbrev finish : List Action × State × List ℕ → List Action × Utf8Parser
finish (out, s, rest) = (out, record { parser = s; buf = cap rest })

module _ {M : Type 0} (locale : Locale M) where
  -- `MbDecoder::decode`
  unfoldable pub decode : M → List ℕ → Decoded × M
  decode m [] = (incomplete, m)
  decode m (b ∷ bs) = let (n, wc, m') = locale.mbrtowc m (b ∷ bs) in (decoded n wc, m')

  -- The `while` loop: what it appends to `out`, the state and the buffer it ends with.
  unfoldable pub decode_loop : ℕ → M → State → List ℕ → ℕ → ℕ → List Action × State × List ℕ
  decode_loop zero m s buf total orig = ([], s, buf)
  decode_loop (suc fuel) m s buf total orig =
      let answer = decode m buf in
      if total == orig
      then ([], s, buf)
      else on_decoded (take_decoded answer.0 buf) ([], s, buf)
          (λ ch parsed rest.
            let one = input s (replaced ch) in
            let more = decode_loop fuel answer.1 one.1 rest (total + parsed) orig in
            (one.0 ++ more.0, more.1, more.2))

  abbrev slow_input : Utf8Parser → ℕ → List Action × Utf8Parser
  slow_input p c =
      let buf = p.buf ++ c ∷ [] in
      finish (decode_loop (length buf) locale.initial p.parser buf 0 (length buf))

  -- `Utf8Parser::input`
  unfoldable pub input_byte : Utf8Parser → ℕ → List Action × Utf8Parser
  input_byte p c = if is_fast p.buf c then fast_input p c else slow_input p c

  -- Bytes one after the other, into one `out`.
  abbrev pub feed : Utf8Parser → List ℕ → List Action × Utf8Parser
  feed p [] = ([], p)
  feed p (c ∷ cs) =
      let one = input_byte p c in let rest = feed one.1 cs in (one.0 ++ rest.0, rest.1)
