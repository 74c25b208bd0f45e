-- ===== src/Tests/Terminal.antt =====
-- Escape sequences, and bytes under a decoder of two-byte UTF-8.
use rmosh.Prelude.{
  ℕ, ◌+◌, ◌-◌, ◌*◌, ◌^◌, ◌<◌, ◌≡◌, inl, inr, refl, List, [], ◌∷◌, ◌++◌, arith, ap, length,
  length-append, All, ltb, leb, if◌then◌else◌,
}
use rmosh.Terminal.Parser.{ground_state, csi_param, input}
use rmosh.Terminal.Parser.Brackets.{
  run, run_brackets, count, is_hook, is_unhook, is_osc_start, is_osc_end, in_dcs, in_osc,
}
use rmosh.Terminal.Parser.Dispatch.{input_dispatch, Fits}
use rmosh.Terminal.Utf8.{Locale, incomplete, decode, decode_loop, feed, input_byte, buf_size}
use rmosh.Terminal.Utf8.Stream.{Encodes, bytes_of, feed_text}
use rmosh.Terminal.Utf8.Safety.{TakesWithin, Shown, decode_loop_enough, input_byte_safe}

-- ESC ] a ESC P: an operating system command that a device control string cuts off.
abbrev keys : List ℕ
keys = 27 ∷ 93 ∷ 97 ∷ 27 ∷ 80 ∷ 65 ∷ []

run_brackets_example :
    let r = run ground_state keys in
    (count is_hook r.0 + 0 ≡ count is_unhook r.0 + in_dcs r.1)
    × (count is_osc_start r.0 + 0 ≡ count is_osc_end r.0 + in_osc r.1)
run_brackets_example = run_brackets ground_state keys

input_dispatch_example : let r = input csi_param 72 in All (Fits csi_param r.1) r.0
input_dispatch_example = input_dispatch csi_param 72

-- One byte below 128, or two with a lead byte from 194 to 223.
abbrev mbrtowc : List ℕ → ℕ × ℕ × Unit {0}
mbrtowc [] = (2 ^ 64 - 2, 0, tt)
mbrtowc (b ∷ []) =
    if leb b 127
    then ((if ltb 0 b then 1 else 0), b, tt)
    else if leb 194 b
    then (2 ^ 64 - 2, 0, tt)
    else (2 ^ 64 - 1, 0, tt)
mbrtowc (b ∷ c ∷ r) =
    if leb b 127
    then ((if ltb 0 b then 1 else 0), b, tt)
    else if leb 194 b
    then (2, (b - 192) * 64 + (c - 128), tt)
    else (2 ^ 64 - 1, 0, tt)

abbrev pub locale : Locale (Unit {0})
locale = record { initial = tt; mbrtowc = λ m buf. mbrtowc buf }

locale-TakesWithin : TakesWithin locale
locale-TakesWithin m [] = inr (inl refl)
locale-TakesWithin m (b ∷ []) = ground arith
locale-TakesWithin m (b ∷ c ∷ r) = ground arith

-- U+00E9 is 195 169.
part_of :
    (pre post : List ℕ)
    → pre ++ post ≡ 195 ∷ 169 ∷ []
    → 0 < length pre
    → 0 < length post
    → (decode locale tt pre).0 ≡ incomplete
part_of [] post e h k = absurd (omega arith)
part_of (a ∷ []) post e h k = let first : a ≡ 195 = cc in rw first (unfold decode in refl)
part_of (a ∷ b ∷ r) post e h k = absurd (omega (arith, ap length e, length-append r post))

accent_encoded : Encodes locale 233 (195 ∷ 169 ∷ [])
accent_encoded = record {
  is_multibyte = refl;
  part = part_of;
  whole = unfold decode in refl;
  short = omega arith;
}

abbrev text : List (ℕ × List ℕ)
text = (104, 104 ∷ []) ∷ (233, 195 ∷ 169 ∷ []) ∷ []

feed_text_example :
    feed locale (record { parser = ground_state; buf = [] }) (bytes_of locale text) ≡ (
      (run ground_state (104 ∷ 233 ∷ [])).0,
      record { parser = (run ground_state (104 ∷ 233 ∷ [])).1; buf = [] },
    )
feed_text_example =
    feed_text locale ground_state text (inl (omega arith, refl), (inr accent_encoded, tt))

input_byte_safe_example :
    let r = input_byte locale (record { parser = ground_state; buf = 195 ∷ [] }) 65 in
    All (Shown locale) r.0 × (length r.1.buf < buf_size)
input_byte_safe_example = input_byte_safe locale ground_state (195 ∷ []) 65 locale-TakesWithin

decode_loop_enough_example :
    decode_loop locale (2 + 5) tt ground_state (195 ∷ 169 ∷ []) 0 2
    ≡ decode_loop locale 2 tt ground_state (195 ∷ 169 ∷ []) 0 2
decode_loop_enough_example =
    decode_loop_enough locale 2 5 tt ground_state (195 ∷ 169 ∷ []) 0 2 locale-TakesWithin
      (omega arith) (omega arith)
