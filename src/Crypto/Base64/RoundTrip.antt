-- ===== src/Crypto/Base64/RoundTrip.antt =====
-- `decode_key` reads back what `encode_key` writes.
use rmosh.Prelude.{
  ℕ, zero, suc, ◌+◌, ◌*◌, ◌/◌, ◌%◌, ◌^◌, ◌<◌, ◌≡◌, refl, ap, ◌∙◌, true, false, some, List, [], ◌∷◌,
  ◌++◌, arith, length, length-append, take, take-append, drop-append, append_assoc, All, IsByte,
  ◌==◌,
}
use mathlib.Core.Path.{ap₂}
use rmosh.Crypto.Base64.{letter, decode_loop, decode_key, encode_loop, encode_key, group}
use rmosh.Crypto.Base64.Table.{sixbit-letter}

-- A character in the middle of a group of four, and one at its end.
decode_inner :
    (i bytes v : ℕ) (raw cs : List ℕ)
    → v < 64
    → (i % 4 == 3) ≡ false
    → decode_loop i bytes raw (letter v ∷ cs)
      ≡ decode_loop (i + 1) ((bytes * 2 ^ 6 % 2 ^ 32) + v) raw cs
unfolding decode_loop
decode_inner i bytes v raw cs h inner = rw (sixbit-letter v h, inner, decode_loop) refl

decode_fourth :
    (i bytes v : ℕ) (raw cs : List ℕ)
    → v < 64
    → (i % 4 == 3) ≡ true
    → decode_loop i bytes raw (letter v ∷ cs)
      ≡ decode_loop
          (i + 1)
          0
          (raw
            ++ (((bytes * 2 ^ 6 % 2 ^ 32) + v) / 2 ^ 16 % 256)
              ∷ (((bytes * 2 ^ 6 % 2 ^ 32) + v) / 2 ^ 8 % 256)
              ∷ (((bytes * 2 ^ 6 % 2 ^ 32) + v) % 256)
              ∷ [])
          cs
unfolding decode_loop
decode_fourth i bytes v raw cs h last = rw (sixbit-letter v h, last, decode_loop) refl

-- Four sextets make up the 24 bits again, and no shift leaves the u32.
wrapped_joined :
    (g : ℕ)
    → g < 2 ^ 24
    → (((0 * 2 ^ 6 % 2 ^ 32 + g / 2 ^ 18 % 64) * 2 ^ 6 % 2 ^ 32 + g / 2 ^ 12 % 64) * 2 ^ 6 % 2 ^ 32
            + g / 2 ^ 6 % 64)
          * 2 ^ 6
          % 2 ^ 32
        + g % 64
      ≡ g
wrapped_joined g h = omega arith

group_bytes :
    (a b c : ℕ)
    → IsByte a
    → IsByte b
    → IsByte c
    → (group a b c / 2 ^ 16 % 256 ≡ a) × (group a b c / 2 ^ 8 % 256 ≡ b) × (group a b c % 256 ≡ c)
group_bytes a b c ha hb hc = omega arith

decode_group :
    (i a b c : ℕ) (raw cs : List ℕ)
    → i % 4 ≡ 0
    → IsByte a
    → IsByte b
    → IsByte c
    → decode_loop i 0 raw (
        letter (group a b c / 2 ^ 18 % 64)
        ∷ letter (group a b c / 2 ^ 12 % 64)
        ∷ letter (group a b c / 2 ^ 6 % 64)
        ∷ letter (group a b c % 64)
        ∷ cs)
      ≡ decode_loop (i + 4) 0 (raw ++ a ∷ b ∷ c ∷ []) cs
decode_group i a b c raw cs hi ha hb hc =
    let g : ℕ = group a b c in
    let small : g < 2 ^ 24 = omega arith in
    let (ga, gb, gc) = group_bytes a b c ha hb hc in
    decode_inner i 0 (g / 2 ^ 18 % 64) raw _ (omega arith) (ground arith)
    ∙ decode_inner (i + 1) _ (g / 2 ^ 12 % 64) raw _ (omega arith) (ground arith)
    ∙ decode_inner (i + 1 + 1) _ (g / 2 ^ 6 % 64) raw _ (omega arith) (ground arith)
    ∙ decode_fourth (i + 1 + 1 + 1) _ (g % 64) raw cs (omega arith) (ground arith)
    ∙ ap₂
        (λ j x. decode_loop j 0 (raw ++ (x / 2 ^ 16 % 256) ∷ (x / 2 ^ 8 % 256) ∷ (x % 256) ∷ []) cs)
        (next i) (wrapped_joined g small)
    ∙ rw (ga, gb, gc) refl
  where
    next : (n : ℕ) → n + 1 + 1 + 1 + 1 ≡ n + 4
    next n = omega arith

-- What `encode_loop` writes in front of the padding.
body : ℕ → List ℕ → List ℕ
body (suc n) (a ∷ b ∷ c ∷ raw) =
    letter (group a b c / 2 ^ 18 % 64)
    ∷ letter (group a b c / 2 ^ 12 % 64)
    ∷ letter (group a b c / 2 ^ 6 % 64)
    ∷ letter (group a b c % 64)
    ∷ body n raw
body zero (last ∷ raw) = letter (last / 2 ^ 2 % 64) ∷ letter (last * 2 ^ 4 % 256 % 64) ∷ []
body _ _ = []

encode_loop-body :
    (n : ℕ) (raw : List ℕ)
    → length raw ≡ 3 * n + 1
    → (encode_loop n raw ≡ body n raw ++ b'=' ∷ b'=' ∷ []) × (length (body n raw) ≡ 4 * n + 2)
unfolding encode_loop body
encode_loop-body zero (x ∷ raw) e = (refl, omega arith)
encode_loop-body zero [] e = absurd (omega arith)
encode_loop-body (suc n) (a ∷ b ∷ c ∷ raw) e =
    let (same, long) = encode_loop-body n raw (omega arith) in (rw same refl, omega (arith, long))
encode_loop-body (suc n) [] e = absurd (omega arith)
encode_loop-body (suc n) (a ∷ []) e = absurd (omega arith)
encode_loop-body (suc n) (a ∷ b ∷ []) e = absurd (omega arith)

last_byte :
    (x : ℕ)
    → IsByte x
    → ((0 * 2 ^ 6 % 2 ^ 32 + x / 2 ^ 2 % 64) * 2 ^ 6 % 2 ^ 32 + x * 2 ^ 4 % 256 % 64) / 2 ^ 4 % 256
      ≡ x
last_byte x h = omega arith

decode_loop-body :
    (n i : ℕ) (acc raw : List ℕ)
    → i % 4 ≡ 0
    → All IsByte raw
    → length raw ≡ 3 * n + 1
    → decode_loop i 0 acc (body n raw) ≡ some (acc ++ raw)
unfolding body
decode_loop-body zero i acc (x ∷ []) hi h e =
    decode_inner i 0 (x / 2 ^ 2 % 64) acc _ (omega arith) (ground arith)
    ∙ decode_inner (i + 1) _ (x * 2 ^ 4 % 256 % 64) acc [] (omega arith) (ground arith)
    ∙ unfold decode_loop in rw (last_byte x h.0) refl
decode_loop-body zero i acc [] hi h e = absurd (omega arith)
decode_loop-body zero i acc (x ∷ y ∷ raw) hi h e = absurd (omega arith)
decode_loop-body (suc n) i acc (a ∷ b ∷ c ∷ raw) hi h e =
    decode_group i a b c acc (body n raw) hi h.0 h.1.0 h.1.1.0
    ∙ decode_loop-body n (i + 4) (acc ++ a ∷ b ∷ c ∷ []) raw (omega arith) h.1.1.1 (omega arith)
    ∙ ap some (append_assoc acc (a ∷ b ∷ c ∷ []) raw)
decode_loop-body (suc n) i acc [] hi h e = absurd (omega arith)
decode_loop-body (suc n) i acc (a ∷ []) hi h e = absurd (omega arith)
decode_loop-body (suc n) i acc (a ∷ b ∷ []) hi h e = absurd (omega arith)

pub length-encode_key : (raw : List ℕ) → length raw ≡ 16 → length (encode_key raw) ≡ 24
unfolding encode_key
length-encode_key raw e =
    let (same, long) = encode_loop-body 5 raw (omega (arith, e)) in
    omega (arith, ap length same, length-append (body 5 raw) (b'=' ∷ b'=' ∷ []), long)

-- The last two of the 24 characters are always the padding.
pub encode_key-padding :
    (raw : List ℕ) → length raw ≡ 16 → take 22 (encode_key raw) ++ b'=' ∷ b'=' ∷ [] ≡ encode_key raw
unfolding encode_key
encode_key-padding raw e =
    let (same, long) = encode_loop-body 5 raw (omega (arith, e)) in
    rw (same, take-append 22 (body 5 raw) (b'=' ∷ b'=' ∷ []) (omega (arith, long))) refl

-- The characters of any 16 bytes decode to those bytes.
pub decode_key-encode_key :
    (raw : List ℕ) → All IsByte raw → length raw ≡ 16 → decode_key (encode_key raw) ≡ some raw
unfolding decode_key encode_key
decode_key-encode_key raw h e =
    let (same, long) = encode_loop-body 5 raw (omega (arith, e)) in
    let front = take-append 22 (body 5 raw) (b'=' ∷ b'=' ∷ []) (omega (arith, long)) in
    let back = drop-append 22 (body 5 raw) (b'=' ∷ b'=' ∷ []) (omega (arith, long)) in
    let size : (length (encode_loop 5 raw) == 24) ≡ true =
      ground (arith, length-encode_key raw e) in
    rw (size, same, front, back, decode_loop-body 5 0 [] raw refl h (omega (arith, e))) refl
