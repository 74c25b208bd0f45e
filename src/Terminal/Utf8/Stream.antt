-- ===== src/Terminal/Utf8/Stream.antt =====
-- The bytes of one character, fed one at a time, and the fuel of the decoding loop.
use rmosh.Prelude.{
  ℕ, zero, suc, ◌+◌, ◌≤◌, ◌<◌, ◌≡◌, ◌⊎◌, refl, ap, ◌∙◌, inl, inr, true, false, List, [], ◌∷◌, ◌++◌,
  append-nil, append_assoc, length, length-append, All, unwrap_or, get_elem?, drop_all, leb, ◌==◌,
  arith, Bool-cases,
}
use rmosh.Terminal.Parser.{State, input}
use rmosh.Terminal.Parser.Brackets.{run}
use rmosh.Terminal.Utf8.{
  char_of, incomplete, Locale, buf_size, replaced, Utf8Parser, finish, decode, decode_loop, is_fast,
  input_byte, feed,
}

module _ {M : Type 0} (locale : Locale M) where
  -- What the C library answers, when `bs` is the encoding of `ch`: the whole of it is the
  -- character, and a part of it from its start is incomplete.
  pub record Encodes (ch : ℕ) (bs : List ℕ) : Type 0 where
    pub is_multibyte : is_fast [] (unwrap_or (get_elem? bs 0) 0) ≡ false
    pub part :
        (pre post : List ℕ)
        → pre ++ post ≡ bs
        → 0 < length pre
        → 0 < length post
        → (decode locale locale.initial pre).0 ≡ incomplete
    pub whole : (decode locale locale.initial bs).0 ≡ char_of ch (length bs)
    pub short : length bs ≤ buf_size

  loop_stop :
      (fuel : ℕ) (m : M) (s : State) (buf : List ℕ) (total orig : ℕ)
      → (decode locale m buf).0 ≡ incomplete
      → decode_loop locale fuel m s buf total orig ≡ ([], s, buf)
  unfolding decode_loop
  loop_stop zero m s buf total orig h = refl
  loop_stop (suc fuel) m s buf total orig h = elim (Bool-cases (total == orig)) [
    | inl over ↦ rw over refl
    | inr more ↦ rw (more, h) refl
  ]

  pub loop_done :
      (fuel : ℕ) (m : M) (s : State) (buf : List ℕ) (total orig : ℕ)
      → total ≡ orig
      → decode_loop locale fuel m s buf total orig ≡ ([], s, buf)
  unfolding decode_loop
  loop_done zero m s buf total orig h = refl
  loop_done (suc fuel) m s buf total orig h =
      let same : (total == orig) ≡ true = ground arith in rw same refl

  loop_whole :
      (fuel : ℕ) (m : M) (s : State) (buf : List ℕ) (ch : ℕ)
      → 0 < fuel
      → 0 < length buf
      → (decode locale m buf).0 ≡ char_of ch (length buf)
      → decode_loop locale fuel m s buf 0 (length buf)
        ≡ ((input s (replaced ch)).0, (input s (replaced ch)).1, [])
  loop_whole zero m s buf ch some_fuel more h = absurd (omega arith)
  loop_whole (suc fuel) m s buf ch some_fuel more h =
      let started : (0 == length buf) ≡ false = ground arith in
      let next = (decode locale m buf).1 in
      unfold decode_loop in
      rw
        (
          started,
          h,
          drop_all (length buf) buf (omega arith),
          loop_done fuel next (input s (replaced ch)).1 [] (0 + length buf) (length buf)
              (omega arith),
          append-nil (input s (replaced ch)).0,
        )
        refl

  input_last :
      (s : State) (pre : List ℕ) (b ch : ℕ)
      → is_fast pre b ≡ false
      → (decode locale locale.initial (pre ++ b ∷ [])).0 ≡ char_of ch (length (pre ++ b ∷ []))
      → input_byte locale (record { parser = s; buf = pre }) b
        ≡ ((input s (replaced ch)).0, record { parser = (input s (replaced ch)).1; buf = [] })
  unfolding input_byte
  input_last s pre b ch slow h =
      let len : length (pre ++ b ∷ []) ≡ suc (length pre) =
        omega (arith, length-append pre (b ∷ [])) in
      rw slow (
        ap finish (
          loop_whole (length (pre ++ b ∷ [])) locale.initial s (pre ++ b ∷ []) ch (omega arith)
            (omega arith) h))

  input_part :
      (s : State) (pre : List ℕ) (b : ℕ)
      → is_fast pre b ≡ false
      → (decode locale locale.initial (pre ++ b ∷ [])).0 ≡ incomplete
      → length (pre ++ b ∷ []) < buf_size
      → input_byte locale (record { parser = s; buf = pre }) b
        ≡ ([], record { parser = s; buf = pre ++ b ∷ [] })
  unfolding input_byte
  input_part s pre b slow h short =
      let kept : leb buf_size (length (pre ++ b ∷ [])) ≡ false = ground arith in
      rw slow (
        ap finish (
          loop_stop (length (pre ++ b ∷ [])) locale.initial s (pre ++ b ∷ []) 0
            (length (pre ++ b ∷ [])) h)
        ∙ rw kept refl)

  slow_after : (pre : List ℕ) (b c : ℕ) → is_fast (pre ++ b ∷ []) c ≡ false
  slow_after [] b c = refl
  slow_after (a ∷ pre) b c = refl

  -- The bytes that follow `pre`, up to the end of the character.
  feed_rest :
      (s : State) (ch : ℕ) (bs pre : List ℕ) (b : ℕ) (post : List ℕ)
      → Encodes ch bs
      → is_fast pre b ≡ false
      → pre ++ b ∷ post ≡ bs
      → feed locale (record { parser = s; buf = pre }) (b ∷ post)
        ≡ ((input s (replaced ch)).0, record { parser = (input s (replaced ch)).1; buf = [] })
  feed_rest s ch bs pre b [] e slow split =
      let read : (decode locale locale.initial (pre ++ b ∷ [])).0
          ≡ char_of ch (length (pre ++ b ∷ [])) =
        rw split e.whole in
      rw (input_last s pre b ch slow read) (rw (append-nil (input s (replaced ch)).0) refl)
  feed_rest s ch bs pre b (c ∷ post) e slow split =
      let whole : (pre ++ b ∷ []) ++ (c ∷ post) ≡ bs =
        append_assoc pre (b ∷ []) (c ∷ post) ∙ split in
      let len = length-append (pre ++ b ∷ []) (c ∷ post) in
      let some_pre = length-append pre (b ∷ []) in
      let total : length ((pre ++ b ∷ []) ++ (c ∷ post)) ≡ length bs = ap length whole in
      let short : length bs ≤ buf_size = e.short in
      let read = e.part (pre ++ b ∷ []) (c ∷ post) whole (omega arith) (omega arith) in
      rw (input_part s pre b slow read (omega arith))
        (feed_rest s ch bs (pre ++ b ∷ []) c post e (slow_after pre b c) whole)

  feed-append :
      (p : Utf8Parser) (xs ys : List ℕ)
      → let a = feed locale p xs in
        let b = feed locale a.1 ys in feed locale p (xs ++ ys) ≡ (a.0 ++ b.0, b.1)
  feed-append p [] ys = refl
  feed-append p (x ∷ xs) ys =
      let one = input_byte locale p x in
      let a = feed locale one.1 xs in
      let b = feed locale a.1 ys in rw (feed-append one.1 xs ys, append_assoc one.0 a.0 b.0) refl

  -- A character and its bytes: ASCII, or several bytes.
  abbrev pub IsEncoded : ℕ × List ℕ → Type 0
  IsEncoded (ch, bs) = ((ch ≤ 127) × (bs ≡ ch ∷ [])) ⊎ Encodes ch bs

  abbrev pub bytes_of : List (ℕ × List ℕ) → List ℕ
  bytes_of [] = []
  bytes_of (c ∷ text) = c.1 ++ bytes_of text

  abbrev pub chars_of : List (ℕ × List ℕ) → List ℕ
  chars_of [] = []
  chars_of (c ∷ text) = replaced c.0 ∷ chars_of text

  feed_one :
      (s : State) (ch : ℕ) (bs : List ℕ)
      → IsEncoded (ch, bs)
      → feed locale (record { parser = s; buf = [] }) bs
        ≡ ((input s (replaced ch)).0, record { parser = (input s (replaced ch)).1; buf = [] })
  feed_one s ch bs (inl (small, single)) =
      let fast : leb ch 127 ≡ true = ground arith in
      let whole : leb 55296 ch ≡ false = ground arith in
      rw (single, whole) (unfold input_byte in rw (fast, append-nil (input s ch).0) refl)
  feed_one s ch [] (inr e) = cc
  feed_one s ch (b ∷ bs) (inr e) = feed_rest s ch (b ∷ bs) [] b bs e e.is_multibyte refl

  -- The bytes of a text, each character encoded as the C library reads it, drive the state machine
  -- as the characters do, one by one, whatever state it is in, and leave nothing in the buffer.
  pub feed_text :
      (s : State) (text : List (ℕ × List ℕ))
      → All IsEncoded text
      → feed locale (record { parser = s; buf = [] }) (bytes_of text)
        ≡ ((run s (chars_of text)).0, record { parser = (run s (chars_of text)).1; buf = [] })
  feed_text s [] h = refl
  feed_text s (c ∷ text) h =
      rw
        (
          feed-append (record { parser = s; buf = [] }) c.1 (bytes_of text),
          feed_one s c.0 c.1 h.0,
          feed_text (input s (replaced c.0)).1 text h.1,
        )
        refl
