-- ===== src/Terminal/Utf8/Safety.antt =====
-- What holds of `Utf8Parser::input` on any bytes: the loop ends, the buffer stays short, and the
-- machine sees characters only.
use rmosh.Prelude.{
  ℕ, zero, suc, ◌+◌, ◌-◌, ◌≤◌, ◌<◌, ◌≡◌, ◌⊎◌, refl, sym, ap, subst, ◌∙◌, inl, inr, Bool, true,
  false, Option, none, some, List, [], ◌∷◌, ◌++◌, length, All, length-drop, ltb, leb, ltb→lt, ◌==◌,
  if◌then◌else◌, arith, Bool-cases,
}
use rmosh.Terminal.Parser.{
  push_unless_ignore, follow, enter, exit, is_ignore, Kind, state_input, Action, State, input,
}
use rmosh.Terminal.Utf8.Stream.{loop_done}
use native.Mathlib.Nat.{suc-add}
use rmosh.Terminal.Utf8.{
  Decoded, char_of, nul, incomplete, invalid, Locale, usize_max, is_scalar, decoded, buf_size,
  take_decoded, replaced, on_decoded, cap, decode, decode_loop, slow_input, input_byte,
}

module _ {M : Type 0} (locale : Locale M) where
  -- Documented of `mbrtowc`: it takes no more bytes than it is given, or answers with one of the
  -- two marks.
  abbrev pub TakesWithin : Type 0
  TakesWithin =
      (m : M) (buf : List ℕ)
      → let n = (locale.mbrtowc m buf).0 in
        (n ≤ length buf) ⊎ ((n ≡ usize_max - 1) ⊎ (n ≡ usize_max))

  -- What one answer of the decoder does to the buffer.
  abbrev Progress : List ℕ → Option (ℕ × ℕ × List ℕ) → Type 0
  Progress buf none = Unit {0}
  Progress buf (some (ch, parsed, rest)) =
      (0 < parsed) × (parsed + length rest ≤ length buf) × (is_scalar ch ≡ true)

  take_Progress :
      (d : Decoded) (buf : List ℕ)
      → 0 < length buf
      → ((c k : ℕ) → d ≡ char_of c k → (0 < k) × (k ≤ length buf) × (is_scalar c ≡ true))
      → Progress buf (take_decoded d buf)
  take_Progress (char_of c k) buf more h =
      let (first, within, scalar) = h c k refl in (first, omega (arith, length-drop k buf), scalar)
  take_Progress nul buf more h = (omega arith, omega arith, refl)
  take_Progress incomplete buf more h = tt
  take_Progress invalid buf more h = elim (Bool-cases (ltb 1 (length buf))) [
    | inl long ↦
        rw long
          (ground arith, omega (arith, ltb→lt _ _ long, length-drop (length buf - 1) buf), refl)
    | inr one ↦ rw one (omega arith, omega arith, refl)
  ]

  pick_char :
      (z a b scalar : Bool) (n wc c k : ℕ)
      → (if z
          then nul
          else if a
          then invalid
          else if b
          then incomplete
          else if scalar
          then char_of wc n
          else invalid)
        ≡ char_of c k
      → (z ≡ false) × (a ≡ false) × (b ≡ false) × (scalar ≡ true) × (wc ≡ c) × (n ≡ k)
  pick_char true a b scalar n wc c k h = cc
  pick_char false true b scalar n wc c k h = cc
  pick_char false false true scalar n wc c k h = cc
  pick_char false false false false n wc c k h = cc
  pick_char false false false true n wc c k h = (refl, refl, refl, refl, cc, cc)

  decoded_char :
      (n wc c k len : ℕ)
      → (n ≤ len) ⊎ ((n ≡ usize_max - 1) ⊎ (n ≡ usize_max))
      → decoded n wc ≡ char_of c k
      → (0 < k) × (k ≤ len) × (is_scalar c ≡ true)
  decoded_char n wc c k len within h =
      let (nonzero, not_invalid, not_incomplete, scalar, char, taken) =
        pick_char (n == 0) (n == usize_max) (n == usize_max - 1) (is_scalar wc) n wc c k h in
      (ground arith, ground arith, subst (λ w. is_scalar w ≡ true) char scalar)

  take_decoded-Progress :
      (m : M) (buf : List ℕ) → TakesWithin → Progress buf (take_decoded (decode locale m buf).0 buf)
  unfolding decode
  take_decoded-Progress m [] within = tt
  take_decoded-Progress m (b ∷ bs) within =
      let n = (locale.mbrtowc m (b ∷ bs)).0 in
      let wc = (locale.mbrtowc m (b ∷ bs)).1 in
      take_Progress (decoded n wc) (b ∷ bs) (omega arith)
        (λ c k h. decoded_char n wc c k (length (b ∷ bs)) (within m (b ∷ bs)) h)

  on_decoded_cong :
      {A : Type 0} (o : Option (ℕ × ℕ × List ℕ)) (stop : A) (f g : ℕ → ℕ → List ℕ → A)
      → ((ch parsed : ℕ) (rest : List ℕ)
          → o ≡ some (ch, parsed, rest)
          → f ch parsed rest ≡ g ch parsed rest)
      → on_decoded o stop f ≡ on_decoded o stop g
  on_decoded_cong none stop f g h = refl
  on_decoded_cong (some (ch, parsed, rest)) stop f g h = h ch parsed rest refl

  -- Where `mbrtowc` takes no more bytes than it is given, the loop never stops for lack of fuel: with
  -- as much as the bytes that are not parsed yet, more
  -- fuel changes nothing.
  pub decode_loop_enough :
      (fuel more : ℕ) (m : M) (s : State) (buf : List ℕ) (total orig : ℕ)
      → TakesWithin
      → total + length buf ≤ orig
      → orig ≤ total + fuel
      → decode_loop locale (fuel + more) m s buf total orig
        ≡ decode_loop locale fuel m s buf total orig
  unfolding decode_loop
  decode_loop_enough zero more m s buf total orig within left enough =
      loop_done locale (0 + more) m s buf total orig (omega arith)
  decode_loop_enough (suc fuel) more m s buf total orig within left enough =
      let d = decode locale m buf in
      elim (Bool-cases (total == orig)) [
        | inl over ↦
            loop_done locale (suc fuel + more) m s buf total orig (ground arith)
            ∙ sym (loop_done locale (suc fuel) m s buf total orig (ground arith))
        | inr left_over ↦ rw suc-add (
            rw left_over (
              on_decoded_cong (take_decoded d.0 buf) ([], s, buf) _ _
                (λ ch parsed rest e.
                  let p : Progress buf (some (ch, parsed, rest)) =
                    subst (Progress buf) e (take_decoded-Progress m buf within) in
                  let one = input s (replaced ch) in
                  ap (λ r. (one.0 ++ r.0, r.1, r.2))
                    (decode_loop_enough fuel more d.1 one.1 rest (total + parsed) orig within
                      (omega arith) (omega arith)))))
      ]

  -- The character of an action, where it has one, is a Unicode scalar value.
  abbrev pub Shown : Action → Type 0
  Shown a = elim a.ch [ none ↦ Unit {0} | some ch ↦ is_scalar ch ≡ true ]

  All-append : (P : Action → Type 0) (xs ys : List Action) → All P xs → All P ys → All P (xs ++ ys)
  All-append P [] ys h k = k
  All-append P (x ∷ xs) ys h k = (h.0, All-append P xs ys h.1 k)

  pushed :
      (kind : Kind) (ch : Option ℕ)
      → Shown (record { kind = kind; ch = ch })
      → All Shown (push_unless_ignore kind ch)
  pushed kind ch h = elim (Bool-cases (is_ignore kind)) [
    | inl quiet ↦ rw quiet tt
    | inr loud ↦ rw loud (h, tt)
  ]

  follow-Shown :
      (s : State) (ch : ℕ) (kind : Kind) (next : Option State)
      → is_scalar ch ≡ true
      → All Shown (follow s ch kind next).0
  follow-Shown s ch kind none h = pushed kind (some ch) h
  follow-Shown s ch kind (some next) h =
      All-append Shown (push_unless_ignore (exit s) none)
        (push_unless_ignore kind (some ch) ++ push_unless_ignore (enter next) none)
        (pushed (exit s) none tt)
        (All-append Shown (push_unless_ignore kind (some ch)) (push_unless_ignore (enter next) none)
          (pushed kind (some ch) h) (pushed (enter next) none tt))

  input-Shown : (s : State) (ch : ℕ) → is_scalar ch ≡ true → All Shown (input s ch).0
  unfolding input
  input-Shown s ch h = follow-Shown s ch (state_input s ch).kind (state_input s ch).next h

  on_decoded-Shown :
      (o : Option (ℕ × ℕ × List ℕ)) (s : State) (buf : List ℕ)
      (go : ℕ → ℕ → List ℕ → List Action × State × List ℕ)
      → ((ch parsed : ℕ) (rest : List ℕ)
          → o ≡ some (ch, parsed, rest)
          → All Shown (go ch parsed rest).0)
      → All Shown (on_decoded o ([], s, buf) go).0
  on_decoded-Shown none s buf go h = tt
  on_decoded-Shown (some (ch, parsed, rest)) s buf go h = h ch parsed rest refl

  loop-Shown :
      (fuel : ℕ) (m : M) (s : State) (buf : List ℕ) (total orig : ℕ)
      → TakesWithin
      → All Shown (decode_loop locale fuel m s buf total orig).0
  unfolding decode_loop
  loop-Shown zero m s buf total orig within = tt
  loop-Shown (suc fuel) m s buf total orig within =
      let d = decode locale m buf in
      elim (Bool-cases (total == orig)) [
        | inl over ↦ rw over tt
        | inr more ↦ rw more (
            on_decoded-Shown (take_decoded d.0 buf) s buf _ (λ ch parsed rest e.
              let p : Progress buf (some (ch, parsed, rest)) =
                subst (Progress buf) e (take_decoded-Progress m buf within) in
              let one = input s (replaced ch) in
              All-append Shown one.0
                (decode_loop locale fuel d.1 one.1 rest (total + parsed) orig).0
                (input-Shown s (replaced ch) (ground (arith, p.2)))
                (loop-Shown fuel d.1 one.1 rest (total + parsed) orig within)))
      ]

  length-cap : (buf : List ℕ) → length (cap buf) < buf_size
  length-cap buf = elim (Bool-cases (leb buf_size (length buf))) [
    | inl long ↦ rw long (omega arith)
    | inr short ↦ rw short (ground arith)
  ]

  slow_safe :
      (s : State) (buf : List ℕ) (c : ℕ)
      → TakesWithin
      → let r = slow_input locale (record { parser = s; buf = buf }) c in
        All Shown r.0 × (length r.1.buf < buf_size)
  slow_safe s buf c within =
      let whole = buf ++ c ∷ [] in
      (
        loop-Shown (length whole) locale.initial s whole 0 (length whole) within,
        length-cap (decode_loop locale (length whole) locale.initial s whole 0 (length whole)).2,
      )

  -- Where `mbrtowc` takes no more bytes than it is given: whatever byte arrives, the buffer holds fewer than eight, and no action carries a surrogate or
  -- a number that is no character.
  pub input_byte_safe :
      (s : State) (buf : List ℕ) (c : ℕ)
      → TakesWithin
      → let r = input_byte locale (record { parser = s; buf = buf }) c in
        All Shown r.0 × (length r.1.buf < buf_size)
  unfolding input_byte
  input_byte_safe s (b ∷ bs) c within = slow_safe s (b ∷ bs) c within
  input_byte_safe s [] c within = elim (Bool-cases (leb c 127)) [
    | inl fast ↦ rw fast (input-Shown s c (ground arith), omega arith)
    | inr slow ↦ rw slow (slow_safe s [] c within)
  ]
