-- ===== src/State/User/Diff.antt =====
-- The diffs of the user's stream: what they carry, and how they stand to `subtract`.
use rmosh.Prelude.{
  ℕ, ◌≡◌, refl, sym, ap, subst, ◌∙◌, true, Option, none, some, List, [], ◌∷◌, ◌++◌, append-nil,
  append_assoc, length, drop, drop-append, unwrap_or, arith,
}
use rmosh.Network.Transport.Advance.{advanced}
use rmosh.State.User.{
  UserEvent, byte, resize, UserStream, event_eq, subtract, Keystroke, ResizeMessage,
  UserInstruction, resize_of, with_key, or_new, add_key, add_event, add_events, keys_events,
  instruction_events, message_events, UserCodec, IsUserCodec, diff_from, apply_string, user_sync,
}

keys_events-append : (xs ys : List ℕ) → keys_events (xs ++ ys) ≡ keys_events xs ++ keys_events ys
keys_events-append [] ys = refl
keys_events-append (x ∷ xs) ys = ap (λ r. byte x ∷ r) (keys_events-append xs ys)

message_events-append :
    (xs ys : List UserInstruction)
    → message_events (xs ++ ys) ≡ message_events xs ++ message_events ys
message_events-append [] ys = refl
message_events-append (x ∷ xs) ys =
    ap (λ r. instruction_events x ++ r) (message_events-append xs ys)
    ∙ sym (append_assoc (instruction_events x) (message_events xs) (message_events ys))

message_events-or_new :
    (k : Option Keystroke) (r : Option ResizeMessage) (c : ℕ)
    → let i : UserInstruction = record { keystroke = k; resize = r } in
      message_events (or_new i c (with_key i c)) ≡ message_events (i ∷ []) ++ byte c ∷ []
message_events-or_new none r c =
    rw (append-nil (instruction_events (record { keystroke = none; resize = r }))) refl
message_events-or_new (some k) r c =
    let keys = unwrap_or k.keys [] in
    rw
      (
        append-nil (keys_events (keys ++ c ∷ [])),
        append-nil (keys_events keys),
        keys_events-append keys (c ∷ []),
      )
      refl

message_events-add_key :
    (output : List UserInstruction) (c : ℕ)
    → message_events (add_key output c) ≡ message_events output ++ byte c ∷ []
message_events-add_key [] c = refl
message_events-add_key (i ∷ []) c = message_events-or_new i.keystroke i.resize c
message_events-add_key (i ∷ j ∷ r) c =
    ap (λ x. instruction_events i ++ x) (message_events-add_key (j ∷ r) c)
    ∙ sym (append_assoc (instruction_events i) (message_events (j ∷ r)) (byte c ∷ []))

message_events-add_event :
    (output : List UserInstruction) (e : UserEvent)
    → message_events (add_event output e) ≡ message_events output ++ e ∷ []
message_events-add_event output (byte c) = message_events-add_key output c
message_events-add_event output (resize w h) = message_events-append output (resize_of w h ∷ [])

-- The instructions that a run of events is coded as say the same events.
message_events-add_events :
    (output : List UserInstruction) (es : List UserEvent)
    → message_events (add_events output es) ≡ message_events output ++ es
message_events-add_events output [] = sym (append-nil (message_events output))
message_events-add_events output (e ∷ es) =
    message_events-add_events (add_event output e) es
    ∙ ap (λ m. m ++ es) (message_events-add_event output e)
    ∙ append_assoc (message_events output) (e ∷ []) es

module _ (codec : UserCodec) (lossless : IsUserCodec codec) where
  apply_decoded :
      (held : UserStream) (diff : List ℕ) (m : List UserInstruction)
      → codec.decode diff ≡ some m
      → apply_string codec held diff ≡ some (held ++ message_events m)
  unfolding apply_string
  apply_decoded held diff m h = rw (h, apply_string) refl

  -- Where the coding of messages loses nothing, a diff from a state to one that continues it adds the
  -- new events, no others, to whatever stream it is applied to.
  pub apply_string-diff_from :
      (held base more : UserStream)
      → apply_string codec held (diff_from codec (base ++ more) base) ≡ some (held ++ more)
  unfolding diff_from
  apply_string-diff_from held base more =
      let rest : drop (length base) (base ++ more) ≡ more =
        drop-append (length base) base more refl in
      let diff = codec.encode_to_vec (add_events [] (drop (length base) (base ++ more))) in
      apply_decoded held diff (add_events [] (drop (length base) (base ++ more)))
        (lossless.decodes _)
      ∙ ap (λ es. some (held ++ es)) (message_events-add_events [] _ ∙ rest)

  -- The same by the rule that an empty diff is not applied.
  advanced_by :
      (held more : UserStream) (diff : List ℕ)
      → apply_string codec held diff ≡ some (held ++ more)
      → advanced (user_sync codec) held diff ≡ some (held ++ more)
  unfolding apply_string
  advanced_by held more (b ∷ bs) h = h
  advanced_by held more [] h =
      let nothing : some (held ++ []) ≡ some (held ++ more) =
        subst
          (λ o.
            (elim o [ none ↦ none | some input ↦ some (held ++ message_events input) ])
            ≡ some (held ++ more))
          lossless.empty h in
      ap some (sym (append-nil held)) ∙ nothing

  pub advanced-diff_from :
      (held base more : UserStream)
      → advanced (user_sync codec) held (diff_from codec (base ++ more) base) ≡ some (held ++ more)
  advanced-diff_from held base more =
      advanced_by held more (diff_from codec (base ++ more) base)
        (apply_string-diff_from held base more)

event_eq_refl : (e : UserEvent) → event_eq e e ≡ true
event_eq_refl (byte a) = ground arith
event_eq_refl (resize w h) = ground arith

-- Subtracting a prefix leaves the rest.
subtract-append : (prefix s : UserStream) → subtract (prefix ++ s) prefix ≡ s
unfolding subtract
subtract-append [] s = refl
subtract-append (p ∷ prefix) s = rw (event_eq_refl p) (subtract-append prefix s)

-- What both ends of a diff share can be subtracted from both, and the diff is the same.
pub diff_from-subtract :
    (codec : UserCodec) (known base more : UserStream)
    → diff_from codec (subtract (known ++ (base ++ more)) known) (subtract (known ++ base) known)
      ≡ diff_from codec (known ++ (base ++ more)) (known ++ base)
unfolding diff_from
diff_from-subtract codec known base more =
    rw (subtract-append known (base ++ more), subtract-append known base)
      (ap (λ es. codec.encode_to_vec (add_events [] es))
        (drop-append (length base) base more refl
          ∙ sym (drop-append (length (known ++ base)) (known ++ base) more refl)
          ∙ ap (drop (length (known ++ base))) (append_assoc known base more)))
