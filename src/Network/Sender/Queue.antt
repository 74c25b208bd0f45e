-- ===== src/Network/Sender/Queue.antt =====
-- The queue of sent states: its length, its ends, and the place of the assumed receiver state.
use rmosh.Prelude.{
  ℕ, zero, suc, ◌+◌, ◌-◌, ◌≤◌, ◌<◌, ◌≡◌, refl, ap, ◌∙◌, inl, inr, true, ◌&&◌, ◌||◌, not, some, List,
  [], ◌∷◌, ◌++◌, arith, length, length-append, get_elem?, ltb, ltb→le, ltb→lt, leb, if◌then◌else◌,
  Bool-cases,
}
use rmosh.Network.Sync.{TimestampedState}
use rmosh.Network.Sender.{
  TransportSender, assumed, remove_at, thin, add_sent_state, has_num, retain_from, clamp_assumed,
  process_acknowledgment_through, max_sent_states,
}

module _ {S : Type 0} where
  -- The queue is never empty, never holds more than 32 states, and has the assumed one in it.
  pub record IsValid (s : TransportSender S) : Type 0 where
    pub nonempty : 0 < length s.sent_states
    pub within : s.assumed_receiver_state < length s.sent_states
    pub few : length s.sent_states ≤ max_sent_states

  -- The numbers do not fall along the queue.
  abbrev pub Sorted : ℕ → List (TimestampedState S) → Type 0
  Sorted lo [] = Unit {0}
  Sorted lo (x ∷ xs) = (lo ≤ x.num) × Sorted x.num xs

  length-remove_at :
      (i : ℕ) (xs : List (TimestampedState S))
      → i < length xs
      → suc (length (remove_at i xs)) ≡ length xs
  length-remove_at i [] h = absurd (omega arith)
  length-remove_at zero (x ∷ xs) h = refl
  length-remove_at (suc i) (x ∷ xs) h = ap suc (length-remove_at i xs (omega arith))

  get_elem?-remove_at_below :
      (i j : ℕ) (xs : List (TimestampedState S))
      → j < i
      → get_elem? (remove_at i xs) j ≡ get_elem? xs j
  get_elem?-remove_at_below i j [] h = refl
  get_elem?-remove_at_below zero j (x ∷ xs) h = absurd (omega arith)
  get_elem?-remove_at_below (suc i) zero (x ∷ xs) h = refl
  get_elem?-remove_at_below (suc i) (suc j) (x ∷ xs) h =
      get_elem?-remove_at_below i j xs (omega arith)

  get_elem?-remove_at_above :
      (i j : ℕ) (xs : List (TimestampedState S))
      → i ≤ j
      → get_elem? (remove_at i xs) j ≡ get_elem? xs (suc j)
  get_elem?-remove_at_above i j [] h = refl
  get_elem?-remove_at_above zero j (x ∷ xs) h = refl
  get_elem?-remove_at_above (suc i) zero (x ∷ xs) h = absurd (omega arith)
  get_elem?-remove_at_above (suc i) (suc j) (x ∷ xs) h =
      get_elem?-remove_at_above i j xs (omega arith)

  get_elem?-append_last :
      (xs : List (TimestampedState S)) (x : TimestampedState S)
      → get_elem? (xs ++ x ∷ []) (length xs) ≡ some x
  get_elem?-append_last [] x = refl
  get_elem?-append_last (y ∷ xs) x = get_elem?-append_last xs x

  get_elem?-append_front :
      (xs : List (TimestampedState S)) (x : TimestampedState S) (i : ℕ)
      → i < length xs
      → get_elem? (xs ++ x ∷ []) i ≡ get_elem? xs i
  get_elem?-append_front [] x i h = absurd (omega arith)
  get_elem?-append_front (y ∷ xs) x zero h = refl
  get_elem?-append_front (y ∷ xs) x (suc i) h = get_elem?-append_front xs x i (omega arith)

  -- One state taken out from the middle of a queue that is too long.
  removed_lem :
      (s t : TransportSender S) (victim : ℕ)
      → victim < length s.sent_states
      → 0 < victim
      → suc victim < length s.sent_states
      → s.assumed_receiver_state < length s.sent_states
      → length s.sent_states ≤ max_sent_states + 1
      → t.sent_states ≡ remove_at victim s.sent_states
      → t.assumed_receiver_state ≡ (
          if leb victim s.assumed_receiver_state && ltb 0 s.assumed_receiver_state
          then s.assumed_receiver_state - 1
          else s.assumed_receiver_state)
      → IsValid t
        × (get_elem? t.sent_states 0 ≡ get_elem? s.sent_states 0)
        × (get_elem? t.sent_states (length t.sent_states - 1)
            ≡ get_elem? s.sent_states (length s.sent_states - 1))
  removed_lem s t victim inside first before_last within most queue assumed =
      let len : suc (length t.sent_states) ≡ length s.sent_states =
        rw queue (length-remove_at victim s.sent_states inside) in
      (
        record { nonempty = omega arith; within = ground arith; few = omega arith },
        rw queue (get_elem?-remove_at_below victim 0 s.sent_states first),
        ap (get_elem? t.sent_states) (omega arith)
            ∙ ap (λ q. get_elem? q (length s.sent_states - 2)) queue
            ∙ get_elem?-remove_at_above victim (length s.sent_states - 2) s.sent_states
                (omega arith)
            ∙ ap (get_elem? s.sent_states) (omega arith),
      )

  -- What thinning does, once the new state is at the end.
  thin_lem :
      (s : TransportSender S)
      → 1 < length s.sent_states
      → s.assumed_receiver_state < length s.sent_states
      → length s.sent_states ≤ max_sent_states + 1
      → IsValid (thin s)
        × (get_elem? (thin s).sent_states 0 ≡ get_elem? s.sent_states 0)
        × (get_elem? (thin s).sent_states (length (thin s).sent_states - 1)
            ≡ get_elem? s.sent_states (length s.sent_states - 1))
  thin_lem s more within most = elim (Bool-cases (ltb max_sent_states (length s.sent_states))) [
    | inr few ↦
        rw few
          ((record { nonempty = omega arith; within = within; few = ltb→le _ _ few }), refl, refl)
    | inl many ↦
        let long : max_sent_states < length s.sent_states = ltb→lt _ _ many in
        let queue : (thin s).sent_states ≡ remove_at (length s.sent_states - 16) s.sent_states =
          rw many refl in
        removed_lem s (thin s) (length s.sent_states - 16) (omega arith) (omega arith) (omega arith)
          within most queue (rw many refl)
  ]

  length-added :
      (s : TransportSender S) (x : TimestampedState S)
      → length (s.sent_states ++ x ∷ []) ≡ suc (length s.sent_states)
  length-added s x = omega (arith, length-append s.sent_states (x ∷ []))

  -- Added to a valid queue, a state is the newest one, the oldest one stays, and the queue stays
  -- valid, even where one from the middle is taken out.
  pub add_sent_state-IsValid :
      (s : TransportSender S) (timestamp num : ℕ) (state : S)
      → IsValid s
      → let t = add_sent_state s timestamp num state in
        let added : TimestampedState S = record {
          timestamp = timestamp;
          num = num;
          state = state;
        } in
        IsValid t
        × (get_elem? t.sent_states 0 ≡ get_elem? s.sent_states 0)
        × (get_elem? t.sent_states (length t.sent_states - 1) ≡ some added)
  unfolding add_sent_state
  add_sent_state-IsValid s timestamp num state v =
      let x : TimestampedState S = record { timestamp = timestamp; num = num; state = state } in
      let a : TransportSender S = record s { sent_states = s.sent_states ++ x ∷ [] } in
      let len : length (s.sent_states ++ x ∷ []) ≡ suc (length s.sent_states) = length-added s x in
      let v0 : 0 < length s.sent_states = v.nonempty in
      let v1 : s.assumed_receiver_state < length s.sent_states = v.within in
      let v2 : length s.sent_states ≤ max_sent_states = v.few in
      let done = thin_lem a (omega arith) (omega arith) (omega arith) in
      (
        done.0,
        done.1 ∙ get_elem?-append_front s.sent_states x 0 v.nonempty,
        done.2
            ∙ ap (get_elem? (s.sent_states ++ x ∷ [])) (omega arith)
            ∙ get_elem?-append_last s.sent_states x,
      )

  -- The states that an acknowledgement keeps.
  has_num-retain_from :
      (n k : ℕ) (xs : List (TimestampedState S))
      → has_num k (retain_from n xs) ≡ (has_num k xs && leb n k)
  has_num-retain_from n k [] = refl
  has_num-retain_from n k (x ∷ xs) = ground (arith, has_num-retain_from n k xs)

  length-retain_from :
      (n : ℕ) (xs : List (TimestampedState S)) → length (retain_from n xs) ≤ length xs
  length-retain_from n [] = omega arith
  length-retain_from n (x ∷ xs) = ground (arith, length-retain_from n xs)

  retain_from_nonempty :
      (n : ℕ) (xs : List (TimestampedState S)) → has_num n xs ≡ true → 0 < length (retain_from n xs)
  retain_from_nonempty n [] h = cc
  retain_from_nonempty n (x ∷ xs) h = ground (arith, retain_from_nonempty n xs)

  -- The assumed state is put back inside a queue that became shorter.
  clamp_assumed_lem :
      (s : TransportSender S)
      → 0 < length s.sent_states
      → length s.sent_states ≤ max_sent_states
      → IsValid (clamp_assumed s) × ((clamp_assumed s).sent_states ≡ s.sent_states)
  clamp_assumed_lem s more few =
      elim (Bool-cases (leb (length s.sent_states) s.assumed_receiver_state)) [
        | inl out ↦ rw out (record { nonempty = more; within = omega arith; few = few }, refl)
        | inr inside ↦
            rw inside (record { nonempty = more; within = ground arith; few = few }, refl)
      ]

  -- An acknowledgement forgets the states before the one it names, when that one is held, and
  -- none otherwise; either way the queue stays valid.
  pub process_acknowledgment_through_lem :
      (s : TransportSender S) (ack k : ℕ)
      → IsValid s
      → let t = process_acknowledgment_through s ack in
        IsValid t
        × (has_num k t.sent_states
            ≡ (has_num k s.sent_states && (not (has_num ack s.sent_states) || leb ack k)))
  unfolding process_acknowledgment_through
  process_acknowledgment_through_lem s ack k v = elim (Bool-cases (has_num ack s.sent_states)) [
    | inl held ↦
        let kept : TransportSender S = record s { sent_states = retain_from ack s.sent_states } in
        let shorter = length-retain_from ack s.sent_states in
        let few : length s.sent_states ≤ max_sent_states = v.few in
        let c =
          clamp_assumed_lem kept (retain_from_nonempty ack s.sent_states held) (omega arith) in
        rw held (c.0, ap (has_num k) c.1 ∙ has_num-retain_from ack k s.sent_states)
    | inr lost ↦
        let c = clamp_assumed_lem s v.nonempty v.few in
        rw lost (c.0, ap (has_num k) c.1 ∙ ground arith)
  ]
