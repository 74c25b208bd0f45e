-- ===== src/Network/Sender/Timers.antt =====
-- The timers: scheduling moves no state of the queue.
use rmosh.Prelude.{
  ℕ, suc, ◌≤◌, ◌<◌, ◌≡◌, refl, ap, ◌&&◌, ◌||◌, not, List, [], ◌∷◌, arith, length, ltb, ◌==◌,
  Bool-cases, inl, inr,
}
use rmosh.Network.Sync.{SyncState, TimestampedState}
use rmosh.Network.Connection.State.{Floats}
use rmosh.Network.Sender.{
  TransportSender, front, back, assumed, recent, rest_of, update_assumed_receiver_state,
  subtract_all, rationalize_states, hurry_ack, schedule_send, hurry_shutdown, calculate_timers,
  plus, ack_delay, shutdown_num, active_retry_timeout,
}
use rmosh.Network.Sender.Queue.{IsValid}

module _ {S : Type 0} where
  -- The queue and the assumed place are those of `s`.
  pub record Keeps (s t : TransportSender S) : Type 0 where
    pub queue : t.sent_states ≡ s.sent_states
    pub place : t.assumed_receiver_state ≡ s.assumed_receiver_state

  pub Keeps-IsValid : (s t : TransportSender S) → Keeps s t → IsValid s → IsValid t
  Keeps-IsValid s t k v = record {
    nonempty = rw k.queue v.nonempty;
    within = rw (k.queue, k.place) v.within;
    few = rw k.queue v.few;
  }

  length-recent :
      (now timeout : ℕ) (xs : List (TimestampedState S)) → recent now timeout xs ≤ length xs
  length-recent now timeout [] = omega arith
  length-recent now timeout (x ∷ xs) = ground (arith, length-recent now timeout xs)

  recent-lt :
      (now timeout : ℕ) (xs : List (TimestampedState S))
      → 0 < length xs
      → recent now timeout (rest_of xs) < length xs
  recent-lt now timeout [] h = absurd (omega arith)
  recent-lt now timeout (x ∷ xs) h = omega (arith, length-recent now timeout xs)

  module _ (sync : SyncState S) where
    length-subtract_all :
        (known : S) (xs : List (TimestampedState S))
        → length (subtract_all sync known xs) ≡ length xs
    length-subtract_all known [] = refl
    length-subtract_all known (x ∷ xs) = ap suc (length-subtract_all known xs)

    update-IsValid :
        (s : TransportSender S) (now timeout : ℕ)
        → IsValid s
        → IsValid (update_assumed_receiver_state s now timeout)
    unfolding update_assumed_receiver_state
    update-IsValid s now timeout v = record {
      nonempty = v.nonempty;
      within = recent-lt now timeout s.sent_states v.nonempty;
      few = v.few;
    }

    rationalize-IsValid : (s : TransportSender S) → IsValid s → IsValid (rationalize_states sync s)
    unfolding rationalize_states
    rationalize-IsValid s v =
        let len = length-subtract_all (front s).state s.sent_states in
        record { nonempty = rw len v.nonempty; within = rw len v.within; few = rw len v.few }

    module _ {F : Type 0} (fl : Floats F) where
      hurry_ack-Keeps : (s : TransportSender S) (now : ℕ) → Keeps s (hurry_ack sync fl s now)
      hurry_ack-Keeps s now =
          elim (Bool-cases (s.pending_data_ack && ltb (plus now ack_delay) s.next_ack_time)) [
            | inl a ↦ rw a (record { queue = refl; place = refl })
            | inr a ↦ rw a (record { queue = refl; place = refl })
          ]

      hurry_shutdown-Keeps :
          (s : TransportSender S) (srtt : F) → Keeps s (hurry_shutdown sync fl s srtt)
      hurry_shutdown-Keeps s srtt =
          elim (Bool-cases (s.shutdown_in_progress || s.ack_num == shutdown_num)) [
            | inl a ↦ rw a (record { queue = refl; place = refl })
            | inr a ↦ rw a (record { queue = refl; place = refl })
          ]

      schedule_send-Keeps :
          (s : TransportSender S) (now : ℕ) (srtt : F) (timeout : ℕ)
          → Keeps s (schedule_send sync fl s now srtt timeout)
      schedule_send-Keeps s now srtt timeout =
          let active = ltb now (plus s.last_heard active_retry_timeout) in
          elim (Bool-cases (not (sync.eq s.current_state (back s).state))) [
            | inl a ↦ rw a (record { queue = refl; place = refl })
            | inr a ↦
                elim (Bool-cases (not (sync.eq s.current_state (assumed s).state) && active)) [
                  | inl b ↦ rw (a, b) (record { queue = refl; place = refl })
                  | inr b ↦
                      elim (Bool-cases (not (sync.eq s.current_state (front s).state) && active)) [
                        | inl c ↦ rw (a, b, c) (record { queue = refl; place = refl })
                        | inr c ↦ rw (a, b, c) (record { queue = refl; place = refl })
                      ]
                ]
          ]

      -- Setting the timers keeps the queue valid.
      pub calculate_timers-IsValid :
          (s : TransportSender S) (now : ℕ) (srtt : F) (timeout : ℕ)
          → IsValid s
          → IsValid (calculate_timers sync fl s now srtt timeout)
      unfolding calculate_timers
      calculate_timers-IsValid s now srtt timeout v =
          let a = update_assumed_receiver_state s now timeout in
          let b = rationalize_states sync a in
          let c = hurry_ack sync fl b now in
          let d = schedule_send sync fl c now srtt timeout in
          let vb = rationalize-IsValid a (update-IsValid s now timeout v) in
          let vc = Keeps-IsValid b c (hurry_ack-Keeps b now) vb in
          let vd = Keeps-IsValid c d (schedule_send-Keeps c now srtt timeout) vc in
          Keeps-IsValid d (hurry_shutdown sync fl d srtt) (hurry_shutdown-Keeps d srtt) vd
