-- ===== src/Network/Sender/Ticks.antt =====
-- A tick: the queue stays valid whatever is sent, and the wait that `wait_time` names.
use rmosh.Prelude.{
  ℕ, suc, ◌-◌, ◌<◌, ◌≡◌, refl, ap, subst, inl, inr, true, ◌&&◌, ◌||◌, not, List, [], ◌∷◌, arith,
  Result, ok, err, length, ltb, leb, ◌==◌, if◌then◌else◌, min, Bool-cases,
}
use rmosh.Network.Compressor.{Libraries}
use rmosh.Network.Fragment.{FragmentError}
use rmosh.Network.Sync.{SyncState, Link, TimestampedState}
use rmosh.Network.Connection.State.{Floats}
use rmosh.Network.Sender.{
  TransportSender, front, back, assumed, add_sent_state, shutdown_num, plus, u64_max,
}
use rmosh.Network.Sender.Queue.{IsValid, add_sent_state-IsValid}
use rmosh.Network.Sender.Timers.{Keeps, Keeps-IsValid, calculate_timers-IsValid}
use rmosh.Network.Packet.{added_bytes}
use rmosh.Network.Fragmenter.{make_fragments}
use rmosh.Network.Sender.Send.{
  instruction, send_made, count_shutdown, settle, send_in_fragments, after_ack, after_diff,
  send_empty_ack, next_num, touch_back, record_sent, send_to_receiver,
  attempt_prospective_resend_optimization, forget_clock, no_send_due, tick_due, timed, tick_timed,
  tick, wait_time,
}

module _ {S : Type 0} where
  count_shutdown-Keeps : (s : TransportSender S) (n : ℕ) → Keeps s (count_shutdown s n)
  count_shutdown-Keeps s n = elim (Bool-cases (n == shutdown_num)) [
    | inl a ↦ rw a (record { queue = refl; place = refl })
    | inr a ↦ rw a (record { queue = refl; place = refl })
  ]

  length-touch_back :
      (now : ℕ) (xs : List (TimestampedState S)) → length (touch_back now xs) ≡ length xs
  length-touch_back now [] = refl
  length-touch_back now (x ∷ []) = refl
  length-touch_back now (x ∷ y ∷ r) = ap suc (length-touch_back now (y ∷ r))

  record_sent-IsValid :
      (s : TransportSender S) (now new_num : ℕ) → IsValid s → IsValid (record_sent s now new_num)
  record_sent-IsValid s now new_num v = elim (Bool-cases (new_num == (back s).num)) [
    | inl again ↦
        let len = length-touch_back now s.sent_states in
        rw again
          (record { nonempty = rw len v.nonempty; within = rw len v.within; few = rw len v.few })
    | inr new ↦ rw new (add_sent_state-IsValid s now new_num s.current_state v).0
  ]

module _ {S C : Type 0} where
  settle-IsValid :
      (s : TransportSender S) (c : C) (r : Result FragmentError (Unit {0}))
      → IsValid s
      → IsValid (settle s (c, r)).0
  settle-IsValid s c (err e) v = v
  settle-IsValid s c (ok u) v = record { nonempty = v.nonempty; within = v.within; few = v.few }

  after_ack-IsValid :
      (now : ℕ) (s : TransportSender S) (c : C) (r : Result FragmentError (Unit {0}))
      → IsValid s
      → IsValid (after_ack now (s, c, r)).0
  after_ack-IsValid now s c (err e) v = v
  after_ack-IsValid now s c (ok u) v = record {
    nonempty = v.nonempty;
    within = v.within;
    few = v.few;
  }

  after_diff-IsValid :
      (now : ℕ) (s : TransportSender S) (c : C) (r : Result FragmentError (Unit {0}))
      → IsValid s
      → IsValid (after_diff now (s, c, r)).0
  after_diff-IsValid now s c (err e) v = v
  after_diff-IsValid now s c (ok u) v =
      let some_state : 0 < length s.sent_states = v.nonempty in
      record { nonempty = v.nonempty; within = omega arith; few = v.few }

  forget_clock-IsValid :
      (s : TransportSender S) (c : C) (r : Result FragmentError (Unit {0}))
      → IsValid s
      → IsValid (forget_clock (s, c, r)).0
  forget_clock-IsValid s c (err e) v = v
  forget_clock-IsValid s c (ok u) v = record {
    nonempty = v.nonempty;
    within = v.within;
    few = v.few;
  }

  no_send_due-IsValid :
      (now : ℕ) (s : TransportSender S) (c : C) (r : Result FragmentError (Unit {0}))
      → IsValid s
      → IsValid (no_send_due now (s, c, r)).0
  no_send_due-IsValid now s c (err e) v = v
  no_send_due-IsValid now s c (ok u) v = elim (Bool-cases (leb s.next_send_time now)) [
    | inl due ↦ rw due (record { nonempty = v.nonempty; within = v.within; few = v.few })
    | inr not_due ↦ rw not_due v
  ]

module _ {S F C : Type 0} (sync : SyncState S) (fl : Floats F) (link : Link F C)
    (lib : Libraries) where
  send_in_fragments-IsValid :
      (s : TransportSender S) (c : C) (diff : List ℕ) (new_num : ℕ) (chaff : List ℕ) (now : ℕ)
      → IsValid s
      → IsValid (send_in_fragments sync fl link lib s c diff new_num chaff now).0
  unfolding send_in_fragments
  send_in_fragments-IsValid s c diff new_num chaff now v =
      let k = count_shutdown-Keeps s new_num in
      let mtu = link.mtu c - added_bytes - 16 in
      let made = make_fragments lib s.fragmenter (instruction s diff new_num chaff) mtu in
      let t : TransportSender S = record (count_shutdown s new_num) { fragmenter = made.0 } in
      let sent = send_made link c now made.1 in
      settle-IsValid t sent.0 sent.1
        (Keeps-IsValid s t (record { queue = k.queue; place = k.place }) v)

  send_empty_ack-IsValid :
      (s : TransportSender S) (c : C) (chaff : List ℕ) (now : ℕ)
      → IsValid s
      → IsValid (send_empty_ack sync fl link lib s c chaff now).0
  unfolding send_empty_ack
  send_empty_ack-IsValid s c chaff now v =
      let n = if s.shutdown_in_progress then shutdown_num else plus (back s).num 1 in
      let sent =
        send_in_fragments sync fl link lib (add_sent_state s now n s.current_state) c [] n chaff
          now in
      after_ack-IsValid now sent.0 sent.1 sent.2 (
        send_in_fragments-IsValid (add_sent_state s now n s.current_state) c [] n chaff now
          (add_sent_state-IsValid s now n s.current_state v).0)

  send_to_receiver-IsValid :
      (s : TransportSender S) (c : C) (diff chaff : List ℕ) (now : ℕ)
      → IsValid s
      → IsValid (send_to_receiver sync fl link lib s c diff chaff now).0
  unfolding send_to_receiver
  send_to_receiver-IsValid s c diff chaff now v =
      let n = next_num sync fl link lib s in
      let sent = send_in_fragments sync fl link lib (record_sent s now n) c diff n chaff now in
      after_diff-IsValid now sent.0 sent.1 sent.2 (
        send_in_fragments-IsValid (record_sent s now n) c diff n chaff now
          (record_sent-IsValid s now n v))

  optimised-IsValid :
      (s : TransportSender S) (proposed : List ℕ)
      → IsValid s
      → IsValid (attempt_prospective_resend_optimization sync fl link lib s proposed).0
  unfolding attempt_prospective_resend_optimization
  optimised-IsValid s proposed v =
      let resend = sync.diff_from s.current_state (front s).state in
      elim (Bool-cases (s.assumed_receiver_state == 0)) [
        | inl a ↦ rw a v
        | inr a ↦
            elim (Bool-cases (
              leb (length resend) (length proposed)
              || (ltb (length resend) 1000 && ltb (length resend - length proposed) 100))) [
                | inl b ↦
                    rw (a, b) (record { nonempty = v.nonempty; within = v.nonempty; few = v.few })
                | inr b ↦ rw (a, b) v
              ]
      ]

  tick_due-IsValid :
      (s : TransportSender S) (c : C) (diff chaff : List ℕ) (now : ℕ)
      → IsValid s
      → IsValid (tick_due sync fl link lib s c diff chaff now).0
  tick_due-IsValid s c [] chaff now v = elim (Bool-cases (leb s.next_ack_time now)) [
    | inl due ↦
        let sent = send_empty_ack sync fl link lib s c chaff now in
        let done = forget_clock sent in
        rw due (
          no_send_due-IsValid now done.0 done.1 done.2
            (forget_clock-IsValid sent.0 sent.1 sent.2 (send_empty_ack-IsValid s c chaff now v)))
    | inr not_due ↦ rw not_due (no_send_due-IsValid now s c (ok tt) v)
  ]
  tick_due-IsValid s c (b ∷ bs) chaff now v =
      elim (Bool-cases (leb s.next_send_time now || leb s.next_ack_time now)) [
        | inl due ↦
            let sent = send_to_receiver sync fl link lib s c (b ∷ bs) chaff now in
            rw due (
              forget_clock-IsValid sent.0 sent.1 sent.2
                (send_to_receiver-IsValid s c (b ∷ bs) chaff now v))
        | inr not_due ↦ rw not_due v
      ]

  tick_timed-IsValid :
      (s : TransportSender S) (c : C) (chaff : List ℕ) (now : ℕ)
      → IsValid s
      → IsValid (tick_timed sync fl link lib s c chaff now).0
  tick_timed-IsValid s c chaff now v =
      let proposed = sync.diff_from s.current_state (assumed s).state in
      let settled = attempt_prospective_resend_optimization sync fl link lib s proposed in
      elim (Bool-cases (not (link.has_remote_addr c))) [
        | inl a ↦ rw a v
        | inr a ↦ elim (Bool-cases (ltb now s.next_ack_time && ltb now s.next_send_time)) [
          | inl b ↦ rw (a, b) v
          | inr b ↦
              rw (a, b)
                (tick_due-IsValid settled.0 c settled.1 chaff now (optimised-IsValid s proposed v))
        ]
      ]

  -- A tick keeps the queue of sent states valid, whatever it sends and whether or not it fails:
  -- never empty, no longer than 32, and with the assumed receiver state in it.
  pub tick-IsValid :
      (s : TransportSender S) (c : C) (chaff : List ℕ) (now : ℕ)
      → IsValid s
      → IsValid (tick sync fl link lib s c chaff now).0
  unfolding tick
  tick-IsValid s c chaff now v =
      tick_timed-IsValid (timed sync fl link lib s c now) c chaff now
        (calculate_timers-IsValid sync fl s now (link.srtt c) (link.timeout c) v)

  -- The diff that is sent after the resend optimisation is the one from the state that the receiver
  -- is then assumed to have.
  pub attempt_prospective_resend_optimization_lem :
      (s : TransportSender S)
      → let proposed = sync.diff_from s.current_state (assumed s).state in
        let (t, diff) = attempt_prospective_resend_optimization sync fl link lib s proposed in
        diff ≡ sync.diff_from t.current_state (assumed t).state
  unfolding attempt_prospective_resend_optimization
  attempt_prospective_resend_optimization_lem s =
      let proposed = sync.diff_from s.current_state (assumed s).state in
      let resend = sync.diff_from s.current_state (front s).state in
      elim (Bool-cases (s.assumed_receiver_state == 0)) [
        | inl a ↦ rw a refl
        | inr a ↦
            elim (Bool-cases (
              leb (length resend) (length proposed)
              || (ltb (length resend) 1000 && ltb (length resend - length proposed) 100))) [
                | inl b ↦ rw (a, b) refl
                | inr b ↦ rw (a, b) refl
              ]
      ]

  -- While the peer's address is known and `wait_time` names a wait, a tick at that time sends nothing and only sets the timers.
  pub tick-wait_time :
      (s : TransportSender S) (c : C) (chaff : List ℕ) (now : ℕ)
      → link.has_remote_addr c ≡ true
      → 0 < (wait_time sync fl link lib s c now).1
      → tick sync fl link lib s c chaff now ≡ ((wait_time sync fl link lib s c now).0, c, ok tt)
  unfolding tick wait_time
  tick-wait_time s c chaff now known wait =
      let t = timed sync fl link lib s c now in
      let gap : 0 < min t.next_ack_time t.next_send_time - now =
        subst (λ b. 0 < (if b then min t.next_ack_time t.next_send_time - now else u64_max)) known
          wait in
      let early : (ltb now t.next_ack_time && ltb now t.next_send_time) ≡ true = ground arith in
      rw (known, early) refl
