-- ===== src/Network/Sender/Send.antt =====
-- crates/mosh-network/src/sender.rs: `tick` and what it sends.
use rmosh.Prelude.{
  ℕ, ◌+◌, ◌-◌, ◌%◌, false, ◌&&◌, ◌||◌, not, none, some, List, [], ◌∷◌, Result, ok, err, length,
  take, ltb, leb, ◌==◌, if◌then◌else◌, wrapping_add, min,
}
use rmosh.Network.Compressor.{Instruction, Libraries}
use rmosh.Network.Packet.{mosh_protocol_version, added_bytes}
use rmosh.Network.Fragment.{Fragment, FragmentError, to_bytes}
use rmosh.Network.Fragmenter.{make_fragments}
use rmosh.Network.Sync.{SyncState, Link, TimestampedState}
use rmosh.Network.Connection.State.{Floats}
use rmosh.Network.Sender.{
  TransportSender, front, back, assumed, add_sent_state, calculate_timers, shutdown_num, u64_max,
  ack_interval, plus,
}

-- mosh_crypto::ADDED_BYTES
abbrev crypto_added_bytes : ℕ
crypto_added_bytes = 16

-- The padding, from one random byte for its length and random bytes to fill it.
abbrev pub make_chaff : ℕ → List ℕ → List ℕ
make_chaff len_byte random = take (len_byte % (16 + 1)) random

module _ {S : Type 0} where
  -- `send_in_fragments` builds this instruction.
  abbrev pub instruction : TransportSender S → List ℕ → ℕ → List ℕ → Instruction
  instruction s diff new_num chaff = record {
    protocol_version = some mosh_protocol_version;
    old_num = some (assumed s).num;
    new_num = some new_num;
    ack_num = some s.ack_num;
    throwaway_num = some (front s).num;
    diff = some diff;
    chaff = some chaff;
  }

  abbrev pub count_shutdown : TransportSender S → ℕ → TransportSender S
  count_shutdown s new_num =
      if new_num == shutdown_num
      then record s { shutdown_tries = wrapping_add 32 s.shutdown_tries 1 }
      else s

  -- `back_mut().timestamp = now`
  abbrev pub touch_back : ℕ → List (TimestampedState S) → List (TimestampedState S)
  touch_back now [] = []
  touch_back now (x ∷ []) = record x { timestamp = now } ∷ []
  touch_back now (x ∷ y ∷ r) = x ∷ touch_back now (y ∷ r)

  abbrev pub record_sent : TransportSender S → ℕ → ℕ → TransportSender S
  record_sent s now new_num =
      if new_num == (back s).num
      then record s { sent_states = touch_back now s.sent_states }
      else add_sent_state s now new_num s.current_state

-- The sender and the connection after a call, and whether it succeeded.
abbrev pub Done : Type 0 → Type 0 → Type 0
Done S C = TransportSender S × C × Result FragmentError (Unit {0})

module _ {S C : Type 0} where
  abbrev pub settle : TransportSender S → C × Result FragmentError (Unit {0}) → Done S C
  settle s (c, err e) = (s, c, err e)
  settle s (c, ok u) = (record s { pending_data_ack = false }, c, ok u)

  -- After a send: `?` returns an error at once.
  abbrev pub after_ack : ℕ → Done S C → Done S C
  after_ack now (s, c, err e) = (s, c, err e)
  after_ack now (s, c, ok u) =
      (record s { next_ack_time = plus now ack_interval; next_send_time = u64_max }, c, ok u)

  abbrev pub after_diff : ℕ → Done S C → Done S C
  after_diff now (s, c, err e) = (s, c, err e)
  after_diff now (s, c, ok u) = (
    record s {
      assumed_receiver_state = length s.sent_states - 1;
      next_ack_time = plus now ack_interval;
      next_send_time = u64_max;
    },
    c,
    ok u,
  )

  abbrev pub forget_clock : Done S C → Done S C
  forget_clock (s, c, err e) = (s, c, err e)
  forget_clock (s, c, ok u) = (record s { mindelay_clock = none }, c, ok u)

  abbrev pub no_send_due : ℕ → Done S C → Done S C
  no_send_due now (s, c, err e) = (s, c, err e)
  no_send_due now (s, c, ok u) =
      if leb s.next_send_time now
      then (record s { next_send_time = u64_max; mindelay_clock = none }, c, ok u)
      else (s, c, ok u)

-- Each fragment is rendered and sent; the first that cannot be rendered ends the loop.
module _ {F C : Type 0} (link : Link F C) where
  unfoldable pub send_fragments : C → ℕ → List Fragment → C × Result FragmentError (Unit {0})
  send_fragments c now [] = (c, ok tt)
  send_fragments c now (f ∷ fs) = elim (to_bytes f) [
    | err e ↦ (c, err e)
    | ok bytes ↦ send_fragments (link.send c bytes now) now fs
  ]

  abbrev pub send_made :
      C → ℕ → Result FragmentError (List Fragment) → C × Result FragmentError (Unit {0})
  send_made c now (err e) = (c, err e)
  send_made c now (ok fs) = send_fragments c now fs

module _ {S F C : Type 0} (sync : SyncState S) (fl : Floats F) (link : Link F C)
    (lib : Libraries) where
  unfoldable pub send_in_fragments : TransportSender S → C → List ℕ → ℕ → List ℕ → ℕ → Done S C
  send_in_fragments s c diff new_num chaff now =
      let mtu = link.mtu c - added_bytes - crypto_added_bytes in
      let made = make_fragments lib s.fragmenter (instruction s diff new_num chaff) mtu in
      settle (record (count_shutdown s new_num) { fragmenter = made.0 })
        (send_made link c now made.1)

  unfoldable pub send_empty_ack : TransportSender S → C → List ℕ → ℕ → Done S C
  send_empty_ack s c chaff now =
      let new_num = if s.shutdown_in_progress then shutdown_num else plus (back s).num 1 in
      after_ack now
        (send_in_fragments (add_sent_state s now new_num s.current_state) c [] new_num chaff now)

  -- The number of the state that is sent.
  abbrev pub next_num : TransportSender S → ℕ
  next_num s =
      if s.shutdown_in_progress
      then shutdown_num
      else if sync.eq s.current_state (back s).state
      then (back s).num
      else plus (back s).num 1

  unfoldable pub send_to_receiver : TransportSender S → C → List ℕ → List ℕ → ℕ → Done S C
  send_to_receiver s c diff chaff now =
      after_diff now
        (send_in_fragments (record_sent s now (next_num s)) c diff (next_num s) chaff now)

  -- The resend optimisation: the state and the diff that it settles on.
  unfoldable pub attempt_prospective_resend_optimization :
      TransportSender S → List ℕ → TransportSender S × List ℕ
  attempt_prospective_resend_optimization s proposed =
      let resend = sync.diff_from s.current_state (front s).state in
      if s.assumed_receiver_state == 0
      then (s, proposed)
      else if leb (length resend) (length proposed)
          || (ltb (length resend) 1000 && ltb (length resend - length proposed) 100)
      then (record s { assumed_receiver_state = 0 }, resend)
      else (s, proposed)

  -- Once something is due.
  abbrev pub tick_due : TransportSender S → C → List ℕ → List ℕ → ℕ → Done S C
  tick_due s c [] chaff now = no_send_due now (
      if leb s.next_ack_time now
      then forget_clock (send_empty_ack s c chaff now)
      else (s, c, ok tt))
  tick_due s c (b ∷ bs) chaff now =
      if leb s.next_send_time now || leb s.next_ack_time now
      then forget_clock (send_to_receiver s c (b ∷ bs) chaff now)
      else (s, c, ok tt)

  abbrev pub timed : TransportSender S → C → ℕ → TransportSender S
  timed s c now = calculate_timers sync fl s now (link.srtt c) (link.timeout c)

  abbrev pub tick_timed : TransportSender S → C → List ℕ → ℕ → Done S C
  tick_timed s c chaff now =
      let proposed = sync.diff_from s.current_state (assumed s).state in
      let settled = attempt_prospective_resend_optimization s proposed in
      if not (link.has_remote_addr c)
      then (s, c, ok tt)
      else if ltb now s.next_ack_time && ltb now s.next_send_time
      then (s, c, ok tt)
      else tick_due settled.0 c settled.1 chaff now

  unfoldable pub tick : TransportSender S → C → List ℕ → ℕ → Done S C
  tick s c chaff now = tick_timed (timed s c now) c chaff now

  unfoldable pub wait_time : TransportSender S → C → ℕ → TransportSender S × ℕ
  wait_time s c now =
      let t = timed s c now in
      (t, if link.has_remote_addr c then min t.next_ack_time t.next_send_time - now else u64_max)
