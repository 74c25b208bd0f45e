-- ===== src/Network/Connection/Outcome.antt =====
-- The four ways that `ConnectionState::process` can go.
use rmosh.Prelude.{
  ℕ, ◌+◌, ◌%◌, ◌^◌, ◌≤◌, ◌<◌, ◌≡◌, refl, ◌∙◌, inl, inr, Bool, true, false, arith, ok, err, ltb,
  lt→ltb, ltb→lt, le→ltb, ltb→le, Bool-cases, Result-cases,
}
use rmosh.Crypto.Key.{CryptoError, Message}
use rmosh.Network.Packet.{Packet, from_message}
use rmosh.Network.Connection.State.{
  Floats, ConnectionState, out_of_order, undecryptable, wrong_direction, same_direction, accepted,
  save_timestamp, sample_rtt, process_packet, accept, process,
}

from_message-seq : (m : Message) (p : Packet) → from_message m ≡ ok p → p.seq < 2 ^ 63
unfolding from_message
from_message-seq m p e = ground arith

module _ {F : Type 0} (fl : Floats F) where
  -- The parts of a state that timing leaves alone.
  abbrev Same : ConnectionState F → ConnectionState F → Type 0
  Same s t =
      (t.server ≡ s.server)
      × (t.direction ≡ s.direction)
      × (t.expected_receiver_seq ≡ s.expected_receiver_seq)

  save_timestamp-Same :
      (s : ConnectionState F) (p : Packet) (congested : Bool) (now : ℕ)
      → Same s (save_timestamp s p congested now)
  unfolding save_timestamp
  save_timestamp-Same s p congested now = ground arith

  sample_rtt-Same : (s : ConnectionState F) (p : Packet) (now : ℕ) → Same s (sample_rtt fl s p now)
  unfolding sample_rtt
  sample_rtt-Same s p now = ground arith

  -- The three ways that `process` can go with a packet.
  process_wrong :
      (s : ConnectionState F) (p : Packet) (congested : Bool) (now : ℕ)
      → same_direction p.direction (accepted s.server) ≡ false
      → process_packet fl s p congested now ≡ (s, err wrong_direction)
  process_wrong s p congested now h = rw h refl

  process_old :
      (s : ConnectionState F) (p : Packet) (congested : Bool) (now : ℕ)
      → same_direction p.direction (accepted s.server) ≡ true
      → p.seq < s.expected_receiver_seq
      → process_packet fl s p congested now ≡ (s, ok (out_of_order p.payload))
  process_old s p congested now h lt = rw (h, lt→ltb p.seq s.expected_receiver_seq lt) refl

  process_new :
      (s : ConnectionState F) (p : Packet) (congested : Bool) (now : ℕ)
      → same_direction p.direction (accepted s.server) ≡ true
      → s.expected_receiver_seq ≤ p.seq
      → process_packet fl s p congested now ≡ accept fl s p congested now
  process_new s p congested now h le = rw (h, le→ltb p.seq s.expected_receiver_seq le) refl

  pub accept-Same :
      (s : ConnectionState F) (p : Packet) (congested : Bool) (now : ℕ)
      → p.seq < 2 ^ 63
      → let t = (accept fl s p congested now).0 in
        (t.server ≡ s.server) × (t.direction ≡ s.direction) × (t.expected_receiver_seq ≡ p.seq + 1)
  accept-Same s p congested now h =
      let ordered : ConnectionState F = record s { expected_receiver_seq = (p.seq + 1) % 2 ^ 64 } in
      let (a, b, c) = save_timestamp-Same ordered p congested now in
      let (d, e, f) = sample_rtt-Same (save_timestamp ordered p congested now) p now in
      (d ∙ a, e ∙ b, f ∙ c ∙ omega arith)

  -- What `process` makes of a message: its packet, if it can be read and goes the right way.
  pub data Outcome (s : ConnectionState F) (m : Message) (congested : Bool) (now : ℕ) : Type 0 where
    unread :
        (e : CryptoError)
        → from_message m ≡ err e
        → process fl s m congested now ≡ (s, err undecryptable)
        → Outcome s m congested now
    reflected :
        (p : Packet)
        → from_message m ≡ ok p
        → same_direction p.direction (accepted s.server) ≡ false
        → process fl s m congested now ≡ (s, err wrong_direction)
        → Outcome s m congested now
    old :
        (p : Packet)
        → from_message m ≡ ok p
        → same_direction p.direction (accepted s.server) ≡ true
        → p.seq < s.expected_receiver_seq
        → process fl s m congested now ≡ (s, ok (out_of_order p.payload))
        → Outcome s m congested now
    new :
        (p : Packet)
        → from_message m ≡ ok p
        → same_direction p.direction (accepted s.server) ≡ true
        → s.expected_receiver_seq ≤ p.seq
        → p.seq < 2 ^ 63
        → process fl s m congested now ≡ accept fl s p congested now
        → Outcome s m congested now

  pub outcome :
      (s : ConnectionState F) (m : Message) (congested : Bool) (now : ℕ) → Outcome s m congested now
  unfolding process
  outcome s m congested now = elim (Result-cases (from_message m)) [
    | inr (e, bad) ↦ unread e bad (rw bad refl)
    | inl (p, good) ↦ elim (Bool-cases (same_direction p.direction (accepted s.server))) [
      | inr away ↦ reflected p good away (rw good (process_wrong s p congested now away))
      | inl toward ↦ elim (Bool-cases (ltb p.seq s.expected_receiver_seq)) [
        | inl below ↦
            old p good toward (ltb→lt _ _ below)
              (rw good (process_old s p congested now toward (ltb→lt _ _ below)))
        | inr reached ↦
            new p good toward (ltb→le _ _ reached) (from_message-seq m p good)
              (rw good (process_new s p congested now toward (ltb→le _ _ reached)))
      ]
    ]
  ]
