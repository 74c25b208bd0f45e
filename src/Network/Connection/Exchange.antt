-- ===== src/Network/Connection/Exchange.antt =====
-- `ConnectionState`: packets of one end read by the other, and the bounds of the timeout.
use rmosh.Prelude.{
  ℕ, ◌^◌, ◌≤◌, ◌<◌, ◌≡◌, refl, ap, ◌∙◌, Bool, true, false, not, List, arith, ok, err, le→ltb,
  if◌then◌else◌, IsU16,
}
use rmosh.Network.Packet.{to_server, to_client, from_message, to_message}
use rmosh.Network.Packet.Laws.{from_message-to_message, timestamp16-ne-none}
use rmosh.Network.Connection.State.{
  Floats, ConnectionState, payload, wrong_direction, same_direction, accepted, new_packet, process,
  timeout, min_rto, max_rto,
}

module _ {F : Type 0} where
  -- An end sends away from itself, and the stamp that it keeps is a u16.
  pub record IsValid (s : ConnectionState F) : Type 0 where
    pub away : s.direction ≡ (if s.server then to_client else to_server)
    pub stamp : IsU16 s.saved_timestamp

  new_packet-IsU16 :
      (s : ConnectionState F) (seq : ℕ) (contents : List ℕ) (now : ℕ)
      → IsValid s
      → IsU16 (new_packet s seq contents now).timestamp
        × IsU16 (new_packet s seq contents now).timestamp_reply
  unfolding new_packet
  new_packet-IsU16 s seq contents now v = ((timestamp16-ne-none now).0, ground (arith, v.stamp))

  new_packet-message :
      (s : ConnectionState F) (seq : ℕ) (contents : List ℕ) (now : ℕ)
      → IsValid s
      → seq < 2 ^ 63
      → from_message (to_message (new_packet s seq contents now))
        ≡ ok (new_packet s seq contents now)
  new_packet-message s seq contents now v h =
      let (a, b) = new_packet-IsU16 s seq contents now v in
      from_message-to_message (new_packet s seq contents now) a b
      ∙ unfold new_packet in
        ap (λ k. ok (record (new_packet s seq contents now) { seq = k })) (omega arith)

  new_packet-fields :
      (s : ConnectionState F) (seq : ℕ) (contents : List ℕ) (now : ℕ)
      → ((new_packet s seq contents now).seq ≡ seq)
        × ((new_packet s seq contents now).payload ≡ contents)
  unfolding new_packet
  new_packet-fields s seq contents now = (refl, refl)

  new_packet-direction :
      (s : ConnectionState F) (seq : ℕ) (contents : List ℕ) (now : ℕ) (server : Bool)
      → IsValid s
      → same_direction (new_packet s seq contents now).direction (accepted server)
        ≡ (if s.server then not server else server)
  unfolding new_packet same_direction accepted
  new_packet-direction s seq contents now server v = ground (arith, v.away)

module _ {F : Type 0} (fl : Floats F) where
  -- A server and a client: what one builds the other delivers, if it is not below the number
  -- expected; and what an end has built itself it refuses, its state unchanged.
  pub process-new_packet :
      (s r : ConnectionState F) (seq : ℕ) (contents : List ℕ) (sent now : ℕ) (congested : Bool)
      → IsValid s
      → seq < 2 ^ 63
      → r.server ≡ not s.server
      → r.expected_receiver_seq ≤ seq
      → ((process fl r (to_message (new_packet s seq contents sent)) congested now).1
          ≡ ok (payload contents))
        × (process fl s (to_message (new_packet s seq contents sent)) congested now
            ≡ (s, err wrong_direction))
  unfolding process
  process-new_packet s r seq contents sent now congested v h other le =
      let p = new_packet s seq contents sent in
      let (number, whole) = new_packet-fields s seq contents sent in
      let read = new_packet-message s seq contents sent v h in
      let toward : same_direction p.direction (accepted r.server) ≡ true =
        new_packet-direction s seq contents sent r.server v ∙ ground (arith, other) in
      let away : same_direction p.direction (accepted s.server) ≡ false =
        new_packet-direction s seq contents sent s.server v ∙ ground arith in
      (
        rw (read, toward, le→ltb p.seq r.expected_receiver_seq (omega (arith, number)))
            (ap (λ x. ok (payload x)) whole),
        rw (read, away) refl,
      )

  -- The retransmission timeout stays between 50 and 1000 milliseconds, whatever the estimate.
  pub timeout_bounds : (s : ConnectionState F) → (min_rto ≤ timeout fl s) × (timeout fl s ≤ max_rto)
  unfolding timeout
  timeout_bounds s = omega arith
