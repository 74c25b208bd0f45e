-- ===== src/Network/Connection/Delivery.antt =====
-- `Connection` from end to end: what one end sends, the other receives.
use rmosh.Prelude.{
  ℕ, ◌+◌, ◌%◌, ◌^◌, ◌≤◌, ◌<◌, ◌≡◌, refl, sym, ap, ◌∙◌, false, not, Option, none, some, List, [],
  ◌∷◌, arith, Result, ok, err, length, take_all, if◌then◌else◌,
}
use rmosh.Crypto.Key.{CryptoError, next_value}
use rmosh.Crypto.Session.{Cipher, IsAead, encrypt, decrypt, decrypt-encrypt}
use rmosh.Network.Packet.{Packet, is_to_client, to_message}
use rmosh.Network.Connection.State.{Floats, payload, new_packet}
use rmosh.Network.Connection.Exchange.{IsValid, process-new_packet}
use rmosh.Network.Connection.{
  Connection, System, prune_sockets, housekeeping, hop_port, send, send_known, recv, receive_mtu,
  transmit, after_send,
}

direction_seq-lt :
    (p : Packet) → (if is_to_client p.direction then 2 ^ 63 else 0) + p.seq % 2 ^ 63 < 2 ^ 64
direction_seq-lt p = ground arith

module _ {F : Type 0} where
  prune-seq : (c : Connection F) (now : ℕ) → (prune_sockets c now).seq ≡ c.seq
  unfolding prune_sockets
  prune-seq c now = refl

  hop_port-seq : (c : Connection F) (os : System) (now : ℕ) → (hop_port c os now).seq ≡ c.seq
  unfolding hop_port prune_sockets
  hop_port-seq c os now = ground arith

  housekeeping-seq :
      (c : Connection F) (os : System) (now : ℕ) → (housekeeping c os now).seq ≡ c.seq
  unfolding housekeeping
  housekeeping-seq c os now = ground (arith, hop_port-seq c os now)

next_value_lem : (n : ℕ) → n + 1 < 2 ^ 64 → next_value n ≡ (n + 1, ok n)
unfolding next_value
next_value_lem n h = ground arith

module _ {F : Type 0} (cipher : Cipher) where
  after_send-seq : (c : Connection F) (os : System) → (after_send c os).seq ≡ c.seq
  after_send-seq c os = ground arith

  transmit-ok :
      (c : Connection F) (os : System) (now blocks : ℕ) (r : Result CryptoError (List ℕ))
      (datagram : List ℕ)
      → (transmit cipher c os now blocks r).1 ≡ ok (some datagram)
      → ((transmit cipher c os now blocks r).0.seq ≡ c.seq) × (r ≡ ok datagram)
  transmit-ok c os now blocks (err x) datagram e = cc
  transmit-ok c os now blocks (ok d) datagram e = (
    housekeeping-seq (after_send (record c { session = blocks }) os) os now
        ∙ after_send-seq (record c { session = blocks }) os,
    cc,
  )

  send_known-datagram :
      (c : Connection F) (os : System) (contents : List ℕ) (now : ℕ) (o : Option ℕ)
      (datagram : List ℕ)
      → c.seq + 1 < 2 ^ 64
      → (send_known cipher c os contents now o).1 ≡ ok (some datagram)
      → ((send_known cipher c os contents now o).0.seq ≡ c.seq + 1)
        × ((encrypt cipher c.session (to_message (new_packet c.state c.seq contents now))).1
            ≡ ok datagram)
  send_known-datagram c os contents now none datagram h e = cc
  send_known-datagram c os contents now (some remote) datagram h e =
      let sealed = encrypt cipher c.session (to_message (new_packet c.state c.seq contents now)) in
      let sent : Connection F = record c { seq = c.seq + 1 } in
      let run : send_known cipher c os contents now (some remote)
          ≡ transmit cipher sent os now sealed.0 sealed.1 =
        rw (next_value_lem c.seq h) refl in
      let (number, good) =
        transmit-ok sent os now sealed.0 sealed.1 datagram (sym (ap (λ r. r.1) run) ∙ e) in
      (ap (λ r. r.0.seq) run ∙ number, good)

  -- A datagram that goes out is the encryption of a packet under the next sequence number.
  send-datagram :
      (c : Connection F) (os : System) (contents : List ℕ) (now : ℕ) (datagram : List ℕ)
      → c.seq + 1 < 2 ^ 64
      → (send cipher c os contents now).1 ≡ ok (some datagram)
      → ((send cipher c os contents now).0.seq ≡ c.seq + 1)
        × ((encrypt cipher c.session (to_message (new_packet c.state c.seq contents now))).1
            ≡ ok datagram)
  unfolding send
  send-datagram c os contents now datagram h e =
      send_known-datagram c os contents now c.remote_addr datagram h e

decrypt-to_message :
    (cipher : Cipher)
    → IsAead cipher
    → (blocks : ℕ) (p : Packet) (datagram : List ℕ)
    → (encrypt cipher blocks (to_message p)).1 ≡ ok datagram
    → decrypt cipher datagram ≡ ok (to_message p)
unfolding to_message
decrypt-to_message cipher l blocks p datagram e =
    decrypt-encrypt cipher l blocks _ _ datagram (direction_seq-lt p) e

module _ {F : Type 0} (cipher : Cipher) (fl : Floats F) where
  -- With an AEAD, between a client and a server, the sender valid and its sequence number below
  -- 2 ^ 63: what a connection sends under a sequence number that the other end has not passed, the other
  -- end receives whole and in order, if the datagram fits its buffer; and the sender's next
  -- sequence number is one higher, so that no nonce is used twice.
  pub recv-send :
      IsAead cipher
      → (c r : Connection F) (os : System) (contents datagram : List ℕ) (from sent now : ℕ)
      → IsValid c.state
      → c.seq < 2 ^ 63
      → r.state.server ≡ not c.state.server
      → r.state.expected_receiver_seq ≤ c.seq
      → (send cipher c os contents sent).1 ≡ ok (some datagram)
      → length datagram ≤ receive_mtu
      → ((recv cipher fl r (some (datagram, from) ∷ []) now).1 ≡ some (ok (payload contents)))
        × ((send cipher c os contents sent).0.seq ≡ c.seq + 1)
  unfolding recv
  recv-send l c r os contents datagram from sent now v h other le e fits =
      let (number, sealed) = send-datagram cipher c os contents sent datagram (omega arith) e in
      let opened : decrypt cipher datagram
          ≡ ok (to_message (new_packet c.state c.seq contents sent)) =
        decrypt-to_message cipher l c.session (new_packet c.state c.seq contents sent) datagram
          sealed in
      let (delivered, _) =
        process-new_packet fl c.state r.state c.seq contents sent now false v h other le in
      (rw (take_all receive_mtu datagram fits, opened) (ap some delivered), number)
