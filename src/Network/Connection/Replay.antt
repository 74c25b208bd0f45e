-- ===== src/Network/Connection/Replay.antt =====
-- `ConnectionState`: replayed and reflected datagrams, and the bounds of the timeout.
use rmosh.Prelude.{
  ℕ, ◌+◌, ◌≤◌, ◌<◌, ◌≡◌, refl, ap, ◌∙◌, Bool, true, List, [], ◌∷◌, arith, ok, lt→ltb,
}
use rmosh.Crypto.Key.{Message}
use rmosh.Network.Packet.{Packet, from_message}
use rmosh.Network.Connection.State.{
  Floats, ConnectionState, payload, out_of_order, same_direction, accepted, process,
}
use rmosh.Network.Connection.Outcome.{Outcome, unread, reflected, old, new, outcome, accept-Same}

-- Datagrams one after the other, each with its congestion mark and its time.
module _ {F : Type 0} (fl : Floats F) where
  pub run : ConnectionState F → List (Message × Bool × ℕ) → ConnectionState F
  run s [] = s
  run s ((m, congested, now) ∷ r) = run (process fl s m congested now).0 r

module _ {F : Type 0} (fl : Floats F) where
  -- The end stays the end that it is, and the number expected next never falls.
  abbrev pub Forward : ConnectionState F → ConnectionState F → Type 0
  Forward s t =
      (t.server ≡ s.server)
      × (t.direction ≡ s.direction)
      × (s.expected_receiver_seq ≤ t.expected_receiver_seq)

  process-Forward :
      (s : ConnectionState F) (m : Message) (congested : Bool) (now : ℕ)
      → Forward s (process fl s m congested now).0
  process-Forward s m congested now = go (outcome fl s m congested now)
    where
      go : Outcome fl s m congested now → Forward s (process fl s m congested now).0
      go (unread _ _ e) = rw e (refl, refl, omega arith)
      go (reflected _ _ _ e) = rw e (refl, refl, omega arith)
      go (old _ _ _ _ e) = rw e (refl, refl, omega arith)
      go (new p _ _ le small e) =
          let (a, b, c) = accept-Same fl s p congested now small in
          rw e (a, b, omega (arith, c, le))

  pub run-Forward :
      (s : ConnectionState F) (ms : List (Message × Bool × ℕ)) → Forward s (run fl s ms)
  unfolding run
  run-Forward s [] = (refl, refl, omega arith)
  run-Forward s ((m, congested, now) ∷ r) =
      let (a, b, c) = process-Forward s m congested now in
      let (d, e, f) = run-Forward (process fl s m congested now).0 r in
      (d ∙ a, e ∙ b, omega (arith, c, f))

  -- What a message that was delivered in order had to be.
  payload-Packet :
      (s : ConnectionState F) (m : Message) (congested : Bool) (now : ℕ) (x : List ℕ)
      → (process fl s m congested now).1 ≡ ok (payload x)
      → (p : Packet) × (from_message m ≡ ok p)
        × (same_direction p.direction (accepted s.server) ≡ true)
        × ((process fl s m congested now).0.expected_receiver_seq ≡ p.seq + 1)
        × (p.payload ≡ x)
  payload-Packet s m congested now x h = go (outcome fl s m congested now)
    where
      go :
          Outcome fl s m congested now
          → (p : Packet) × (from_message m ≡ ok p)
            × (same_direction p.direction (accepted s.server) ≡ true)
            × ((process fl s m congested now).0.expected_receiver_seq ≡ p.seq + 1)
            × (p.payload ≡ x)
      go (unread _ _ e) = cc (ap (λ r. r.1) e)
      go (reflected _ _ _ e) = cc (ap (λ r. r.1) e)
      go (old p _ _ _ e) = cc (ap (λ r. r.1) e)
      go (new p good toward le small e) =
          let (_, _, c) = accept-Same fl s p congested now small in
          (p, good, toward, ap (λ r. r.0.expected_receiver_seq) e ∙ c, cc (ap (λ r. r.1) e))

  process_again :
      (s : ConnectionState F) (m : Message) (congested : Bool) (now : ℕ) (p : Packet)
      → from_message m ≡ ok p
      → same_direction p.direction (accepted s.server) ≡ true
      → p.seq < s.expected_receiver_seq
      → process fl s m congested now ≡ (s, ok (out_of_order p.payload))
  unfolding process
  process_again s m congested now p good toward lt =
      rw (good, toward, lt→ltb p.seq s.expected_receiver_seq lt) refl

  -- A datagram that was delivered in order and comes again, after whatever other datagrams and at
  -- whatever time, is delivered as out of order and changes nothing: not the timing, not the number
  -- expected next, not when the peer was last heard.
  pub process_replayed :
      (s : ConnectionState F) (m : Message) (congested : Bool) (now : ℕ) (x : List ℕ)
      → (process fl s m congested now).1 ≡ ok (payload x)
      → (ms : List (Message × Bool × ℕ)) (congested' : Bool) (later : ℕ)
      → let t = run fl (process fl s m congested now).0 ms in
        process fl t m congested' later ≡ (t, ok (out_of_order x))
  process_replayed s m congested now x h ms congested' later =
      let (p, good, toward, next, same) = payload-Packet s m congested now x h in
      let (server, _, _) = process-Forward s m congested now in
      let (server', _, ahead) = run-Forward (process fl s m congested now).0 ms in
      process_again (run fl (process fl s m congested now).0 ms) m congested' later p good
        (ap (λ b. same_direction p.direction (accepted b)) (server' ∙ server) ∙ toward)
        (omega (arith, ahead, next))
      ∙ ap (λ y. (run fl (process fl s m congested now).0 ms, ok (out_of_order y))) same
