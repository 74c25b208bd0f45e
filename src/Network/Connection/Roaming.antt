-- ===== src/Network/Connection/Roaming.antt =====
-- `Connection`: which sockets are kept, whom the server follows, and the numbers that go out.
use rmosh.Prelude.{
  ℕ, zero, suc, ◌-◌, ◌≤◌, ◌<◌, ◌≡◌, ◌⊎◌, refl, sym, ap, ◌∙◌, inl, inr, true, false, ◌&&◌, Option,
  none, some, List, [], ◌∷◌, arith, Result, ok, err, length, length-drop, take, drop, ltb,
  Bool-cases, Option-cases,
}
use rmosh.Crypto.Key.{CryptoError, Message}
use rmosh.Crypto.Session.{Cipher, decrypt}
use rmosh.Network.Connection.State.{Floats, Received, payload, out_of_order, RecvError, process}
use rmosh.Network.Connection.{
  Connection, last_only, newest, max_ports_open, prune_sockets, recv, first_ready, receive_mtu,
  heard, roam, max_old_socket_age,
}

-- The last of several sockets, the one that `current_sock` sends on.
abbrev pub current_sock : List ℕ → Option ℕ
current_sock [] = none
current_sock (s ∷ []) = some s
current_sock (s ∷ t ∷ r) = current_sock (t ∷ r)

current_sock-last_only : (l : List ℕ) → current_sock (last_only l) ≡ current_sock l
current_sock-last_only [] = refl
current_sock-last_only (s ∷ []) = refl
current_sock-last_only (s ∷ t ∷ r) = current_sock-last_only (t ∷ r)

current_sock-drop : (n : ℕ) (l : List ℕ) → n < length l → current_sock (drop n l) ≡ current_sock l
current_sock-drop n [] h = absurd (omega arith)
current_sock-drop zero (s ∷ r) h = refl
current_sock-drop (suc n) (s ∷ []) h = absurd (omega arith)
current_sock-drop (suc n) (s ∷ t ∷ r) h = current_sock-drop n (t ∷ r) (omega arith)

newest-current_sock : (l : List ℕ) → current_sock (newest l) ≡ current_sock l
newest-current_sock [] = refl
newest-current_sock (s ∷ r) = current_sock-drop _ (s ∷ r) (omega arith)

newest_lem :
    (l : List ℕ) → (length (newest l) ≤ max_ports_open) × (current_sock (newest l) ≡ current_sock l)
newest_lem l = (omega (arith, length-drop (length l - max_ports_open) l), newest-current_sock l)

module _ {F : Type 0} where
  -- Pruning leaves at most ten sockets and keeps the current one.
  pub prune_sockets_lem :
      (c : Connection F) (now : ℕ)
      → (length (prune_sockets c now).socks ≤ max_ports_open)
        × (current_sock (prune_sockets c now).socks ≡ current_sock c.socks)
        × ((prune_sockets c now).remote_addr ≡ c.remote_addr)
  unfolding prune_sockets
  prune_sockets_lem c now =
      elim (Bool-cases
        (ltb 1 (length c.socks) && ltb max_old_socket_age (now - c.last_port_choice))) [
          | inl old ↦
              let (few, current) = newest_lem (last_only c.socks) in
              rw old (few, current ∙ current_sock-last_only c.socks, refl)
          | inr young ↦ let (few, current) = newest_lem c.socks in rw young (few, current, refl)
        ]

module _ {F : Type 0} (cipher : Cipher) (fl : Floats F) where
  -- The remote address after a datagram was looked at.
  abbrev Follows : Connection F → ℕ → Connection F × Result RecvError Received → Type 0
  Follows c from r =
      (r.0.remote_addr ≡ c.remote_addr)
      ⊎ ((c.server ≡ true)
          × ((x : List ℕ) × (r.1 ≡ ok (payload x)))
          × (r.0.remote_addr ≡ some from))

  roam-Follows :
      (c d : Connection F) (from now : ℕ) (r : Result RecvError Received)
      → d.server ≡ c.server
      → d.remote_addr ≡ c.remote_addr
      → Follows c from (roam cipher d from now r, r)
  unfolding prune_sockets
  roam-Follows c d from now (ok (out_of_order x)) s a = inl a
  roam-Follows c d from now (err e) s a = inl a
  roam-Follows c d from now (ok (payload x)) s a = elim (Bool-cases d.server) [
    | inl server ↦ rw server (
        inr (
          sym s ∙ server,
          (x, refl),
          (prune_sockets_lem (record d { remote_addr = some from }) now).2,
        ))
    | inr client ↦ rw client (inl ((prune_sockets_lem d now).2 ∙ a))
  ]

  heard-Follows :
      (c : Connection F) (from now : ℕ) (m : Result CryptoError Message)
      → Follows c from (heard cipher fl c from now m)
  heard-Follows c from now (err e) = inl refl
  heard-Follows c from now (ok m) =
      roam-Follows c (record c { state = (process fl c.state m false now).0 }) from now
        (process fl c.state m false now).1 refl refl

  -- Receiving changes the remote address only at a server, only to the sender of the datagram that
  -- was received, and only if that was authentic and in order: not by a replay or a forgery.
  pub recv-remote_addr :
      (c : Connection F) (ready : List (Option (List ℕ × ℕ))) (now : ℕ)
      → ((recv cipher fl c ready now).0.remote_addr ≡ c.remote_addr)
        ⊎ ((c.server ≡ true)
            × ((x : List ℕ) × ((recv cipher fl c ready now).1 ≡ some (ok (payload x))))
            × ((d : List ℕ) × (from : ℕ) × (first_ready ready ≡ some (d, from))
                × ((recv cipher fl c ready now).0.remote_addr ≡ some from)))
  unfolding recv
  recv-remote_addr c ready now = elim (Option-cases (first_ready ready)) [
    | inl nothing ↦ rw nothing (inl refl)
    | inr ((d, from), some_d) ↦
        rw some_d (lift d from (heard-Follows c from now (decrypt cipher (take receive_mtu d))))
  ]
    where
      lift :
          (d : List ℕ) (from : ℕ)
          → Follows c from (heard cipher fl c from now (decrypt cipher (take receive_mtu d)))
          → let r = heard cipher fl c from now (decrypt cipher (take receive_mtu d)) in
            (r.0.remote_addr ≡ c.remote_addr)
            ⊎ ((c.server ≡ true)
                × ((x : List ℕ) × (◌≡◌ {A = Option (Result RecvError Received)}
                      (some r.1)
                      (some (ok (payload x)))))
                × ((d' : List ℕ) × (from' : ℕ) × (◌≡◌ {A = Option (List ℕ × ℕ)}
                      (some (d, from))
                      (some (d', from')))
                    × (r.0.remote_addr ≡ some from')))
      lift d from (inl same) = inl same
      lift d from (inr (server, (x, e), there)) =
          inr (server, (x, ap some e), (d, from, refl, there))
