-- ===== src/Tests/Endpoints.antt =====
-- Two connections, and a sender over one that keeps what it is given.
use rmosh.Prelude.{
  ℕ, ◌≡◌, ◌⊎◌, refl, Bool, true, false, Option, none, some, List, [], ◌∷◌, arith, ok, be_bytes,
}
use rmosh.Crypto.Key.{Message, next_value, new_nonce, wire}
use rmosh.Crypto.Session.{encrypt, seal_up}
use rmosh.Network.Packet.{to_server, to_client, to_message, timestamp16}
use rmosh.Network.Connection.State.{ConnectionState, payload, out_of_order, new_packet, process}
use rmosh.Network.Connection.{Connection, System, send, recv, first_ready}
use rmosh.Network.Connection.Exchange.{IsValid, process-new_packet}
use rmosh.Network.Connection.Replay.{run, process_replayed}
use rmosh.Network.Connection.Delivery.{recv-send}
use rmosh.Network.Connection.Roaming.{recv-remote_addr}
use rmosh.Tests.Libraries.{cipher, cipher-IsAead, floats}

abbrev fresh_state : Bool → ConnectionState ℕ
fresh_state server = record {
  server = server;
  direction = elim server [ true ↦ to_client | false ↦ to_server ];
  saved_timestamp = 65535;
  saved_timestamp_received_at = 0;
  expected_receiver_seq = 0;
  last_heard = 0;
  rtt_hit = false;
  srtt = 1000;
  rttvar = 500;
}

abbrev fresh_connection : Bool → Option ℕ → Connection ℕ
fresh_connection server remote_addr = record {
  socks = 3 ∷ [];
  remote_addr = remote_addr;
  server = server;
  mtu = 500;
  session = 0;
  state = fresh_state server;
  seq = 5;
  last_port_choice = 0;
  last_roundtrip_success = 0;
  send_error = none;
}

abbrev pub client_end : Connection ℕ
client_end = fresh_connection false (some 80)

abbrev pub server_end : Connection ℕ
server_end = fresh_connection true none

abbrev pub quiet : System
quiet = record { send_to_error = none; bound = none }

pub client_end-IsValid : IsValid (fresh_state false)
client_end-IsValid = record { away = refl; stamp = omega arith }

abbrev datagram : List ℕ
datagram =
    0 ∷ 0 ∷ 0 ∷ 0 ∷ 0 ∷ 0 ∷ 0 ∷ 5 ∷ 0 ∷ 7 ∷ 255 ∷ 255 ∷ 1 ∷ 2 ∷ 0 ∷ 0 ∷ 0 ∷ 0 ∷ 0 ∷ 0 ∷ 0 ∷ 0 ∷ 0
    ∷ 0 ∷ 0 ∷ 0 ∷ 0 ∷ 0 ∷ 0 ∷ 0 ∷ []

datagram_sent : (send cipher client_end quiet (1 ∷ 2 ∷ []) 7).1 ≡ ok (some datagram)
unfolding send encrypt seal_up next_value to_message new_packet new_nonce wire timestamp16 be_bytes
datagram_sent = refl

recv-send_example :
    ((recv cipher floats server_end (some (datagram, 99) ∷ []) 9).1
      ≡ some (ok (payload (1 ∷ 2 ∷ []))))
    × ((send cipher client_end quiet (1 ∷ 2 ∷ []) 7).0.seq ≡ 6)
recv-send_example =
    recv-send cipher floats cipher-IsAead client_end server_end quiet (1 ∷ 2 ∷ []) datagram 99 7 9
      client_end-IsValid (omega arith) refl (omega arith) datagram_sent (omega arith)

recv-remote_addr_example :
    ((recv cipher floats server_end (some (datagram, 99) ∷ []) 9).0.remote_addr ≡ none)
    ⊎ ((true ≡ true)
        × ((x : List ℕ) × ((recv cipher floats server_end (some (datagram, 99) ∷ []) 9).1
              ≡ some (ok (payload x))))
        × ((d : List ℕ) × (from : ℕ) × (first_ready (some (datagram, 99) ∷ []) ≡ some (d, from))
            × ((recv cipher floats server_end (some (datagram, 99) ∷ []) 9).0.remote_addr
                ≡ some from)))
recv-remote_addr_example = recv-remote_addr cipher floats server_end (some (datagram, 99) ∷ []) 9

abbrev old_message : Message
old_message = to_message (new_packet (fresh_state false) 4 (1 ∷ []) 7)

old_message_read : (process floats (fresh_state true) old_message false 9).1 ≡ ok (payload (1 ∷ []))
old_message_read =
    (process-new_packet floats (fresh_state false) (fresh_state true) 4 (1 ∷ []) 7 9 false
      client_end-IsValid (omega arith) refl (omega arith)).0

process_replayed_example :
    let s = (process floats (fresh_state true) old_message false 9).0 in
    let t = run floats s ((old_message, false, 10) ∷ []) in
    process floats t old_message true 20 ≡ (t, ok (out_of_order (1 ∷ [])))
process_replayed_example =
    process_replayed floats (fresh_state true) old_message false 9 (1 ∷ []) old_message_read
      ((old_message, false, 10) ∷ []) true 20
