-- ===== src/Tests/Datagram.antt =====
-- One instruction in one datagram, from a client's connection to a server's transport.
use rmosh.Prelude.{◌≡◌, refl, true, ℕ, some, none, List, [], ◌∷◌, ok, arith, be_bytes}
use rmosh.Crypto.Key.{next_value, new_nonce, wire}
use rmosh.Crypto.Session.{encrypt, seal_up}
use rmosh.Network.Compressor.{compress}
use rmosh.Network.Packet.{to_message, timestamp16}
use rmosh.Network.Fragment.{Fragment, to_bytes}
use rmosh.Network.Fragmenter.{make_fragments, changed, split, take_instruction}
use rmosh.Network.Assembly.{FragmentAssembly}
use rmosh.Network.Connection.{send, recv}
use rmosh.Network.Connection.State.{new_packet}
use rmosh.Network.Transport.{apply_instruction, recv_datagram, some_result}
use rmosh.Network.Transport.Datagram.{recv_datagram-send}
use rmosh.State.User.{user_sync}
use rmosh.Tests.Libraries.{libraries, libraries-IsLossless, cipher, cipher-IsAead, floats}
use rmosh.Tests.UserCodec.{user_codec}
use rmosh.Tests.Fragments.{inst, fragmenter}
use rmosh.Tests.Endpoints.{client_end, client_end-IsValid, quiet}
use rmosh.Tests.States.{server}

abbrev whole : Fragment
whole = record {
  id = 1;
  fragment_num = 0;
  final_fragment = true;
  contents = 120 ∷ 3 ∷ 1 ∷ 2 ∷ 1 ∷ 1 ∷ 4 ∷ 9 ∷ 8 ∷ 7 ∷ 1 ∷ [];
}

abbrev whole_bytes : List ℕ
whole_bytes =
    0 ∷ 0 ∷ 0 ∷ 0 ∷ 0 ∷ 0 ∷ 0 ∷ 1 ∷ 128 ∷ 0 ∷ 120 ∷ 3 ∷ 1 ∷ 2 ∷ 1 ∷ 1 ∷ 4 ∷ 9 ∷ 8 ∷ 7 ∷ 1 ∷ []

abbrev whole_datagram : List ℕ
whole_datagram =
    0 ∷ 0 ∷ 0 ∷ 0 ∷ 0 ∷ 0 ∷ 0 ∷ 5 ∷ 0 ∷ 7 ∷ 255 ∷ 255 ∷ 0 ∷ 0 ∷ 0 ∷ 0 ∷ 0 ∷ 0 ∷ 0 ∷ 1 ∷ 128 ∷ 0
    ∷ 120 ∷ 3 ∷ 1 ∷ 2 ∷ 1 ∷ 1 ∷ 4 ∷ 9 ∷ 8 ∷ 7 ∷ 1 ∷ 0 ∷ 0 ∷ 0 ∷ 0 ∷ 0 ∷ 0 ∷ 0 ∷ 0 ∷ 0 ∷ 0 ∷ 0 ∷ 0
    ∷ 0 ∷ 0 ∷ 0 ∷ 0 ∷ []

whole_made : (make_fragments libraries fragmenter inst 500).1 ≡ ok (whole ∷ [])
unfolding make_fragments compress split take_instruction changed
whole_made = refl

whole_rendered : to_bytes whole ≡ ok whole_bytes
unfolding to_bytes be_bytes
whole_rendered = refl

whole_sent : (send cipher client_end quiet whole_bytes 7).1 ≡ ok (some whole_datagram)
unfolding send encrypt seal_up next_value to_message new_packet new_nonce wire timestamp16 be_bytes
whole_sent = refl

recv_datagram-send_example :
    let received = recv cipher floats server.connection (some (whole_datagram, 99) ∷ []) 9 in
    (a : FragmentAssembly) × (a.fragments ≡ [])
    × (a.bytes_held ≡ 0)
    × (a.fragments_total ≡ none)
    × (recv_datagram
          (user_sync user_codec)
          libraries
          cipher
          floats
          server
          (some (whole_datagram, 99) ∷ [])
          9
        ≡ some_result (user_sync user_codec) libraries (
            apply_instruction
              (user_sync user_codec)
              (record server { connection = received.0; fragments = a })
              inst
              9))
recv_datagram-send_example =
    recv_datagram-send (user_sync user_codec) libraries cipher floats cipher-IsAead
      libraries-IsLossless client_end server quiet fragmenter inst 500 whole whole_bytes
      whole_datagram 99 7 9 client_end-IsValid (omega arith) refl (omega arith) whole_made
      (omega arith) whole_rendered (omega arith) (omega arith) refl whole_sent (omega arith)
