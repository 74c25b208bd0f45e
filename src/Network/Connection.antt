-- ===== src/Network/Connection.antt =====
-- crates/mosh-network/src/connection.rs: replay rejection, timing and roaming. Sockets and addresses
-- are names; what the operating system answers is an argument.
pub mod State
pub mod Outcome
pub mod Replay
pub mod Exchange
pub mod Roaming
pub mod Delivery
use rmosh.Prelude.{
  ℕ, zero, suc, ◌+◌, ◌-◌, ◌*◌, ◌<◌, Bool, true, false, ◌&&◌, not, Option, none, some, List, [], ◌∷◌,
  ◌++◌, Result, ok, err, length, take, drop, ltb, ◌==◌, if◌then◌else◌, option_eq, min, max,
}
use rmosh.Crypto.Key.{CryptoError, Message, next_value}
use rmosh.Crypto.Session.{Cipher, encrypt, decrypt}
use rmosh.Network.Packet.{Packet, to_message}
use State.{
  ConnectionState, RecvError, undecryptable, Received, payload, out_of_order, Floats, new_packet,
  process,
}

-- SERVER_ASSOCIATION_TIMEOUT, PORT_HOP_INTERVAL, MAX_PORTS_OPEN, MAX_OLD_SOCKET_AGE and
-- DEFAULT_SEND_MTU.
abbrev pub server_association_timeout : ℕ
server_association_timeout = 40000

abbrev pub port_hop_interval : ℕ
port_hop_interval = 10000

abbrev pub max_ports_open : ℕ
max_ports_open = 10

abbrev pub max_old_socket_age : ℕ
max_old_socket_age = 60000

abbrev pub default_send_mtu : ℕ
default_send_mtu = 500

-- RECEIVE_MTU, the size of the buffer that a datagram is read into.
abbrev pub receive_mtu : ℕ
receive_mtu = 2048

-- libc_emsgsize
abbrev pub emsgsize : ℕ
emsgsize = 90

-- `session` is the count of blocks that the cipher has encrypted, and `send_error` the error code.
pub record Connection (F : Type 0) : Type 0 where
  pub socks : List ℕ
  pub remote_addr : Option ℕ
  pub server : Bool
  pub mtu : ℕ
  pub session : ℕ
  pub state : ConnectionState F
  pub seq : ℕ
  pub last_port_choice : ℕ
  pub last_roundtrip_success : ℕ
  pub send_error : Option ℕ

-- What the system does in one call of `send`: the error code of `send_to`, if it fails, and the
-- socket that `bind` opens, if it can.
pub record System : Type 0 where
  pub send_to_error : Option ℕ
  pub bound : Option ℕ

-- All but the last socket are dropped, or as many old ones as are too many.
abbrev pub last_only : List ℕ → List ℕ
last_only [] = []
last_only (s ∷ []) = s ∷ []
last_only (s ∷ t ∷ r) = last_only (t ∷ r)

abbrev pub newest : List ℕ → List ℕ
newest socks = drop (length socks - max_ports_open) socks

-- `recv_from` on each socket in turn: nothing, or a datagram and its sender.
abbrev pub first_ready : List (Option (List ℕ × ℕ)) → Option (List ℕ × ℕ)
first_ready [] = none
first_ready (none ∷ r) = first_ready r
first_ready (some d ∷ r) = some d

module _ {F : Type 0} where
  unfoldable pub prune_sockets : Connection F → ℕ → Connection F
  prune_sockets c now =
      let kept =
        if ltb 1 (length c.socks) && ltb max_old_socket_age (now - c.last_port_choice)
        then last_only c.socks
        else c.socks in
      record c { socks = newest kept }

  -- A port hop opens a socket; without a remote address, or if `bind` fails, nothing changes.
  unfoldable pub hop_port : Connection F → System → ℕ → Connection F
  hop_port c os now = elim c.remote_addr [
    | none ↦ c
    | some remote ↦ elim os.bound [
      | none ↦ c
      | some sock ↦
          prune_sockets (record c { socks = c.socks ++ sock ∷ []; last_port_choice = now }) now
    ]
  ]

  unfoldable pub housekeeping : Connection F → System → ℕ → Connection F
  housekeeping c os now =
      if c.server
      then (if ltb server_association_timeout (now - c.state.last_heard)
          then record c { remote_addr = none }
          else c)
      else if ltb port_hop_interval (now - c.last_port_choice)
          && ltb port_hop_interval (now - c.last_roundtrip_success)
      then hop_port c os now
      else c

  abbrev pub after_send : Connection F → System → Connection F
  after_send c os = elim os.send_to_error [
    | none ↦ record c { send_error = none }
    | some code ↦ record c {
      send_error = some code;
      mtu = if code == emsgsize then default_send_mtu else c.mtu;
    }
  ]

  module _ (cipher : Cipher) where
    abbrev pub transmit :
        Connection F
        → System
        → ℕ
        → ℕ
        → Result CryptoError (List ℕ)
        → Connection F × Result CryptoError (Option (List ℕ))
    transmit c os now blocks (err e) = (record c { session = blocks }, err e)
    transmit c os now blocks (ok datagram) =
        (housekeeping (after_send (record c { session = blocks }) os) os now, ok (some datagram))

    abbrev pub with_seq :
        Connection F
        → System
        → List ℕ
        → ℕ
        → ℕ
        → Result CryptoError ℕ
        → Connection F × Result CryptoError (Option (List ℕ))
    with_seq c os contents now counter (err e) = (record c { seq = counter }, err e)
    with_seq c os contents now counter (ok seq) =
        let sealed = encrypt cipher c.session (to_message (new_packet c.state seq contents now)) in
        transmit (record c { seq = counter }) os now sealed.0 sealed.1

    abbrev pub send_known :
        Connection F
        → System
        → List ℕ
        → ℕ
        → Option ℕ
        → Connection F × Result CryptoError (Option (List ℕ))
    send_known c os contents now none = (c, ok none)
    send_known c os contents now (some remote) =
        with_seq c os contents now (next_value c.seq).0 (next_value c.seq).1

    -- The state after the call, and the datagram handed to the system, if there was one.
    unfoldable pub send :
        Connection F → System → List ℕ → ℕ → Connection F × Result CryptoError (Option (List ℕ))
    send c os contents now = send_known c os contents now c.remote_addr

    -- Only the client may roam; the server follows it.
    abbrev pub roam : Connection F → ℕ → ℕ → Result RecvError Received → Connection F
    roam c from now (ok (payload p)) =
        prune_sockets (if c.server then record c { remote_addr = some from } else c) now
    roam c from now (ok (out_of_order p)) = c
    roam c from now (err e) = c

    module _ (fl : Floats F) where
      abbrev pub heard :
          Connection F
          → ℕ
          → ℕ
          → Result CryptoError Message
          → Connection F × Result RecvError Received
      heard c from now (err e) = (c, err undecryptable)
      heard c from now (ok m) =
          let done = process fl c.state m false now in
          (roam (record c { state = done.0 }) from now done.1, done.1)

      abbrev receive_from :
          Connection F → ℕ → Option (List ℕ × ℕ) → Connection F × Option (Result RecvError Received)
      receive_from c now none = (c, none)
      receive_from c now (some (datagram, from)) =
          let done = heard c from now (decrypt cipher (take receive_mtu datagram)) in
          (done.0, some done.1)

      unfoldable pub recv :
          Connection F
          → List (Option (List ℕ × ℕ))
          → ℕ
          → Connection F × Option (Result RecvError Received)
      recv c ready now = receive_from c now (first_ready ready)
