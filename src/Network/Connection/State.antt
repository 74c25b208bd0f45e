-- ===== src/Network/Connection/State.antt =====
-- `ConnectionState` of connection.rs: the protocol state apart from any socket.
use rmosh.Prelude.{
  ℕ, ◌-◌, Bool, true, false, not, List, Result, ok, err, ltb, ◌==◌, if◌then◌else◌, wrapping_add,
  wrapping_sub, min, max,
}
use rmosh.Crypto.Key.{CryptoError, Message}
use rmosh.Network.Packet.{
  Packet, Direction, to_server, to_client, is_to_client, from_message, timestamp16, timestamp_diff,
  timestamp_none,
}

-- The f64 operations of the code; `ceil_u64 x` is `(x.ceil() as i64).max(0) as u64`.
pub record Floats (F : Type 0) : Type 0 where
  pub of_u64 : ℕ → F
  pub add : F → F → F
  pub sub : F → F → F
  pub mul : F → F → F
  pub div : F → F → F
  pub abs : F → F
  pub lt : F → F → Bool
  pub ceil_u64 : F → ℕ

-- MIN_RTO, MAX_RTO and CONGESTION_TIMESTAMP_PENALTY.
abbrev pub min_rto : ℕ
min_rto = 50

abbrev pub max_rto : ℕ
max_rto = 1000

abbrev pub congestion_timestamp_penalty : ℕ
congestion_timestamp_penalty = 500

pub data Received : Type 0 where
  payload out_of_order : List ℕ → Received

unfoldable pub into_payload : Received → List ℕ
into_payload (payload p) = p
into_payload (out_of_order p) = p

pub data RecvError : Type 0 where
  undecryptable wrong_direction : RecvError

pub record ConnectionState (F : Type 0) : Type 0 where
  pub server : Bool
  pub direction : Direction
  pub saved_timestamp : ℕ
  pub saved_timestamp_received_at : ℕ
  pub expected_receiver_seq : ℕ
  pub last_heard : ℕ
  pub rtt_hit : Bool
  pub srtt : F
  pub rttvar : F

unfoldable pub same_direction : Direction → Direction → Bool
same_direction a b = if is_to_client a then is_to_client b else not (is_to_client b)

-- The direction that an end accepts.
unfoldable pub accepted : Bool → Direction
accepted server = if server then to_server else to_client

module _ {F : Type 0} where
  unfoldable pub new_packet : ConnectionState F → ℕ → List ℕ → ℕ → Packet
  new_packet s seq contents now = record {
    seq = seq;
    direction = s.direction;
    timestamp = timestamp16 now;
    timestamp_reply =
        if ltb (now - s.saved_timestamp_received_at) 1000
        then s.saved_timestamp
        else timestamp_none;
    payload = contents;
  }

  -- The packet's timestamp is kept, later by the penalty if the network is congested.
  unfoldable pub save_timestamp : ConnectionState F → Packet → Bool → ℕ → ConnectionState F
  save_timestamp s p congested now = if p.timestamp == timestamp_none then s else record s {
    saved_timestamp =
        if congested then wrapping_sub 16 p.timestamp congestion_timestamp_penalty else p.timestamp;
    saved_timestamp_received_at = now;
  }

  module _ (fl : Floats F) where
    -- ConnectionState::new
    unfoldable pub new_state : Bool → ℕ → ConnectionState F
    new_state server now = record {
      server = server;
      direction = if server then to_client else to_server;
      saved_timestamp = timestamp_none;
      saved_timestamp_received_at = 0;
      expected_receiver_seq = 0;
      last_heard = now;
      rtt_hit = false;
      srtt = fl.of_u64 1000;
      rttvar = fl.of_u64 500;
    }

    abbrev pub smooth : ConnectionState F → F → ConnectionState F
    smooth s r =
        let alpha = fl.div (fl.of_u64 1) (fl.of_u64 8) in
        let beta = fl.div (fl.of_u64 1) (fl.of_u64 4) in
        let one = fl.of_u64 1 in
        if s.rtt_hit
        then record s {
          rttvar =
              fl.add (fl.mul (fl.sub one beta) s.rttvar) (fl.mul beta (fl.abs (fl.sub s.srtt r)));
          srtt = fl.add (fl.mul (fl.sub one alpha) s.srtt) (fl.mul alpha r);
        }
        else record s { srtt = r; rttvar = fl.div r (fl.of_u64 2); rtt_hit = true }

    -- A reply is a sample of the round trip, unless it is implausible.
    unfoldable pub sample_rtt : ConnectionState F → Packet → ℕ → ConnectionState F
    sample_rtt s p now =
        let r = fl.of_u64 (timestamp_diff (timestamp16 now) p.timestamp_reply) in
        if p.timestamp_reply == timestamp_none
        then s
        else if fl.lt r (fl.of_u64 5000)
        then smooth s r
        else s

    -- The branches of `process`: a packet out of order, one in order, and one that was read.
    abbrev pub accept :
        ConnectionState F → Packet → Bool → ℕ → ConnectionState F × Result RecvError Received
    accept s p congested now =
        let ordered : ConnectionState F = record s {
          expected_receiver_seq = wrapping_add 64 p.seq 1;
        } in
        let timed = sample_rtt (save_timestamp ordered p congested now) p now in
        (record timed { last_heard = now }, ok (payload p.payload))

    abbrev pub process_packet :
        ConnectionState F → Packet → Bool → ℕ → ConnectionState F × Result RecvError Received
    process_packet s p congested now =
        if not (same_direction p.direction (accepted s.server))
        then (s, err wrong_direction)
        else if ltb p.seq s.expected_receiver_seq
        then (s, ok (out_of_order p.payload))
        else accept s p congested now

    abbrev process_read :
        ConnectionState F
        → Bool
        → ℕ
        → Result CryptoError Packet
        → ConnectionState F × Result RecvError Received
    process_read s congested now (err e) = (s, err undecryptable)
    process_read s congested now (ok p) = process_packet s p congested now

    unfoldable pub process :
        ConnectionState F → Message → Bool → ℕ → ConnectionState F × Result RecvError Received
    process s m congested now = process_read s congested now (from_message m)

    unfoldable pub timeout : ConnectionState F → ℕ
    timeout s =
        min (max (fl.ceil_u64 (fl.add s.srtt (fl.mul (fl.of_u64 4) s.rttvar))) min_rto) max_rto
