-- ===== src/Network/Packet.antt =====
-- crates/mosh-network/src/packet.rs: the payload of a datagram, beneath the encryption.
pub mod Laws
use rmosh.Prelude.{
  ℕ, ◌+◌, ◌-◌, ◌*◌, ◌%◌, ◌^◌, Bool, true, false, Option, none, some, List, [], ◌∷◌, ◌++◌, Result,
  ok, err, length, take, drop, ltb, ◌==◌, if◌then◌else◌, test_bit, low_bits, wrapping_add,
  wrapping_sub, be_bytes, from_be_bytes,
}
use rmosh.Crypto.Key.{CryptoError, too_short, Message, new_nonce, val}

-- MOSH_PROTOCOL_VERSION, ADDED_BYTES and TIMESTAMP_NONE.
abbrev pub mosh_protocol_version : ℕ
mosh_protocol_version = 2

abbrev pub added_bytes : ℕ
added_bytes = 8 + 4

abbrev pub timestamp_none : ℕ
timestamp_none = 2 ^ 16 - 1

pub data Direction : Type 0 where
  to_server to_client : Direction

abbrev pub is_to_client : Direction → Bool
is_to_client to_server = false
is_to_client to_client = true

pub record Packet : Type 0 where
  pub seq : ℕ
  pub direction : Direction
  pub timestamp : ℕ
  pub timestamp_reply : ℕ
  pub payload : List ℕ

-- DIRECTION_MASK is bit 63, and SEQUENCE_MASK the 63 bits below it.
abbrev direction_bit : ℕ
direction_bit = 63

unfoldable pub from_message : Message → Result CryptoError Packet
from_message m =
    if ltb (length m.text) 4
    then err too_short
    else ok (record {
      seq = low_bits direction_bit (val m.nonce);
      direction = if test_bit direction_bit (val m.nonce) then to_client else to_server;
      timestamp = from_be_bytes (take 2 m.text);
      timestamp_reply = from_be_bytes (take 2 (drop 2 m.text));
      payload = drop 4 m.text;
    })

-- The direction's bit is shifted to the top, and the 63 bits of the sequence number join it.
unfoldable pub to_message : Packet → Message
to_message p =
    let direction_seq =
      (if is_to_client p.direction then 2 ^ 63 else 0) + low_bits direction_bit p.seq in
    record {
      nonce = new_nonce direction_seq;
      text = be_bytes 2 p.timestamp ++ (be_bytes 2 p.timestamp_reply ++ p.payload);
    }

-- `(now % 65536) as u16`, and `wrapping_add(1)` of the value that means "none".
unfoldable pub timestamp16 : ℕ → ℕ
timestamp16 now = let ts = now % 65536 in if ts == timestamp_none then wrapping_add 16 ts 1 else ts

unfoldable pub timestamp_diff : ℕ → ℕ → ℕ
timestamp_diff tsnew tsold = wrapping_sub 16 tsnew tsold
