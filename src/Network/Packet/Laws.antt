-- ===== src/Network/Packet/Laws.antt =====
-- A packet survives its message form; timestamps count modulo 2 ^ 16 and are never "none".
use rmosh.Prelude.{
  ℕ, ◌+◌, ◌%◌, ◌^◌, ◌<◌, ◌≡◌, ◌≢◌, refl, ◌∙◌, ◌⊎◌, false, List, ◌++◌, arith, ok, length,
  length-append, length-be_bytes, take, drop, take-append, drop-append, drop-drop, sym, ltb,
  if◌then◌else◌, test_bit, IsU16, be_bytes, from_be_bytes-be_bytes,
}
use rmosh.Crypto.Key.Laws.{from_wire-wire}
use rmosh.Network.Packet.{
  Packet, Direction, to_server, to_client, is_to_client, from_message, to_message, timestamp16,
  timestamp_diff, timestamp_none,
}

abbrev direction_seq : Packet → ℕ
direction_seq p = (if is_to_client p.direction then 2 ^ 63 else 0) + p.seq % 2 ^ 63

direction_seq_fields :
    (p : Packet)
    → (direction_seq p < 2 ^ 64)
      × (direction_seq p % 2 ^ 63 ≡ p.seq % 2 ^ 63)
      × ((if test_bit 63 (direction_seq p) then to_client else to_server) ≡ p.direction)
direction_seq_fields p = go p.direction
  where
    go :
        (d : Direction)
        → ((if is_to_client d then 2 ^ 63 else 0) + p.seq % 2 ^ 63 < 2 ^ 64)
          × (((if is_to_client d then 2 ^ 63 else 0) + p.seq % 2 ^ 63) % 2 ^ 63 ≡ p.seq % 2 ^ 63)
          × ((if test_bit 63 ((if is_to_client d then 2 ^ 63 else 0) + p.seq % 2 ^ 63)
                then to_client
                else to_server)
              ≡ d)
    go to_server = ground arith
    go to_client = ground arith

abbrev stamped : ℕ → ℕ → List ℕ → List ℕ
stamped ts reply payload = be_bytes 2 ts ++ (be_bytes 2 reply ++ payload)

stamped_fields :
    (ts reply : ℕ) (payload : List ℕ)
    → (take 2 (stamped ts reply payload) ≡ be_bytes 2 ts)
      × (take 2 (drop 2 (stamped ts reply payload)) ≡ be_bytes 2 reply)
      × (drop 4 (stamped ts reply payload) ≡ payload)
      × (ltb (length (stamped ts reply payload)) 4 ≡ false)
stamped_fields ts reply payload =
    let rest = drop-append 2 (be_bytes 2 ts) (be_bytes 2 reply ++ payload) (length-be_bytes 2 ts) in
    (
      take-append 2 (be_bytes 2 ts) (be_bytes 2 reply ++ payload) (length-be_bytes 2 ts),
      rw rest (take-append 2 (be_bytes 2 reply) payload (length-be_bytes 2 reply)),
      sym (drop-drop 2 2 (stamped ts reply payload))
          ∙ rw rest (drop-append 2 (be_bytes 2 reply) payload (length-be_bytes 2 reply)),
      ground (
        arith,
        length-append (be_bytes 2 ts) (be_bytes 2 reply ++ payload),
        length-append (be_bytes 2 reply) payload,
        length-be_bytes 2 ts,
        length-be_bytes 2 reply,
      ),
    )

-- A packet comes back from its message with its sequence number cut to 63 bits, so a high bit of
-- it is never taken for the direction.
pub from_message-to_message :
    (p : Packet)
    → IsU16 p.timestamp
    → IsU16 p.timestamp_reply
    → from_message (to_message p) ≡ ok (record p { seq = p.seq % 2 ^ 63 })
unfolding from_message to_message
from_message-to_message p ht hr =
    let (small, seq, dir) = direction_seq_fields p in
    let (first, second, rest, long) = stamped_fields p.timestamp p.timestamp_reply p.payload in
    let value = (from_wire-wire (direction_seq p) small).0 in
    rw
      (
        long,
        first,
        second,
        rest,
        value,
        from_be_bytes-be_bytes 2 p.timestamp (omega arith),
        from_be_bytes-be_bytes 2 p.timestamp_reply (omega arith),
        seq,
        dir,
      )
      refl

-- The clock's 16 bits are a u16 other than the value that means "none".
pub timestamp16-ne-none : (now : ℕ) → IsU16 (timestamp16 now) × (timestamp16 now ≢ timestamp_none)
unfolding timestamp16
timestamp16-ne-none now = ground arith

-- The difference of the stamps of two times less than 65535 ms apart is the time between them, to
-- within the one millisecond that leaving out "none" costs; wrap-around of the clock does not matter.
pub timestamp_diff-timestamp16 :
    (t d : ℕ)
    → d < 65535
    → (timestamp_diff (timestamp16 (t + d)) (timestamp16 t) ≡ d)
      ⊎ ((timestamp_diff (timestamp16 (t + d)) (timestamp16 t) ≡ d + 1)
          ⊎ (timestamp_diff (timestamp16 (t + d)) (timestamp16 t) + 1 ≡ d))
unfolding timestamp_diff timestamp16
timestamp_diff-timestamp16 t d h = ground arith
