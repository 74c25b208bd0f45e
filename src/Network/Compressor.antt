-- ===== src/Network/Compressor.antt =====
-- crates/mosh-network/src/compressor.rs, and the two libraries under it: flate2 and prost.
use rmosh.Prelude.{
  ℕ, ◌+◌, ◌*◌, ◌≤◌, ◌≡◌, refl, Option, none, some, List, [], ◌∷◌, Result, ok, err, length, take,
  take_all, ltb, le→ltb, arith, if◌then◌else◌,
}

-- BUFFER_SIZE
abbrev pub buffer_size : ℕ
buffer_size = 2048 * 2048

pub data CompressError : Type 0 where
  malformed too_large : CompressError

-- The generated message of proto/transportinstruction.proto. Bytes and numbers are optional.
pub record Instruction : Type 0 where
  pub protocol_version : Option ℕ
  pub old_num : Option ℕ
  pub new_num : Option ℕ
  pub ack_num : Option ℕ
  pub throwaway_num : Option ℕ
  pub diff : Option (List ℕ)
  pub chaff : Option (List ℕ)

-- What the crates flate2 and prost do. `inflate n` reads a zlib stream and stops after n bytes
-- of its contents, as a decoder behind `take(n)` does; `none` is an error of the decoder.
pub record Libraries : Type 0 where
  pub deflate : List ℕ → List ℕ
  pub inflate : ℕ → List ℕ → Option (List ℕ)
  pub encode_to_vec : Instruction → List ℕ
  pub decode : List ℕ → Option Instruction

-- What their documentation promises: a decoder reads back what the encoder wrote, and a
-- zlib stream is never empty (it has a header and a checksum).
pub record IsLossless (lib : Libraries) : Type 0 where
  pub inflate-deflate : (n : ℕ) (x : List ℕ) → lib.inflate n (lib.deflate x) ≡ some (take n x)
  pub deflate_nonempty : (x : List ℕ) → 1 ≤ length (lib.deflate x)
  pub decode-encode : (i : Instruction) → lib.decode (lib.encode_to_vec i) ≡ some i

within_buffer : List ℕ → Result CompressError (List ℕ)
within_buffer out = if ltb buffer_size (length out) then err too_large else ok out

inflated : Option (List ℕ) → Result CompressError (List ℕ)
unfolding within_buffer
inflated none = err malformed
inflated (some out) = within_buffer out

module _ (lib : Libraries) where
  -- The encoder reads from memory and writes to memory, so it does not fail.
  unfoldable pub compress : List ℕ → Result CompressError (List ℕ)
  compress input = ok (lib.deflate input)

  unfoldable pub uncompress : List ℕ → Result CompressError (List ℕ)
  unfolding inflated
  uncompress [] = err malformed
  uncompress (b ∷ bs) = inflated (lib.inflate (buffer_size + 1) (b ∷ bs))

  -- Contents that fit the buffer come back whole.
  pub uncompress-deflate :
      IsLossless lib → (x : List ℕ) → length x ≤ buffer_size → uncompress (lib.deflate x) ≡ ok x
  unfolding uncompress
  uncompress-deflate l x h =
      go (lib.deflate x) (l.inflate-deflate (buffer_size + 1) x) (l.deflate_nonempty x)
    where
      go :
          (z : List ℕ)
          → lib.inflate (buffer_size + 1) z ≡ some (take (buffer_size + 1) x)
          → 1 ≤ length z
          → uncompress z ≡ ok x
      go [] e n = absurd (omega arith)
      go (b ∷ bs) e n =
          rw (e, take_all (buffer_size + 1) x (omega arith), le→ltb buffer_size (length x) h) refl

  -- Nothing longer than the buffer is ever handed on.
  pub uncompress-le : (z out : List ℕ) → uncompress z ≡ ok out → length out ≤ buffer_size
  unfolding uncompress
  uncompress-le [] out e = cc
  uncompress-le (b ∷ bs) out e = ground arith
