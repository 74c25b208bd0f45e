-- ===== src/Pipe/Stream.antt =====
-- crates/mosh-pipe/src/stream.rs: one direction of a pipe as a state to synchronise.
pub mod Diff
use rmosh.Prelude.{
  ℕ, zero, suc, ◌+◌, ◌*◌, ◌/◌, ◌%◌, ◌^◌, Bool, true, false, ◌&&◌, Option, none, some, List, [], ◌∷◌,
  ◌++◌, length, take, drop, ltb, ◌==◌, if◌then◌else◌, option_eq, min,
}
use rmosh.Network.Fragmenter.{bytes_eq}
use rmosh.Network.Sync.{SyncState}

-- The exit status is an i32, as the number of its bits.
pub record Stream : Type 0 where
  pub out : List ℕ
  pub err : List ℕ
  pub end : Option ℕ

abbrev pub backlog : Stream → ℕ
backlog s = length s.out + length s.err

-- `to_le_bytes` and `from_le_bytes`.
unfoldable pub le_bytes : ℕ → ℕ → List ℕ
le_bytes zero v = []
le_bytes (suc k) v = v % 256 ∷ le_bytes k (v / 256)

unfoldable pub from_le_bytes : List ℕ → ℕ
from_le_bytes [] = 0
from_le_bytes (b ∷ bs) = b + 256 * from_le_bytes bs

abbrev pub put : List ℕ → List ℕ → List ℕ
put diff bytes = diff ++ (le_bytes 4 (length bytes % 2 ^ 32) ++ bytes)

-- What is taken and what is left; none is the error.
unfoldable pub take_len : List ℕ → ℕ → Option (List ℕ × List ℕ)
take_len diff len = if ltb (length diff) len then none else some (take len diff, drop len diff)

abbrev pub take_body : Option (List ℕ × List ℕ) → Option (List ℕ × List ℕ)
take_body none = none
take_body (some (len, rest)) = take_len rest (from_le_bytes len)

unfoldable pub take_bytes : List ℕ → Option (List ℕ × List ℕ)
take_bytes diff = take_body (take_len diff 4)

abbrev pub starts_with : List ℕ → List ℕ → Bool
starts_with xs [] = true
starts_with [] (p ∷ ps) = false
starts_with (x ∷ xs) (p ∷ ps) = x == p && starts_with xs ps

abbrev pub drop_prefix : List ℕ → List ℕ → List ℕ
drop_prefix xs prefix = if starts_with xs prefix then drop (length prefix) xs else xs

unfoldable pub subtract : Stream → Stream → Stream
subtract s prefix = record s {
  out = drop_prefix s.out prefix.out;
  err = drop_prefix s.err prefix.err;
}

abbrev pub is_empty : List ℕ → Bool
is_empty [] = true
is_empty (b ∷ bs) = false

abbrev pub is_none : Option ℕ → Bool
is_none none = true
is_none (some c) = false

abbrev pub end_bytes : Option ℕ → List ℕ
end_bytes none = []
end_bytes (some code) = le_bytes 4 code

abbrev pub new_end : Option ℕ → Option ℕ → Option ℕ
new_end end none = end
new_end end (some c) = none

abbrev pub write_diff : List ℕ → List ℕ → Option ℕ → List ℕ
write_diff out err end =
    if is_empty out && (is_empty err && is_none end)
    then []
    else put (put [] out) err ++ end_bytes end

unfoldable pub diff_from : Stream → Stream → List ℕ
diff_from s existing =
    write_diff (drop (min (length existing.out) (length s.out)) s.out)
      (drop (min (length existing.err) (length s.err)) s.err) (new_end s.end existing.end)

unfoldable pub init_diff : Stream → List ℕ
init_diff s = diff_from s (record { out = []; err = []; end = none })

-- `self.end.or(end)`
abbrev pub or_end : Option ℕ → Option ℕ → Option ℕ
or_end none end = end
or_end (some c) end = some c

abbrev pub read_end : Stream → List ℕ → List ℕ → List ℕ → Option Stream
read_end s out err rest =
    if length rest == 0
    then some (record { out = s.out ++ out; err = s.err ++ err; end = or_end s.end none })
    else if length rest == 4
    then some (record {
      out = s.out ++ out;
      err = s.err ++ err;
      end = or_end s.end (some (from_le_bytes rest));
    })
    else none

abbrev pub read_err : Stream → List ℕ → Option (List ℕ × List ℕ) → Option Stream
read_err s out none = none
read_err s out (some (err, rest)) = read_end s out err rest

abbrev pub read_out : Stream → Option (List ℕ × List ℕ) → Option Stream
read_out s none = none
read_out s (some (out, rest)) = read_err s out (take_bytes rest)

unfoldable pub apply_string : Stream → List ℕ → Option Stream
apply_string s diff = read_out s (take_bytes diff)

-- `==` of two streams.
abbrev pub stream_eq : Stream → Stream → Bool
stream_eq a b = bytes_eq a.out b.out && (bytes_eq a.err b.err && option_eq a.end b.end)

abbrev pub pipe_sync : SyncState Stream
pipe_sync = record {
  subtract = subtract;
  diff_from = diff_from;
  init_diff = init_diff;
  apply_string = apply_string;
  reset_input = λ s. s;
  eq = stream_eq;
}
