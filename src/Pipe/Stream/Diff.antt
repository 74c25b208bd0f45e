-- ===== src/Pipe/Stream/Diff.antt =====
-- The diffs of a pipe: what the peer makes of them.
use rmosh.Prelude.{
  ℕ, zero, suc, ◌/◌, ◌%◌, ◌^◌, ◌<◌, ◌≡◌, refl, sym, ap, ◌∙◌, inl, inr, true, ◌&&◌, Option, none,
  some, List, [], ◌∷◌, ◌++◌, append-nil, append_assoc, arith, length, length-append, drop,
  take-append, drop-append, le→ltb, min, Bool-cases,
}
use rmosh.Network.Transport.Advance.{advanced}
use rmosh.Pipe.Stream.{
  Stream, le_bytes, from_le_bytes, put, take_len, take_bytes, is_empty, is_none, end_bytes, new_end,
  write_diff, diff_from, or_end, read_end, apply_string, pipe_sync,
}

length-le_bytes : (k v : ℕ) → length (le_bytes k v) ≡ k
unfolding le_bytes
length-le_bytes zero v = refl
length-le_bytes (suc k) v = ap suc (length-le_bytes k (v / 256))

from_le_bytes-le_bytes : (k v : ℕ) → v < 256 ^ k → from_le_bytes (le_bytes k v) ≡ v
unfolding le_bytes from_le_bytes
from_le_bytes-le_bytes zero v h = omega arith
from_le_bytes-le_bytes (suc k) v h = omega (arith, from_le_bytes-le_bytes k (v / 256) (omega arith))

take_len-append : (x rest : List ℕ) (n : ℕ) → length x ≡ n → take_len (x ++ rest) n ≡ some (x, rest)
unfolding take_len
take_len-append x rest n h =
    rw
      (
        le→ltb (length (x ++ rest)) n (omega (arith, length-append x rest)),
        take-append n x rest h,
        drop-append n x rest h,
      )
      refl

-- A string that was put is the one that is taken.
take_bytes-put :
    (x rest : List ℕ)
    → length x < 2 ^ 32
    → take_bytes ((le_bytes 4 (length x % 2 ^ 32) ++ x) ++ rest) ≡ some (x, rest)
unfolding take_bytes
take_bytes-put x rest h =
    let size : from_le_bytes (le_bytes 4 (length x % 2 ^ 32)) ≡ length x =
      from_le_bytes-le_bytes 4 (length x % 2 ^ 32) (omega arith) ∙ omega arith in
    rw
      (
        append_assoc (le_bytes 4 (length x % 2 ^ 32)) x rest,
        take_len-append (le_bytes 4 (length x % 2 ^ 32)) (x ++ rest) 4
            (length-le_bytes 4 (length x % 2 ^ 32)),
        size,
      )
      (take_len-append x rest (length x) refl)

-- An exit status is an i32.
abbrev pub IsI32 : Option ℕ → Type 0
IsI32 none = Unit {0}
IsI32 (some code) = code < 2 ^ 32

-- What a stream becomes that is told of more output, more errors and an end.
abbrev pub grown : Stream → List ℕ → List ℕ → Option ℕ → Stream
grown s out err end = record { out = s.out ++ out; err = s.err ++ err; end = or_end s.end end }

read_end-end_bytes :
    (s : Stream) (out err : List ℕ) (end : Option ℕ)
    → IsI32 end
    → read_end s out err (end_bytes end) ≡ some (grown s out err end)
read_end-end_bytes s out err none h = refl
read_end-end_bytes s out err (some code) h =
    rw (length-le_bytes 4 code, from_le_bytes-le_bytes 4 code (omega arith)) refl

apply_string-put :
    (s : Stream) (out err : List ℕ) (end : Option ℕ)
    → length out < 2 ^ 32
    → length err < 2 ^ 32
    → IsI32 end
    → apply_string s (put (put [] out) err ++ end_bytes end) ≡ some (grown s out err end)
unfolding apply_string
apply_string-put s out err end ho he hend =
    let first = le_bytes 4 (length out % 2 ^ 32) ++ out in
    let second = le_bytes 4 (length err % 2 ^ 32) ++ err in
    rw
      (
        append_assoc first second (end_bytes end),
        take_bytes-put out (second ++ end_bytes end) ho,
        take_bytes-put err (end_bytes end) he,
      )
      (read_end-end_bytes s out err end hend)

advanced-apply_string :
    (s : Stream) (diff : List ℕ) → 0 < length diff → advanced pipe_sync s diff ≡ apply_string s diff
advanced-apply_string s [] h = absurd (omega arith)
advanced-apply_string s (b ∷ bs) h = refl

length-put :
    (out err : List ℕ) (end : Option ℕ) → 0 < length (put (put [] out) err ++ end_bytes end)
length-put out err end =
    let first = le_bytes 4 (length out % 2 ^ 32) ++ out in
    let second = le_bytes 4 (length err % 2 ^ 32) ++ err in
    omega (
      arith,
      length-append (first ++ second) (end_bytes end),
      length-append first second,
      length-append (le_bytes 4 (length out % 2 ^ 32)) out,
      length-le_bytes 4 (length out % 2 ^ 32),
    )

grown_by_nothing :
    (s : Stream) (out err : List ℕ) (end : Option ℕ)
    → (is_empty out && (is_empty err && is_none end)) ≡ true
    → grown s out err end ≡ s
grown_by_nothing s (b ∷ bs) err end h = cc
grown_by_nothing s [] (b ∷ bs) end h = cc
grown_by_nothing s [] [] (some code) h = cc
grown_by_nothing s [] [] none h = rw (append-nil s.out, append-nil s.err) (same s.end)
  where
    same : (end : Option ℕ) → record s { end = or_end end none } ≡ record s { end = end }
    same none = refl
    same (some code) = refl

advanced-write_diff :
    (s : Stream) (out err : List ℕ) (end : Option ℕ)
    → length out < 2 ^ 32
    → length err < 2 ^ 32
    → IsI32 end
    → advanced pipe_sync s (write_diff out err end) ≡ some (grown s out err end)
advanced-write_diff s out err end ho he hend =
    elim (Bool-cases (is_empty out && (is_empty err && is_none end))) [
      | inl nothing ↦ rw nothing (ap some (sym (grown_by_nothing s out err end nothing)))
      | inr something ↦ rw something (
          advanced-apply_string s (put (put [] out) err ++ end_bytes end) (length-put out err end)
          ∙ apply_string-put s out err end ho he hend)
    ]

drop-min : (xs ys : List ℕ) → drop (min (length xs) (length (xs ++ ys))) (xs ++ ys) ≡ ys
drop-min xs ys =
    ap (λ n. drop n (xs ++ ys)) (omega (arith, length-append xs ys))
    ∙ drop-append (length xs) xs ys refl

new_end-or_end : (end old : Option ℕ) → new_end (or_end old end) old ≡ new_end end old
new_end-or_end end none = refl
new_end-or_end end (some c) = refl

new_end-IsI32 : (end old : Option ℕ) → IsI32 end → IsI32 (new_end end old)
new_end-IsI32 end none h = h
new_end-IsI32 end (some c) h = tt

-- The diff of a pipe from one state to a later one, applied to whatever state the peer holds, adds
-- just the output and the errors that are new, and the end if the earlier state had none. What is
-- new is shorter than 2 ^ 32 bytes, and the exit status is an i32.
pub advanced-pipe_sync :
    (held base : Stream) (out err : List ℕ) (end : Option ℕ)
    → length out < 2 ^ 32
    → length err < 2 ^ 32
    → IsI32 end
    → advanced pipe_sync held (
        diff_from
          (record { out = base.out ++ out; err = base.err ++ err; end = or_end base.end end })
          base)
      ≡ some (grown held out err (new_end end base.end))
unfolding diff_from
advanced-pipe_sync held base out err end ho he hend =
    let new = new_end end base.end in
    let e = new_end (or_end base.end end) base.end in
    let o = drop (min (length base.out) (length (base.out ++ out))) (base.out ++ out) in
    let f = drop (min (length base.err) (length (base.err ++ err))) (base.err ++ err) in
    let written : write_diff o f e ≡ write_diff out err new =
      ap (λ x. write_diff x f e) (drop-min base.out out)
      ∙ ap (λ x. write_diff out x e) (drop-min base.err err)
      ∙ ap (λ x. write_diff out err x) (new_end-or_end end base.end) in
    ap (λ d. advanced pipe_sync held d) written
    ∙ advanced-write_diff held out err new ho he (new_end-IsI32 end base.end hend)
