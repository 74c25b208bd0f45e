-- ===== src/Network/Fragment/Wire.antt =====
-- The wire form of one fragment: `to_bytes` and `from_bytes` undo one another.
use rmosh.Prelude.{
  ℕ, ◌+◌, ◌^◌, ◌<◌, ◌≡◌, refl, sym, subst, ap, ◌∙◌, List, ◌++◌, arith, ok, err, length,
  length-append, length-take, length-drop, take, drop, All, take-append, drop-append, All-take,
  take-append-drop, drop-drop, test_bit, IsByte, IsU64, be_bytes, from_be_bytes, length-be_bytes,
  from_be_bytes-be_bytes, be_bytes-from_be_bytes, from_be_bytes-lt, All-drop, low_bits, ltb, ltb→le,
  if◌then◌else◌, Bool-cases, inl, inr, ◌>>=◌,
}
use rmosh.Network.Fragment.{Fragment, too_short, to_bytes, from_bytes, final_bit}

abbrev header : ℕ → ℕ → List ℕ → List ℕ
header id combined contents = be_bytes 8 id ++ (be_bytes 2 combined ++ contents)

header_id :
    (id combined : ℕ) (contents : List ℕ) → take 8 (header id combined contents) ≡ be_bytes 8 id
header_id id combined contents =
    take-append 8 (be_bytes 8 id) (be_bytes 2 combined ++ contents) (length-be_bytes 8 id)

header_tail :
    (id combined : ℕ) (contents : List ℕ)
    → drop 8 (header id combined contents) ≡ be_bytes 2 combined ++ contents
header_tail id combined contents =
    drop-append 8 (be_bytes 8 id) (be_bytes 2 combined ++ contents) (length-be_bytes 8 id)

header_num :
    (id combined : ℕ) (contents : List ℕ)
    → take 2 (drop 8 (header id combined contents)) ≡ be_bytes 2 combined
header_num id combined contents =
    rw (header_tail id combined contents)
      (take-append 2 (be_bytes 2 combined) contents (length-be_bytes 2 combined))

header_contents :
    (id combined : ℕ) (contents : List ℕ) → drop 10 (header id combined contents) ≡ contents
header_contents id combined contents =
    sym (drop-drop 2 8 (header id combined contents))
    ∙ rw (header_tail id combined contents)
        (drop-append 2 (be_bytes 2 combined) contents (length-be_bytes 2 combined))

length-header :
    (id combined : ℕ) (contents : List ℕ)
    → length (header id combined contents) ≡ 10 + length contents
length-header id combined contents = omega (
  arith,
  length-append (be_bytes 8 id) (be_bytes 2 combined ++ contents),
  length-append (be_bytes 2 combined) contents,
  length-be_bytes 8 id,
  length-be_bytes 2 combined,
)

-- What `from_bytes` reads from a header and contents that follow it.
from_bytes-header :
    (id combined : ℕ) (contents : List ℕ)
    → IsU64 id
    → combined < 2 ^ 16
    → from_bytes (header id combined contents)
      ≡ ok (record {
        id = id;
        fragment_num = low_bits final_bit combined;
        final_fragment = test_bit final_bit combined;
        contents = contents;
      })
unfolding from_bytes
from_bytes-header id combined contents hid hc =
    rw
      (
        header_num id combined contents,
        header_id id combined contents,
        header_contents id combined contents,
        from_be_bytes-be_bytes 8 id (omega arith),
        from_be_bytes-be_bytes 2 combined (omega arith),
      )
      (ground (arith, length-header id combined contents))

abbrev combined_num : Fragment → ℕ
combined_num f = if f.final_fragment then f.fragment_num + 2 ^ 15 else f.fragment_num

to_bytes-header :
    (f : Fragment)
    → f.fragment_num < 2 ^ 15
    → to_bytes f ≡ ok (header f.id (combined_num f) f.contents)
unfolding to_bytes
to_bytes-header f h = ground arith

combined_parts :
    (f : Fragment)
    → f.fragment_num < 2 ^ 15
    → (combined_num f < 2 ^ 16)
      × (low_bits final_bit (combined_num f) ≡ f.fragment_num)
      × (test_bit final_bit (combined_num f) ≡ f.final_fragment)
combined_parts f h = ground arith

-- A fragment whose id is a u64 and whose number fits 15 bits has a wire form, and reading that form
-- gives the fragment back.
pub from_bytes-to_bytes :
    (f : Fragment) → IsU64 f.id → f.fragment_num < 2 ^ 15 → (to_bytes f >>= from_bytes) ≡ ok f
from_bytes-to_bytes f hid hn =
    let (small, num, last) = combined_parts f hn in
    rw (to_bytes-header f hn)
      (from_bytes-header f.id (combined_num f) f.contents hid small ∙ rw (num, last) refl)

header-split : (x : List ℕ) → take 8 x ++ (take 2 (drop 8 x) ++ drop 10 x) ≡ x
header-split x = rw (← drop-drop 2 8 x, take-append-drop 2 (drop 8 x)) (take-append-drop 8 x)

recombine :
    (id c : ℕ) (contents : List ℕ)
    → c < 2 ^ 16
    → to_bytes (record {
      id = id;
      fragment_num = low_bits final_bit c;
      final_fragment = test_bit final_bit c;
      contents = contents;
    })
      ≡ ok (header id c contents)
unfolding to_bytes
recombine id c contents h = ground arith

field_bytes :
    (k : ℕ) (bs : List ℕ)
    → All IsByte bs
    → length bs ≡ k
    → (be_bytes k (from_be_bytes bs) ≡ bs) × (from_be_bytes bs < 256 ^ k)
field_bytes k bs h e =
    subst (λ j. (be_bytes j (from_be_bytes bs) ≡ bs) × (from_be_bytes bs < 256 ^ j)) e
      (be_bytes-from_be_bytes bs h, from_be_bytes-lt bs h)

-- Every byte string of at least the header's ten bytes reads as a fragment, whose wire form is that
-- same byte string; a shorter one is refused.
pub to_bytes-from_bytes :
    (x : List ℕ)
    → All IsByte x
    → (from_bytes x >>= to_bytes) ≡ (if ltb (length x) 10 then err too_short else ok x)
unfolding from_bytes
to_bytes-from_bytes x h = elim (Bool-cases (ltb (length x) 10)) [
  | inl short ↦ rw short refl
  | inr long ↦
      let (same_id, _) =
        field_bytes 8 (take 8 x) (All-take IsByte 8 x h)
          (omega (arith, length-take 8 x, ltb→le _ _ long)) in
      let (same_num, small) =
        field_bytes 2 (take 2 (drop 8 x)) (All-take IsByte 2 (drop 8 x) (All-drop IsByte 8 x h))
          (omega (arith, length-take 2 (drop 8 x), length-drop 8 x, ltb→le _ _ long)) in
      rw long (
        recombine (from_be_bytes (take 8 x)) (from_be_bytes (take 2 (drop 8 x))) (drop 10 x)
          (omega arith)
        ∙ ap ok (rw (same_id, same_num) (header-split x)))
]
