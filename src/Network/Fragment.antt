-- ===== src/Network/Fragment.antt =====
-- crates/mosh-network/src/fragment.rs: one fragment and its wire form.
-- A u16 or u64 is a number; `as usize` widens.
pub mod Wire
use rmosh.Prelude.{
  ℕ, ◌+◌, Bool, Option, none, some, List, ◌++◌, Result, ok, err, length, take, drop, ltb,
  if◌then◌else◌, test_bit, set_bit, low_bits, be_bytes, from_be_bytes,
}

pub record Fragment : Type 0 where
  pub id : ℕ
  pub fragment_num : ℕ
  pub final_fragment : Bool
  pub contents : List ℕ

pub data FragmentError : Type 0 where
  too_short too_many_fragments malformed : FragmentError

abbrev pub frag_header_len : ℕ
frag_header_len = 10

-- FINAL_BIT and FRAGMENT_NUM_MASK: bit 15, and the 15 bits below it.
abbrev pub final_bit : ℕ
final_bit = 15

unfoldable pub to_bytes : Fragment → Result FragmentError (List ℕ)
to_bytes f =
    if test_bit final_bit f.fragment_num
    then err too_many_fragments
    else let combined =
        if f.final_fragment then set_bit final_bit f.fragment_num else f.fragment_num in
      ok (be_bytes 8 f.id ++ (be_bytes 2 combined ++ f.contents))

unfoldable pub from_bytes : List ℕ → Result FragmentError Fragment
from_bytes x =
    if ltb (length x) frag_header_len
    then err too_short
    else let combined = from_be_bytes (take 2 (drop 8 x)) in
      ok (record {
        id = from_be_bytes (take 8 x);
        fragment_num = low_bits final_bit combined;
        final_fragment = test_bit final_bit combined;
        contents = drop frag_header_len x;
      })

abbrev pub or_malformed {ℓ} : {A : Type ℓ} → Option A → Result FragmentError A
or_malformed none = err malformed
or_malformed (some a) = ok a

-- `map_err(|_| FragmentError::Malformed)`
abbrev pub as_malformed {ℓ κ} : {E : Type ℓ} {A : Type κ} → Result E A → Result FragmentError A
as_malformed (ok a) = ok a
as_malformed (err e) = err malformed
