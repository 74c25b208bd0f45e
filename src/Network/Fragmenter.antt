-- ===== src/Network/Fragmenter.antt =====
-- The `Fragmenter` of fragment.rs, which cuts an instruction up.
pub mod Split
use rmosh.Prelude.{
  ℕ, zero, suc, ◌+◌, ◌-◌, ◌≡◌, Bool, true, false, ◌||◌, not, Option, none, some, List, [], ◌∷◌,
  Result, ok, err, length, take, drop, ◌==◌, if◌then◌else◌, option_eq, unwrap_or, ◌^◌, test_bit,
  wrapping_add, min, max,
}
use rmosh.Network.Compressor.{Instruction, Libraries, compress}
use rmosh.Network.Fragment.{
  Fragment, FragmentError, too_many_fragments, frag_header_len, final_bit, as_malformed,
}

pub record Fragmenter : Type 0 where
  pub next_instruction_id : ℕ
  pub last_instruction : Option Instruction
  pub last_mtu : Option ℕ

-- Fragmenter::new
abbrev pub new_fragmenter : Fragmenter
new_fragmenter = record { next_instruction_id = 0; last_instruction = none; last_mtu = none }

unfoldable pub last_ack_sent : Fragmenter → ℕ
last_ack_sent f = elim f.last_instruction [ none ↦ 0 | some i ↦ unwrap_or i.ack_num 0 ]

-- `==` on byte vectors, and on optional ones.
abbrev pub bytes_eq : List ℕ → List ℕ → Bool
bytes_eq [] [] = true
bytes_eq [] (y ∷ ys) = false
bytes_eq (x ∷ xs) [] = false
bytes_eq (x ∷ xs) (y ∷ ys) = if x == y then bytes_eq xs ys else false

abbrev option_bytes_eq : Option (List ℕ) → Option (List ℕ) → Bool
option_bytes_eq none none = true
option_bytes_eq none (some y) = false
option_bytes_eq (some x) none = false
option_bytes_eq (some x) (some y) = bytes_eq x y

-- Anything but the diff differs, or the fragments have another size.
differs : Fragmenter → Instruction → ℕ → Instruction → Bool
differs f inst mtu last =
    not (option_eq inst.old_num last.old_num)
    || not (option_eq inst.new_num last.new_num)
    || not (option_eq inst.ack_num last.ack_num)
    || not (option_eq inst.throwaway_num last.throwaway_num)
    || not (option_bytes_eq inst.chaff last.chaff)
    || not (option_eq inst.protocol_version last.protocol_version)
    || not (option_eq f.last_mtu (some mtu))

changed_since : Option Instruction → Fragmenter → Instruction → ℕ → Bool
unfolding differs
changed_since none f inst mtu = true
changed_since (some last) f inst mtu = differs f inst mtu last

unfoldable pub changed : Fragmenter → Instruction → ℕ → Bool
unfolding changed_since
changed f inst mtu = changed_since f.last_instruction f inst mtu

-- The state after `make_fragments` took an instruction; `mtu` is what is left for contents.
unfoldable pub take_instruction : Fragmenter → Instruction → ℕ → Fragmenter
take_instruction f inst mtu = record {
  next_instruction_id =
      if changed f inst mtu then wrapping_add 64 f.next_instruction_id 1 else f.next_instruction_id;
  last_instruction = some inst;
  last_mtu = some mtu;
}

abbrev pub cons_ok :
    Fragment → Result FragmentError (List Fragment) → Result FragmentError (List Fragment)
cons_ok f (ok fs) = ok (f ∷ fs)
cons_ok f (err e) = err e

-- The loop, with what it pushes in front of the later rounds. A round either is the last one or
-- takes up a fragment number, and there are 2 ^ 15 of them: `left` is how many are left, and
-- with none left the number has its top bit set, which is the loop's own test.
unfoldable pub split : ℕ → ℕ → ℕ → ℕ → List ℕ → Result FragmentError (List Fragment)
split zero id num mtu rest = err too_many_fragments
split (suc left) id num mtu rest =
    let taken = min (length rest) mtu in
    let final_fragment = taken == length rest in
    let frag : Fragment = record {
      id = id;
      fragment_num = num;
      final_fragment = final_fragment;
      contents = take taken rest;
    } in
    let later = split left id (num + 1) mtu (drop taken rest) in
    if test_bit final_bit num
    then err too_many_fragments
    else if final_fragment
    then ok (frag ∷ [])
    else cons_ok frag later

-- `mtu.saturating_sub(FRAG_HEADER_LEN).max(1)`
abbrev pub content_mtu : ℕ → ℕ
content_mtu mtu = max (mtu - frag_header_len) 1

abbrev pub cut : ℕ → ℕ → Result FragmentError (List ℕ) → Result FragmentError (List Fragment)
cut id mtu (err e) = err e
cut id mtu (ok payload) = split (2 ^ 15 + 1) id 0 mtu payload

module _ (lib : Libraries) where
  unfoldable pub make_fragments :
      Fragmenter → Instruction → ℕ → Fragmenter × Result FragmentError (List Fragment)
  make_fragments f inst mtu_given =
      let mtu = content_mtu mtu_given in
      let f' = take_instruction f inst mtu in
      (f', cut f'.next_instruction_id mtu (as_malformed (compress lib (lib.encode_to_vec inst))))
