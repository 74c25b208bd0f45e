-- ===== src/Tests/Fragments.antt =====
-- Fragments cut, sent and collected, and packets.
use rmosh.Prelude.{
  ℕ, zero, suc, ◌+◌, ◌≤◌, ◌<◌, ◌≡◌, ◌⊎◌, inl, refl, true, false, none, some, List, [], ◌∷◌, arith,
  ok, length, All,
}
use rmosh.Network.Compressor.{Instruction, compress}
use rmosh.Network.Fragment.{Fragment}
use rmosh.Network.Fragmenter.{Fragmenter, make_fragments, changed, split, take_instruction}
use rmosh.Network.Assembly.{
  FragmentAssembly, new_assembly, add_fragment, get_assembly, emptied, is_complete, has_key,
}
use rmosh.Network.Assembly.Invariant.{IsValid, add_fragment-IsValid, new-IsValid}
use rmosh.Network.Assembly.Sent.{Sent, delivers}
use rmosh.Network.Assembly.Delivery.{deliver, deliver-is_complete}
use rmosh.Network.Assembly.Surplus.{with_fragment, add_fragment_surplus}
use rmosh.Network.Reassembly.{make_fragments_total, get_assembly-make_fragments}
use rmosh.Network.Packet.{timestamp16, timestamp_diff}
use rmosh.Network.Packet.Laws.{timestamp_diff-timestamp16}
use rmosh.Tests.Libraries.{libraries, libraries-IsLossless}

abbrev pub inst : Instruction
inst = record {
  protocol_version = some 2;
  old_num = some 0;
  new_num = some 1;
  ack_num = some 0;
  throwaway_num = some 0;
  diff = some (9 ∷ 8 ∷ 7 ∷ []);
  chaff = some [];
}

abbrev first_half : Fragment
first_half = record {
  id = 1;
  fragment_num = 0;
  final_fragment = false;
  contents = 120 ∷ 3 ∷ 1 ∷ 2 ∷ 1 ∷ 1 ∷ [];
}

abbrev second_half : Fragment
second_half = record {
  id = 1;
  fragment_num = 1;
  final_fragment = true;
  contents = 4 ∷ 9 ∷ 8 ∷ 7 ∷ 1 ∷ [];
}

abbrev halves : List Fragment
halves = first_half ∷ second_half ∷ []

-- The second half comes first, and twice.
abbrev arrivals : List Fragment
arrivals = second_half ∷ first_half ∷ second_half ∷ []

abbrev pub fragmenter : Fragmenter
fragmenter = record { next_instruction_id = 0; last_instruction = none; last_mtu = none }

halves_made : (make_fragments libraries fragmenter inst 16).1 ≡ ok halves
unfolding make_fragments compress split take_instruction changed
halves_made = refl

halves-Sent : Sent 1 2 0 halves
halves-Sent = (refl, refl, refl, (refl, refl, refl, refl))

halves_small : All (λ f. length f.contents ≤ 6) halves
halves_small = (omega arith, (omega arith, tt))

all_arrive : (j : ℕ) → j < 2 → delivers j arrivals ≡ true
all_arrive zero h = refl
all_arrive (suc zero) h = refl
all_arrive (suc (suc j)) h = absurd (omega arith)

arrivals_complete : is_complete (deliver new_assembly arrivals) ≡ true
arrivals_complete =
    deliver-is_complete 1 6 halves halves-Sent halves_small (omega arith) new_assembly arrivals
      (inl refl) (refl, (refl, (refl, tt))) (omega arith) all_arrive

deliver-is_complete_example : is_complete (deliver new_assembly arrivals) ≡ true
deliver-is_complete_example =
    deliver-is_complete 1 6 halves halves-Sent halves_small (omega arith) new_assembly arrivals
      (inl refl) (refl, (refl, (refl, tt))) (omega arith) all_arrive

add_fragment-IsValid_example : IsValid (add_fragment new_assembly first_half).0
add_fragment-IsValid_example = add_fragment-IsValid new_assembly first_half new-IsValid

get_assembly-make_fragments_example :
    get_assembly libraries (deliver new_assembly arrivals)
    ≡ emptied (deliver new_assembly arrivals) (ok inst)
get_assembly-make_fragments_example =
    get_assembly-make_fragments libraries libraries-IsLossless fragmenter inst 16 halves halves_made
      (omega arith) (omega arith) new_assembly arrivals refl (refl, (refl, (refl, tt))) all_arrive

make_fragments_total_example :
    (fs : List Fragment) × ((make_fragments libraries fragmenter inst 16).1 ≡ ok fs)
make_fragments_total_example = make_fragments_total libraries fragmenter inst 16 (omega arith)

-- A collection that is one short of its total, where fragment 0 is missing.
abbrev one_short : FragmentAssembly
one_short = record {
  fragments = (1, second_half) ∷ [];
  bytes_held = 5;
  fragments_total = some 2;
  current_id = some 1;
}

abbrev stray : Fragment
stray = record { id = 1; fragment_num = 2; final_fragment = false; contents = [] }

add_fragment_surplus_example :
    (add_fragment one_short stray ≡ (with_fragment one_short stray, true))
    × (has_key 0 (with_fragment one_short stray).fragments ≡ false)
add_fragment_surplus_example =
    add_fragment_surplus one_short stray 0 2 refl refl refl refl (omega arith) (omega arith) refl
      refl (omega arith)

timestamp_diff-timestamp16_example :
    (timestamp_diff (timestamp16 (65500 + 100)) (timestamp16 65500) ≡ 100)
    ⊎ ((timestamp_diff (timestamp16 (65500 + 100)) (timestamp16 65500) ≡ 100 + 1)
        ⊎ (timestamp_diff (timestamp16 (65500 + 100)) (timestamp16 65500) + 1 ≡ 100))
timestamp_diff-timestamp16_example = timestamp_diff-timestamp16 65500 100 (omega arith)
