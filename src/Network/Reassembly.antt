-- ===== src/Network/Reassembly.antt =====
-- fragment.rs from end to end: what `make_fragments` cuts, `FragmentAssembly` puts together.
use rmosh.Prelude.{
  ℕ, ◌+◌, ◌*◌, ◌^◌, ◌≤◌, ◌<◌, ◌≡◌, refl, subst, ap, ◌∙◌, inl, true, false, List, [], ◌∷◌, arith, ok,
  err, length, length-append, All, option_eq, some,
}
use rmosh.Network.Compressor.{Libraries, Instruction, IsLossless, compress, buffer_size}
use rmosh.Network.Fragment.{Fragment, too_many_fragments}
use rmosh.Network.Assembly.{FragmentAssembly, max_assembly_bytes, get_assembly, emptied}
use rmosh.Network.Assembly.Sent.{Sent, contents_of, content_bytes, Delivered, delivers}
use rmosh.Network.Assembly.Delivery.{deliver, deliver-encoded, deliver-is_complete}
use rmosh.Network.Assembly.Read.{get_assembly-payload}
use rmosh.Network.Fragmenter.{Fragmenter, make_fragments, content_mtu}
use rmosh.Network.Fragmenter.Split.{Cut, split-Cut, split_fits, split_overflows}

pub content_bytes-contents : (fs : List Fragment) → content_bytes fs ≡ length (contents_of fs)
content_bytes-contents [] = refl
content_bytes-contents (f ∷ r) =
    omega (arith, content_bytes-contents r, length-append f.contents (contents_of r))

module _ (lib : Libraries) where
  -- The bytes that are cut up.
  abbrev pub payload : Instruction → List ℕ
  payload inst = lib.deflate (lib.encode_to_vec inst)

  abbrev pub sent_id : Fragmenter → Instruction → ℕ → ℕ
  sent_id f inst mtu = (make_fragments lib f inst mtu).0.next_instruction_id

  make_fragments-Cut :
      (f : Fragmenter) (inst : Instruction) (mtu : ℕ) (fs : List Fragment)
      → (make_fragments lib f inst mtu).1 ≡ ok fs
      → Cut (sent_id f inst mtu) 0 (content_mtu mtu) (payload inst) fs
  unfolding make_fragments compress
  make_fragments-Cut f inst mtu fs e =
      split-Cut (2 ^ 15 + 1) (sent_id f inst mtu) 0 (content_mtu mtu) (payload inst) fs e

  -- The fragments share an id, are numbered from 0, only the last is marked, none is longer than
  -- the MTU less the header allows, and their contents in order are the compressed instruction.
  pub make_fragments-Sent :
      (f : Fragmenter) (inst : Instruction) (mtu : ℕ) (fs : List Fragment)
      → (make_fragments lib f inst mtu).1 ≡ ok fs
      → Sent (sent_id f inst mtu) (length fs) 0 fs
        × (contents_of fs ≡ payload inst)
        × All (λ g. length g.contents ≤ content_mtu mtu) fs
        × (0 < length fs)
  make_fragments-Sent f inst mtu fs e =
      let (sent, whole, small, pos) = make_fragments-Cut f inst mtu fs e in
      (subst (λ t. Sent (sent_id f inst mtu) t 0 fs) (omega arith) sent, whole, small, pos)

  -- `make_fragments` succeeds whenever 2 ^ 15 fragments of the MTU hold the compressed instruction.
  pub make_fragments_total :
      (f : Fragmenter) (inst : Instruction) (mtu : ℕ)
      → length (payload inst) ≤ 2 ^ 15 * content_mtu mtu
      → (fs : List Fragment) × ((make_fragments lib f inst mtu).1 ≡ ok fs)
  unfolding make_fragments compress
  make_fragments_total f inst mtu h =
      split_fits (2 ^ 15) (sent_id f inst mtu) 0 (content_mtu mtu) (payload inst) refl (omega arith)
        h

  -- With more than that it reports too many fragments, and none is made.
  pub make_fragments_overflows :
      (f : Fragmenter) (inst : Instruction) (mtu : ℕ)
      → 2 ^ 15 * content_mtu mtu < length (payload inst)
      → (make_fragments lib f inst mtu).1 ≡ err too_many_fragments
  unfolding make_fragments compress
  make_fragments_overflows f inst mtu h =
      split_overflows (2 ^ 15) (sent_id f inst mtu) 0 (content_mtu mtu) (payload inst) refl
        (omega arith) h

  -- With a compressor and a coding that lose nothing, an instruction that was cut into fragments
  -- comes back from `get_assembly` once each fragment
  -- has arrived at least once, in any order and with any duplicates, at a collection that was not
  -- yet at work on it; the collection is then empty. The encoded instruction must fit the
  -- decompressor's buffer, and its compressed form with one more fragment the assembly's ceiling.
  pub get_assembly-make_fragments :
      IsLossless lib
      → (f : Fragmenter) (inst : Instruction) (mtu : ℕ) (fs : List Fragment)
      → (make_fragments lib f inst mtu).1 ≡ ok fs
      → length (lib.encode_to_vec inst) ≤ buffer_size
      → length (payload inst) + content_mtu mtu ≤ max_assembly_bytes
      → (a : FragmentAssembly) (ds : List Fragment)
      → option_eq a.current_id (some (sent_id f inst mtu)) ≡ false
      → All (Delivered fs) ds
      → ((j : ℕ) → j < length fs → delivers j ds ≡ true)
      → get_assembly lib (deliver a ds) ≡ emptied (deliver a ds) (ok inst)
  get_assembly-make_fragments l f inst mtu fs e short fits a [] other h all =
      let (_, _, _, pos) = make_fragments-Sent f inst mtu fs e in cc (all 0 pos)
  get_assembly-make_fragments l f inst mtu fs e short fits a (d ∷ ds) other h all =
      let (sent, whole, small, pos) = make_fragments-Sent f inst mtu fs e in
      let room : content_bytes fs + content_mtu mtu ≤ max_assembly_bytes =
        omega (arith, content_bytes-contents fs, ap length whole) in
      let done =
        deliver-is_complete (sent_id f inst mtu) (content_mtu mtu) fs sent small room a (d ∷ ds)
          (inl other) h pos all in
      get_assembly-payload lib l (deliver a (d ∷ ds)) inst done
        (deliver-encoded (sent_id f inst mtu) (content_mtu mtu) fs sent small room a d ds
            (inl other) h done
          ∙ whole)
        short
