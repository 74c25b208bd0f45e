-- ===== src/Network/Assembly/Read.antt =====
-- `get_assembly` on a collection that is complete.
use rmosh.Prelude.{◌≤◌, ◌≡◌, refl, true, false, ok, err, length}
use rmosh.Network.Compressor.{Libraries, Instruction, IsLossless, uncompress-deflate, buffer_size}
use rmosh.Network.Fragment.{malformed}
use rmosh.Network.Assembly.{
  FragmentAssembly, is_complete, encoded, get_assembly, read_instruction, emptied,
}

module _ (lib : Libraries) where
  read_instruction-deflate :
      IsLossless lib
      → (inst : Instruction) → length (lib.encode_to_vec inst) ≤ buffer_size
      → read_instruction lib (lib.deflate (lib.encode_to_vec inst)) ≡ ok inst
  unfolding read_instruction
  read_instruction-deflate l inst h =
      rw (uncompress-deflate lib l (lib.encode_to_vec inst) h, l.decode-encode inst) refl

  -- A complete collection of the compressed form of an instruction yields it, and is emptied.
  pub get_assembly-payload :
      IsLossless lib
      → (a : FragmentAssembly) (inst : Instruction) → is_complete a ≡ true
      → encoded a.fragments ≡ lib.deflate (lib.encode_to_vec inst)
      → length (lib.encode_to_vec inst) ≤ buffer_size
      → get_assembly lib a ≡ emptied a (ok inst)
  unfolding get_assembly
  get_assembly-payload l a inst full e h = rw (full, e, read_instruction-deflate l inst h) refl

  -- A collection that is not complete is refused, and kept.
  pub get_assembly_incomplete :
      (a : FragmentAssembly) → is_complete a ≡ false → get_assembly lib a ≡ (a, err malformed)
  unfolding get_assembly
  get_assembly_incomplete a e = rw e refl
