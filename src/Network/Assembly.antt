-- ===== src/Network/Assembly.antt =====
-- crates/mosh-network/src/fragment.rs: `FragmentAssembly`, which collects the fragments of one
-- instruction. The BTreeMap is an association list in the order of its keys.
pub mod Entries
pub mod Invariant
pub mod Sent
pub mod Delivery
pub mod Read
pub mod Surplus
use rmosh.Prelude.{
  ℕ, ◌+◌, Bool, true, false, ◌||◌, Option, none, some, List, [], ◌∷◌, ◌++◌, Result, ok, err, ◌>>=◌,
  length, ltb, ◌==◌, if◌then◌else◌, option_eq, wrapping_sub,
}
use rmosh.Network.Compressor.{Instruction, Libraries, uncompress, buffer_size}
use rmosh.Network.Fragment.{Fragment, FragmentError, malformed, or_malformed, as_malformed}

-- MAX_ASSEMBLY_BYTES
abbrev pub max_assembly_bytes : ℕ
max_assembly_bytes = buffer_size

pub record FragmentAssembly : Type 0 where
  pub fragments : List (ℕ × Fragment)
  pub bytes_held : ℕ
  pub fragments_total : Option ℕ
  pub current_id : Option ℕ

-- FragmentAssembly::new
abbrev pub new_assembly : FragmentAssembly
new_assembly = record { fragments = []; bytes_held = 0; fragments_total = none; current_id = none }

unfoldable pub restart : ℕ → FragmentAssembly
restart id = record { fragments = []; bytes_held = 0; fragments_total = none; current_id = some id }

-- The BTreeMap's `retain`: the entries that stay, and `bytes_held` less what the others held.
abbrev pub retain : ℕ → List (ℕ × Fragment) → List (ℕ × Fragment)
retain total [] = []
retain total ((num, held) ∷ r) =
    if ltb num total then (num, held) ∷ retain total r else retain total r

abbrev pub release : ℕ → List (ℕ × Fragment) → ℕ → ℕ
release total [] bytes = bytes
release total ((num, held) ∷ r) bytes =
    release total r (if ltb num total then bytes else wrapping_sub 64 bytes (length held.contents))

-- The BTreeMap's `entry`: is the key taken, and the insertion of a new key in its place.
abbrev pub has_key : ℕ → List (ℕ × Fragment) → Bool
has_key k [] = false
has_key k ((num, held) ∷ r) = num == k || has_key k r

abbrev pub insert_entry : ℕ → Fragment → List (ℕ × Fragment) → List (ℕ × Fragment)
insert_entry k f [] = (k, f) ∷ []
insert_entry k f ((num, held) ∷ r) =
    if ltb k num then (k, f) ∷ (num, held) ∷ r else (num, held) ∷ insert_entry k f r

-- The four steps of `add_fragment`.
unfoldable pub supersede : FragmentAssembly → Fragment → FragmentAssembly
supersede a frag = if option_eq a.current_id (some frag.id) then a else restart frag.id

unfoldable pub mark_final : FragmentAssembly → Fragment → FragmentAssembly
mark_final a frag =
    let total = frag.fragment_num + 1 in
    if frag.final_fragment
    then record a {
      fragments = retain total a.fragments;
      bytes_held = release total a.fragments a.bytes_held;
      fragments_total = some total;
    }
    else a

unfoldable pub store : FragmentAssembly → Fragment → FragmentAssembly
store a frag = if has_key frag.fragment_num a.fragments then a else record a {
  fragments = insert_entry frag.fragment_num frag a.fragments;
  bytes_held = a.bytes_held + length frag.contents;
}

abbrev pub is_complete : FragmentAssembly → Bool
is_complete a = option_eq (some (length a.fragments)) a.fragments_total

unfoldable pub keep_or_drop : FragmentAssembly → Fragment → FragmentAssembly × Bool
keep_or_drop a frag =
    if ltb max_assembly_bytes (a.bytes_held + length frag.contents)
    then (restart frag.id, false)
    else (store a frag, is_complete (store a frag))

unfoldable pub add_fragment : FragmentAssembly → Fragment → FragmentAssembly × Bool
add_fragment a frag = keep_or_drop (mark_final (supersede a frag) frag) frag

-- `for frag in self.fragments.values() { encoded.extend_from_slice(&frag.contents) }`
abbrev pub encoded : List (ℕ × Fragment) → List ℕ
encoded [] = []
encoded ((num, held) ∷ r) = held.contents ++ encoded r

-- A `?` that returns early leaves the collection as it is.
abbrev pub emptied :
    FragmentAssembly
    → Result FragmentError Instruction
    → FragmentAssembly × Result FragmentError Instruction
emptied a (ok inst) = (record a { fragments = []; bytes_held = 0; fragments_total = none }, ok inst)
emptied a (err e) = (a, err e)

module _ (lib : Libraries) where
  unfoldable pub read_instruction : List ℕ → Result FragmentError Instruction
  read_instruction bytes = do
    plain ← as_malformed (uncompress lib bytes)
    or_malformed (lib.decode plain)

  unfoldable pub get_assembly :
      FragmentAssembly → FragmentAssembly × Result FragmentError Instruction
  get_assembly a =
      if is_complete a
      then emptied a (read_instruction (encoded a.fragments))
      else (a, err malformed)
