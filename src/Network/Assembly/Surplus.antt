-- ===== src/Network/Assembly/Surplus.antt =====
-- Fragments at the edge: a number past the last one.
use rmosh.Prelude.{
  ℕ, suc, ◌+◌, ◌≤◌, ◌<◌, ◌≡◌, true, false, length, some, option_eq, arith, le→ltb, refl, ap, ◌∙◌,
}
use rmosh.Network.Fragment.{Fragment}
use rmosh.Network.Assembly.{
  FragmentAssembly, max_assembly_bytes, supersede, mark_final, store, keep_or_drop, is_complete,
  add_fragment, has_key, insert_entry,
}
use rmosh.Network.Assembly.Entries.{length-insert, has_key-insert}

-- The collection with one fragment more.
abbrev pub with_fragment : FragmentAssembly → Fragment → FragmentAssembly
with_fragment a f = record a {
  fragments = insert_entry f.fragment_num f a.fragments;
  bytes_held = a.bytes_held + length f.contents;
}

-- A fragment that is not the last one of the instruction at work, with a number that is free and
-- with room under the ceiling, goes in under its number.
add_fragment_vacant :
    (a : FragmentAssembly) (f : Fragment)
    → option_eq a.current_id (some f.id) ≡ true
    → f.final_fragment ≡ false
    → has_key f.fragment_num a.fragments ≡ false
    → a.bytes_held + length f.contents ≤ max_assembly_bytes
    → add_fragment a f ≡ (with_fragment a f, is_complete (with_fragment a f))
unfolding add_fragment supersede mark_final keep_or_drop store
add_fragment_vacant a f same inner vacant room =
    let below = le→ltb max_assembly_bytes (a.bytes_held + length f.contents) room in
    rw (same, inner, below, vacant) refl

-- The total `t` is known, one fragment fewer than that is held, a number `j` below `t` is missing, and
-- a fragment of the same instruction arrives that is numbered `t` or higher and is not marked as the
-- last; its number is free, and there is room for it under the ceiling. Then it is stored under its
-- number, nothing else changes but the count of bytes, and the collection counts as complete,
-- although `j` is still missing.
pub add_fragment_surplus :
    (a : FragmentAssembly) (f : Fragment) (j t : ℕ)
    → option_eq a.current_id (some f.id) ≡ true
    → f.final_fragment ≡ false
    → a.fragments_total ≡ some t
    → suc (length a.fragments) ≡ t
    → t ≤ f.fragment_num
    → j < t
    → has_key j a.fragments ≡ false
    → has_key f.fragment_num a.fragments ≡ false
    → a.bytes_held + length f.contents ≤ max_assembly_bytes
    → (add_fragment a f ≡ (with_fragment a f, true))
      × (has_key j (with_fragment a f).fragments ≡ false)
add_fragment_surplus a f j t same inner total count past below missing vacant room =
    let full : is_complete (with_fragment a f) ≡ true =
      ground (arith, length-insert f.fragment_num f a.fragments) in
    (
      add_fragment_vacant a f same inner vacant room ∙ ap (λ b. (with_fragment a f, b)) full,
      ground (arith, has_key-insert j f.fragment_num f a.fragments),
    )
