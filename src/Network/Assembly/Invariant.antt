-- ===== src/Network/Assembly/Invariant.antt =====
-- What every call of `add_fragment` keeps true of a `FragmentAssembly`, whatever the peer sends.
use rmosh.Prelude.{
  ◌+◌, ◌≤◌, ◌≡◌, refl, inl, inr, some, arith, length, Bool-cases, option_eq, ltb, ltb→le,
}
use rmosh.Network.Fragment.{Fragment}
use rmosh.Network.Assembly.{
  FragmentAssembly, new_assembly, max_assembly_bytes, supersede, mark_final, store, keep_or_drop,
  add_fragment, has_key, restart,
}
use rmosh.Network.Assembly.Entries.{
  bytes, Ascending, retain-Ascending, release-bytes, retain-bytes-le, insert-Ascending,
  insert-bytes,
}

pub record IsValid (a : FragmentAssembly) : Type 0 where
  pub ascending : Ascending 0 a.fragments
  pub counted : a.bytes_held ≡ bytes a.fragments
  pub bounded : a.bytes_held ≤ max_assembly_bytes

pub new-IsValid : IsValid new_assembly
new-IsValid = record { ascending = tt; counted = refl; bounded = omega arith }

supersede-IsValid : (a : FragmentAssembly) (f : Fragment) → IsValid a → IsValid (supersede a f)
unfolding supersede restart
supersede-IsValid a f v = elim (Bool-cases (option_eq a.current_id (some f.id))) [
  | inl same ↦ rw same v
  | inr other ↦ rw other (record { ascending = tt; counted = refl; bounded = omega arith })
]

mark_final-IsValid : (a : FragmentAssembly) (f : Fragment) → IsValid a → IsValid (mark_final a f)
unfolding mark_final
mark_final-IsValid a f v = elim (Bool-cases f.final_fragment) [
  | inl last ↦
      let freed =
        release-bytes (f.fragment_num + 1) a.fragments a.bytes_held (omega (arith, v.counted))
          (omega (arith, v.bounded)) in
      rw last (record {
        ascending = retain-Ascending (f.fragment_num + 1) 0 a.fragments v.ascending;
        counted = omega (arith, freed, v.counted);
        bounded =
            omega (
              arith,
              freed,
              retain-bytes-le (f.fragment_num + 1) a.fragments,
              v.counted,
              v.bounded,
            );
      })
  | inr inner ↦ rw inner v
]

store-IsValid :
    (a : FragmentAssembly) (f : Fragment)
    → IsValid a
    → a.bytes_held + length f.contents ≤ max_assembly_bytes
    → IsValid (store a f)
unfolding store
store-IsValid a f v room = elim (Bool-cases (has_key f.fragment_num a.fragments)) [
  | inl held ↦ rw held v
  | inr vacant ↦ rw vacant (record {
    ascending = insert-Ascending f.fragment_num 0 f a.fragments (omega arith) vacant v.ascending;
    counted = omega (arith, insert-bytes f.fragment_num f a.fragments, v.counted);
    bounded = room;
  })
]

keep_or_drop-IsValid :
    (a : FragmentAssembly) (f : Fragment) → IsValid a → IsValid (keep_or_drop a f).0
unfolding keep_or_drop restart
keep_or_drop-IsValid a f v =
    elim (Bool-cases (ltb max_assembly_bytes (a.bytes_held + length f.contents))) [
      | inl over ↦ rw over (record { ascending = tt; counted = refl; bounded = omega arith })
      | inr room ↦ rw room (store-IsValid a f v (ltb→le _ _ room))
    ]

-- Whatever fragment arrives, the entries stay in the order of distinct numbers, `bytes_held` stays
-- the bytes of their contents, and these stay within `MAX_ASSEMBLY_BYTES`.
pub add_fragment-IsValid :
    (a : FragmentAssembly) (f : Fragment) → IsValid a → IsValid (add_fragment a f).0
unfolding add_fragment
add_fragment-IsValid a f v =
    keep_or_drop-IsValid _ f (mark_final-IsValid _ f (supersede-IsValid a f v))
