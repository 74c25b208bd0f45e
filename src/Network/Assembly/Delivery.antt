-- ===== src/Network/Assembly/Delivery.antt =====
-- Fragments of one instruction, delivered in any order and as often as the network likes.
use rmosh.Prelude.{
  ℕ, suc, ◌+◌, ◌-◌, ◌≤◌, ◌<◌, ◌≡◌, refl, sym, subst, ap, ◌⊎◌, inl, inr, true, false, ◌||◌, some,
  none, List, [], ◌∷◌, arith, length, get_elem?-lt, All, All-get_elem?, Bool-cases, option_eq, ◌==◌,
  ==_iff,
}
use rmosh.Network.Fragment.{Fragment}
use rmosh.Network.Assembly.{
  FragmentAssembly, max_assembly_bytes, supersede, mark_final, store, keep_or_drop, add_fragment,
  has_key, is_complete, restart, encoded,
}
use rmosh.Network.Assembly.Entries.{
  bytes, Ascending, Below, retain_all, release_all, insert-Ascending, insert-bytes, has_key-insert,
  length_full,
}
use rmosh.Network.Assembly.Sent.{
  Sent, contents_of, content_bytes, Delivered, delivers, Agree, Sent-elem, Agree-Below,
  insert-Agree, bytes-le, encoded_full,
}

-- Calls of `add_fragment`, one for each datagram.
unfoldable pub deliver : FragmentAssembly → List Fragment → FragmentAssembly
deliver a [] = a
deliver a (d ∷ ds) = deliver (add_fragment a d).0 ds

-- The collection is at work on instruction `id`, whose fragments are `fs`.
pub record Collecting (id : ℕ) (fs : List Fragment) (a : FragmentAssembly) : Type 0 where
  pub current : option_eq a.current_id (some id) ≡ true
  pub ascending : Ascending 0 a.fragments
  pub counted : a.bytes_held ≡ bytes a.fragments
  pub agree : Agree fs a.fragments
  pub total : (a.fragments_total ≡ none) ⊎ (a.fragments_total ≡ some (length fs))
  pub known : has_key (length fs - 1) a.fragments ≡ true → a.fragments_total ≡ some (length fs)

-- It may also be at work on another instruction, or on none.
abbrev pub Awaiting : ℕ → List Fragment → FragmentAssembly → Type 0
Awaiting id fs a = (option_eq a.current_id (some id) ≡ false) ⊎ Collecting id fs a

-- The fragments are numbered from 0, no fragment has more than `m` bytes, and with one more of
-- that size they fit the ceiling.
module _ (id m : ℕ) (fs : List Fragment) (sent : Sent id (length fs) 0 fs)
    (small : All (λ f. length f.contents ≤ m) fs)
    (fits : content_bytes fs + m ≤ max_assembly_bytes) where
  supersede-Collecting :
      (a : FragmentAssembly) (f : Fragment)
      → Delivered fs f
      → Awaiting id fs a
      → Collecting id fs (supersede a f)
  unfolding supersede restart
  supersede-Collecting a f d (inl other) =
      let (same, _, _) = Sent-elem id (length fs) 0 f.fragment_num fs f sent d in
      rw (same, other)
        (record {
          current = ground arith;
          ascending = tt;
          counted = refl;
          agree = tt;
          total = inl refl;
          known = λ h. cc;
        })
  supersede-Collecting a f d (inr c) =
      let (same, _, _) = Sent-elem id (length fs) 0 f.fragment_num fs f sent d in
      rw (same, c.current) c

  -- The last fragment tells the total, and drops nothing.
  mark_final-Collecting :
      (a : FragmentAssembly) (f : Fragment)
      → Delivered fs f
      → Collecting id fs a
      → Collecting id fs (mark_final a f)
        × ((mark_final a f).fragments ≡ a.fragments)
        × (f.fragment_num ≡ length fs - 1 → (mark_final a f).fragments_total ≡ some (length fs))
  unfolding mark_final
  mark_final-Collecting a f d c = elim (Bool-cases f.final_fragment) [
    | inl final ↦
        let end : f.fragment_num + 1 ≡ length fs = ground (arith, last) in
        let below : Below (f.fragment_num + 1) a.fragments =
          subst (λ t. Below t a.fragments) (sym end) (Agree-Below fs a.fragments c.agree) in
        rw
          (
            final,
            retain_all (f.fragment_num + 1) a.fragments below,
            release_all (f.fragment_num + 1) a.fragments a.bytes_held below,
          )
          (
            record {
              current = c.current;
              ascending = c.ascending;
              counted = c.counted;
              agree = c.agree;
              total = inr (ap some end);
              known = λ _. ap some end;
            },
            refl,
            λ _. ap some end,
          )
    | inr inner ↦
        rw inner (c, refl, λ e. absurd (ground (arith, last, get_elem?-lt f.fragment_num fs f d)))
  ]
    where
      last : f.final_fragment ≡ (suc (0 + f.fragment_num) == length fs)
      last = (Sent-elem id (length fs) 0 f.fragment_num fs f sent d).2

  store-Collecting :
      (a : FragmentAssembly) (f : Fragment)
      → Delivered fs f
      → Collecting id fs a
      → (f.fragment_num ≡ length fs - 1 → a.fragments_total ≡ some (length fs))
      → Collecting id fs (store a f)
  unfolding store
  store-Collecting a f d c last = elim (Bool-cases (has_key f.fragment_num a.fragments)) [
    | inl held ↦ rw held c
    | inr vacant ↦ rw vacant (record {
      current = c.current;
      ascending = insert-Ascending f.fragment_num 0 f a.fragments (omega arith) vacant c.ascending;
      counted = omega (arith, insert-bytes f.fragment_num f a.fragments, c.counted);
      agree = insert-Agree fs f.fragment_num f a.fragments d c.agree;
      total = c.total;
      known = λ h. elim (Bool-cases (f.fragment_num == length fs - 1)) [
        | inl e ↦ last ((==_iff _ _).0 e)
        | inr e ↦
            c.known (ground (arith, has_key-insert (length fs - 1) f.fragment_num f a.fragments))
      ];
    })
  ]

  -- No fragment of the sender's meets the ceiling.
  keep_or_drop-store :
      (a : FragmentAssembly) (f : Fragment)
      → Delivered fs f
      → Collecting id fs a
      → (keep_or_drop a f).0 ≡ store a f
  unfolding keep_or_drop
  keep_or_drop-store a f d c = ground (
    arith,
    All-get_elem? (λ g. length g.contents ≤ m) f.fragment_num fs f small d,
    bytes-le fs 0 a.fragments c.ascending c.agree,
    c.counted,
  )

  has_key-store :
      (a : FragmentAssembly) (f : Fragment) (j : ℕ)
      → has_key j (store a f).fragments ≡ (f.fragment_num == j || has_key j a.fragments)
  unfolding store
  has_key-store a f j = ground (arith, has_key-insert j f.fragment_num f a.fragments)

  add_fragment-Collecting :
      (a : FragmentAssembly) (d : Fragment)
      → Delivered fs d
      → Awaiting id fs a
      → Collecting id fs (add_fragment a d).0
        × ((j : ℕ)
            → has_key j (add_fragment a d).0.fragments
              ≡ (d.fragment_num == j || has_key j (supersede a d).fragments))
  unfolding add_fragment supersede
  add_fragment-Collecting a d h w =
      let c0 = supersede-Collecting a d h w in
      let (c1, kept, last) = mark_final-Collecting (supersede a d) d h c0 in
      rw (keep_or_drop-store (mark_final (supersede a d) d) d h c1) (
        store-Collecting (mark_final (supersede a d) d) d h c1 last,
        λ j. rw (← kept) (has_key-store (mark_final (supersede a d) d) d j),
      )

  supersede_same :
      (a : FragmentAssembly) (d : Fragment)
      → Delivered fs d
      → Collecting id fs a
      → supersede a d ≡ a
  unfolding supersede
  supersede_same a d h c =
      let (same, _, _) = Sent-elem id (length fs) 0 d.fragment_num fs d sent h in
      rw (same, c.current) refl

  deliver-Collecting :
      (ds : List Fragment) (a : FragmentAssembly)
      → All (Delivered fs) ds
      → Collecting id fs a
      → Collecting id fs (deliver a ds)
        × ((j : ℕ)
            → (has_key j a.fragments || delivers j ds) ≡ true
            → has_key j (deliver a ds).fragments ≡ true)
  unfolding deliver
  deliver-Collecting [] a h c = (c, λ j e. ground arith)
  deliver-Collecting (d ∷ ds) a h c =
      let (c', keys) = add_fragment-Collecting a d h.0 (inr c) in
      let (end, found) = deliver-Collecting ds (add_fragment a d).0 h.1 c' in
      (end, λ j e. found j (ground (arith, keys j, supersede_same a d h.0 c)))

  -- The collection knows the total only from the last fragment; then all are there.
  Collecting-full :
      (a : FragmentAssembly)
      → Collecting id fs a
      → ((j : ℕ) → j < length fs → has_key j a.fragments ≡ true)
      → 0 < length fs
      → is_complete a ≡ true
  Collecting-full a c all pos =
      let full : length a.fragments + 0 ≡ length fs =
        length_full 0 (length fs) a.fragments (omega arith) c.ascending
          (Agree-Below fs a.fragments c.agree) (λ j _ h. all j h) in
      rw (c.known (all (length fs - 1) (omega arith))) (ground (arith, full))

  Collecting-encoded :
      (a : FragmentAssembly)
      → Collecting id fs a
      → is_complete a ≡ true
      → encoded a.fragments ≡ contents_of fs
  Collecting-encoded a c e =
      encoded_full fs 0 a.fragments c.ascending c.agree (ground (arith, c.total))

  -- Whichever of the fragments were delivered, in whatever order and however often, a collection
  -- that says it is complete holds exactly the payload that was cut up.
  pub deliver-encoded :
      (a : FragmentAssembly) (d : Fragment) (ds : List Fragment)
      → Awaiting id fs a
      → All (Delivered fs) (d ∷ ds)
      → is_complete (deliver a (d ∷ ds)) ≡ true
      → encoded (deliver a (d ∷ ds)).fragments ≡ contents_of fs
  unfolding deliver
  deliver-encoded a d ds w h e =
      let (c, _) = add_fragment-Collecting a d h.0 w in
      Collecting-encoded _ (deliver-Collecting ds _ h.1 c).0 e

  -- For an instruction cut into at least one fragment, all under one id, numbered from 0 and the last
  -- one marked, none with more than `m` bytes and all of them with `m` bytes more within the ceiling of
  -- a collection: a collection that is at work on another instruction, on none, or on this one with its
  -- fragments, its bytes counted and its total, if known, as they were sent, and that is given fragments
  -- of this instruction only, each of them at least once, in whatever order and among however many
  -- duplicates, is complete.
  pub deliver-is_complete :
      (a : FragmentAssembly) (ds : List Fragment)
      → Awaiting id fs a
      → All (Delivered fs) ds
      → 0 < length fs
      → ((j : ℕ) → j < length fs → delivers j ds ≡ true)
      → is_complete (deliver a ds) ≡ true
  unfolding deliver
  deliver-is_complete a [] w h pos all = cc (all 0 pos)
  deliver-is_complete a (d ∷ ds) w h pos all =
      let (c, keys) = add_fragment-Collecting a d h.0 w in
      let (end, found) = deliver-Collecting ds (add_fragment a d).0 h.1 c in
      Collecting-full (deliver (add_fragment a d).0 ds) end
        (λ j lt. found j (ground (arith, keys j, all j))) pos
