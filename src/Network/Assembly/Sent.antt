-- ===== src/Network/Assembly/Sent.antt =====
-- The fragments of one instruction as their sender numbers them, and entries taken from them.
use rmosh.Prelude.{
  ℕ, zero, suc, ◌+◌, ◌≤◌, ◌≡◌, sym, subst, ap, ◌∙◌, Bool, false, ◌||◌, some, List, [], ◌∷◌, ◌++◌,
  arith, length, get_elem?, get_elem?-lt, drop, drop_all, drop-nil, drop-get_elem?, ◌==◌,
}
use rmosh.Network.Fragment.{Fragment}
use rmosh.Network.Assembly.{insert_entry, encoded}
use rmosh.Network.Assembly.Entries.{Entries, bytes, Ascending, Below, length-le}

-- The fragments of instruction `id`: `t` of them, numbered from `n`, the last one marked.
abbrev pub Sent : ℕ → ℕ → ℕ → List Fragment → Type 0
Sent id t n [] = n ≡ t
Sent id t n (f ∷ r) =
    (f.id ≡ id) × (f.fragment_num ≡ n) × (f.final_fragment ≡ (suc n == t)) × Sent id t (suc n) r

abbrev pub contents_of : List Fragment → List ℕ
contents_of [] = []
contents_of (f ∷ r) = f.contents ++ contents_of r

abbrev pub content_bytes : List Fragment → ℕ
content_bytes [] = 0
content_bytes (f ∷ r) = length f.contents + content_bytes r

-- A datagram that carries one of the sender's fragments.
abbrev pub Delivered : List Fragment → Fragment → Type 0
Delivered fs f = get_elem? fs f.fragment_num ≡ some f

abbrev pub delivers : ℕ → List Fragment → Bool
delivers j [] = false
delivers j (d ∷ ds) = d.fragment_num == j || delivers j ds

-- The entries are the sender's fragments, under their numbers.
abbrev pub Agree : List Fragment → Entries → Type 0
Agree fs [] = Unit {0}
Agree fs ((k, f) ∷ r) = (get_elem? fs k ≡ some f) × Agree fs r

pub Sent-length : (id t n : ℕ) (fs : List Fragment) → Sent id t n fs → length fs + n ≡ t
Sent-length id t n [] s = omega arith
Sent-length id t n (f ∷ r) s = omega (arith, Sent-length id t (suc n) r s.3)

pub Sent-elem :
    (id t n i : ℕ) (fs : List Fragment) (f : Fragment)
    → Sent id t n fs
    → get_elem? fs i ≡ some f
    → (f.id ≡ id) × (f.fragment_num ≡ n + i) × (f.final_fragment ≡ (suc (n + i) == t))
Sent-elem id t n i [] f s e = cc
Sent-elem id t n zero (g ∷ r) f s e = ground arith
Sent-elem id t n (suc i) (g ∷ r) f s e =
    let (same, num, last) = Sent-elem id t (suc n) i r f s.3 e in
    (same, omega (arith, num), last ∙ ap (λ k. k == t) (omega arith))

pub Agree-Below : (fs : List Fragment) (l : Entries) → Agree fs l → Below (length fs) l
Agree-Below fs [] a = tt
Agree-Below fs ((k, f) ∷ r) a = (get_elem?-lt k fs f a.0, Agree-Below fs r a.1)

pub insert-Agree :
    (fs : List Fragment) (k : ℕ) (f : Fragment) (l : Entries)
    → get_elem? fs k ≡ some f
    → Agree fs l
    → Agree fs (insert_entry k f l)
insert-Agree fs k f [] h a = (h, tt)
insert-Agree fs k f ((j, g) ∷ r) h a = ground (arith, insert-Agree fs k f r h a.1)

content_bytes-drop :
    (fs : List Fragment) (i j : ℕ) → i ≤ j → content_bytes (drop j fs) ≤ content_bytes (drop i fs)
content_bytes-drop [] i j h = rw (drop-nil i, drop-nil j) (omega arith)
content_bytes-drop (f ∷ r) zero zero h = omega arith
content_bytes-drop (f ∷ r) zero (suc j) h = omega (arith, content_bytes-drop r zero j (omega arith))
content_bytes-drop (f ∷ r) (suc i) zero h = absurd (omega arith)
content_bytes-drop (f ∷ r) (suc i) (suc j) h = content_bytes-drop r i j (omega arith)

-- Held bytes are bytes of the sender's, each counted once.
pub bytes-le :
    (fs : List Fragment) (lo : ℕ) (l : Entries)
    → Ascending lo l
    → Agree fs l
    → bytes l ≤ content_bytes (drop lo fs)
bytes-le fs lo [] a g = omega arith
bytes-le fs lo ((k, f) ∷ r) a g = omega (
  arith,
  bytes-le fs (suc k) r a.1 g.1,
  ap content_bytes (drop-get_elem? k fs f g.0),
  content_bytes-drop fs lo k a.0,
)

-- Exactly so many entries as there are fragments: they are the fragments.
pub encoded_full :
    (fs : List Fragment) (lo : ℕ) (l : Entries)
    → Ascending lo l
    → Agree fs l
    → length l + lo ≡ length fs
    → encoded l ≡ contents_of (drop lo fs)
encoded_full fs lo [] a g e = ap contents_of (sym (drop_all lo fs (omega arith)))
encoded_full fs lo ((k, f) ∷ r) a g e =
    let below = get_elem?-lt k fs f g.0 in
    let first : k ≡ lo =
      omega (arith, length-le (suc k) (length fs) r below a.1 (Agree-Below fs r g.1)) in
    let here : drop lo fs ≡ f ∷ drop (suc lo) fs =
      drop-get_elem? lo fs f (subst (λ i. get_elem? fs i ≡ some f) first g.0) in
    rw here (
      ap (λ t. f.contents ++ t)
        (encoded_full fs (suc lo) r (subst (λ i. Ascending (suc i) r) first a.1) g.1 (omega arith)))
