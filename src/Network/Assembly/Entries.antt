-- ===== src/Network/Assembly/Entries.antt =====
-- The entries of the BTreeMap in `FragmentAssembly`: order, keys and bytes.
use rmosh.Prelude.{
  ℕ, suc, ◌+◌, ◌-◌, ◌%◌, ◌^◌, ◌≤◌, ◌<◌, ◌≡◌, refl, true, false, ◌||◌, List, [], ◌∷◌, arith, length,
  ltb, ◌==◌, ltb→le, Bool-cases, inl, inr, IsU64,
}
use rmosh.Network.Fragment.{Fragment}
use rmosh.Network.Assembly.{retain, release, has_key, insert_entry}

abbrev pub Entries : Type 0
Entries = List (ℕ × Fragment)

-- The bytes of contents in all entries.
abbrev pub bytes : Entries → ℕ
bytes [] = 0
bytes ((k, f) ∷ r) = length f.contents + bytes r

-- The keys grow along the list, from `lo` on.
abbrev pub Ascending : ℕ → Entries → Type 0
Ascending lo [] = Unit {0}
Ascending lo ((k, f) ∷ r) = (lo ≤ k) × Ascending (suc k) r

-- Every key lies below `t`.
abbrev pub Below : ℕ → Entries → Type 0
Below t [] = Unit {0}
Below t ((k, f) ∷ r) = (k < t) × Below t r

pub Ascending-mono : (lo hi : ℕ) (l : Entries) → lo ≤ hi → Ascending hi l → Ascending lo l
Ascending-mono lo hi [] h a = tt
Ascending-mono lo hi ((k, f) ∷ r) h a = (omega arith, a.1)

pub retain-Ascending : (t lo : ℕ) (l : Entries) → Ascending lo l → Ascending lo (retain t l)
retain-Ascending t lo [] a = tt
retain-Ascending t lo ((k, f) ∷ r) a =
    ground (arith, retain-Ascending t (suc k) r a.1, Ascending-mono lo (suc k) (retain t r))

pub retain-Below : (t : ℕ) (l : Entries) → Below t (retain t l)
retain-Below t [] = tt
retain-Below t ((k, f) ∷ r) = ground (arith, retain-Below t r)

-- What lies below is kept.
pub retain_all : (t : ℕ) (l : Entries) → Below t l → retain t l ≡ l
retain_all t [] b = refl
retain_all t ((k, f) ∷ r) b = ground (arith, retain_all t r b.1)

-- Bytes released and bytes still held make up the bytes held before.
pub release-bytes :
    (t : ℕ) (l : Entries) (b : ℕ)
    → bytes l ≤ b
    → IsU64 b
    → release t l b + bytes l ≡ b + bytes (retain t l)
release-bytes t [] b h u = refl
release-bytes t ((k, f) ∷ r) b h u =
    ground
      (arith, release-bytes t r b, release-bytes t r ((b + 2 ^ 64 - length f.contents) % 2 ^ 64))

pub retain-bytes-le : (t : ℕ) (l : Entries) → bytes (retain t l) ≤ bytes l
retain-bytes-le t [] = omega arith
retain-bytes-le t ((k, f) ∷ r) = ground (arith, retain-bytes-le t r)

pub release_all : (t : ℕ) (l : Entries) (b : ℕ) → Below t l → release t l b ≡ b
release_all t [] b h = refl
release_all t ((k, f) ∷ r) b h = ground (arith, release_all t r b h.1)

pub insert-Ascending :
    (k lo : ℕ) (f : Fragment) (l : Entries)
    → lo ≤ k
    → has_key k l ≡ false
    → Ascending lo l
    → Ascending lo (insert_entry k f l)
insert-Ascending k lo f [] h n a = (h, tt)
insert-Ascending k lo f ((j, g) ∷ r) h n a = ground (arith, insert-Ascending k (suc j) f r)

pub insert-bytes :
    (k : ℕ) (f : Fragment) (l : Entries) → bytes (insert_entry k f l) ≡ length f.contents + bytes l
insert-bytes k f [] = refl
insert-bytes k f ((j, g) ∷ r) = ground (arith, insert-bytes k f r)

pub insert-Below :
    (k t : ℕ) (f : Fragment) (l : Entries) → k < t → Below t l → Below t (insert_entry k f l)
insert-Below k t f [] h b = (h, tt)
insert-Below k t f ((j, g) ∷ r) h b = ground (arith, insert-Below k t f r h b.1)

pub has_key-insert :
    (j k : ℕ) (f : Fragment) (l : Entries)
    → has_key j (insert_entry k f l) ≡ (k == j || has_key j l)
has_key-insert j k f [] = refl
has_key-insert j k f ((i, g) ∷ r) = ground (arith, has_key-insert j k f r)

pub length-insert :
    (k : ℕ) (f : Fragment) (l : Entries) → length (insert_entry k f l) ≡ suc (length l)
length-insert k f [] = refl
length-insert k f ((j, g) ∷ r) = ground (arith, length-insert k f r)

-- Distinct keys from `lo` to below `t`: there are at most so many.
pub length-le : (lo t : ℕ) (l : Entries) → lo ≤ t → Ascending lo l → Below t l → length l + lo ≤ t
length-le lo t [] h a b = omega arith
length-le lo t ((k, f) ∷ r) h a b = omega (arith, length-le (suc k) t r b.0 a.1 b.1)

pub has_key_above : (j lo : ℕ) (l : Entries) → j < lo → Ascending lo l → has_key j l ≡ false
has_key_above j lo [] h a = refl
has_key_above j lo ((k, f) ∷ r) h a = ground (arith, has_key_above j (suc k) r (omega arith) a.1)

-- With every key from `lo` to below `t` there are exactly so many.
pub length_full :
    (lo t : ℕ) (l : Entries)
    → lo ≤ t
    → Ascending lo l
    → Below t l
    → ((j : ℕ) → lo ≤ j → j < t → has_key j l ≡ true)
    → length l + lo ≡ t
length_full lo t [] h a b all = elim (Bool-cases (ltb lo t)) [
  | inl more ↦ absurd (ground (arith, all lo))
  | inr done ↦ omega (arith, ltb→le lo t done)
]
length_full lo t ((k, f) ∷ r) h a b all =
    let first : k ≡ lo = ground (arith, all lo, has_key_above lo (suc k) r) in
    let rest = length_full (suc k) t r b.0 a.1 b.1 (λ j p q. ground (arith, all j)) in
    omega (arith, first, rest)
