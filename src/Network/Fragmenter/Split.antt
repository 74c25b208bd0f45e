-- ===== src/Network/Fragmenter/Split.antt =====
-- The loop of `make_fragments`: what it cuts, and when there are numbers enough.
use rmosh.Prelude.{
  ℕ, zero, suc, ◌+◌, ◌*◌, ◌≤◌, ◌<◌, ◌^◌, ◌≡◌, refl, ap, subst, ◌∙◌, inl, inr, true, false, List, [],
  ◌∷◌, arith, ok, err, length, take, drop, length-take, length-drop, take-append-drop, take_all,
  append-nil, All, Bool-cases, Result-cases, ltb, ltb→lt, ltb→le, ◌==◌, min, test_bit,
}
use mathlib.Core.Path.{subst₂}
use rmosh.Network.Fragment.{Fragment, too_many_fragments, final_bit}
use rmosh.Network.Assembly.Sent.{Sent, contents_of}
use rmosh.Network.Fragmenter.{split, cons_ok}

-- What the loop has pushed once it ends, for the rest `rest` and the next number `num`.
abbrev pub Cut : ℕ → ℕ → ℕ → List ℕ → List Fragment → Type 0
Cut id num mtu rest fs =
    Sent id (length fs + num) num fs
    × (contents_of fs ≡ rest)
    × All (λ f. length f.contents ≤ mtu) fs
    × (0 < length fs)

frag_at : ℕ → ℕ → ℕ → List ℕ → Fragment
frag_at id num mtu rest = record {
  id = id;
  fragment_num = num;
  final_fragment = min (length rest) mtu == length rest;
  contents = take (min (length rest) mtu) rest;
}

-- The three ways a round can go.
split_over :
    (left id num mtu : ℕ) (rest : List ℕ)
    → test_bit final_bit num ≡ true
    → split (suc left) id num mtu rest ≡ err too_many_fragments
unfolding split
split_over left id num mtu rest h = rw h refl

split_last :
    (left id num mtu : ℕ) (rest : List ℕ)
    → test_bit final_bit num ≡ false
    → length rest ≤ mtu
    → split (suc left) id num mtu rest ≡ ok (frag_at id num mtu rest ∷ [])
unfolding split frag_at
split_last left id num mtu rest h le =
    let whole : (min (length rest) mtu == length rest) ≡ true = ground arith in rw (h, whole) refl

split_more :
    (left id num mtu : ℕ) (rest : List ℕ)
    → test_bit final_bit num ≡ false
    → mtu < length rest
    → split (suc left) id num mtu rest
      ≡ cons_ok (frag_at id num mtu rest) (split left id (num + 1) mtu (drop mtu rest))
unfolding split frag_at
split_more left id num mtu rest h lt =
    let part : (min (length rest) mtu == length rest) ≡ false = ground arith in
    let size : min (length rest) mtu ≡ mtu = omega arith in rw (h, part, size) refl

Cut-last :
    (id num mtu : ℕ) (rest : List ℕ)
    → length rest ≤ mtu
    → Cut id num mtu rest (frag_at id num mtu rest ∷ [])
unfolding frag_at
Cut-last id num mtu rest h =
    let whole : min (length rest) mtu ≡ length rest = omega arith in
    (
      (refl, refl, ground (arith, whole), omega arith),
      append-nil (take (min (length rest) mtu) rest)
          ∙ take_all (min (length rest) mtu) rest (omega arith),
      (omega (arith, length-take (min (length rest) mtu) rest), tt),
      omega arith,
    )

Cut-more :
    (id num mtu : ℕ) (rest : List ℕ) (gs : List Fragment)
    → mtu < length rest
    → Cut id (num + 1) mtu (drop mtu rest) gs
    → Cut id num mtu rest (frag_at id num mtu rest ∷ gs)
unfolding frag_at
Cut-more id num mtu rest gs h (sent, whole, small, pos) =
    let size : min (length rest) mtu ≡ mtu = omega arith in
    let next : num + 1 ≡ suc num = omega arith in
    let total : length gs + (num + 1) ≡ suc (length gs) + num = omega arith in
    (
      (refl, refl, ground (arith, size), subst₂ (λ t n. Sent id t n gs) total next sent),
      rw (size, whole) (take-append-drop mtu rest),
      (omega (arith, length-take (min (length rest) mtu) rest), small),
      omega arith,
    )

-- Whatever the loop returns is a cut of the payload.
pub split-Cut :
    (left id num mtu : ℕ) (rest : List ℕ) (fs : List Fragment)
    → split left id num mtu rest ≡ ok fs
    → Cut id num mtu rest fs
split-Cut zero id num mtu rest fs e = unfold split in cc
split-Cut (suc left) id num mtu rest fs e = elim (Bool-cases (test_bit final_bit num)) [
  | inl over ↦ cc (split_over left id num mtu rest over)
  | inr fits ↦ elim (Bool-cases (ltb mtu (length rest))) [
    | inl more ↦ elim (Result-cases (split left id (num + 1) mtu (drop mtu rest))) [
      | inl (gs, eg) ↦
          let same : frag_at id num mtu rest ∷ gs ≡ fs =
            cc (split_more left id num mtu rest fits (ltb→lt _ _ more), eg) in
          subst (Cut id num mtu rest) same (
            Cut-more id num mtu rest gs (ltb→lt _ _ more)
              (split-Cut left id (num + 1) mtu (drop mtu rest) gs eg))
      | inr (x, ex) ↦ cc (split_more left id num mtu rest fits (ltb→lt _ _ more), ex)
    ]
    | inr last ↦
        let same : frag_at id num mtu rest ∷ [] ≡ fs =
          cc (split_last left id num mtu rest fits (ltb→le _ _ last)) in
        subst (Cut id num mtu rest) same (Cut-last id num mtu rest (ltb→le _ _ last))
  ]
]

-- There are numbers for `left` more fragments, and that decides whether the loop succeeds.
pub split_fits :
    (left id num mtu : ℕ) (rest : List ℕ)
    → left + num ≡ 2 ^ 15
    → 0 < left
    → length rest ≤ left * mtu
    → (fs : List Fragment) × (split (suc left) id num mtu rest ≡ ok fs)
split_fits (suc left) id num mtu rest n pos h = elim (Bool-cases (ltb mtu (length rest))) [
  | inl more ↦
      let (fs, e) =
        split_fits left id (num + 1) mtu (drop mtu rest) (omega arith)
          (grind (arith, ltb→lt mtu (length rest) more)) (omega (arith, length-drop mtu rest)) in
      (
        frag_at id num mtu rest ∷ fs,
        split_more (suc left) id num mtu rest (ground arith) (ltb→lt mtu (length rest) more)
            ∙ ap (cons_ok (frag_at id num mtu rest)) e,
      )
  | inr last ↦ (
    frag_at id num mtu rest ∷ [],
    split_last (suc left) id num mtu rest (ground arith) (ltb→le mtu (length rest) last),
  )
]
split_fits zero id num mtu rest n pos h = absurd (omega arith)

pub split_overflows :
    (left id num mtu : ℕ) (rest : List ℕ)
    → left + num ≡ 2 ^ 15
    → 0 < mtu
    → left * mtu < length rest
    → split (suc left) id num mtu rest ≡ err too_many_fragments
split_overflows zero id num mtu rest n pos h = split_over zero id num mtu rest (ground arith)
split_overflows (suc left) id num mtu rest n pos h =
    split_more (suc left) id num mtu rest (ground arith) (omega arith)
    ∙ ap (cons_ok (frag_at id num mtu rest)) (
        split_overflows left id (num + 1) mtu (drop mtu rest) (omega arith) pos
          (omega (arith, length-drop mtu rest)))
