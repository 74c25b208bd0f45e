-- ===== src/Terminal/Dispatcher/Osc/Queries.antt =====
-- What a colour query sends on to the user's terminal: a query and nothing else.
use rmosh.Prelude.{
  ℕ, ◌≤◌, ◌≡◌, refl, sym, subst, ap, ◌∙◌, inl, inr, Bool, true, false, ◌||◌, ◌&&◌, none, some, List,
  [], ◌∷◌, ◌++◌, arith, All, ltb, ◌==◌, if◌then◌else◌, Bool-cases, ==_iff, Option-cases,
}
use mathlib.Core.Path.{ap₂}
use rmosh.Terminal.Text.{text_eq}
use rmosh.Terminal.Dispatcher.{split, split_segments}
use rmosh.Terminal.Dispatcher.Osc.{
  parse_printable_osc, split_once, palette_query, is_dynamic, is_query, is_question, quoted,
  parse_color_query, all_digits,
}

abbrev pub IsPrintable : ℕ → Type 0
IsPrintable c = (32 ≤ c) × (c ≤ 126)

abbrev pub IsDigit : ℕ → Type 0
IsDigit c = (48 ≤ c) × (c ≤ 57)

-- `index;?` again and again, an index being one digit or more.
pub data Palette : List ℕ → Type 0 where
  last :
      (c : ℕ) (index : List ℕ)
      → IsDigit c
      → All IsDigit index
      → Palette (c ∷ (index ++ b';' ∷ b'?' ∷ []))
  more :
      (c : ℕ) (index rest : List ℕ)
      → IsDigit c
      → All IsDigit index
      → Palette rest
      → Palette (c ∷ (index ++ (b';' ∷ b'?' ∷ b';' ∷ rest)))

-- `4;` and a palette query, or `1d;?`.
pub data Query : List ℕ → Type 0 where
  palette : (rest : List ℕ) → Palette rest → Query (b'4' ∷ b';' ∷ rest)
  dynamic : (c : ℕ) → IsDigit c → Query (b'1' ∷ c ∷ b';' ∷ b'?' ∷ [])

pub text_eq_sound : (a b : List ℕ) → text_eq a b ≡ true → a ≡ b
unfolding text_eq
text_eq_sound [] [] h = refl
text_eq_sound [] (b ∷ bs) h = cc
text_eq_sound (a ∷ as') [] h = cc
text_eq_sound (a ∷ as') (b ∷ bs) h = ground (arith, text_eq_sound as' bs)

-- The segments of a text, with a semicolon between them.
abbrev joined : List ℕ → List (List ℕ) → List ℕ
joined s [] = s
joined s (t ∷ ts) = s ++ (b';' ∷ joined t ts)

joined_cons : (c : ℕ) (s : List ℕ) (ts : List (List ℕ)) → joined (c ∷ s) ts ≡ c ∷ joined s ts
joined_cons c s [] = refl
joined_cons c s (t ∷ ts) = refl

joined-split : (s : List ℕ) → joined (split_segments s).0 (split_segments s).1 ≡ s
unfolding split_segments
joined-split [] = refl
joined-split (c ∷ cs) = elim (Bool-cases (c == b';')) [
  | inl e ↦ rw e (ap₂ (λ x y. x ∷ y) (sym ((==_iff c b';').0 e)) (joined-split cs))
  | inr e ↦ rw e (
      joined_cons c (split_segments cs).0 (split_segments cs).1 ∙ ap (λ t. c ∷ t) (joined-split cs))
]

split_once_sound : (s a b : List ℕ) → split_once s ≡ some (a, b) → s ≡ a ++ (b';' ∷ b)
unfolding split_once
split_once_sound [] a b h = cc
split_once_sound (c ∷ cs) a b h = elim (Bool-cases (c == b';')) [
  | inl e ↦
      let same : c ≡ b';' = (==_iff c b';').0 e in
      let now : some ([], cs) ≡ some (a, b) = rw e at h in
      let front : a ≡ [] = cc in let back : b ≡ cs = cc in rw (front, back, same)
  | inr e ↦ elim (Option-cases (split_once cs)) [
    | inl no_more ↦ let now : none ≡ some (a, b) = rw (e, no_more) at h in cc
    | inr (found, later) ↦
        let now : some (c ∷ found.0, found.1) ≡ some (a, b) = rw (e, later) at h in
        let front : a ≡ c ∷ found.0 = cc in
        let back : b ≡ found.1 = cc in
        rw (front, back) (ap (λ t. c ∷ t) (split_once_sound cs found.0 found.1 later))
  ]
]

all_digits_sound : (s : List ℕ) → all_digits s ≡ true → All IsDigit s
all_digits_sound [] h = tt
all_digits_sound (c ∷ cs) h = (ground arith, all_digits_sound cs (ground arith))

all_three : (a b c : Bool) → (a && b && c) ≡ true → (a ≡ true) × (b ≡ true) × (c ≡ true)
all_three true true true h = (refl, refl, refl)
all_three true true false h = cc
all_three true false c h = cc
all_three false b c h = cc

Palette-palette_query :
    (s : List ℕ) (ts : List (List ℕ)) → palette_query (s ∷ ts) ≡ true → Palette (joined s ts)
unfolding palette_query
Palette-palette_query s [] h = cc
Palette-palette_query [] (q ∷ fs) h = cc
Palette-palette_query (c ∷ cs) (q ∷ []) h =
    let parts = all_three (all_digits (c ∷ cs)) (is_question q) true h in
    let digits = all_digits_sound (c ∷ cs) parts.0 in
    rw (text_eq_sound q (b'?' ∷ []) parts.1) (last c cs digits.0 digits.1)
Palette-palette_query (c ∷ cs) (q ∷ f ∷ fs) h =
    let parts = all_three (all_digits (c ∷ cs)) (is_question q) (palette_query (f ∷ fs)) h in
    let digits = all_digits_sound (c ∷ cs) parts.0 in
    rw (text_eq_sound q (b'?' ∷ []) parts.1)
      (more c cs (joined f fs) digits.0 digits.1 (Palette-palette_query f fs parts.2))

dynamic_sound :
    (command rest : List ℕ)
    → is_dynamic command ≡ true
    → is_question rest ≡ true
    → Query (command ++ (b';' ∷ rest))
dynamic_sound [] rest h k = cc
dynamic_sound (a ∷ []) rest h k = cc
dynamic_sound (a ∷ b ∷ c ∷ cs) rest h k = cc
dynamic_sound (a ∷ b ∷ []) rest h k =
    let one : a ≡ b'1' = ground arith in
    rw (one, text_eq_sound rest (b'?' ∷ []) k) (dynamic b (ground arith))

Query-is_query :
    (command rest : List ℕ) → is_query command rest ≡ true → Query (command ++ (b';' ∷ rest))
Query-is_query command rest h = elim (Bool-cases (text_eq command (b'4' ∷ []))) [
  | inl four ↦
      let now : palette_query (split rest) ≡ true = rw four at h in
      let asks = Palette-palette_query (split_segments rest).0 (split_segments rest).1 now in
      rw (text_eq_sound command (b'4' ∷ []) four)
        (palette rest (subst Palette (joined-split rest) asks))
  | inr other ↦
      let now : (is_dynamic command && is_question rest) ≡ true = rw other at h in
      dynamic_sound command rest (ground arith) (ground arith)
]

parse_printable_osc_same :
    (osc body : List ℕ) → parse_printable_osc osc ≡ some body → (osc ≡ body) × All IsPrintable body
unfolding parse_printable_osc
parse_printable_osc_same [] body h = let e : body ≡ [] = cc in rw e (refl, tt)
parse_printable_osc_same (c ∷ cs) body h = elim (Option-cases (parse_printable_osc cs)) [
  | inl bad ↦
      let now : (if ltb c 32 || ltb 126 c then none else none) ≡ some body = rw bad at h in
      ground arith
  | inr (out, good) ↦
      let now : (if ltb c 32 || ltb 126 c then none else some (c ∷ out)) ≡ some body =
        rw good at h in
      let e : body ≡ c ∷ out = ground arith in
      let rest = parse_printable_osc_same cs out good in
      rw e (ap (λ t. c ∷ t) rest.0, (ground arith, rest.1))
]

-- Of a command that is taken for a colour query, what goes to the user's terminal is ESC ], the
-- command itself, which is printable throughout and nothing but queries, and ESC \.
pub parse_color_query_sound :
    (osc query : List ℕ)
    → parse_color_query osc ≡ some query
    → (query ≡ quoted osc) × All IsPrintable osc × Query osc
unfolding parse_color_query
parse_color_query_sound osc query h = elim (Option-cases (parse_printable_osc osc)) [
  | inl bad ↦ let now : none ≡ some query = rw bad at h in cc
  | inr (body, good) ↦ elim (Option-cases (split_once body)) [
    | inl one ↦ let now : none ≡ some query = rw (good, one) at h in cc
    | inr (parts, two) ↦
        let now : (if is_query parts.0 parts.1 then some (quoted body) else none) ≡ some query =
          rw (good, two) at h in
        let same = parse_printable_osc_same osc body good in
        let asks : is_query parts.0 parts.1 ≡ true = ground arith in
        let form = split_once_sound body parts.0 parts.1 two in
        let e : query ≡ quoted body = ground arith in
        rw same.0 (e, same.1, subst Query (sym form) (Query-is_query parts.0 parts.1 asks))
  ]
]
