-- ===== src/Terminal/DrawState/Tabs.antt =====
-- Where a horizontal tab goes.
use rmosh.Prelude.{
  ℕ, zero, suc, ◌+◌, ◌≤◌, ◌<◌, ◌≡◌, refl, ◌⊎◌, inl, inr, Bool, true, false, some, List, [], ◌∷◌,
  arith, length, get_elem?, Succeeds, Succeeds-map, subst, ◌-◌, add_i32, as_usize, minus_one,
  rounds,
}
use native.Mathlib.Decide.{ℕ_discrete}
use rmosh.Terminal.DrawState.{DrawState, tab_ahead, next_tab}
use rmosh.Terminal.DrawState.Bounds.{IsValid}

-- No stop stands from `i` up to `j`.
abbrev pub NoStop : List Bool → ℕ → ℕ → Type 0
NoStop tabs i j = (k : ℕ) → i ≤ k → k < j → get_elem? tabs k ≡ some false

-- The answer is the first stop from `i` on, or -1 where there is none before `j`.
abbrev pub FirstStop : List Bool → ℕ → ℕ → ℕ → Type 0
FirstStop tabs i j c =
    ((c ≡ minus_one) × NoStop tabs i j)
    ⊎ ((i ≤ c) × (c < j) × (get_elem? tabs c ≡ some true) × NoStop tabs i c)

earlier :
    (tabs : List Bool) (i j : ℕ)
    → get_elem? tabs i ≡ some false
    → NoStop tabs (i + 1) j
    → NoStop tabs i j
earlier tabs i j off none_after k lo hi = elim (ℕ_discrete i k) [
  | yes e ↦ rw (← e) off
  | no ne ↦ none_after k (omega arith) hi
]

later :
    (tabs : List Bool) (i j c : ℕ)
    → get_elem? tabs i ≡ some false
    → FirstStop tabs (i + 1) j c
    → FirstStop tabs i j c
later tabs i j c off (inl (e, free)) = inl (e, earlier tabs i j off free)
later tabs i j c off (inr (lo, hi, on, free)) = inr (omega arith, hi, on, earlier tabs i c off free)

stop_at :
    (tabs : List Bool) (i : ℕ)
    → i < length tabs
    → (get_elem? tabs i ≡ some true) ⊎ (get_elem? tabs i ≡ some false)
stop_at [] i h = absurd (omega arith)
stop_at (true ∷ ts) zero h = inl refl
stop_at (false ∷ ts) zero h = inr refl
stop_at (t ∷ ts) (suc i) h = stop_at ts i (omega arith)

tab_ahead_lem :
    (tabs : List Bool) (i n : ℕ)
    → i + n ≤ length tabs
    → length tabs ≤ 2048
    → Succeeds (FirstStop tabs i (i + n)) (tab_ahead tabs i n 1)
unfolding tab_ahead
tab_ahead_lem tabs i zero fits few = inl (refl, λ k lo hi. absurd (omega arith))
tab_ahead_lem tabs i (suc n) fits few =
    let place : as_usize i ≡ i = ground arith in
    let next : add_i32 i 1 ≡ i + 1 = omega arith in
    let all : i + 1 + n ≡ i + suc n = omega arith in
    elim (stop_at tabs i (omega arith)) [
      | inl on ↦
          rw (place, on) (inr (omega arith, omega arith, on, λ k lo hi. absurd (omega arith)))
      | inr off ↦
          rw (place, off, next)
            (Succeeds-map (FirstStop tabs (i + 1) (i + 1 + n)) (FirstStop tabs i (i + suc n))
              (tab_ahead tabs (i + 1) n 1)
              (λ c first. rw (← all) (later tabs i (i + 1 + n) c off first))
              (tab_ahead_lem tabs (i + 1) n (omega arith) few))
    ]

-- On a valid screen, `next_tab 1` is the first tab stop to the right of the cursor, or -1 exactly when
-- there is none before the right edge.
pub next_tab_lem :
    {w h : ℕ} (d : DrawState)
    → IsValid w h d
    → Succeeds (FirstStop d.tabs (d.cursor_col + 1) w) (next_tab 1 d)
unfolding next_tab
next_tab_lem {w} {h} d v =
    let from : add_i32 d.cursor_col 1 ≡ d.cursor_col + 1 = ground arith in
    let many : rounds (d.cursor_col + 1) d.width ≡ w - (d.cursor_col + 1) = ground arith in
    let to : d.cursor_col + 1 + (w - (d.cursor_col + 1)) ≡ w = ground arith in
    rw (from, many)
      (subst
        (λ n.
          Succeeds (FirstStop d.tabs (d.cursor_col + 1) n)
            (tab_ahead d.tabs (d.cursor_col + 1) (w - (d.cursor_col + 1)) 1))
        to
        (tab_ahead_lem d.tabs (d.cursor_col + 1) (w - (d.cursor_col + 1)) (ground arith)
          (ground arith)))
