-- ===== src/Terminal/Dispatcher/Tabbing.antt =====
-- crates/mosh-terminal/src/dispatcher.rs: where `ht_n` leaves the cursor.
use rmosh.Prelude.{
  ℕ, ◌+◌, ◌-◌, ◌≤◌, ◌<◌, ◌≡◌, refl, ◌⊎◌, inl, inr, true, false, some, arith, get_elem?, Succeeds,
  Succeeds-bind, sub_i32, minus_one, ◌==◌, if◌then◌else◌,
}
use rmosh.Terminal.DrawState.{DrawState, move_col, next_tab}
use rmosh.Terminal.DrawState.Bounds.{IsValid, placed-IsValid}
use rmosh.Terminal.DrawState.Cursor.{WithinLimits, snap_within}
use rmosh.Terminal.DrawState.Tabs.{NoStop, FirstStop, next_tab_lem}
use rmosh.Terminal.Dispatcher.Functions.{ht_n}

-- Column `c` is the first stop to the right of the cursor, or the last of the `w` columns where there
-- is none.
abbrev pub TabbedTo : ℕ → DrawState → ℕ → Type 0
TabbedTo w d c =
    ((c ≡ w - 1) × NoStop d.tabs (d.cursor_col + 1) w)
    ⊎ ((d.cursor_col + 1 ≤ c)
        × (c < w)
        × (get_elem? d.tabs c ≡ some true)
        × NoStop d.tabs (d.cursor_col + 1) c)

-- The draw state `d` with its cursor in column `c`, and the character to combine with there.
abbrev pub at_col : DrawState → ℕ → DrawState
at_col d c = record d { cursor_col = c; combining_char_col = c; combining_char_row = d.cursor_row }

moved :
    {w h : ℕ} (d : DrawState) (c : ℕ)
    → IsValid w h d
    → WithinLimits d
    → c < w
    → move_col c false false d ≡ some (record (at_col d c) { next_print_will_wrap = false })
unfolding move_col
moved {w} {h} d c v within lt =
    let there = record d { cursor_col = c } in
    rw (snap_within {w = w} {h = h} there (placed-IsValid d d.cursor_row c v.frame v.row lt) within)
      refl

target :
    {w h : ℕ} (d : DrawState) (col : ℕ)
    → IsValid w h d
    → FirstStop d.tabs (d.cursor_col + 1) w col
    → let c = if col == minus_one then sub_i32 d.width 1 else col in (c < w) × TabbedTo w d c
target {w} {h} d col v (inl (none_left, free)) =
    let past : (col == minus_one) ≡ true = ground arith in
    let last : sub_i32 d.width 1 ≡ w - 1 = omega arith in
    rw (past, last) (omega arith, inl (refl, free))
target {w} {h} d col v (inr (right, lt, on, free)) =
    let stop : (col == minus_one) ≡ false = ground arith in rw stop (lt, inr (right, lt, on, free))

-- On a valid screen with the cursor within the limits of its mode, one tab forwards does not panic
-- and moves the cursor to the first tab stop to the right of it, or to the last column when there is
-- none, and the place where combining characters go with it; it changes nothing else.
pub ht_n_lem :
    {w h : ℕ} (d : DrawState)
    → IsValid w h d
    → WithinLimits d
    → Succeeds (λ e. TabbedTo w d e.cursor_col × (e ≡ at_col d e.cursor_col)) (ht_n 1 d)
unfolding ht_n
ht_n_lem {w} {h} d v within =
    Succeeds-bind (FirstStop d.tabs (d.cursor_col + 1) w) _ (next_tab 1 d) _ (next_tab_lem d v)
      λ col first.
        let (lt, goal) = target d col v first in
        rw (moved d (if col == minus_one then sub_i32 d.width 1 else col) v within lt) (goal, refl)
