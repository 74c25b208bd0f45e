-- ===== src/Terminal/DrawState/Bounds.antt =====
-- The draw state of a screen of `w` columns and `h` rows: no operation panics, and the cursor, the
-- tab stops and the scrolling region stay within the screen.
use rmosh.Prelude.{
  ℕ, zero, suc, ◌+◌, ◌-◌, ◌^◌, ◌≤◌, ◌<◌, ◌≡◌, refl, Bool, true, false, some, List, [], ◌∷◌, arith,
  length, get_elem?, get_elem?-Succeeds, ◌&&◌, ◌==◌, replicate, resize_list, length-replicate,
  length-resize_list, ◌∙◌, le_i32, if◌then◌else◌, IsI32, Succeeds, Succeeds-bind, Succeeds-if,
  clamp_i32, clamp_i32-bounds, lt_i32, add_i32, sub_i32, rounds, as_usize, ap,
}
use rmosh.Terminal.DrawState.{
  DrawState, reinitialize_tabs, new_draw_state, limit_top, limit_bottom, snap_cursor_to_border,
  move_row, move_col, move_col_before, put_tab, set_tab, clear_tab, tab_ahead, tab_behind, next_tab,
  set_scrolling_region, corrected_region, save_cursor, restore_cursor, resize, resize_before,
  to_length,
}

-- All of it but the place of the cursor, which is some i32.
pub record Frames (w h : ℕ) (d : DrawState) : Type 0 where
  pub wide : d.width ≡ w
  pub high : d.height ≡ h
  pub w_pos : 0 < w
  pub h_pos : 0 < h
  pub w_max : w ≤ 2048
  pub h_max : h ≤ 2048
  pub tab_stops : length d.tabs ≡ w
  pub ordered : d.scrolling_region_top_row ≤ d.scrolling_region_bottom_row
  pub inside : d.scrolling_region_bottom_row < h
  pub col_i32 : IsI32 d.cursor_col
  pub row_i32 : IsI32 d.cursor_row
  pub comb_col : IsI32 d.combining_char_col
  pub comb_row : IsI32 d.combining_char_row
  pub saved_col : IsI32 d.save.cursor_col
  pub saved_row : IsI32 d.save.cursor_row

pub record IsValid (w h : ℕ) (d : DrawState) : Type 0 where
  pub frame : Frames w h d
  pub col : d.cursor_col < w
  pub row : d.cursor_row < h

module _ {w h : ℕ} where
  limits :
      (d : DrawState)
      → Frames w h d
      → (limit_top d ≤ limit_bottom d) × (limit_bottom d < h) × (limit_bottom d < 2 ^ 31)
  limits d f = ground arith

  last_col : (d : DrawState) → Frames w h d → (sub_i32 d.width 1 ≡ w - 1) × (w - 1 < 2 ^ 31)
  last_col d f = omega arith

  -- Only the cursor moves.
  pub placed-IsValid :
      (d : DrawState) (row col : ℕ)
      → Frames w h d
      → row < h
      → col < w
      → IsValid w h (record d { cursor_row = row; cursor_col = col })
  placed-IsValid d row col f r c = record {
    frame = record {
      wide = f.wide;
      high = f.high;
      w_pos = f.w_pos;
      h_pos = f.h_pos;
      w_max = f.w_max;
      h_max = f.h_max;
      tab_stops = f.tab_stops;
      ordered = f.ordered;
      inside = f.inside;
      col_i32 = omega arith;
      row_i32 = omega arith;
      comb_col = f.comb_col;
      comb_row = f.comb_row;
      saved_col = f.saved_col;
      saved_row = f.saved_row;
    };
    col = c;
    row = r;
  }

  pub snap_cursor_to_border-IsValid :
      (d : DrawState) → Frames w h d → Succeeds (IsValid w h) (snap_cursor_to_border d)
  unfolding snap_cursor_to_border
  snap_cursor_to_border-IsValid d f =
      let (order, below, small) = limits d f in
      let (last, narrow) = last_col d f in
      Succeeds-bind (λ y. (limit_top d ≤ y) × (y ≤ limit_bottom d)) (IsValid w h)
        (clamp_i32 d.cursor_row (limit_top d) (limit_bottom d)) _
        (clamp_i32-bounds d.cursor_row (limit_top d) (limit_bottom d) f.row_i32 order small)
        λ row hr.
          Succeeds-bind (λ y. (0 ≤ y) × (y ≤ sub_i32 d.width 1)) (IsValid w h)
            (clamp_i32 d.cursor_col 0 (sub_i32 d.width 1)) _
            (clamp_i32-bounds d.cursor_col 0 (sub_i32 d.width 1) f.col_i32 (omega arith)
              (omega arith))
            λ col hc. placed-IsValid d row col f (omega arith) (omega arith)

  pub move_row-IsValid :
      (n : ℕ) (relative : Bool) (d : DrawState)
      → IsValid w h d
      → Succeeds (IsValid w h) (move_row n relative d)
  unfolding move_row
  move_row-IsValid n true d v =
      Succeeds-bind (IsValid w h) (IsValid w h) _ _
        (snap_cursor_to_border-IsValid (record d { cursor_row = add_i32 d.cursor_row n })
          (ground arith))
        λ e he. ground arith
  move_row-IsValid n false d v =
      Succeeds-bind (IsValid w h) (IsValid w h) _ _
        (snap_cursor_to_border-IsValid (record d { cursor_row = add_i32 n (limit_top d) })
          (ground arith))
        λ e he. ground arith

  pub move_col-IsValid :
      (n : ℕ) (relative implicit : Bool) (d : DrawState)
      → IsI32 n
      → IsValid w h d
      → Succeeds (IsValid w h) (move_col n relative implicit d)
  unfolding move_col
  move_col-IsValid n true true d i v =
      Succeeds-bind (IsValid w h) (IsValid w h) _ _
        (snap_cursor_to_border-IsValid (move_col_before n true true d) (ground arith))
        λ e he. ground arith
  move_col-IsValid n true false d i v =
      Succeeds-bind (IsValid w h) (IsValid w h) _ _
        (snap_cursor_to_border-IsValid (move_col_before n true false d) (ground arith))
        λ e he. ground arith
  move_col-IsValid n false true d i v =
      Succeeds-bind (IsValid w h) (IsValid w h) _ _
        (snap_cursor_to_border-IsValid (move_col_before n false true d) (ground arith))
        λ e he. ground arith
  move_col-IsValid n false false d i v =
      Succeeds-bind (IsValid w h) (IsValid w h) _ _
        (snap_cursor_to_border-IsValid (move_col_before n false false d) (ground arith))
        λ e he. ground arith

  high_enough : (d : DrawState) → IsValid w h d → lt_i32 d.height 1 ≡ false
  high_enough d v = ground arith

  pub set_scrolling_region-IsValid :
      (top bottom : ℕ) (d : DrawState)
      → top < h
      → IsI32 bottom
      → IsValid w h d
      → Succeeds (IsValid w h) (set_scrolling_region top bottom d)
  unfolding set_scrolling_region
  set_scrolling_region-IsValid top bottom d t b v =
      let e = corrected_region top bottom d in
      let fe : Frames w h e = ground arith in
      Succeeds-if (IsValid w h) (lt_i32 d.height 1) _ _ (λ low. cc (high_enough d v))
        λ high.
          Succeeds-if (IsValid w h) e.origin_mode _ _
            (λ origin.
              Succeeds-bind (IsValid w h) (IsValid w h) _ _ (snap_cursor_to_border-IsValid e fe)
                (λ g hg. ground arith))
            λ plain. ground arith

  pub save_cursor-IsValid : (d : DrawState) → IsValid w h d → IsValid w h (save_cursor d)
  unfolding save_cursor
  save_cursor-IsValid d v = ground arith

  pub restore_cursor-IsValid :
      (d : DrawState) → IsValid w h d → Succeeds (IsValid w h) (restore_cursor d)
  unfolding restore_cursor
  restore_cursor-IsValid d v =
      Succeeds-bind (IsValid w h) (IsValid w h) _ _ (snap_cursor_to_border-IsValid _ (ground arith))
        λ e he. ground arith

pub length-put_tab : (ts : List Bool) (i : ℕ) (v : Bool) → length (put_tab ts i v) ≡ length ts
unfolding put_tab
length-put_tab [] i v = refl
length-put_tab (t ∷ ts) zero v = refl
length-put_tab (t ∷ ts) (suc i) v = ap suc (length-put_tab ts i v)

pub length-reinitialize_tabs :
    (start i : ℕ) (ts : List Bool) → length (reinitialize_tabs start i ts) ≡ length ts
unfolding reinitialize_tabs
length-reinitialize_tabs start i [] = refl
length-reinitialize_tabs start i (t ∷ ts) = ap suc (length-reinitialize_tabs start (i + 1) ts)

-- The columns that are looked at exist, so the search does not panic.
tab_ahead_total :
    (tabs : List Bool) (i n count : ℕ)
    → i + n ≤ length tabs
    → length tabs ≤ 2048
    → Succeeds IsI32 (tab_ahead tabs i n count)
unfolding tab_ahead
tab_ahead_total tabs i zero count fits few = omega arith
tab_ahead_total tabs i (suc n) count fits few =
    let place : as_usize i ≡ i = ground arith in
    let next : add_i32 i 1 ≡ i + 1 = omega arith in
    rw (place, next)
      (Succeeds-bind (λ _. Unit {0}) IsI32 (get_elem? tabs i) _
        (get_elem?-Succeeds tabs i (omega arith))
        λ stop _.
          let left = if stop then sub_i32 count 1 else count in
          Succeeds-if IsI32 (stop && left == 0) (some i) _ (λ here. omega arith)
            (λ on. tab_ahead_total tabs (i + 1) n left (omega arith) few))

tab_behind_total :
    (tabs : List Bool) (i count : ℕ)
    → i < length tabs
    → length tabs ≤ 2048
    → Succeeds IsI32 (tab_behind tabs i count)
unfolding tab_behind
tab_behind_total tabs zero count fits few = omega arith
tab_behind_total tabs (suc i) count fits few =
    Succeeds-bind (λ _. Unit {0}) IsI32 (get_elem? tabs (suc i)) _
      (get_elem?-Succeeds tabs (suc i) fits)
      λ stop _.
        let left = if stop then add_i32 count 1 else count in
        Succeeds-if IsI32 (stop && left == 0) (some (suc i)) _ (λ here. omega arith)
          (λ on. tab_behind_total tabs i left (omega arith) few)

module _ {w h : ℕ} where
  pub set_tab-IsValid : (d : DrawState) → IsValid w h d → IsValid w h (set_tab d)
  unfolding set_tab
  set_tab-IsValid d v = ground (arith, length-put_tab d.tabs (as_usize d.cursor_col) true)

  pub clear_tab-IsValid : (col : ℕ) (d : DrawState) → IsValid w h d → IsValid w h (clear_tab col d)
  unfolding clear_tab
  clear_tab-IsValid col d v = ground (arith, length-put_tab d.tabs col false)

  pub next_tab-IsI32 :
      (count : ℕ) (d : DrawState) → IsValid w h d → Succeeds IsI32 (next_tab count d)
  unfolding next_tab
  next_tab-IsI32 count d v =
      Succeeds-if IsI32 (le_i32 0 count) _ _
        (λ up.
          tab_ahead_total d.tabs (add_i32 d.cursor_col 1) (rounds (add_i32 d.cursor_col 1) d.width)
            count (ground arith) (omega arith))
        (λ down.
          tab_behind_total d.tabs
            (if lt_i32 0 (sub_i32 d.cursor_col 1) then sub_i32 d.cursor_col 1 else 0) count
            (ground arith) (omega arith))

pub new_draw_state-IsValid :
    (w h : ℕ) → 0 < w → w ≤ 2048 → 0 < h → h ≤ 2048 → IsValid w h (new_draw_state w h)
unfolding new_draw_state
new_draw_state-IsValid w h w0 w1 h0 h1 =
    let small : to_length w ≡ w = ground arith in
    let stops : length (reinitialize_tabs 0 0 (replicate (to_length w) false)) ≡ w =
      length-reinitialize_tabs 0 0 (replicate (to_length w) false)
      ∙ length-replicate (to_length w) false
      ∙ small in
    ground arith

resized_tabs : (w : ℕ) (d : DrawState) → w ≤ 2048 → length (resize_before w d.height d).tabs ≡ w
resized_tabs w d small =
    let kept : length (resize_list d.tabs (to_length w) false) ≡ w =
      length-resize_list d.tabs (to_length w) false ∙ ground arith in
    let set =
      length-reinitialize_tabs (to_length d.width) 0 (resize_list d.tabs (to_length w) false) in
    ground arith

pub resize-IsValid :
    {w h : ℕ} (w' h' : ℕ) (d : DrawState)
    → 0 < w'
    → w' ≤ 2048
    → 0 < h'
    → h' ≤ 2048
    → IsValid w h d
    → Succeeds (IsValid w' h') (resize w' h' d)
unfolding resize
resize-IsValid {w} {h} w' h' d w0 w1 h0 h1 v =
    Succeeds-bind (IsValid w' h') (IsValid w' h') _ _
      (snap_cursor_to_border-IsValid (resize_before w' h' d)
        (let stops = resized_tabs w' d w1 in ground arith))
      λ e he. ground arith
