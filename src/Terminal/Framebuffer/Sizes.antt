-- ===== src/Terminal/Framebuffer/Sizes.antt =====
-- Making, resetting and resizing a framebuffer: whatever size is asked for, the screen has from 1 to
-- 2048 columns and rows, as many rows as it has lines and as many cells in each as it has columns.
use rmosh.Prelude.{
  ℕ, zero, suc, ◌≤◌, ◌<◌, ◌≡◌, refl, ◌∙◌, inl, inr, Bool, true, false, List, [], ◌∷◌, map, arith,
  length, length-append, length-take, length-drop, length-replicate, length-resize_list, All,
  All-append, All-replicate, take, drop, drop_all, subst, replicate, resize_list, min, IsI32,
  Succeeds, Succeeds-bind, sub_i32, as_usize, ◌==◌, if◌then◌else◌, Bool-cases,
}
use rmosh.Terminal.Cell.{Row, new_cell, new_row, set_row_wrap}
use rmosh.Terminal.DrawState.{DrawState, new_draw_state}
use rmosh.Terminal.DrawState
use rmosh.Terminal.DrawState.Bounds.{
  new_draw_state-IsValid, set_scrolling_region-IsValid, resize-IsValid,
}
use rmosh.Terminal.DrawState.Bounds
use rmosh.Terminal.Framebuffer.{
  Framebuffer, newrow, reset, soft_reset, clamp_dimension, new_framebuffer, resize_row, resize_rows,
  resized, resize,
}
use rmosh.Terminal.Framebuffer.Bounds.{HasWidth, IsValid}
use rmosh.Terminal.Framebuffer.Cells.{length-map}

pub clamp_dimension_bounds :
    (x : ℕ) → IsI32 x → (0 < clamp_dimension x) × (clamp_dimension x ≤ 2048)
unfolding clamp_dimension
clamp_dimension_bounds x i = ground arith

plain : (n : ℕ) → n ≤ 2048 → as_usize n ≡ n
plain n h = ground arith

-- The rows of a screen of one kind of row.
uniform :
    (w h : ℕ) (r : Row)
    → HasWidth w r
    → (length (replicate h r) ≡ h) × All (HasWidth w) (replicate h r)
uniform w h r hr = (length-replicate h r, All-replicate (HasWidth w) h r hr)

pub new_framebuffer-IsValid :
    (gen width height : ℕ)
    → IsI32 width
    → IsI32 height
    → IsValid (clamp_dimension width) (clamp_dimension height) (new_framebuffer gen width height)
unfolding new_framebuffer
new_framebuffer-IsValid gen width height i j =
    let w = clamp_dimension width in
    let h = clamp_dimension height in
    let (w0, w1) = clamp_dimension_bounds width i in
    let (h0, h1) = clamp_dimension_bounds height j in
    let same_w = plain w w1 in
    let same_h = plain h h1 in
    let rows =
      uniform w h (new_row gen (as_usize w) 0)
        (length-replicate (as_usize w) (new_cell 0) ∙ same_w) in
    record {
      state = new_draw_state-IsValid w h w0 w1 h0 h1;
      count = rw same_h rows.0;
      widths = rw same_h rows.1;
    }

module _ {w h : ℕ} where
  renewed :
      (width height : ℕ)
      → width ≡ w
      → height ≡ h
      → 0 < w
      → w ≤ 2048
      → 0 < h
      → h ≤ 2048
      → DrawState.Bounds.IsValid w h (new_draw_state width height)
  renewed width height e f w0 w1 h0 h1 = rw (e, f) (new_draw_state-IsValid w h w0 w1 h0 h1)

  pub reset-IsValid : (fb : Framebuffer) → IsValid w h fb → IsValid w h (reset fb)
  unfolding reset new_draw_state
  reset-IsValid fb v =
      let fresh = record fb { ds = new_draw_state fb.ds.width fb.ds.height } in
      let f = v.state.frame in
      let good = renewed fb.ds.width fb.ds.height f.wide f.high f.w_pos f.w_max f.h_pos f.h_max in
      let many : as_usize fb.ds.height ≡ h = ground arith in
      let wide : as_usize fresh.ds.width ≡ w = ground arith in
      let rows = uniform w h (newrow fresh) (
        length-replicate (as_usize fresh.ds.width) (new_cell fresh.ds.renditions.background_color)
        ∙ wide) in
      record { state = good; count = rw many rows.0; widths = rw many rows.1 }

  pub soft_reset-IsValid :
      (d : DrawState)
      → DrawState.Bounds.IsValid w h d
      → Succeeds (DrawState.Bounds.IsValid w h) (soft_reset d)
  unfolding soft_reset
  soft_reset-IsValid d v =
      Succeeds-bind (DrawState.Bounds.IsValid w h) (DrawState.Bounds.IsValid w h) _ _
        (set_scrolling_region-IsValid 0 (sub_i32 d.height 1) _ v.frame.h_pos (omega arith)
          (ground arith))
        (λ e he. ground arith)

All-map-resized : (w bg : ℕ) (rows : List Row) → All (HasWidth w) (map (resize_row w bg) rows)
All-map-resized w bg [] = tt
All-map-resized w bg (r ∷ rs) =
    (length-resize_list (set_row_wrap false r.cells) w (new_cell bg), All-map-resized w bg rs)

resized_rows :
    (w kept bg : ℕ) (rows : List Row)
    → All (HasWidth w) (drop kept rows)
    → All (HasWidth w) (resize_rows kept w bg rows)
resized_rows w kept bg rows new =
    All-append (HasWidth w) (map (resize_row w bg) (take kept rows)) (drop kept rows)
      (All-map-resized w bg (take kept rows)) new

length-resize_rows :
    (kept w bg : ℕ) (rows : List Row) → length (resize_rows kept w bg rows) ≡ length rows
length-resize_rows kept w bg rows =
    length-append (map (resize_row w bg) (take kept rows)) (drop kept rows)
    ∙ omega (
      arith,
      length-map (resize_row w bg) (take kept rows),
      length-take kept rows,
      length-drop kept rows,
    )

-- What lies beyond the rows that were there are copies of the blank row.
drop-resize_list :
    {A : Type 0} (P : A → Type 0) (xs : List A) (n : ℕ) (a : A)
    → P a
    → All P (drop (min (length xs) n) (resize_list xs n a))
unfolding resize_list
drop-resize_list P [] zero a h = tt
drop-resize_list P (x ∷ xs) zero a h =
    let none_left : min (suc (length xs)) 0 ≡ 0 = omega arith in rw none_left tt
drop-resize_list P [] (suc n) a h =
    let none_left : min 0 (suc n) ≡ 0 = omega arith in rw none_left (h, All-replicate P n a h)
drop-resize_list P (x ∷ xs) (suc n) a h =
    let one_more : min (suc (length xs)) (suc n) ≡ suc (min (length xs) n) = omega arith in
    rw one_more (drop-resize_list P xs n a h)

All-resize_list :
    {A : Type 0} (P : A → Type 0) (xs : List A) (n : ℕ) (a : A)
    → P a
    → All P xs
    → All P (resize_list xs n a)
unfolding resize_list
All-resize_list P [] zero a h k = tt
All-resize_list P (x ∷ xs) zero a h k = tt
All-resize_list P [] (suc n) a h k = (h, All-replicate P n a h)
All-resize_list P (x ∷ xs) (suc n) a h k = (k.0, All-resize_list P xs n a h k.1)

-- The rows that `resized` leaves, the old ones having the width `w`.
module _ (w w' h' bg : ℕ) (rows : List Row) (blank : Row) (old : All (HasWidth w) rows)
    (fresh : HasWidth w' blank) where
  same_rows :
      (narrow : Bool)
      → (narrow ≡ true → w ≡ w')
      → All (HasWidth w') (if narrow then rows else resize_rows (length rows) w' bg rows)
  same_rows true e = subst (λ n. All (HasWidth n) rows) (e refl) old
  same_rows false e =
      resized_rows w' (length rows) bg rows (rw (drop_all (length rows) rows (omega arith)) tt)

  more_rows :
      (narrow : Bool)
      → (narrow ≡ true → w ≡ w')
      → let longer = resize_list rows h' blank in
        All
          (HasWidth w')
          (if narrow then longer else resize_rows (min (length rows) h') w' bg longer)
  more_rows true e =
      All-resize_list (HasWidth w') rows h' blank fresh
        (subst (λ n. All (HasWidth n) rows) (e refl) old)
  more_rows false e =
      resized_rows w' (min (length rows) h') bg (resize_list rows h' blank)
        (drop-resize_list (HasWidth w') rows h' blank fresh)

  length_unless :
      (narrow : Bool) (kept : ℕ) (rs : List Row)
      → length (if narrow then rs else resize_rows kept w' bg rs) ≡ length rs
  length_unless true kept rs = refl
  length_unless false kept rs = length-resize_rows kept w' bg rs

resized-IsValid :
    {w h : ℕ} (w' h' : ℕ) (fb : Framebuffer) (d : DrawState)
    → IsValid w h fb
    → DrawState.Bounds.IsValid w' h' d
    → IsValid w' h' (resized w' h' fb d)
resized-IsValid {w} {h} w' h' fb d v good =
    let fresh = record fb { ds = d } in
    let bg = d.renditions.background_color in
    let many : as_usize h' ≡ h' = plain h' good.frame.h_max in
    let narrow : ((fb.ds.width == w') ≡ true) → w ≡ w' =
      λ (e : (fb.ds.width == w') ≡ true). ground arith in
    let blank : HasWidth w' (newrow fresh) =
      length-replicate (as_usize d.width) (new_cell bg) ∙ ground arith in
    let wide : as_usize w' ≡ w' = plain w' good.frame.w_max in
    elim (Bool-cases (fb.ds.height == h')) [
      | inl same ↦
          let e : h ≡ h' = ground arith in
          record {
            state = good;
            count =
                rw (same, wide)
                  (length_unless w w' h' bg fb.rows (newrow fresh) v.widths blank
                      (fb.ds.width == w') (length fb.rows) fb.rows
                    ∙ v.count
                    ∙ e);
            widths =
                rw (same, wide)
                  (same_rows w w' h' bg fb.rows (newrow fresh) v.widths blank (fb.ds.width == w')
                    narrow);
          }
      | inr other ↦ record {
        state = good;
        count =
            rw (other, wide, many)
              (length_unless w w' h' bg fb.rows (newrow fresh) v.widths blank (fb.ds.width == w')
                  (min (length fb.rows) h') (resize_list fb.rows h' (newrow fresh))
                ∙ length-resize_list fb.rows h' (newrow fresh));
        widths =
            rw (other, wide, many)
              (more_rows w w' h' bg fb.rows (newrow fresh) v.widths blank (fb.ds.width == w')
                narrow);
      }
    ]

-- Whatever size is asked for, resizing a valid screen succeeds, and gives a valid screen of the
-- clamped size.
pub resize_lem :
    {w h : ℕ} (width height : ℕ) (fb : Framebuffer)
    → IsI32 width
    → IsI32 height
    → IsValid w h fb
    → Succeeds (IsValid (clamp_dimension width) (clamp_dimension height)) (resize width height fb)
unfolding resize
resize_lem width height fb i j v =
    let w' = clamp_dimension width in
    let h' = clamp_dimension height in
    let (w0, w1) = clamp_dimension_bounds width i in
    let (h0, h1) = clamp_dimension_bounds height j in
    Succeeds-bind (DrawState.Bounds.IsValid w' h') (IsValid w' h') (DrawState.resize w' h' fb.ds) _
      (resize-IsValid w' h' fb.ds w0 w1 h0 h1 v.state) (λ d hd. resized-IsValid w' h' fb d v hd)
