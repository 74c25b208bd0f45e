-- ===== src/Terminal/DrawState/Cursor.antt =====
-- Saving the cursor and restoring it.
use rmosh.Prelude.{ℕ, ◌≤◌, ◌<◌, ◌≡◌, ap, Bool, some, arith, sub_i32, clamp_i32}
use rmosh.Terminal.Renditions.{Renditions}
use rmosh.Terminal.DrawState.{
  DrawState, SavedCursor, save_cursor, restore_cursor, snap_cursor_to_border, new_grapheme,
  limit_top, limit_bottom,
}
use rmosh.Terminal.DrawState.Bounds.{IsValid}

-- The cursor is within the limits of its mode.
abbrev pub WithinLimits : DrawState → Type 0
WithinLimits d = (limit_top d ≤ d.cursor_row) × (d.cursor_row ≤ limit_bottom d)

clamp_i32_within : (x lo hi : ℕ) → lo ≤ x → x ≤ hi → hi < 2048 → clamp_i32 x lo hi ≡ some x
unfolding clamp_i32
clamp_i32_within x lo hi a b c = ground arith

pub snap_within :
    {w h : ℕ} (d : DrawState) → IsValid w h d → WithinLimits d → snap_cursor_to_border d ≡ some d
unfolding snap_cursor_to_border
snap_within {w} {h} d v within = rw (
  clamp_i32_within d.cursor_row (limit_top d) (limit_bottom d) within.0 within.1 (ground arith),
  clamp_i32_within d.cursor_col 0 (sub_i32 d.width 1) (omega arith) (ground arith) (ground arith),
)

restored :
    (e : DrawState) (col row : ℕ) (look : Renditions) (wrap origin : Bool)
    → e.save.cursor_col ≡ col
    → e.save.cursor_row ≡ row
    → e.save.renditions ≡ look
    → e.save.auto_wrap_mode ≡ wrap
    → e.save.origin_mode ≡ origin
    → let back = record e {
      cursor_col = col;
      cursor_row = row;
      renditions = look;
      auto_wrap_mode = wrap;
      origin_mode = origin;
    } in
      snap_cursor_to_border back ≡ some back → restore_cursor e ≡ some (new_grapheme back)
unfolding restore_cursor
restored e col row look wrap origin ec er el ew eo snapped = ground arith

-- A cursor that is within its limits, saved on a valid screen and restored on any valid one of the
-- same size and margins, however the cursor, the renditions and the modes have changed since, comes
-- back with its place, renditions and modes.
pub restore_cursor-save_cursor :
    {w h : ℕ} (d e : DrawState)
    → IsValid w h d
    → IsValid w h e
    → WithinLimits d
    → e.save ≡ (save_cursor d).save
    → e.scrolling_region_top_row ≡ d.scrolling_region_top_row
    → e.scrolling_region_bottom_row ≡ d.scrolling_region_bottom_row
    → restore_cursor e
      ≡ some (
          new_grapheme (record e {
            cursor_col = d.cursor_col;
            cursor_row = d.cursor_row;
            renditions = d.renditions;
            auto_wrap_mode = d.auto_wrap_mode;
            origin_mode = d.origin_mode;
          }))
unfolding restore_cursor save_cursor
restore_cursor-save_cursor {w} {h} d e v u within saved top bottom =
    let back = record e {
      cursor_col = d.cursor_col;
      cursor_row = d.cursor_row;
      renditions = d.renditions;
      auto_wrap_mode = d.auto_wrap_mode;
      origin_mode = d.origin_mode;
    } in
    let snapped = snap_within {w = w} {h = h} back (ground arith) (ground arith) in
    let col : e.save.cursor_col ≡ d.cursor_col = ap (λ (t : SavedCursor). t.cursor_col) saved in
    let row : e.save.cursor_row ≡ d.cursor_row = ap (λ (t : SavedCursor). t.cursor_row) saved in
    let look : e.save.renditions ≡ d.renditions = ap (λ (t : SavedCursor). t.renditions) saved in
    let wrap : e.save.auto_wrap_mode ≡ d.auto_wrap_mode =
      ap (λ (t : SavedCursor). t.auto_wrap_mode) saved in
    let origin : e.save.origin_mode ≡ d.origin_mode =
      ap (λ (t : SavedCursor). t.origin_mode) saved in
    restored e d.cursor_col d.cursor_row d.renditions d.auto_wrap_mode d.origin_mode col row look
      wrap origin snapped
