-- ===== src/Terminal/Framebuffer/Bounds.antt =====
-- A framebuffer of `w` columns and `h` rows stays one under every operation, none of which panics.
use rmosh.Prelude.{
  ℕ, ◌+◌, ◌-◌, ◌^◌, ◌≤◌, ◌<◌, ◌≡◌, refl, ◌∙◌, true, ◌||◌, Option, none, some, List, ◌++◌, arith,
  length, length-append, length-take, length-drop, length-replicate, All, All-take, All-drop, take,
  drop, replicate, IsI32, Succeeds, Succeeds-bind, Succeeds-if, All-append, All-replicate, lt_i32,
  le_i32, add_i32, sub_i32, neg_i32, as_usize, ltb,
}
use rmosh.Terminal.Cell.{Row, new_cell}
use rmosh.Terminal.DrawState.{DrawState}
use rmosh.Terminal.DrawState
use rmosh.Terminal.DrawState.Bounds.{move_row-IsValid}
use rmosh.Terminal.DrawState.Bounds
use rmosh.Terminal.Framebuffer.{
  Framebuffer, newrow, with_ds, drain, splice, lines_moved, insert_lines, insert_line, delete_lines,
  delete_line, scroll, scroll_back, move_rows_autoscroll,
}

abbrev pub HasWidth : ℕ → Row → Type 0
HasWidth w r = length r.cells ≡ w

pub record IsValid (w h : ℕ) (fb : Framebuffer) : Type 0 where
  pub state : DrawState.Bounds.IsValid w h fb.ds
  pub count : length fb.rows ≡ h
  pub widths : All (HasWidth w) fb.rows

module _ {A : Type 0} (P : A → Type 0) where
  drain-All :
      (lo n : ℕ) (xs : List A)
      → All P xs
      → lo + n ≤ length xs
      → Succeeds (λ ys. (length ys + n ≡ length xs) × All P ys) (drain lo (lo + n) xs)
  unfolding drain
  drain-All lo n xs h fits =
      Succeeds-if _ (ltb (lo + n) lo || ltb (length xs) (lo + n)) none _
        (λ bad. absurd (ground arith))
        λ good. (
          rw (length-append (take lo xs) (drop (lo + n) xs))
              (omega (arith, length-take lo xs, length-drop (lo + n) xs)),
          All-append P (take lo xs) (drop (lo + n) xs) (All-take P lo xs h)
              (All-drop P (lo + n) xs h),
        )

  splice-All :
      (at : ℕ) (ys xs : List A)
      → All P xs
      → All P ys
      → at ≤ length xs
      → Succeeds (λ zs. (length zs ≡ length xs + length ys) × All P zs) (splice at ys xs)
  unfolding splice
  splice-All at ys xs h k fits =
      Succeeds-if _ (ltb (length xs) at) none _ (λ bad. absurd (ground arith))
        λ good. (
          rw (length-append (take at xs) (ys ++ drop at xs), length-append ys (drop at xs))
              (omega (arith, length-take at xs, length-drop at xs)),
          All-append P (take at xs) (ys ++ drop at xs) (All-take P at xs h)
              (All-append P ys (drop at xs) k (All-drop P at xs h)),
        )

lines_moved_few :
    (room count s : ℕ) → room < 2 ^ 31 → IsI32 count → lines_moved room count ≡ some s → s ≤ room
lines_moved_few room count s small i e = ground arith

module _ {w h : ℕ} where
  newrow-HasWidth : (fb : Framebuffer) → IsValid w h fb → HasWidth w (newrow fb)
  newrow-HasWidth fb v =
      length-replicate (as_usize fb.ds.width) (new_cell fb.ds.renditions.background_color)
      ∙ ground arith

  -- A step of the draw state that keeps it valid.
  pub with_ds-IsValid :
      (f : DrawState → Option DrawState) (fb : Framebuffer)
      → IsValid w h fb
      → Succeeds (DrawState.Bounds.IsValid w h) (f fb.ds)
      → Succeeds (IsValid w h) (with_ds f fb)
  with_ds-IsValid f fb v good =
      Succeeds-bind (DrawState.Bounds.IsValid w h) (IsValid w h) (f fb.ds) _ good
        (λ d hd. record { state = hd; count = v.count; widths = v.widths })

  insert_lines-IsValid :
      (before_row scroll : ℕ) (fb : Framebuffer)
      → IsValid w h fb
      → before_row + scroll ≤ fb.ds.scrolling_region_bottom_row + 1
      → Succeeds (IsValid w h) (insert_lines before_row fb (some scroll))
  insert_lines-IsValid before_row scroll fb v fits =
      let bottom = fb.ds.scrolling_region_bottom_row in
      let start : as_usize (sub_i32 (add_i32 bottom 1) scroll) ≡ bottom + 1 - scroll =
        ground arith in
      let many : as_usize scroll ≡ scroll = ground arith in
      let at : as_usize before_row ≡ before_row = ground arith in
      rw (start, many, at)
        (Succeeds-bind _ (IsValid w h)
          (drain (bottom + 1 - scroll) (bottom + 1 - scroll + scroll) fb.rows) _
          (drain-All (HasWidth w) (bottom + 1 - scroll) scroll fb.rows v.widths (omega arith))
          λ kept hk.
            Succeeds-bind _ (IsValid w h) (splice before_row (replicate scroll (newrow fb)) kept) _
              (splice-All (HasWidth w) before_row (replicate scroll (newrow fb)) kept hk.1
                (All-replicate (HasWidth w) scroll (newrow fb) (newrow-HasWidth fb v))
                (omega arith))
              λ rows hr. record {
                state = v.state;
                count = omega (arith, hr.0, hk.0, length-replicate scroll (newrow fb));
                widths = hr.1;
              })

  delete_lines-IsValid :
      (row scroll : ℕ) (fb : Framebuffer)
      → IsValid w h fb
      → row + scroll ≤ fb.ds.scrolling_region_bottom_row + 1
      → Succeeds (IsValid w h) (delete_lines row fb (some scroll))
  delete_lines-IsValid row scroll fb v fits =
      let bottom = fb.ds.scrolling_region_bottom_row in
      let from : as_usize row ≡ row = ground arith in
      let to : as_usize (add_i32 row scroll) ≡ row + scroll = ground arith in
      let many : as_usize scroll ≡ scroll = ground arith in
      let at : as_usize (sub_i32 (add_i32 bottom 1) scroll) ≡ bottom + 1 - scroll = ground arith in
      rw (from, to, many, at)
        (Succeeds-bind _ (IsValid w h) (drain row (row + scroll) fb.rows) _
          (drain-All (HasWidth w) row scroll fb.rows v.widths (omega arith))
          λ kept hk.
            Succeeds-bind _ (IsValid w h)
              (splice (bottom + 1 - scroll) (replicate scroll (newrow fb)) kept) _
              (splice-All (HasWidth w) (bottom + 1 - scroll) (replicate scroll (newrow fb)) kept
                hk.1 (All-replicate (HasWidth w) scroll (newrow fb) (newrow-HasWidth fb v))
                (omega arith))
              λ rows hr. record {
                state = v.state;
                count = omega (arith, hr.0, hk.0, length-replicate scroll (newrow fb));
                widths = hr.1;
              })

  insert_moved :
      (before_row : ℕ) (fb : Framebuffer) (o : Option ℕ)
      → IsValid w h fb
      → ((s : ℕ) → o ≡ some s → before_row + s ≤ fb.ds.scrolling_region_bottom_row + 1)
      → Succeeds (IsValid w h) (insert_lines before_row fb o)
  insert_moved before_row fb none v fits = v
  insert_moved before_row fb (some s) v fits = insert_lines-IsValid before_row s fb v (fits s refl)

  delete_moved :
      (row : ℕ) (fb : Framebuffer) (o : Option ℕ)
      → IsValid w h fb
      → ((s : ℕ) → o ≡ some s → row + s ≤ fb.ds.scrolling_region_bottom_row + 1)
      → Succeeds (IsValid w h) (delete_lines row fb o)
  delete_moved row fb none v fits = v
  delete_moved row fb (some s) v fits = delete_lines-IsValid row s fb v (fits s refl)

  pub insert_line-IsValid :
      (before_row count : ℕ) (fb : Framebuffer)
      → IsI32 before_row
      → IsI32 count
      → IsValid w h fb
      → Succeeds (IsValid w h) (insert_line before_row count fb)
  unfolding insert_line
  insert_line-IsValid before_row count fb b c v =
      let top = fb.ds.scrolling_region_top_row in
      let bottom = fb.ds.scrolling_region_bottom_row in
      Succeeds-if (IsValid w h) (lt_i32 before_row top || lt_i32 (add_i32 bottom 1) before_row) _ _
        (λ outside. v)
        λ within.
          let low : before_row ≤ bottom + 1 = ground arith in
          insert_moved before_row fb (lines_moved (sub_i32 (add_i32 bottom 1) before_row) count) v
            λ s e. omega (
              arith,
              lines_moved_few (sub_i32 (add_i32 bottom 1) before_row) count s (omega arith) c e,
            )

  pub delete_line-IsValid :
      (row count : ℕ) (fb : Framebuffer)
      → IsI32 row
      → IsI32 count
      → IsValid w h fb
      → Succeeds (IsValid w h) (delete_line row count fb)
  unfolding delete_line
  delete_line-IsValid row count fb b c v =
      let top = fb.ds.scrolling_region_top_row in
      let bottom = fb.ds.scrolling_region_bottom_row in
      Succeeds-if (IsValid w h) (lt_i32 row top || lt_i32 bottom row) _ _ (λ outside. v)
        λ within.
          let low : row ≤ bottom = ground arith in
          delete_moved row fb (lines_moved (sub_i32 (add_i32 bottom 1) row) count) v λ s e.
            omega
              (arith, lines_moved_few (sub_i32 (add_i32 bottom 1) row) count s (omega arith) c e)

  pub scroll-IsValid :
      (n : ℕ) (fb : Framebuffer) → IsI32 n → IsValid w h fb → Succeeds (IsValid w h) (scroll n fb)
  unfolding scroll
  scroll-IsValid n fb i v =
      let top = fb.ds.scrolling_region_top_row in
      Succeeds-if (IsValid w h) (le_i32 0 n) _ _
        (λ up. delete_line-IsValid top n fb (omega arith) i v)
        (λ down. insert_line-IsValid top (neg_i32 n) fb (omega arith) (omega arith) v)

  scroll_back-IsValid :
      (n : ℕ) (fb : Framebuffer)
      → IsI32 n
      → IsValid w h fb
      → Succeeds (IsValid w h) (scroll_back n fb)
  scroll_back-IsValid n fb i v =
      Succeeds-bind (IsValid w h) (IsValid w h) (scroll n fb) _ (scroll-IsValid n fb i v) (λ g hg.
        with_ds-IsValid (DrawState.move_row (neg_i32 n) true) g hg
          (move_row-IsValid (neg_i32 n) true g.ds hg.state))

  pub move_rows_autoscroll-IsValid :
      (rows : ℕ) (fb : Framebuffer)
      → IsI32 rows
      → IsValid w h fb
      → Succeeds (IsValid w h) (move_rows_autoscroll rows fb)
  unfolding move_rows_autoscroll
  move_rows_autoscroll-IsValid rows fb i v =
      let at = fb.ds.cursor_row in
      let top = fb.ds.scrolling_region_top_row in
      let bottom = fb.ds.scrolling_region_bottom_row in
      let target = add_i32 at rows in
      Succeeds-if (IsValid w h) (lt_i32 at top || lt_i32 bottom at) _ _
        (λ outside.
          with_ds-IsValid (DrawState.move_row rows true) fb v
            (move_row-IsValid rows true fb.ds v.state))
        λ within.
          Succeeds-bind (IsValid w h) (IsValid w h) _ _
            (Succeeds-if (IsValid w h) (lt_i32 bottom target) _ _
              (λ below. scroll_back-IsValid (sub_i32 target bottom) fb (omega arith) v)
              (λ on.
                Succeeds-if (IsValid w h) (lt_i32 target top) _ _
                  (λ above. scroll_back-IsValid (sub_i32 target top) fb (omega arith) v)
                  (λ fits. v)))
            (λ g hg.
              with_ds-IsValid (DrawState.move_row rows true) g hg
                (move_row-IsValid rows true g.ds hg.state))
