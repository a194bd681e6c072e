-- ===== src/Render/Shown.antt =====
-- What `measureLegend` shows is clear of itself and of the relationships.
use codearmory_blacksmith.Base.Pairs.{Pairwise}
use codearmory_blacksmith.Base.{
  ℕ, ◌+◌, ◌-◌, ◌*◌, ◌≡◌, ◌≢◌, ◌≤◌, ◌<◌, refl, ◌∙◌, List, [], ◌∷◌, map, Bool, true, false, Option,
  none, some, if◌then◌else◌, ltb, length, Each, arith,
}
use codearmory_blacksmith.Render.Measure.{px}
use codearmory_blacksmith.Render.Legend.{
  Entry, Measured, Footprint, legend_footprint, fill_rows, widest, measured_entries,
}
use codearmory_blacksmith.Render.Rows.{fill_rows_sound}
use codearmory_blacksmith.Render.Apart.{
  Inside, Clear, Unhit, rows_room, place_rows-Inside, place_rows-Clear, measured-place_rows,
  find_wide-Narrow, first_none, find_collision-Unhit,
}
use codearmory_blacksmith.Render.Placed.{
  Layout, Positioned, LegendError, LegendRect, Outcome, hidden, thrown, measured, MeasuredLegend,
  unfit, find_wide, place_rows, unless_collision, place_footprint, unless_wide, measure_legend,
}

unfit_measured : (l : Layout) (e : LegendError) (m : MeasuredLegend) → unfit l e ≢ measured m
unfit_measured l e m = either l.hides
  where
    either : (b : Bool) → (if b then hidden else thrown e) ≢ measured m
    either true k = cc
    either false k = cc

unless_unfit :
    (l : Layout) (e : LegendError) (b : Bool) (rest : Outcome) (m : MeasuredLegend)
    → (if b then unfit l e else rest) ≡ measured m
    → (b ≡ false) × (rest ≡ measured m)
unless_unfit l e false rest m h = (refl, h)
unless_unfit l e true rest m h = elim (unfit_measured l e m h) [ ]

unless_wide_measured :
    (l : Layout) (f : Footprint) (o : Option Measured) (m : MeasuredLegend)
    → unless_wide l f o ≡ measured m
    → (o ≡ none) × (place_footprint l f ≡ measured m)
unfolding unless_wide
unless_wide_measured l f none m h = (refl, h)
unless_wide_measured l f (some e) m h = elim (unfit_measured l _ m h) [ ]

unless_collision_measured :
    (l : Layout) (n : MeasuredLegend) (o : Option LegendRect) (m : MeasuredLegend)
    → unless_collision l n o ≡ measured m
    → (o ≡ none) × (n ≡ m)
unless_collision_measured l n none m h = (refl, cc)
unless_collision_measured l n (some r) m h = elim (unfit_measured l _ m h) [ ]

-- A legend that is shown has all its entries in their order, each in the width of the legend, none
-- over another or over a relationship.
abbrev pub IsClear : Layout → List Measured → List Positioned → Type 0
unfolding Clear Unhit
IsClear l es ps =
    (map (λ (p : Positioned). p.measured) ps ≡ es)
    × (Each (Inside l) ps × (Pairwise Clear ps × Each (Unhit l.obstacles) ps))

abbrev filled : Layout → Measured → List Measured → Footprint
unfolding fill_rows
filled l e es =
    let rows = fill_rows l.width l.spacing.item_gap (e ∷ es) [] 0 in
    record {
      measured = e ∷ es;
      rows = rows;
      row_count = length rows;
      min_width = widest (e ∷ es);
      extra_height = (length rows - 1) * l.spacing.line_gap;
    }

filled-IsClear :
    (l : Layout) (e : Measured) (es : List Measured) (m : MeasuredLegend)
    → px 14 ≤ l.spacing.line_gap
    → unless_wide l (filled l e es) (find_wide l.width (e ∷ es)) ≡ measured m
    → IsClear l (e ∷ es) m.entries
unfolding filled IsClear place_footprint
filled-IsClear l e es m wide h =
    let f = filled l e es in
    let ps = place_rows l f.row_count 0 f.rows in
    let narrow = unless_wide_measured l f (find_wide l.width (e ∷ es)) m h in
    let low =
      unless_unfit l _ (ltb l.baseline_y (l.min_title_y + f.extra_height + px 30)) _ m narrow.1 in
    let free = unless_collision_measured l _ _ m low.1 in
    let rows =
      fill_rows_sound l.width l.spacing.item_gap e es
        (find_wide-Narrow l.width (e ∷ es) narrow.0) in
    let room = λ (k : ℕ) (below : k < length f.rows).
      rows_room k (length f.rows) l.spacing.line_gap l.min_title_y l.baseline_y below
        (ground (arith, low.0)) in
    let shown : IsClear l (e ∷ es) ps = (
      measured-place_rows l f.row_count 0 f.rows ∙ rows.0,
      (
        place_rows-Inside l f.row_count 0 f.rows rows.1,
        (
          place_rows-Clear l f.row_count 0 f.rows (omega arith) wide room,
          find_collision-Unhit l l.obstacles ps (first_none _ _ _ free.0).1,
        ),
      ),
    ) in
    rw (← free.1) shown

-- If the legend is laid out, with rows at least 14 px apart, it has the measured entries in their
-- order, all in the width of the legend, no two over each other, and none over a relationship.
pub measure_legend-IsClear :
    (es : List Entry) (l : Layout) (m : MeasuredLegend)
    → px 14 ≤ l.spacing.line_gap
    → measure_legend es l ≡ measured m
    → IsClear l (measured_entries l.spacing.font_size l.spacing.swatch_gap es) m.entries
unfolding measure_legend legend_footprint measured_entries filled IsClear
measure_legend-IsClear [] l m wide h =
    let nothing : IsClear l [] [] = (refl, (tt, (tt, tt))) in
    rw (← (unless_collision_measured l _ none m h).1) nothing
measure_legend-IsClear (e ∷ es) l m wide h = filled-IsClear l _ _ m wide h
