-- ===== src/Render/Placed.antt =====
-- `measureLegend` and `relationshipLegendObstacles` of renderers/shared/legend.mjs. An error keeps
-- its code and its evidence; the messages are left out.
use codearmory_blacksmith.Base.{
  ℕ, suc, ◌+◌, ◌-◌, ◌*◌, Text, codes, List, [], ◌∷◌, ◌++◌, map, Bool, Option, none, some,
  if◌then◌else◌, ltb, any,
}
use codearmory_blacksmith.Geometry.{Point, Rect, Segment, rects_overlap}
use codearmory_blacksmith.Geometry.Crossing.{segment_intersects_rect}
use codearmory_blacksmith.Render.Measure.{px}
use codearmory_blacksmith.Render.Legend.{Entry, Measured, Footprint, Spacing, legend_footprint}

pub data Obstacle : Type 0 where
  relationship_segment : Segment → Obstacle
  relationship_label : Rect → Obstacle

-- The points and the label of a relationship, as `pointsFor` and `labelRectFor` give them.
pub record Relationship : Type 0 where
  pub points : List Point
  pub label : Option Rect

abbrev segment_obstacles : List Point → List Obstacle
segment_obstacles [] = []
segment_obstacles (p ∷ []) = []
segment_obstacles (p ∷ q ∷ rest) =
    relationship_segment (record { start = p; end = q }) ∷ segment_obstacles (q ∷ rest)

abbrev label_obstacles : Option Rect → List Obstacle
label_obstacles none = []
label_obstacles (some rect) = relationship_label rect ∷ []

unfoldable pub relationship_legend_obstacles : List Relationship → List Obstacle
relationship_legend_obstacles [] = []
relationship_legend_obstacles (r ∷ rest) =
    segment_obstacles r.points ++ (label_obstacles r.label ++ relationship_legend_obstacles rest)

pub record Layout : Type 0 where
  pub x : ℕ
  pub baseline_y : ℕ
  pub width : ℕ
  pub spacing : Spacing
  pub min_title_y : ℕ
  pub obstacles : List Obstacle
  pub hides : Bool

pub record Positioned : Type 0 where
  pub measured : Measured
  pub x : ℕ
  pub baseline : ℕ
  pub row : ℕ

pub record LegendRect : Type 0 where
  pub kind : Text
  pub rect : Rect

pub data LegendError : Type 0 where
  label_too_wide : Measured → LegendError
  vertical_overflow : ℕ → LegendError
  content_overlap : LegendRect → LegendError

pub record MeasuredLegend : Type 0 where
  pub entries : List Positioned
  pub row_count : ℕ
  pub title_y : Option ℕ

-- What `measureLegend` returns, `null` being `hidden`, or throws.
pub data Outcome : Type 0 where
  hidden : Outcome
  thrown : LegendError → Outcome
  measured : MeasuredLegend → Outcome

abbrev pub unfit : Layout → LegendError → Outcome
unfit l e = if l.hides then hidden else thrown e

abbrev pub find_wide : ℕ → List Measured → Option Measured
find_wide width [] = none
find_wide width (e ∷ rest) =
    let later = find_wide width rest in if ltb width e.width then some e else later

unfoldable pub place_row : ℕ → ℕ → ℕ → ℕ → List Measured → List Positioned
place_row item_gap x baseline i [] = []
place_row item_gap x baseline i (e ∷ rest) =
    record { measured = e; x = x; baseline = baseline; row = i }
    ∷ place_row item_gap (x + e.width + item_gap) baseline i rest

unfoldable pub place_rows : Layout → ℕ → ℕ → List (List Measured) → List Positioned
unfolding place_row
place_rows l count i [] = []
place_rows l count i (row ∷ rest) =
    place_row l.spacing.item_gap l.x (l.baseline_y - (count - i - 1) * l.spacing.line_gap) i row
    ++ place_rows l count (suc i) rest

-- The centre is not read.
abbrev pub rect_at : ℕ → ℕ → ℕ → ℕ → Rect
rect_at x y width height = record { x = x; y = y; width = width; height = height; cx = x; cy = y }

abbrev pub entry_rect : Positioned → Rect
entry_rect p = rect_at p.x (p.baseline - px 10) p.measured.width (px 14)

abbrev pub legend_rects : Layout → ℕ → List Positioned → List LegendRect
legend_rects l top ps =
    record { kind = codes "title"; rect = rect_at l.x top (px 48) (px 14) }
    ∷ map (λ (p : Positioned). record { kind = p.measured.entry.kind; rect = entry_rect p }) ps

unfoldable pub hits : Rect → Obstacle → Bool
unfolding segment_intersects_rect rects_overlap
hits rect (relationship_segment s) = segment_intersects_rect s rect 0
hits rect (relationship_label area) = rects_overlap area rect 0

abbrev pub find_collision : List Obstacle → List LegendRect → Option LegendRect
unfolding hits
find_collision obstacles [] = none
find_collision obstacles (r ∷ rest) =
    let later = find_collision obstacles rest in
    if any (hits r.rect) obstacles then some r else later

abbrev pub unless_collision : Layout → MeasuredLegend → Option LegendRect → Outcome
unless_collision l m none = measured m
unless_collision l m (some r) = unfit l (content_overlap r)

abbrev pub title_of : Layout → Footprint → ℕ
title_of l f = l.baseline_y - f.extra_height - px 20

unfoldable pub place_footprint : Layout → Footprint → Outcome
unfolding place_rows hits
place_footprint l f =
    let positioned = place_rows l f.row_count 0 f.rows in
    let title_y = title_of l f in
    let found = find_collision l.obstacles (legend_rects l (title_y - px 10) positioned) in
    if ltb l.baseline_y (l.min_title_y + f.extra_height + px 30)
    then unfit l (vertical_overflow f.row_count)
    else unless_collision l
        (record { entries = positioned; row_count = f.row_count; title_y = some title_y }) found

unfoldable pub unless_wide : Layout → Footprint → Option Measured → Outcome
unfolding place_footprint
unless_wide l f none = place_footprint l f
unless_wide l f (some e) = unfit l (label_too_wide e)

unfoldable pub measure_legend : List Entry → Layout → Outcome
unfolding legend_footprint unless_wide
measure_legend [] l = measured (record { entries = []; row_count = 0; title_y = none })
measure_legend (e ∷ es) l =
    let f = legend_footprint (e ∷ es) l.width l.spacing in
    unless_wide l f (find_wide l.width f.measured)
