-- ===== src/Geometry.antt =====
-- Rectangles, sides and axis-parallel segments of renderers/shared/geometry.mjs, and the grid of
-- renderers/architecture/grid.mjs. A coordinate counts units of 0.0001 px, which is the tolerance of
-- the program: a natural number, since a drawing begins at [0, 0].
pub mod Grid
pub mod Corridor
pub mod Placement
pub mod Rectangles
pub mod Route
pub mod Bends
pub mod Crossing
pub mod Shared
pub mod Budget
pub mod Tally
mod Examples
use Prim.Native.Nat.{min, max, ◌/◌, ◌%◌}
use codearmory_blacksmith.Base.{
  ℕ, ◌+◌, ◌-◌, ◌*◌, Bool, true, false, not, ◌&&◌, ◌||◌, Option, none, some, ltb, leb, if◌then◌else◌,
  List, [], ◌∷◌,
}

pub record Point : Type 0 where
  pub x : ℕ
  pub y : ℕ

-- The centre is measured by the renderers and comes with the rectangle.
pub record Rect : Type 0 where
  pub x : ℕ
  pub y : ℕ
  pub width : ℕ
  pub height : ℕ
  pub cx : ℕ
  pub cy : ℕ

-- `rectsOverlap(a, b, gap)`, on finite rectangles.
unfoldable pub rects_overlap : Rect → Rect → ℕ → Bool
rects_overlap a b gap = not (
    leb (a.x + a.width + gap) b.x
    || leb (b.x + b.width + gap) a.x
    || leb (a.y + a.height + gap) b.y
    || leb (b.y + b.height + gap) a.y)

pub data Side : Type 0 where
  left right top bottom : Side

unfoldable pub anchor : Rect → Side → Point
anchor rect left = record { x = rect.x; y = rect.cy }
anchor rect right = record { x = rect.x + rect.width; y = rect.cy }
anchor rect top = record { x = rect.cx; y = rect.y }
anchor rect bottom = record { x = rect.cx; y = rect.y + rect.height }

unfoldable pub default_from_side : Rect → Rect → Side
default_from_side from to =
    if ltb to.cx from.cx
    then left
    else if ltb from.cx to.cx
    then right
    else if ltb from.cy to.cy
    then bottom
    else top

unfoldable pub default_to_side : Rect → Rect → Side
default_to_side from to =
    if ltb to.cx from.cx
    then right
    else if ltb from.cx to.cx
    then left
    else if ltb from.cy to.cy
    then top
    else bottom

-- `Math.abs(a - b)`
abbrev pub distance : ℕ → ℕ → ℕ
distance a b = (a - b) + (b - a)

pub record Segment : Type 0 where
  pub start : Point
  pub end : Point

-- A part of a line that two segments share.
pub record Overlap : Type 0 where
  pub length : ℕ
  pub start : Point
  pub end : Point

abbrev pub is_level : ℕ → ℕ → Bool
is_level a b = leb (distance a b) 1

-- The part of two intervals on one axis, if it is longer than the tolerance.
abbrev pub shared_low : ℕ → ℕ → ℕ → ℕ → ℕ
shared_low a b c d = max (min a b) (min c d)

abbrev pub shared_high : ℕ → ℕ → ℕ → ℕ → ℕ
shared_high a b c d = min (max a b) (max c d)

abbrev overlap_at : (ℕ → Point) → ℕ → ℕ → Option Overlap
overlap_at place low high =
    if leb high (low + 1)
    then none
    else some (record { length = high - low; start = place low; end = place high })

-- `collinearAxisOverlap(a, b, c, d)`
unfoldable pub collinear_axis_overlap : Segment → Segment → Option Overlap
collinear_axis_overlap s t =
    let a = s.start in
    let b = s.end in
    let c = t.start in
    let d = t.end in
    if is_level a.y b.y && is_level c.y d.y && is_level a.y c.y
    then overlap_at (λ v. record { x = v; y = a.y }) (shared_low a.x b.x c.x d.x)
        (shared_high a.x b.x c.x d.x)
    else if is_level a.x b.x && is_level c.x d.x && is_level a.x c.x
    then overlap_at (λ v. record { x = a.x; y = v }) (shared_low a.y b.y c.y d.y)
        (shared_high a.y b.y c.y d.y)
    else none

-- The intervals of `mergeBorderOverlaps`.
pub record Interval : Type 0 where
  pub low : ℕ
  pub high : ℕ

insert_interval : Interval → List Interval → List Interval
insert_interval i [] = i ∷ []
insert_interval i (j ∷ rest) =
    let later = insert_interval i rest in
    if ltb i.low j.low || (leb i.low j.low && leb i.high j.high) then i ∷ j ∷ rest else j ∷ later

-- By the lower end, then by the upper one.
unfoldable pub sort_intervals : List Interval → List Interval
unfolding insert_interval
sort_intervals [] = []
sort_intervals (i ∷ rest) = insert_interval i (sort_intervals rest)

-- The loop of `mergeBorderOverlaps`, with the interval that it is extending.
unfoldable pub merge_from : Interval → List Interval → List Interval
merge_from current [] = current ∷ []
merge_from current (i ∷ rest) =
    let extended = merge_from (record current { high = max current.high i.high }) rest in
    let apart = current ∷ merge_from i rest in
    if leb i.low (current.high + 1) then extended else apart

abbrev merge_sorted : List Interval → List Interval
merge_sorted [] = []
merge_sorted (i ∷ rest) = merge_from i rest

unfoldable pub merge_intervals : List Interval → List Interval
unfolding sort_intervals merge_from
merge_intervals xs = merge_sorted (sort_intervals xs)
