-- ===== src/Geometry/Crossing.antt =====
-- Whether a segment meets a rectangle: `segmentIntersectsRect` of renderers/shared/geometry.mjs. An
-- area counts units of 0.0001 px squared, of which 10000 make the tolerance of `orientation`.
use Prim.Native.Nat.{min, max}
use codearmory_blacksmith.Base.{ℕ, ◌+◌, Bool, not, ◌&&◌, ◌||◌, ltb, leb, ◌==◌, if◌then◌else◌}
use codearmory_blacksmith.Geometry.{Point, Rect, Segment, distance}
use codearmory_blacksmith.Geometry.Route.{area_tolerance, diff, times, subtract}

-- 0 for three points on a line, up to the tolerance, and 1 or 2 for the side of a turn
unfoldable pub orientation : Point → Point → Point → ℕ
orientation a b c =
    let value =
      subtract (times (diff b.y a.y) (diff c.x b.x)) (times (diff b.x a.x) (diff c.y b.y)) in
    if ltb (distance value.plus value.minus) area_tolerance
    then 0
    else if ltb value.minus value.plus
    then 1
    else 2

unfoldable pub on_segment : Point → Point → Point → Bool
on_segment a b c =
    leb b.x (max a.x c.x) && leb (min a.x c.x) b.x && leb b.y (max a.y c.y) && leb (min a.y c.y) b.y

unfoldable pub segments_intersect : Point → Point → Point → Point → Bool
unfolding orientation on_segment
segments_intersect a b c d =
    let o1 = orientation a b c in
    let o2 = orientation a b d in
    let o3 = orientation c d a in
    let o4 = orientation c d b in
    (o1 == 0 && on_segment a c b)
    || (o2 == 0 && on_segment a d b)
    || (o3 == 0 && on_segment c a d)
    || (o4 == 0 && on_segment c b d)
    || (not (o1 == o2) && not (o3 == o4))

pub record Box : Type 0 where
  pub x1 : ℕ
  pub y1 : ℕ
  pub x2 : ℕ
  pub y2 : ℕ

abbrev pub point_in_box : Point → Box → Bool
point_in_box p box = leb box.x1 p.x && leb p.x box.x2 && leb box.y1 p.y && leb p.y box.y2

abbrev at : ℕ → ℕ → Point
at x y = record { x = x; y = y }

-- A box widened by the gap would begin at x - gap; all is moved by the gap, so that it begins at x.
abbrev moved : ℕ → Point → Point
moved gap p = at (p.x + gap) (p.y + gap)

abbrev pub box_around : ℕ → Rect → Box
box_around gap rect = record {
  x1 = rect.x;
  y1 = rect.y;
  x2 = rect.x + gap + rect.width + gap;
  y2 = rect.y + gap + rect.height + gap;
}

unfoldable pub meets_box : Point → Point → Box → Bool
unfolding segments_intersect
meets_box a b box =
    point_in_box a box
    || point_in_box b box
    || segments_intersect a b (at box.x1 box.y1) (at box.x2 box.y1)
    || segments_intersect a b (at box.x2 box.y1) (at box.x2 box.y2)
    || segments_intersect a b (at box.x2 box.y2) (at box.x1 box.y2)
    || segments_intersect a b (at box.x1 box.y2) (at box.x1 box.y1)

unfoldable pub segment_intersects_rect : Segment → Rect → ℕ → Bool
unfolding meets_box
segment_intersects_rect s rect gap =
    meets_box (moved gap s.start) (moved gap s.end) (box_around gap rect)
