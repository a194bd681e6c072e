-- ===== src/Geometry/Rectangles.antt =====
-- What `rectsOverlap` and the default sides mean.
use Prim.Native.Nat.{max}
use codearmory_blacksmith.Base.{ℕ, ◌+◌, ◌<◌, ◌≡◌, ◌≢◌, ◌↔◌, ◌⊎◌, Bool, true, arith, leb, ltb, ◌&&◌}
use codearmory_blacksmith.Geometry.{
  Rect, rects_overlap, Side, left, right, top, bottom, default_from_side, default_to_side,
}

-- The unit square at a point lies in the rectangle.
abbrev pub holds : Rect → ℕ → ℕ → Bool
holds r x y = leb r.x x && ltb x (r.x + r.width) && leb r.y y && ltb y (r.y + r.height)

-- Two rectangles of positive size overlap exactly if they have a unit square in common.
rects_overlap_iff :
    (a b : Rect)
    → 0 < a.width
    → 0 < a.height
    → 0 < b.width
    → 0 < b.height
    → (rects_overlap a b 0 ≡ true)
      ↔ ((x : ℕ) × (y : ℕ) × (holds a x y ≡ true) × (holds b x y ≡ true))
unfolding rects_overlap
rects_overlap_iff a b aw ah bw bh =
    (λ h. (max a.x b.x, max a.y b.y, ground arith, ground arith), λ (x, y, p, q). ground arith)

abbrev pub opposite : Side → Side
opposite left = right
opposite right = left
opposite top = bottom
opposite bottom = top

-- Between two rectangles whose centres differ, a relationship enters opposite to the side that it
-- leaves by, and takes the same sides when it runs the other way.
default_from_side-opposite :
    (a b : Rect)
    → (a.cx ≢ b.cx) ⊎ (a.cy ≢ b.cy)
    → (default_to_side a b ≡ opposite (default_from_side a b))
      × (default_from_side b a ≡ default_to_side a b)
unfolding default_from_side default_to_side
default_from_side-opposite a b h = (ground arith, ground arith)
