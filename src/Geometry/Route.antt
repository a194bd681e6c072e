-- ===== src/Geometry/Route.antt =====
-- Routes of renderers/shared/geometry.mjs: their points, the rhythm of their segments, their budgets
-- and the corridors that they share.
use codearmory_blacksmith.Base.{
  ℕ, suc, ◌+◌, ◌-◌, ◌*◌, Bool, true, false, ◌&&◌, Option, none, some, ltb, leb, ◌==◌, if◌then◌else◌,
  List, [], ◌∷◌, ◌++◌, length,
}
use codearmory_blacksmith.Geometry.{Point, distance}

-- A difference of natural numbers, as the pair of them.
pub record Diff : Type 0 where
  pub plus : ℕ
  pub minus : ℕ

abbrev pub diff : ℕ → ℕ → Diff
diff m n = record { plus = m; minus = n }

abbrev pub times : Diff → Diff → Diff
times a b = diff (a.plus * b.plus + a.minus * b.minus) (a.plus * b.minus + a.minus * b.plus)

abbrev pub add : Diff → Diff → Diff
add a b = diff (a.plus + b.plus) (a.minus + b.minus)

abbrev pub subtract : Diff → Diff → Diff
subtract a b = diff (a.plus + b.minus) (a.minus + b.plus)

-- `crossProduct(a, b, c)`
abbrev pub cross_product : Point → Point → Point → Diff
cross_product a b c =
    subtract (times (diff b.x a.x) (diff c.y a.y)) (times (diff b.y a.y) (diff c.x a.x))

-- 0.0001 square pixels
abbrev pub area_tolerance : ℕ
area_tolerance = 10000

-- `collinearForward(a, b, c)`
unfoldable pub collinear_forward : Point → Point → Point → Bool
collinear_forward a b c =
    let cross = cross_product a b c in
    let dot = add (times (diff b.x a.x) (diff c.x b.x)) (times (diff b.y a.y) (diff c.y b.y)) in
    leb (distance cross.plus cross.minus) area_tolerance
    && leb dot.minus (dot.plus + area_tolerance)

abbrev pub is_near : Point → Point → Bool
is_near p q = leb (distance p.x q.x) 1 && leb (distance p.y q.y) 1

-- Without the points that are near to the one kept before them.
unfoldable pub dedupe_after : Point → List Point → List Point
dedupe_after previous [] = []
dedupe_after previous (p ∷ rest) =
    let skipped = dedupe_after previous rest in
    let kept = p ∷ dedupe_after p rest in if is_near p previous then skipped else kept

abbrev pub dedupe : List Point → List Point
dedupe [] = []
dedupe (p ∷ rest) = p ∷ dedupe_after p rest

-- The `while` loop: the kept points, the last one first, lose the ones that the new point continues.
unfoldable pub pop_collinear : List Point → Point → List Point
unfolding collinear_forward
pop_collinear [] p = []
pop_collinear (b ∷ []) p = b ∷ []
pop_collinear (b ∷ a ∷ rest) p =
    let popped = pop_collinear (a ∷ rest) p in
    if collinear_forward a b p then popped else b ∷ a ∷ rest

-- `deduped` after `kept`, reversed.
unfoldable pub simplify : List Point → List Point → List Point
unfolding pop_collinear
simplify kept [] = kept
simplify kept (p ∷ rest) = simplify (p ∷ pop_collinear kept p) rest

unfoldable pub reverse_onto : List Point → List Point → List Point
reverse_onto done [] = done
reverse_onto done (p ∷ rest) = reverse_onto (p ∷ done) rest

-- `normalizeRoutePoints(points)`, on finite points.
unfoldable pub normalize_route_points : List Point → List Point
unfolding dedupe_after simplify reverse_onto
normalize_route_points points = reverse_onto [] (simplify [] (dedupe points))

pub data Position : Type 0 where
  source_stub target_stub interior : Position

-- `segmentPosition(index, segmentCount)`
abbrev pub segment_position : ℕ → ℕ → Position
segment_position index count =
    if index == 0 then source_stub else if index + 1 == count then target_stub else interior

abbrev pub is_interior : Position → Bool
is_interior interior = true
is_interior _ = false

-- The length of an axis-parallel segment.
abbrev pub span_of : Point → Point → ℕ
span_of p q = distance q.x p.x + distance q.y p.y

pub data RhythmCode : Type 0 where
  micro_segment short_interior_segment : RhythmCode

pub record RhythmIssue : Type 0 where
  pub code : RhythmCode
  pub segment_index : ℕ
  pub position : Position
  pub length : ℕ
  pub start : Point
  pub end : Point

abbrev pub rhythm_code : ℕ → ℕ → Position → ℕ → Option RhythmCode
rhythm_code interior_min micro_min position length =
    if ltb (length + 1) micro_min
    then some micro_segment
    else if is_interior position && ltb (length + 1) interior_min
    then some short_interior_segment
    else none

abbrev pub issue_at : ℕ → ℕ → ℕ → ℕ → Point → Point → List RhythmIssue
issue_at interior_min micro_min count index p q =
    let position = segment_position index count in
    if leb (span_of p q) 1
    then []
    else elim (rhythm_code interior_min micro_min position (span_of p q)) [
      | none ↦ []
      | some code ↦
          record {
            code = code;
            segment_index = index;
            position = position;
            length = span_of p q;
            start = p;
            end = q;
          }
          ∷ []
    ]

-- The segments from the point with the index on.
unfoldable pub issues_from : ℕ → ℕ → ℕ → ℕ → List Point → List RhythmIssue
issues_from interior_min micro_min count index [] = []
issues_from interior_min micro_min count index (p ∷ []) = []
issues_from interior_min micro_min count index (p ∷ q ∷ rest) =
    issue_at interior_min micro_min count index p q
    ++ issues_from interior_min micro_min count (suc index) (q ∷ rest)

-- The body of `collectRouteRhythmIssues` for one route.
unfoldable pub collect_route_rhythm_issues : ℕ → ℕ → List Point → List RhythmIssue
unfolding normalize_route_points issues_from
collect_route_rhythm_issues interior_min micro_min points =
    let normalized = normalize_route_points points in
    issues_from interior_min micro_min (length normalized - 1) 0 normalized
