-- ===== src/Geometry/Corridor.antt =====
-- Overlaps of segments.
use Prim.Native.Nat.{max}
use codearmory_blacksmith.Base.{
  ℕ, ◌+◌, ◌≤◌, ◌<◌, ◌≡◌, refl, ap, ◌∙◌, Bool, true, false, ◌&&◌, ◌||◌, Option, none, some, ltb, leb,
  List, [], ◌∷◌, arith, Bool-cases, inl, inr,
}
use codearmory_blacksmith.Geometry.{
  Interval, sort_intervals, insert_interval, merge_from, merge_sorted, merge_intervals, Segment,
  Overlap, collinear_axis_overlap,
}

-- The two segments exchanged.
abbrev overlap_length : Option Overlap → Option ℕ
overlap_length none = none
overlap_length (some o) = some o.length

-- Two segments share as much of a line, whichever of them is taken first.
collinear_axis_overlap-swap :
    (s t : Segment)
    → overlap_length (collinear_axis_overlap s t) ≡ overlap_length (collinear_axis_overlap t s)
unfolding collinear_axis_overlap
collinear_axis_overlap-swap s t = ground arith

-- A point of the axis is in one of the intervals.
abbrev pub covers : Interval → ℕ → Bool
covers i v = leb i.low v && leb v i.high

abbrev pub covered : ℕ → List Interval → Bool
covered v [] = false
covered v (i ∷ rest) = covers i v || covered v rest

-- No interval begins before the first value, and each begins no earlier than the one before.
abbrev ascending : ℕ → List Interval → Bool
ascending low [] = true
ascending low (i ∷ rest) = leb low i.low && ascending i.low rest

-- Each interval ends before the next one begins, by more than the tolerance.
abbrev pub apart_from : ℕ → List Interval → Bool
apart_from high [] = true
apart_from high (i ∷ rest) = ltb (high + 1) i.low && apart_from i.high rest

abbrev pub apart : List Interval → Bool
apart [] = true
apart (i ∷ rest) = apart_from i.high rest

covered-insert_interval :
    (v : ℕ) (i : Interval) (xs : List Interval)
    → covered v (insert_interval i xs) ≡ (covers i v || covered v xs)
unfolding insert_interval
covered-insert_interval v i [] = refl
covered-insert_interval v i (j ∷ rest) = ground (arith, covered-insert_interval v i rest)

covered-sort_intervals : (v : ℕ) (xs : List Interval) → covered v (sort_intervals xs) ≡ covered v xs
unfolding sort_intervals
covered-sort_intervals v [] = refl
covered-sort_intervals v (i ∷ rest) =
    covered-insert_interval v i (sort_intervals rest)
    ∙ ap (λ (b : Bool). covers i v || b) (covered-sort_intervals v rest)

ascending-insert_interval :
    (low : ℕ) (i : Interval) (xs : List Interval)
    → low ≤ i.low
    → ascending low xs ≡ true
    → ascending low (insert_interval i xs) ≡ true
unfolding insert_interval
ascending-insert_interval low i [] h k = ground arith
ascending-insert_interval low i (j ∷ rest) h k =
    ground (arith, ascending-insert_interval j.low i rest)

ascending-sort_intervals : (xs : List Interval) → ascending 0 (sort_intervals xs) ≡ true
unfolding sort_intervals
ascending-sort_intervals [] = refl
ascending-sort_intervals (i ∷ rest) =
    ascending-insert_interval 0 i (sort_intervals rest) (omega arith)
      (ascending-sort_intervals rest)

ascending_weaken :
    (a b : ℕ) (xs : List Interval) → a ≤ b → ascending b xs ≡ true → ascending a xs ≡ true
ascending_weaken a b [] h k = refl
ascending_weaken a b (i ∷ rest) h k = ground arith

kept_apart :
    (v : ℕ) (i j : Interval) (rest : List Interval)
    → ((covers j v || covered v rest) ≡ true → covered v (merge_from j rest) ≡ true)
    → (covers i v || (covers j v || covered v rest)) ≡ true
    → (covers i v || covered v (merge_from j rest)) ≡ true
kept_apart v i j rest h k = elim (Bool-cases (covers i v)) [
  | inl e ↦ ground arith
  | inr e ↦ ground arith
]

covered-merge_from :
    (v : ℕ) (i : Interval) (xs : List Interval)
    → ascending i.low xs ≡ true
    → (covers i v || covered v xs) ≡ true
    → covered v (merge_from i xs) ≡ true
unfolding merge_from
covered-merge_from v i [] h k = k
covered-merge_from v i (j ∷ rest) h k =
    let wider : Interval = record i { high = max i.high j.high } in
    elim (Bool-cases (leb j.low (i.high + 1))) [
      | inl e ↦ rw e (
          covered-merge_from v wider rest
            (ascending_weaken i.low j.low rest (ground arith) (ground arith)) (ground arith))
      | inr e ↦ rw e (kept_apart v i j rest (covered-merge_from v j rest (ground arith)) k)
    ]

apart_from-merge_from :
    (high : ℕ) (i : Interval) (xs : List Interval)
    → high + 1 < i.low
    → apart_from high (merge_from i xs) ≡ true
unfolding merge_from
apart_from-merge_from high i [] h = ground arith
apart_from-merge_from high i (j ∷ rest) h =
    let wider : Interval = record i { high = max i.high j.high } in
    elim (Bool-cases (leb j.low (i.high + 1))) [
      | inl e ↦ rw e (apart_from-merge_from high wider rest h)
      | inr e ↦ rw e (ground (arith, apart_from-merge_from i.high j rest (ground arith)))
    ]

merge_from-apart : (i : Interval) (xs : List Interval) → apart (merge_from i xs) ≡ true
unfolding merge_from
merge_from-apart i [] = refl
merge_from-apart i (j ∷ rest) =
    let wider : Interval = record i { high = max i.high j.high } in
    elim (Bool-cases (leb j.low (i.high + 1))) [
      | inl e ↦ rw e (merge_from-apart wider rest)
      | inr e ↦ rw e (apart_from-merge_from i.high j rest (ground arith))
    ]

merge_sorted_kept :
    (v : ℕ) (xs : List Interval)
    → ascending 0 xs ≡ true
    → covered v xs ≡ true
    → (covered v (merge_sorted xs) ≡ true) × (apart (merge_sorted xs) ≡ true)
merge_sorted_kept v [] h k = (k, refl)
merge_sorted_kept v (i ∷ rest) h k =
    (covered-merge_from v i rest (ground arith) k, merge_from-apart i rest)

-- Whatever lies in one of the intervals lies in one of the merged ones, and the merged intervals
-- are ascending and apart from each other by more than the tolerance.
pub merge_intervals-apart :
    (v : ℕ) (xs : List Interval)
    → covered v xs ≡ true
    → (covered v (merge_intervals xs) ≡ true) × (apart (merge_intervals xs) ≡ true)
unfolding merge_intervals
merge_intervals-apart v xs h =
    merge_sorted_kept v (sort_intervals xs) (ascending-sort_intervals xs)
      (covered-sort_intervals v xs ∙ h)
