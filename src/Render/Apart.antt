-- ===== src/Render/Apart.antt =====
-- Where the entries of a legend stand: in its width, off each other and off the relationships.
use native.Mathlib.Nat.{mul-le-mul_right}
use codearmory_blacksmith.Base.{
  ℕ, suc, ◌+◌, ◌-◌, ◌*◌, ◌≡◌, ◌≤◌, ◌<◌, refl, ap, ◌∙◌, List, [], ◌∷◌, ◌++◌, map, Bool, true, false,
  Option, none, some, if◌then◌else◌, length, any, Each, arith,
}
use codearmory_blacksmith.Base.Pairs.{
  Pairwise, Each-append, Each-map, Each-both, Pairwise-append, map-append,
}
use codearmory_blacksmith.Geometry.{rects_overlap}
use codearmory_blacksmith.Render.Measure.{px}
use codearmory_blacksmith.Render.Legend.{Measured}
use codearmory_blacksmith.Render.Rows.{row_width, concat, Fits, Narrow}
use codearmory_blacksmith.Render.Placed.{
  Layout, Positioned, Obstacle, find_wide, place_row, place_rows, entry_rect, hits, find_collision,
}

abbrev pub Inside : Layout → Positioned → Type 0
Inside l p = (l.x ≤ p.x) × (p.x + p.measured.width ≤ l.x + l.width)

unfoldable pub Clear : Positioned → Positioned → Type 0
unfolding rects_overlap
Clear p q = rects_overlap (entry_rect p) (entry_rect q) 0 ≡ false

unfoldable pub Unhit : List Obstacle → Positioned → Type 0
unfolding hits
Unhit obstacles p = any (hits (entry_rect p)) obstacles ≡ false

-- What a row gives its entries: they begin at `x` or behind it, on its baseline.
abbrev OnRow : ℕ → ℕ → Positioned → Type 0
OnRow x baseline p = (x ≤ p.x) × (p.baseline ≡ baseline)

place_row-OnRow :
    (gap x baseline i : ℕ) (row : List Measured)
    → Each (OnRow x baseline) (place_row gap x baseline i row)
unfolding place_row
place_row-OnRow gap x baseline i [] = tt
place_row-OnRow gap x baseline i (e ∷ row) = (
  (omega arith, refl),
  Each-map _ (λ p h. (omega (arith, h.0), h.1))
      (place_row-OnRow gap (x + e.width + gap) baseline i row),
)

place_row-Inside :
    (gap x baseline i end : ℕ) (row : List Measured)
    → x + row_width gap row ≤ end
    → Each (λ p. p.x + p.measured.width ≤ end) (place_row gap x baseline i row)
unfolding place_row
place_row-Inside gap x baseline i end [] h = tt
place_row-Inside gap x baseline i end (e ∷ []) h = (h, tt)
place_row-Inside gap x baseline i end (e ∷ f ∷ row) h =
    (omega arith, place_row-Inside gap (x + e.width + gap) baseline i end (f ∷ row) (omega arith))

place_row-Clear :
    (gap x baseline i : ℕ) (row : List Measured) → Pairwise Clear (place_row gap x baseline i row)
unfolding place_row Clear rects_overlap
place_row-Clear gap x baseline i [] = tt
place_row-Clear gap x baseline i (e ∷ row) = (
  Each-map _ (λ p h. ground (arith, h.0)) (place_row-OnRow gap (x + e.width + gap) baseline i row),
  place_row-Clear gap (x + e.width + gap) baseline i row,
)

rows_apart :
    (k n gap baseline : ℕ)
    → k < n
    → n * gap + px 10 ≤ baseline
    → px 14 ≤ gap
    → baseline - n * gap - px 10 + px 14 ≤ baseline - k * gap - px 10
rows_apart k n gap baseline below room wide =
    let more : suc k * gap ≤ n * gap = mul-le-mul_right gap below in
    let next : suc k * gap ≡ k * gap + gap = omega arith in omega arith

pub rows_room :
    (k n gap top baseline : ℕ)
    → k < n
    → top + (n - 1) * gap + px 30 ≤ baseline
    → k * gap + px 10 ≤ baseline
rows_room k n gap top baseline below room =
    let less : k ≤ n - 1 = omega arith in
    let more : k * gap ≤ (n - 1) * gap = mul-le-mul_right gap less in omega arith

-- The baselines of the next `n` rows.
abbrev OfRows : Layout → ℕ → Positioned → Type 0
OfRows l n p = (k : ℕ) × (k < n) × (p.baseline ≡ l.baseline_y - k * l.spacing.line_gap)

pub place_rows-OfRows :
    (l : Layout) (count i : ℕ) (rows : List (List Measured))
    → count ≡ i + length rows
    → Each (OfRows l (length rows)) (place_rows l count i rows)
unfolding place_rows
place_rows-OfRows l count i [] h = tt
place_rows-OfRows l count i (row ∷ rest) h =
    let left : count - i - 1 ≡ length rest = omega arith in
    Each-append (OfRows l (suc (length rest))) _ _
      (Each-map _
        (λ p on.
          (length rest, omega arith, on.1 ∙ ap (λ k. l.baseline_y - k * l.spacing.line_gap) left))
        (place_row-OnRow l.spacing.item_gap l.x _ i row))
      (Each-map _ (λ p of. (of.0, omega (arith, of.1), of.2))
        (place_rows-OfRows l count (suc i) rest (omega arith)))

pub place_rows-Inside :
    (l : Layout) (count i : ℕ) (rows : List (List Measured))
    → Each (Fits l.width l.spacing.item_gap) rows
    → Each (Inside l) (place_rows l count i rows)
unfolding place_rows
place_rows-Inside l count i [] h = tt
place_rows-Inside l count i (row ∷ rest) h =
    let gap = l.spacing.item_gap in
    let baseline = l.baseline_y - (count - i - 1) * l.spacing.line_gap in
    Each-append (Inside l) _ _
      (Each-both _ (λ p on within. (on.0, within)) (place_row-OnRow gap l.x baseline i row)
        (place_row-Inside gap l.x baseline i (l.x + l.width) row (omega (arith, h.0.1))))
      (place_rows-Inside l count (suc i) rest h.1)

lower_baseline : (p q : Positioned) → p.baseline - px 10 + px 14 ≤ q.baseline - px 10 → Clear p q
unfolding Clear rects_overlap
lower_baseline p q h = ground arith

pub place_rows-Clear :
    (l : Layout) (count i : ℕ) (rows : List (List Measured))
    → count ≡ i + length rows
    → px 14 ≤ l.spacing.line_gap
    → ((k : ℕ) → k < length rows → k * l.spacing.line_gap + px 10 ≤ l.baseline_y)
    → Pairwise Clear (place_rows l count i rows)
unfolding place_rows Clear rects_overlap
place_rows-Clear l count i [] h wide room = tt
place_rows-Clear l count i (row ∷ rest) h wide room =
    let left : count - i - 1 ≡ length rest = omega arith in
    Pairwise-append Clear _ _ (place_row-Clear l.spacing.item_gap l.x _ i row)
      (place_rows-Clear l count (suc i) rest (omega arith) wide (λ k below. room k (omega arith)))
      (Each-map _
        (λ p on.
          Each-map _
            (λ q of.
              let upper = on.1 ∙ ap (λ k. l.baseline_y - k * l.spacing.line_gap) left in
              lower_baseline p q (
                omega (
                  arith,
                  upper,
                  of.2,
                  rows_apart of.0 (length rest) _ _ of.1 (room (length rest) (omega arith)) wide,
                )))
            (place_rows-OfRows l count (suc i) rest (omega arith)))
        (place_row-OnRow l.spacing.item_gap l.x _ i row))

measured-place_row :
    (gap x baseline i : ℕ) (row : List Measured)
    → map (λ (p : Positioned). p.measured) (place_row gap x baseline i row) ≡ row
unfolding place_row
measured-place_row gap x baseline i [] = refl
measured-place_row gap x baseline i (e ∷ row) =
    ap (λ es. e ∷ es) (measured-place_row gap (x + e.width + gap) baseline i row)

pub measured-place_rows :
    (l : Layout) (count i : ℕ) (rows : List (List Measured))
    → map (λ (p : Positioned). p.measured) (place_rows l count i rows) ≡ concat rows
unfolding place_rows
measured-place_rows l count i [] = refl
measured-place_rows l count i (row ∷ rest) =
    map-append (λ (p : Positioned). p.measured) (place_row _ l.x _ i row)
      (place_rows l count (suc i) rest)
    ∙ ap (λ es. es ++ map (λ (p : Positioned). p.measured) (place_rows l count (suc i) rest))
        (measured-place_row l.spacing.item_gap l.x _ i row)
    ∙ ap (λ es. row ++ es) (measured-place_rows l count (suc i) rest)

pub find_wide-Narrow :
    (width : ℕ) (es : List Measured) → find_wide width es ≡ none → Each (Narrow width) es
find_wide-Narrow width [] h = tt
find_wide-Narrow width (e ∷ es) h = (ground arith, find_wide-Narrow width es (ground arith))

pub first_none :
    {A : Type 0} (b : Bool) (x : A) (rest : Option A)
    → (if b then some x else rest) ≡ none
    → (b ≡ false) × (rest ≡ none)
first_none false x rest h = (refl, h)
first_none true x rest h = cc

pub find_collision-Unhit :
    (l : Layout) (obstacles : List Obstacle) (ps : List Positioned)
    → find_collision obstacles
        (map (λ (p : Positioned). record { kind = p.measured.entry.kind; rect = entry_rect p }) ps)
      ≡ none
    → Each (Unhit obstacles) ps
unfolding Unhit
find_collision-Unhit l obstacles [] h = tt
find_collision-Unhit l obstacles (p ∷ ps) h =
    let parts = first_none (any (hits (entry_rect p)) obstacles) _ _ h in
    (parts.0, find_collision-Unhit l obstacles ps parts.1)
