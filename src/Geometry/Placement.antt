-- ===== src/Geometry/Placement.antt =====
-- Components on different cells do not overlap, and the validation leaves no cell shared.
use native.Mathlib.Nat.{mul-le-mul, le_refl}
use codearmory_blacksmith.Base.{
  ℕ, suc, ◌+◌, ◌*◌, ◌≤◌, ◌<◌, ◌≡◌, inl, inr, refl, Bool, true, false, not, ◌&&◌, Option, none, some,
  ltb, leb, List, [], ◌∷◌, Text, arith, Option-cases, Bool-cases, any, all,
}
use codearmory_blacksmith.Geometry.{Point, rects_overlap}
use codearmory_blacksmith.Geometry.Grid.{
  GridLayout, Cell, Place, cell, below_zero, Component, Seen, same_cell, holder, placement_problems,
  cell_rect,
}

-- A later column or row begins behind the cell before it and the gap.
cell_after : (m n step size gap : ℕ) → m < n → size + gap ≤ step → m * step + size + gap ≤ n * step
cell_after m n step size gap h k =
    let further : suc m * step ≤ n * step = mul-le-mul h (le_refl _) in omega arith

-- Two components on different cells of a grid, no larger than a cell, keep the gaps of the grid
-- between them.
rects_overlap-cell_rect :
    (grid : GridLayout) (c d : Cell) (w h w' h' gap : ℕ)
    → same_cell c d ≡ false
    → w ≤ grid.cell_w
    → w' ≤ grid.cell_w
    → h ≤ grid.cell_h
    → h' ≤ grid.cell_h
    → gap ≤ grid.gap_x
    → gap ≤ grid.gap_y
    → rects_overlap (cell_rect grid c w h) (cell_rect grid d w' h') gap ≡ false
unfolding rects_overlap
rects_overlap-cell_rect grid c d w h w' h' gap distinct bw bw' bh bh' gx gy =
    let step_x = grid.cell_w + grid.gap_x in
    let step_y = grid.cell_h + grid.gap_y in
    ground (
      arith,
      cell_after c.col d.col step_x w gap,
      cell_after d.col c.col step_x w' gap,
      cell_after c.row d.row step_y h gap,
      cell_after d.row c.row step_y h' gap,
    )

-- The cells of the components that stand on one.
abbrev cell_of : Option Point → Option Place → List Cell → List Cell
cell_of none (some (cell c)) rest = c ∷ rest
cell_of _ _ rest = rest

abbrev pub cells : List Component → List Cell
cells [] = []
cells (c ∷ rest) = cell_of c.pos c.place (cells rest)

abbrev pub distinct : List Cell → Bool
distinct [] = true
distinct (c ∷ rest) = not (any (same_cell c) rest) && distinct rest

abbrev is_held : Cell → Seen → Bool
is_held c seen = elim (holder c seen) [ none ↦ false | some _ ↦ true ]

holder-same : (c d : Cell) (seen : Seen) → same_cell d c ≡ true → holder c seen ≡ holder d seen
unfolding holder
holder-same c d [] h = refl
holder-same c d ((e, id) ∷ rest) h = ground (arith, holder-same c d rest h)

-- What a run without a problem has established of the remaining cells.
record Clean (grid : GridLayout) (seen : Seen) (cs : List Cell) : Type 0 where
  free : (c : Cell) → is_held c seen ≡ true → any (same_cell c) cs ≡ false
  apart : distinct cs ≡ true
  bounded : all (λ c. ltb c.col grid.cols) cs ≡ true

held-cons :
    (c x : Cell) (id : Text) (seen : Seen)
    → is_held c seen ≡ true
    → is_held c ((x, id) ∷ seen) ≡ true
unfolding holder
held-cons c x id seen h = ground arith

held-head : (x : Cell) (id : Text) (seen : Seen) → is_held x ((x, id) ∷ seen) ≡ true
unfolding holder
held-head x id seen = ground arith

apart_held :
    (c x : Cell) (seen : Seen)
    → is_held c seen ≡ true
    → is_held x seen ≡ false
    → same_cell c x ≡ false
apart_held c x seen h k = elim (Bool-cases (same_cell c x)) [
  | inr e ↦ e
  | inl e ↦ let same = holder-same x c seen e in absurd (ground arith)
]

add_cell :
    (grid : GridLayout) (x : Cell) (id : Text) (seen : Seen) (cs : List Cell)
    → is_held x seen ≡ false
    → ltb x.col grid.cols ≡ true
    → Clean grid ((x, id) ∷ seen) cs
    → Clean grid seen (x ∷ cs)
unfolding holder
add_cell grid x id seen cs h k clean = record {
  free = λ c e. ground (arith, clean.free c (held-cons c x id seen e), apart_held c x seen e h);
  apart = ground (arith, clean.free x (held-head x id seen), clean.apart);
  bounded = ground (arith, clean.bounded);
}

placed_next :
    (grid : GridLayout) (id : Text) (pos : Option Point) (place : Option Place) (seen : Seen)
    (rest : List Component)
    → ((next : Seen) → placement_problems grid rest next ≡ [] → Clean grid next (cells rest))
    → placement_problems grid (record { id = id; pos = pos; place = place } ∷ rest) seen ≡ []
    → Clean grid seen (cell_of pos place (cells rest))
unfolding placement_problems
placed_next grid id (some p) place seen rest k h = k seen h
placed_next grid id none none seen rest k h = absurd (ground arith)
placed_next grid id none (some below_zero) seen rest k h = absurd (ground arith)
placed_next grid id none (some (cell x)) seen rest k h = elim (Option-cases (holder x seen)) [
  | inr (other, e) ↦ absurd (ground arith)
  | inl e ↦ elim (Bool-cases (leb grid.cols x.col)) [
    | inl f ↦ absurd (ground arith)
    | inr f ↦
        add_cell grid x id seen (cells rest) (ground arith) (ground arith)
          (k ((x, id) ∷ seen) (ground arith))
  ]
]

placement_problems-Clean :
    (grid : GridLayout) (cs : List Component) (seen : Seen)
    → placement_problems grid cs seen ≡ []
    → Clean grid seen (cells cs)
placement_problems-Clean grid [] seen h = record {
  free = λ c e. refl;
  apart = refl;
  bounded = refl;
}
placement_problems-Clean grid (c ∷ rest) seen h =
    placed_next grid c.id c.pos c.place seen rest (placement_problems-Clean grid rest) h

-- If the validation finds no problem, no two components share a cell, and every column is one of
-- the layout.
pub placement_problems-distinct :
    (grid : GridLayout) (cs : List Component)
    → placement_problems grid cs [] ≡ []
    → (distinct (cells cs) ≡ true) × (all (λ c. ltb c.col grid.cols) (cells cs) ≡ true)
placement_problems-distinct grid cs h =
    let clean = placement_problems-Clean grid cs [] h in (clean.apart, clean.bounded)
