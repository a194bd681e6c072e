-- ===== src/Render/Rows.antt =====
-- How the entries of a legend fill its rows.
use codearmory_blacksmith.Base.{
  ℕ, ◌+◌, ◌≡◌, ◌≤◌, refl, sym, ap, ◌∙◌, List, [], ◌∷◌, ◌++◌, ltb, length, Each, arith, elim_either,
}
use codearmory_blacksmith.Render.Legend.{Measured, fill_rows}

abbrev pub row_width : ℕ → List Measured → ℕ
row_width gap [] = 0
row_width gap (e ∷ []) = e.width
row_width gap (e ∷ f ∷ rest) = e.width + gap + row_width gap (f ∷ rest)

abbrev pub concat : List (List Measured) → List Measured
concat [] = []
concat (row ∷ rest) = row ++ concat rest

-- A row is not empty and no wider than the legend.
abbrev pub Fits : ℕ → ℕ → List Measured → Type 0
Fits width gap row = (1 ≤ length row) × (row_width gap row ≤ width)

abbrev pub Narrow : ℕ → Measured → Type 0
Narrow width e = e.width ≤ width

row_width-append :
    (gap : ℕ) (r : Measured) (row : List Measured) (e : Measured)
    → row_width gap ((r ∷ row) ++ e ∷ []) ≡ row_width gap (r ∷ row) + (gap + e.width)
row_width-append gap r [] e = omega arith
row_width-append gap r (s ∷ row) e = omega (arith, row_width-append gap s row e)

append_assoc :
    (xs : List Measured) (e : Measured) (ys : List Measured) → (xs ++ e ∷ []) ++ ys ≡ xs ++ e ∷ ys
append_assoc [] e ys = refl
append_assoc (x ∷ xs) e ys = ap (λ zs. x ∷ zs) (append_assoc xs e ys)

concat-fill_rows :
    (width gap : ℕ) (es row : List Measured) (cursor : ℕ)
    → concat (fill_rows width gap es row cursor) ≡ row ++ es
unfolding fill_rows
concat-fill_rows width gap [] row cursor = refl
concat-fill_rows width gap (e ∷ es) [] cursor = concat-fill_rows width gap es (e ∷ []) _
concat-fill_rows width gap (e ∷ es) (r ∷ row) cursor =
    elim_either (λ rows. concat rows ≡ (r ∷ row) ++ e ∷ es) (ltb width (cursor + (gap + e.width))) _
      _ (λ h. ap (λ zs. (r ∷ row) ++ zs) (concat-fill_rows width gap es (e ∷ []) e.width))
      (λ h. concat-fill_rows width gap es ((r ∷ row) ++ e ∷ []) _ ∙ append_assoc (r ∷ row) e es)

fill_rows-Fits :
    (width gap : ℕ) (es : List Measured) (r : Measured) (row : List Measured) (cursor : ℕ)
    → cursor ≡ row_width gap (r ∷ row)
    → cursor ≤ width
    → Each (Narrow width) es
    → Each (Fits width gap) (fill_rows width gap es (r ∷ row) cursor)
unfolding fill_rows
fill_rows-Fits width gap [] r row cursor h k narrow = ((omega arith, omega arith), tt)
fill_rows-Fits width gap (e ∷ es) r row cursor h k narrow =
    elim_either (Each (Fits width gap)) (ltb width (cursor + (gap + e.width))) _ _
      (λ full. (
        (omega arith, omega arith),
        fill_rows-Fits width gap es e [] e.width refl narrow.0 narrow.1,
      ))
      (λ room.
        fill_rows-Fits width gap es r (row ++ e ∷ []) _
          (ap (λ n. n + (gap + e.width)) h ∙ sym (row_width-append gap r row e)) (ground arith)
          narrow.1)

-- If no entry is wider than the legend, its rows hold the entries in their order, and every row has
-- an entry and fits.
pub fill_rows_sound :
    (width gap : ℕ) (e : Measured) (es : List Measured)
    → Each (Narrow width) (e ∷ es)
    → (concat (fill_rows width gap (e ∷ es) [] 0) ≡ e ∷ es)
      × Each (Fits width gap) (fill_rows width gap (e ∷ es) [] 0)
unfolding fill_rows
fill_rows_sound width gap e es narrow = (
  concat-fill_rows width gap es (e ∷ []) (0 + e.width),
  fill_rows-Fits width gap es e [] (0 + e.width) (omega arith) (omega (arith, narrow.0)) narrow.1,
)
