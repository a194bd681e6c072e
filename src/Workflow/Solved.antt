-- ===== src/Workflow/Solved.antt =====
-- What the solver for the columns of a readable workflow finds: the least columns.
use Prim.Native.Nat.{Ordering}
use mathlib.Core.List.{append-nil}
use codearmory_blacksmith.Base.{
  ℕ, ◌+◌, ◌≤◌, ◌<◌, ◌≡◌, ◌↔◌, refl, sym, ap, List, [], ◌∷◌, ◌++◌, Bool, true, false, if◌then◌else◌,
  filter, Each, arith,
}
use codearmory_blacksmith.Base.Pairs.{Each-map, Each-both}
use codearmory_blacksmith.Workflow.Columns.{Constraint, column_count, feedback_constraints}
use codearmory_blacksmith.Workflow.Solve.{
  Plan, constraints_of, is_usable, insert_constraint, sort_constraints, solve, iterate,
  plan_columns, baseline, at_baseline, compare_constraints,
}
use codearmory_blacksmith.Workflow.Relaxed.{IsMet, sweep_meets, sweep_grows, sweep_least}

-- Columns that stand nowhere left of the baseline and are as far apart as each constraint says.
abbrev pub IsSolution : List Constraint → (ℕ → ℕ) → Type 0
IsSolution cs ys =
    ((col : ℕ) → baseline col ≤ ys col)
    × Each (λ c. is_usable c ≡ true → ys c.from + c.minimum ≤ ys c.to) cs

insert_constraint_iff :
    (P : Constraint → Type 0) (c : Constraint) (xs : List Constraint)
    → Each P (insert_constraint c xs) ↔ (P c × Each P xs)
unfolding insert_constraint
insert_constraint_iff P c [] = (λ h. h, λ h. h)
insert_constraint_iff P c (x ∷ xs) =
    let law = insert_constraint_iff P c xs in
    elim (compare_constraints x c)
      as (λ o.
        Each P (elim o [ Ordering.lt ↦ x ∷ insert_constraint c xs | _ ↦ c ∷ x ∷ xs ])
        ↔ (P c × (P x × Each P xs))) [
          | Ordering.lt ↦
              (λ h. let r = law.0 h.1 in (r.0, (h.0, r.1)), λ h. (h.1.0, law.1 (h.0, h.1.1)))
          | Ordering.eq ↦ (λ h. h, λ h. h)
          | Ordering.gt ↦ (λ h. h, λ h. h)
        ]

sort_constraints_iff :
    (P : Constraint → Type 0) (xs : List Constraint) → Each P (sort_constraints xs) ↔ Each P xs
unfolding sort_constraints
sort_constraints_iff P [] = (λ h. h, λ h. h)
sort_constraints_iff P (x ∷ xs) =
    let law = insert_constraint_iff P x (sort_constraints xs) in
    let rest = sort_constraints_iff P xs in
    (λ h. let r = law.0 h in (r.0, rest.0 r.1), λ h. law.1 (h.0, rest.1 h.1))

filter-cons :
    (P : Constraint → Type 0) (q : Bool) (x : Constraint) (kept : List Constraint) {R : Type 0}
    → Each P kept ↔ R
    → Each P (if q then x ∷ kept else kept) ↔ ((q ≡ true → P x) × R)
filter-cons P true x kept law = (λ h. (λ _. h.0, law.0 h.1), λ h. (h.0 refl, law.1 h.1))
filter-cons P false x kept law = (λ h. (λ k. cc, law.0 h), λ h. law.1 h.1)

filter_iff :
    (P : Constraint → Type 0) (p : Constraint → Bool) (xs : List Constraint)
    → Each P (filter p xs) ↔ Each (λ c. p c ≡ true → P c) xs
filter_iff P p [] = (λ h. h, λ h. h)
filter_iff P p (x ∷ xs) = filter-cons P (p x) x (filter p xs) (filter_iff P p xs)

-- The constraints that the solver goes through, in its order.
abbrev usable : List Constraint → List Constraint
usable cs = sort_constraints (filter is_usable cs)

usable_iff :
    (P : Constraint → Type 0) (cs : List Constraint)
    → Each P (usable cs) ↔ Each (λ c. is_usable c ≡ true → P c) cs
usable_iff P cs =
    let sorted = sort_constraints_iff P (filter is_usable cs) in
    let kept = filter_iff P is_usable cs in (λ h. kept.0 (sorted.0 h), λ h. sorted.1 (kept.1 h))

Each-all : {A : Type 0} {P : A → Type 0} (xs : List A) → ((x : A) → P x) → Each P xs
Each-all [] f = tt
Each-all (x ∷ xs) f = (f x, Each-all xs f)

abbrev InRange : Constraint → Type 0
InRange c = (c.from < c.to) × (c.to < column_count)

usable-InRange : (cs : List Constraint) → Each InRange (usable cs)
usable-InRange cs = (usable_iff InRange cs).1 (Each-all cs (λ c h. ground arith))

solve-IsMet : (cs : List Constraint) → Each (λ c. is_usable c ≡ true → IsMet (solve cs).xs c) cs
unfolding solve
solve-IsMet cs =
    let ok = usable-InRange cs in
    let met = sweep_meets 5 1 (usable cs) at_baseline (Each-map (usable cs) (λ c h. h.0) ok) in
    (usable_iff (λ c. IsMet (solve cs).xs c) cs).0
      (Each-both (usable cs) (λ c h m. m (omega arith) (omega arith)) ok met)

solve-baseline : (cs : List Constraint) (col : ℕ) → baseline col ≤ (solve cs).xs col
unfolding solve
solve-baseline cs col = sweep_grows 5 1 (usable cs) at_baseline col

solve_least :
    (cs : List Constraint) (ys : ℕ → ℕ) → IsSolution cs ys → (col : ℕ) → (solve cs).xs col ≤ ys col
unfolding solve
solve_least cs ys h =
    sweep_least 5 1 (usable cs) at_baseline ys
      ((usable_iff (λ c. ys c.from + c.minimum ≤ ys c.to) cs).1 h.1) h.0

-- All that the final columns answer to.
abbrev pub demands : Plan → List Constraint
demands p = constraints_of p ++ feedback_constraints p.nodes p.edges

iterate-solve :
    (active feedback : List Constraint)
    → iterate 3 0 active feedback at_baseline ≡ solve (active ++ feedback)
unfolding iterate
iterate-solve active [] = ap solve (sym (append-nil active))
iterate-solve active (c ∷ cs) = refl

pub plan_columns-solve : (p : Plan) → plan_columns p ≡ solve (demands p)
unfolding plan_columns
plan_columns-solve p = iterate-solve (constraints_of p) (feedback_constraints p.nodes p.edges)

-- The columns of a plan stand nowhere left of the baseline, are as far apart as each usable
-- constraint says, up to one unit of 0.0001 px, and stand nowhere right of columns that meet the
-- constraints.
pub plan_columns_least :
    (p : Plan)
    → ((col : ℕ) → baseline col ≤ (plan_columns p).xs col)
      × (Each (λ c. is_usable c ≡ true → IsMet (plan_columns p).xs c) (demands p)
          × ((ys : ℕ → ℕ)
              → IsSolution (demands p) ys
              → (col : ℕ) → (plan_columns p).xs col ≤ ys col))
plan_columns_least p =
    rw (plan_columns-solve p)
      (solve-baseline (demands p), (solve-IsMet (demands p), solve_least (demands p)))
