-- ===== src/Workflow/Relaxed.antt =====
-- One sweep of the solver for the columns of a readable workflow.
use codearmory_blacksmith.Base.{
  ℕ, zero, suc, ◌+◌, ◌≤◌, ◌<◌, ◌≡◌, ◌≢◌, refl, ◌∙◌, List, [], ◌∷◌, ◌==◌, Each, arith, Bool-cases,
  inl, inr,
}
use codearmory_blacksmith.Base.Pairs.{Each-map, Each-both}
use codearmory_blacksmith.Workflow.Columns.{Constraint}
use codearmory_blacksmith.Workflow.Solve.{Columns, relax, relax_all, sweep}

-- The columns are as far apart as the constraint says, up to one unit, the tolerance.
abbrev pub IsMet : (ℕ → ℕ) → Constraint → Type 0
IsMet xs c = xs c.from + c.minimum ≤ xs c.to + 1

relax_other :
    (to : ℕ) (c : Constraint) (s : Columns) (col : ℕ) → col ≢ to → (relax to c s).xs col ≡ s.xs col
unfolding relax
relax_other to c s col h = ground arith

relax_grows : (to : ℕ) (c : Constraint) (s : Columns) (col : ℕ) → s.xs col ≤ (relax to c s).xs col
unfolding relax
relax_grows to c s col = ground arith

relax_meets :
    (to : ℕ) (c : Constraint) (s : Columns)
    → c.to ≡ to
    → c.from < to
    → (relax to c s).xs c.from + c.minimum ≤ (relax to c s).xs c.to + 1
unfolding relax
relax_meets to c s h k = ground arith

relax_least :
    (to : ℕ) (c : Constraint) (s : Columns) (ys : ℕ → ℕ)
    → ys c.from + c.minimum ≤ ys c.to
    → ((col : ℕ) → s.xs col ≤ ys col)
    → (col : ℕ) → (relax to c s).xs col ≤ ys col
unfolding relax
relax_least to c s ys h k col = ground (arith, k col, k c.from)

relax_all_other :
    (to : ℕ) (cs : List Constraint) (s : Columns) (col : ℕ)
    → col ≢ to
    → (relax_all to cs s).xs col ≡ s.xs col
unfolding relax_all
relax_all_other to [] s col h = refl
relax_all_other to (c ∷ cs) s col h =
    relax_all_other to cs (relax to c s) col h ∙ relax_other to c s col h

relax_all_grows :
    (to : ℕ) (cs : List Constraint) (s : Columns) (col : ℕ) → s.xs col ≤ (relax_all to cs s).xs col
unfolding relax_all
relax_all_grows to [] s col = omega arith
relax_all_grows to (c ∷ cs) s col =
    omega (arith, relax_all_grows to cs (relax to c s) col, relax_grows to c s col)

abbrev pub Forward : Constraint → Type 0
Forward c = c.from < c.to

pub relax_all_meets :
    (to : ℕ) (cs : List Constraint) (s : Columns)
    → Each Forward cs
    → Each (λ c. c.to ≡ to → IsMet (relax_all to cs s).xs c) cs
unfolding relax_all
relax_all_meets to [] s h = tt
relax_all_meets to (c ∷ cs) s h = (
  λ e.
      let met = relax_meets to c s e (omega arith) in
      let kept = relax_all_other to cs (relax to c s) c.from (ground arith) in
      let grown = relax_all_grows to cs (relax to c s) c.to in omega arith,
  relax_all_meets to cs (relax to c s) h.1,
)

relax_all_least :
    (to : ℕ) (cs : List Constraint) (s : Columns) (ys : ℕ → ℕ)
    → Each (λ c. ys c.from + c.minimum ≤ ys c.to) cs
    → ((col : ℕ) → s.xs col ≤ ys col)
    → (col : ℕ) → (relax_all to cs s).xs col ≤ ys col
unfolding relax_all
relax_all_least to [] s ys h k = k
relax_all_least to (c ∷ cs) s ys h k =
    relax_all_least to cs (relax to c s) ys h.1 (relax_least to c s ys h.0 k)

sweep_other :
    (left to : ℕ) (cs : List Constraint) (s : Columns) (col : ℕ)
    → col < to
    → (sweep left to cs s).xs col ≡ s.xs col
unfolding sweep
sweep_other zero to cs s col h = refl
sweep_other (suc left) to cs s col h =
    sweep_other left (suc to) cs (relax_all to cs s) col (omega arith)
    ∙ relax_all_other to cs s col (omega arith)

pub sweep_grows :
    (left to : ℕ) (cs : List Constraint) (s : Columns) (col : ℕ)
    → s.xs col ≤ (sweep left to cs s).xs col
unfolding sweep
sweep_grows zero to cs s col = omega arith
sweep_grows (suc left) to cs s col =
    omega (arith, sweep_grows left (suc to) cs (relax_all to cs s) col, relax_all_grows to cs s col)

pub sweep_least :
    (left to : ℕ) (cs : List Constraint) (s : Columns) (ys : ℕ → ℕ)
    → Each (λ c. ys c.from + c.minimum ≤ ys c.to) cs
    → ((col : ℕ) → s.xs col ≤ ys col)
    → (col : ℕ) → (sweep left to cs s).xs col ≤ ys col
unfolding sweep
sweep_least zero to cs s ys h k = k
sweep_least (suc left) to cs s ys h k =
    sweep_least left (suc to) cs (relax_all to cs s) ys h (relax_all_least to cs s ys h k)

pub sweep_meets :
    (left to : ℕ) (cs : List Constraint) (s : Columns)
    → Each Forward cs
    → Each (λ c. to ≤ c.to → c.to < to + left → IsMet (sweep left to cs s).xs c) cs
unfolding sweep
sweep_meets zero to cs s h = Each-map cs (λ c f a b. absurd (omega arith)) h
sweep_meets (suc left) to cs s h =
    let now = relax_all_meets to cs s h in
    let after = sweep_meets left (suc to) cs (relax_all to cs s) h in
    Each-both
      {Q = λ c.
        (c.to ≡ to → IsMet (relax_all to cs s).xs c)
        × (suc to ≤ c.to
            → c.to < suc to + left
            → IsMet (sweep left (suc to) cs (relax_all to cs s)).xs c)}
      cs
      (λ c f p a b. elim (Bool-cases (c.to == to)) [
        | inl same ↦
            let met = p.0 (ground arith) in
            let kept_from =
              sweep_other left (suc to) cs (relax_all to cs s) c.from (ground arith) in
            let kept_to = sweep_other left (suc to) cs (relax_all to cs s) c.to (ground arith) in
            omega arith
        | inr other ↦ p.1 (ground arith) (omega arith)
      ])
      h (Each-both cs (λ c p q. (p, q)) now after)
