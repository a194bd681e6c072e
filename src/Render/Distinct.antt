-- ===== src/Render/Distinct.antt =====
-- What the identities of a diagram pass for.
use codearmory_blacksmith.Base.{
  ℕ, suc, ◌≡◌, ◌↔◌, ◌≢◌, refl, sym, ap, ◌∙◌, codes, Text, List, [], ◌∷◌, ◌++◌, map, Bool, true,
  false, not, ◌&&◌, Option, none, some, includes, all, Each, arith, text_eq_iff, append-nil,
}
use codearmory_blacksmith.Json.{Fields}
use codearmory_blacksmith.Render.Diagnostics.{Recorder, Thrown}
use codearmory_blacksmith.Render.Recorded.{distinct_texts}
use codearmory_blacksmith.Render.Identity.{
  View, Drawing, filled_ids, duplicate_problems, when, focus_problems, view_problems, semantic_ids,
  validate_guided_views, validate_relationship_ids, unless_problems, relationship_problems,
  relationship_collections, subject_for, collection_or_empty, collection_problems,
  relationship_message, collection_in,
}

-- None of the texts is one of those seen, and no two are equal.
abbrev fresh : List Text → List Text → Bool
unfolding includes
fresh seen [] = true
fresh seen (t ∷ ts) = not (includes t seen) && fresh (t ∷ seen) ts

abbrev unseen : List Text → List Text → Bool
unfolding includes
unseen seen ts = all (λ t. not (includes t seen)) ts

unseen-cons :
    (t : Text) (seen ts : List Text)
    → unseen (t ∷ seen) ts ≡ (not (includes t ts) && unseen seen ts)
unfolding includes unseen
unseen-cons t seen [] = refl
unseen-cons t seen (x ∷ ts) =
    ground (arith, unseen-cons t seen ts, text_eq_iff t x, text_eq_iff x t)

fresh-unseen : (seen ts : List Text) → fresh seen ts ≡ (unseen seen ts && distinct_texts ts)
unfolding fresh unseen distinct_texts
fresh-unseen seen [] = refl
fresh-unseen seen (t ∷ ts) = ground (arith, fresh-unseen (t ∷ seen) ts, unseen-cons t seen ts)

unseen-nil : (ts : List Text) → unseen [] ts ≡ true
unfolding unseen includes
unseen-nil [] = refl
unseen-nil (t ∷ ts) = unseen-nil ts

fresh-nil : (ts : List Text) → fresh [] ts ≡ distinct_texts ts
fresh-nil ts = fresh-unseen [] ts ∙ ap (λ b. b && distinct_texts ts) (unseen-nil ts)

when_nil :
    (b : Bool) (m : Text) (rest : List Text) {P : Type 0}
    → (rest ≡ []) ↔ P
    → (when b m ++ rest ≡ []) ↔ ((b ≡ false) × P)
when_nil true m rest law = (λ h. cc, λ h. cc)
when_nil false m rest law = (λ h. (refl, law.0 h), λ h. law.1 h.1)

focus_problems_nil :
    (known : List Text) (i : ℕ) (seen : List Text) (k : ℕ) (ids : List Text)
    → (focus_problems known i seen k ids ≡ [])
      ↔ ((fresh seen ids ≡ true) × (all (λ id. includes id known) ids ≡ true))
unfolding focus_problems fresh
focus_problems_nil known i seen k [] = (λ h. (refl, refl), λ h. refl)
focus_problems_nil known i seen k (id ∷ ids) =
    let law = when_nil (includes id seen) _ _ (
      when_nil (not (includes id known)) _ _
        (focus_problems_nil known i (id ∷ seen) (suc k) ids)) in
    (
      λ h.
          let (new, (there, (others, rest))) = law.0 h in
          (ground (arith, new, others), ground (arith, there, rest)),
      λ h. law.1 (ground arith, (ground arith, (ground arith, ground arith))),
    )

-- A view focuses on no item twice, and on items of the diagram only.
abbrev pub IsFocused : List Text → View → Type 0
unfolding includes distinct_texts
IsFocused known v = (distinct_texts v.1 ≡ true) × (all (λ id. includes id known) v.1 ≡ true)

view_problems_nil :
    (known : List Text) (i : ℕ) (seen : List Text) (vs : List View)
    → (view_problems known i seen vs ≡ [])
      ↔ ((fresh seen (map (λ (v : View). v.0) vs) ≡ true) × Each (IsFocused known) vs)
unfolding view_problems fresh IsFocused
view_problems_nil known i seen [] = (λ h. (refl, tt), λ h. refl)
view_problems_nil known i seen (v ∷ vs) =
    let rest = view_problems_nil known (suc i) (v.0 ∷ seen) vs in
    let focus = focus_problems_nil known i [] 0 v.1 in
    let tail : (focus_problems known i [] 0 v.1 ++ view_problems known (suc i) (v.0 ∷ seen) vs ≡ [])
        ↔ (IsFocused known v
            × ((fresh (v.0 ∷ seen) (map (λ (v : View). v.0) vs) ≡ true)
                × Each (IsFocused known) vs)) =
      (
        λ h.
            let parts = append-nil (focus_problems known i [] 0 v.1) _ h in
            let focused = focus.0 parts.0 in
            ((sym (fresh-nil v.1) ∙ focused.0, focused.1), rest.0 parts.1),
        λ h.
            ap (λ ps. ps ++ view_problems known (suc i) (v.0 ∷ seen) vs)
              (focus.1 (fresh-nil v.1 ∙ h.0.0, h.0.1))
            ∙ rest.1 h.1,
      ) in
    let law = when_nil (includes v.0 seen) _ _ tail in
    (
      λ h. let parts = law.0 h in (ground (arith, parts.0, parts.1.1.0), (parts.1.0, parts.1.1.1)),
      λ h. law.1 (ground arith, (h.1.0, (ground arith, h.1.1))),
    )

duplicate_problems_nil :
    (message : ℕ → Text → Text) (seen : List Text) (ps : List (ℕ × Text))
    → (duplicate_problems message seen ps ≡ [])
      ↔ (fresh seen (map (λ (p : ℕ × Text). p.1) ps) ≡ true)
unfolding duplicate_problems fresh
duplicate_problems_nil message seen [] = (λ h. refl, λ h. refl)
duplicate_problems_nil message seen (p ∷ ps) =
    ground (arith, duplicate_problems_nil message (p.1 ∷ seen) ps)

unless_problems_nil :
    (prefix code : Text) (subject : Fields) (ps : List Text) (r : Recorder)
    → (unless_problems prefix code subject ps r ≡ (none, r)) ↔ (ps ≡ [])
unfolding unless_problems
unless_problems_nil prefix code subject [] r = (λ h. refl, λ h. refl)
unless_problems_nil prefix code subject (p ∷ ps) r =
    (λ h. elim (some-ne-none (ap (λ (x : Option Thrown × Recorder). x.0) h)) [ ], λ h. cc)
  where
    some-ne-none : {t : Thrown} → some t ≢ none
    some-ne-none h = cc

-- The guided views pass, with nothing recorded, exactly if their ids are distinct and each focuses
-- on no item twice and on items of the diagram only.
pub validate_guided_views_lem :
    (type : Text) (d : Drawing) (r : Recorder)
    → (validate_guided_views type d r ≡ (none, r)) ↔ (
        (distinct_texts (map (λ (v : View). v.0) d.views) ≡ true)
        × Each (IsFocused (semantic_ids type d)) d.views)
unfolding validate_guided_views
validate_guided_views_lem type d r =
    let thrown =
      unless_problems_nil (codes "Guided view validation failed") (codes "guided-view/invalid")
        (subject_for type (codes "meta.views")) (view_problems (semantic_ids type d) 0 [] d.views)
        r in
    let found = view_problems_nil (semantic_ids type d) 0 [] d.views in
    let ids = map (λ (v : View). v.0) d.views in
    (
      λ h. let parts = found.0 (thrown.0 h) in (sym (fresh-nil ids) ∙ parts.0, parts.1),
      λ h. thrown.1 (found.1 (fresh-nil ids ∙ h.0, h.1)),
    )

-- The relationships of a type of diagram that has some pass, with nothing recorded, exactly if the
-- filled ids among theirs are distinct.
validate_relationship_ids_lem :
    (type collection : Text) (d : Drawing) (r : Recorder)
    → collection_in relationship_collections type ≡ some collection
    → (validate_relationship_ids type d r ≡ (none, r))
      ↔ (distinct_texts (map (λ (p : ℕ × Text). p.1) (filled_ids 0 (d.items collection))) ≡ true)
unfolding validate_relationship_ids relationship_problems
validate_relationship_ids_lem type collection d r e =
    let ids = filled_ids 0 (d.items collection) in
    let thrown =
      unless_problems_nil (codes "Relationship identity validation failed")
        (codes "relationship/duplicate-id")
        (subject_for type (collection_or_empty (collection_in relationship_collections type)))
        (relationship_problems type d) r in
    let named : relationship_problems type d
        ≡ duplicate_problems (relationship_message collection) [] ids =
      ap (collection_problems d) e in
    let found = duplicate_problems_nil (relationship_message collection) [] ids in
    let texts = map (λ (p : ℕ × Text). p.1) ids in
    (
      λ h. sym (fresh-nil texts) ∙ found.0 (sym named ∙ thrown.0 h),
      λ h. thrown.1 (named ∙ found.1 (fresh-nil texts ∙ h)),
    )
