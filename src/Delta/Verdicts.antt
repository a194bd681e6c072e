-- ===== src/Delta/Verdicts.antt =====
-- What `compareEntities` reports of each id, and that it treats the two snapshots alike.
use mathlib.Core.Option.{map}
use codearmory_blacksmith.Base.{
  ◌≡◌, refl, sym, ap, ◌∙◌, Text, List, [], ◌∷◌, ◌++◌, Bool, true, false, ◌||◌, Option, none, some,
  text_eq, text_eq_iff, text_eq_refl, includes, if◌then◌else◌, arith, Bool-cases, inl, inr,
}
use codearmory_blacksmith.Json.{Value, sort_texts}
use codearmory_blacksmith.Json.Sorting.{includes-sort_texts}
use codearmory_blacksmith.Update.State.Acknowledge.{includes-append}
use codearmory_blacksmith.Delta.Index.{Index, find, has, index_keys}
use codearmory_blacksmith.Delta.Canonical.{same_value, canonical}
use codearmory_blacksmith.Delta.Entities.{
  component, connection, boundary, Kind, Verdict, Status, Group, added, removed, verdict,
  unless_same, compare_items, Change, changes_of, compare_entities, all_ids, unique_sorted,
  drop_repeats, differing, classifications, changed_fields, groups_for, normalized_field,
  status_for, keep, geometry_status,
}

includes-drop_repeats :
    (e t : Text) (xs : List Text) → includes e (drop_repeats t xs) ≡ includes e (t ∷ xs)
unfolding includes
includes-drop_repeats e t [] = refl
includes-drop_repeats e t (x ∷ xs) = ground (arith, text_eq_iff t x)

includes-unique_sorted : (e : Text) (xs : List Text) → includes e (unique_sorted xs) ≡ includes e xs
unfolding unique_sorted includes
includes-unique_sorted e [] = refl
includes-unique_sorted e (x ∷ xs) =
    includes-drop_repeats e x (unique_sorted xs)
    ∙ ap (λ (b : Bool). text_eq x e || b) (includes-unique_sorted e xs)

includes-index_keys : (e : Text) (index : Index) → includes e (index_keys index) ≡ has e index
unfolding includes index_keys find
includes-index_keys e [] = refl
includes-index_keys e (p ∷ rest) = ground (arith, includes-index_keys e rest)

-- The verdict that a list of changes holds for an id.
pub verdict_for : Text → List (Change Text) → Option Verdict
verdict_for id [] = none
verdict_for id (c ∷ rest) = if text_eq c.description id then some c.verdict else verdict_for id rest

abbrev pub name_only : Text → Option Value → Option Value → Text
name_only id base head = id

-- Whether the id is one of either map.
abbrev pub known : Text → Index → Index → Bool
known id base head = has id base || has id head

includes-all_ids :
    (id : Text) (base head : Index) → includes id (all_ids base head) ≡ known id base head
unfolding all_ids
includes-all_ids id base head =
    includes-unique_sorted id (sort_texts (index_keys base ++ index_keys head))
    ∙ includes-sort_texts id (index_keys base ++ index_keys head)
    ∙ includes-append id (index_keys base) (index_keys head)
    ∙ ground (arith, includes-index_keys id base, includes-index_keys id head)

abbrev here : Kind → Index → Index → Text → Option Verdict
here kind base head id = verdict kind (find id base) (find id head)

verdict_for-keep :
    (id t : Text) (v : Option Verdict) (rest : List (Change Text))
    → verdict_for id (keep t v rest) ≡ (
        if text_eq t id
        then elim v [ none ↦ verdict_for id rest | some w ↦ some w ]
        else verdict_for id rest)
unfolding verdict_for
verdict_for-keep id t none rest = ground arith
verdict_for-keep id t (some v) rest = refl

first_wins :
    (a b v : Option Verdict) (i : Bool)
    → a ≡ b
    → v ≡ (if i then b else none)
    → (elim a [ none ↦ v | some w ↦ some w ]) ≡ b
first_wins none b v true e h = h
first_wins none b v false e h = h ∙ e
first_wins (some w) b v i e h = e

verdict_for-changes_of :
    (kind : Kind) (base head : Index) (id : Text) (ids : List Text)
    → verdict_for id (changes_of name_only kind base head ids)
      ≡ (if includes id ids then here kind base head id else none)
unfolding changes_of includes
verdict_for-changes_of kind base head id [] = unfold verdict_for in refl
verdict_for-changes_of kind base head id (t ∷ ids) =
    let rest = verdict_for-changes_of kind base head id ids in
    let step =
      verdict_for-keep id t (here kind base head t) (changes_of name_only kind base head ids) in
    elim (Bool-cases (text_eq t id)) [
      | inr e ↦ rw e (rw e at step ∙ rest)
      | inl e ↦ rw e (
          rw e at step
          ∙ first_wins (here kind base head t) (here kind base head id) _ (includes id ids)
              (ap (here kind base head) ((text_eq_iff t id).0 e)) rest)
    ]

-- For each id, `compareEntities` reports the verdict on the two items of that id, if one of the
-- maps has the id, and nothing otherwise.
pub verdict_for-compare_entities :
    (kind : Kind) (base head : Index) (id : Text)
    → verdict_for id (compare_entities name_only kind base head)
      ≡ (if known id base head then verdict kind (find id base) (find id head) else none)
unfolding compare_entities
verdict_for-compare_entities kind base head id =
    verdict_for-changes_of kind base head id (all_ids base head)
    ∙ ap (λ (b : Bool). if b then here kind base head id else none) (includes-all_ids id base head)

or_comm : (a b : Bool) → (a || b) ≡ (b || a)
or_comm a b = ground arith

or_same : (a : Bool) → (a || a) ≡ true → a ≡ true
or_same a h = ground arith

includes-head : (t : Text) (ts : List Text) → includes t (t ∷ ts) ≡ true
unfolding includes
includes-head t ts = ground (arith, text_eq_refl t)

includes-tail : (e t : Text) (ts : List Text) → includes e ts ≡ true → includes e (t ∷ ts) ≡ true
unfolding includes
includes-tail e t ts h = ground arith

-- The verdict with the snapshots exchanged.
abbrev pub exchanged : Status → Status
exchanged added = removed
exchanged removed = added
exchanged s = s

abbrev pub exchange : Verdict → Verdict
exchange v = record v { status = exchanged v.status }

text_eq-sym : (a b : Text) → text_eq a b ≡ text_eq b a
text_eq-sym a b = ground (arith, text_eq_iff a b, text_eq_iff b a)

differing-sym :
    (before after : Value) (names : List Text)
    → differing before after names ≡ differing after before names
unfolding differing same_value
differing-sym before after [] = refl
differing-sym before after (name ∷ rest) = ground (
  arith,
  differing-sym before after rest,
  text_eq-sym (canonical (normalized_field before name)) (canonical (normalized_field after name)),
)

classifications-sym :
    (before after : Value) (gs : List Group)
    → classifications before after gs ≡ classifications after before gs
unfolding classifications
classifications-sym before after [] = refl
classifications-sym before after (g ∷ rest) =
    rw (differing-sym before after g.fields, classifications-sym before after rest) refl

changed_fields-sym :
    (before after : Value) (gs : List Group)
    → changed_fields before after gs ≡ changed_fields after before gs
unfolding changed_fields
changed_fields-sym before after [] = refl
changed_fields-sym before after (g ∷ rest) =
    rw (differing-sym before after g.fields, changed_fields-sym before after rest) refl

compare_items-sym :
    (kind : Kind) (before after : Value)
    → compare_items kind before after ≡ compare_items kind after before
unfolding compare_items
compare_items-sym kind before after =
    rw
      (
        classifications-sym before after (groups_for kind),
        changed_fields-sym before after (groups_for kind),
      )
      refl

geometry_status-kept : (kind : Kind) → exchanged (geometry_status kind) ≡ geometry_status kind
geometry_status-kept component = refl
geometry_status-kept connection = refl
geometry_status-kept boundary = refl

status_for-kept :
    (found : List Text) (kind : Kind) → exchanged (status_for found kind) ≡ status_for found kind
unfolding status_for
status_for-kept found kind = ground (arith, geometry_status-kept kind)

compare_items-kept :
    (kind : Kind) (b h : Value)
    → exchanged (compare_items kind b h).status ≡ (compare_items kind b h).status
unfolding compare_items
compare_items-kept kind b h =
    status_for-kept (sort_texts (classifications b h (groups_for kind))) kind

unless_same-kept :
    (v : Verdict) → exchanged v.status ≡ v.status → unless_same v ≡ map exchange (unless_same v)
unless_same-kept v h = ground arith

verdict-exchange :
    (kind : Kind) (b h : Option Value) (known : Bool)
    → (known ≡ true → (b ≡ none) → (h ≡ none) → ⊥)
    → (if known then verdict kind h b else none)
      ≡ map exchange (if known then verdict kind b h else none)
verdict-exchange kind b h false k = refl
verdict-exchange kind none none true k = absurd (k refl refl refl)
verdict-exchange kind none (some h) true k = refl
verdict-exchange kind (some b) none true k = refl
verdict-exchange kind (some b) (some h) true k =
    ap unless_same (compare_items-sym kind h b)
    ∙ unless_same-kept (compare_items kind b h) (compare_items-kept kind b h)

found_somewhere :
    (b h : Option Value)
    → ((elim b [ none ↦ false | some _ ↦ true ]) || (elim h [ none ↦ false | some _ ↦ true ]))
      ≡ true
    → b ≡ none
    → h ≡ none
    → ⊥
found_somewhere none none k e f = ground arith
found_somewhere none (some h) k e f = ground arith
found_somewhere (some b) h k e f = ground arith

abbrev pub status_of : Option Verdict → Option Status
status_of o = map (λ v. v.status) o

abbrev status_on : Kind → Option Value → Option Value → Option Status
status_on kind b h = status_of (
    if (elim b [ none ↦ false | some _ ↦ true ]) || (elim h [ none ↦ false | some _ ↦ true ])
    then verdict kind b h
    else none)

-- What is in one snapshot only.
only_status :
    (kind : Kind) (base head : Index) (id : Text) (b h : Option Value) (s : Status)
    → find id base ≡ b
    → find id head ≡ h
    → status_on kind b h ≡ some s
    → status_of (verdict_for id (compare_entities name_only kind base head)) ≡ some s
only_status kind base head id b h s e f k =
    ap status_of (verdict_for-compare_entities kind base head id)
    ∙ ap (λ x. status_on kind x (find id head)) e
    ∙ ap (status_on kind b) f
    ∙ k

-- An id of one snapshot only is "added" if that is the later one, and "removed" if it is the
-- earlier. Exchanging the two snapshots exchanges "added" and "removed" in the verdict that
-- `compareEntities` reports on an id, and changes nothing else of that verdict.
pub compare_entities-exchange :
    (kind : Kind) (base head : Index) (id : Text)
    → (verdict_for id (compare_entities name_only kind head base)
        ≡ map exchange (verdict_for id (compare_entities name_only kind base head)))
      × (((v : Value)
            → find id base ≡ none
            → find id head ≡ some v
            → status_of (verdict_for id (compare_entities name_only kind base head)) ≡ some added)
          × ((v : Value)
              → find id base ≡ some v
              → find id head ≡ none
              → status_of (verdict_for id (compare_entities name_only kind base head))
                ≡ some removed))
compare_entities-exchange kind base head id = (
  verdict_for-compare_entities kind head base id
      ∙ ap (λ (b : Bool). if b then here kind head base id else none)
          (or_comm (has id head) (has id base))
      ∙ verdict-exchange kind (find id base) (find id head) (known id base head)
          (found_somewhere (find id base) (find id head))
      ∙ ap (map exchange) (sym (verdict_for-compare_entities kind base head id)),
  (
    λ v e f. only_status kind base head id none (some v) added e f refl,
    λ v e f. only_status kind base head id (some v) none removed e f refl,
  ),
)

differing_refl : (v : Value) (names : List Text) → differing v v names ≡ []
unfolding differing same_value
differing_refl v [] = refl
differing_refl v (name ∷ rest) =
    ground (arith, differing_refl v rest, text_eq_refl (canonical (normalized_field v name)))

classifications_refl : (v : Value) (gs : List Group) → classifications v v gs ≡ []
unfolding classifications
classifications_refl v [] = refl
classifications_refl v (g ∷ rest) = rw (differing_refl v g.fields, classifications_refl v rest) refl

unchanged : (kind : Kind) (v : Value) → unless_same (compare_items kind v v) ≡ none
unfolding compare_items status_for sort_texts includes
unchanged kind v = rw (classifications_refl v (groups_for kind)) refl

verdict-same :
    (kind : Kind) (o : Option Value)
    → (elim o [ none ↦ false | some _ ↦ true ]) ≡ true
    → verdict kind o o ≡ none
verdict-same kind none h = absurd (ground arith)
verdict-same kind (some v) h = unchanged kind v

module _ {D : Type 0} (describe : Text → Option Value → Option Value → D) where
  no_changes :
      (kind : Kind) (index : Index) (ids : List Text)
      → ((id : Text) → includes id ids ≡ true → has id index ≡ true)
      → changes_of describe kind index index ids ≡ []
  unfolding changes_of
  no_changes kind index [] h = refl
  no_changes kind index (t ∷ ids) h =
      let none_here = verdict-same kind (find t index) (h t (includes-head t ids)) in
      rw none_here (no_changes kind index ids (λ id e. h id (includes-tail id t ids e)))

  -- Between a snapshot and itself, `compareEntities` reports no change.
  pub compare_entities_refl :
      (kind : Kind) (index : Index) → compare_entities describe kind index index ≡ []
  unfolding compare_entities
  compare_entities_refl kind index =
      no_changes kind index (all_ids index index)
        (λ id e. or_same (has id index) (sym (includes-all_ids id index index) ∙ e))
