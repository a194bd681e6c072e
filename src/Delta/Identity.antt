-- ===== src/Delta/Identity.antt =====
-- What `stableIndex` accepts, and the comparison of a diagram with itself.
use codearmory_blacksmith.Base.{
  ◌≡◌, refl, sym, ap, ◌∙◌, Text, codes, [], ◌∷◌, ◌++◌, Bool, true, false, not, ◌&&◌, Option, none,
  some, text_eq_refl, if◌then◌else◌, arith, Bool-cases, Option-cases, inl, inr,
}
use codearmory_blacksmith.Json.{Value, Items, nil, cons, get}
use codearmory_blacksmith.Delta.{
  Checked, passed, failed, DeltaCode, duplicate_stable_id, stable_id_required,
  relationship_id_required, ◌>>=◌,
}
use codearmory_blacksmith.Delta.Canonical.{same_value, canonical}
use codearmory_blacksmith.Delta.Index.{
  Index, Scan, has, scan, step, settle, stable_index, stable_id, items_of, boundary_index,
}
use codearmory_blacksmith.Delta.Entities.{Kind, component, connection, boundary, compare_entities}
use codearmory_blacksmith.Delta.Verdicts.{compare_entities_refl}
use codearmory_blacksmith.Delta.Compare.{
  Comparison, compare_architecture, presentation_changed, presentation, describe_component,
  describe_connection, describe_boundary, require_comparable_shape, require_shared,
  require_same_repository, repository_of, repository_value,
}

-- The items under their keys, if each has one.
abbrev prepend : Option Text → Value → Option Index → Option Index
prepend none v rest = none
prepend (some k) v none = none
prepend (some k) v (some rest) = some ((k, v) ∷ rest)

-- No key of the second list is in the first one, or twice in the second.
abbrev pub fresh : Index → Index → Bool
fresh seen [] = true
fresh seen ((k, v) ∷ rest) = not (has k seen) && fresh (seen ++ (k, v) ∷ []) rest

append_nil : (xs : Index) → xs ++ [] ≡ xs
append_nil [] = refl
append_nil (x ∷ xs) = ap (λ (r : Index). x ∷ r) (append_nil xs)

append_assoc : (xs ys zs : Index) → (xs ++ ys) ++ zs ≡ xs ++ (ys ++ zs)
append_assoc [] ys zs = refl
append_assoc (x ∷ xs) ys zs = ap (λ (r : Index). x ∷ r) (append_assoc xs ys zs)

abbrev found : Index → Scan
found seen = record { missing = false; duplicate = false; index = seen }

abbrev repeated_result : DeltaCode → DeltaCode → Option Index → Checked Index
repeated_result m d none = failed m
repeated_result m d (some _) = failed d

-- The outcome for items under their keys, if each has one, behind the keys that were seen.
abbrev pub tried : DeltaCode → DeltaCode → Index → Option Index → Checked Index
tried m d seen none = failed m
tried m d seen (some rest) = if fresh seen rest then passed (seen ++ rest) else failed d

step-missing :
    (o : Option Text) (x : Value) (s : Scan) → s.missing ≡ true → (step o x s).missing ≡ true
step-missing none x s h = refl
step-missing (some k) x s h = ground arith

step-repeated :
    (k : Text) (x : Value) (s : Scan)
    → s.missing ≡ false
    → s.duplicate ≡ true
    → ((step (some k) x s).missing ≡ false) × ((step (some k) x s).duplicate ≡ true)
step-repeated k x s h r = ground arith

settle-missing : (m d : DeltaCode) (s : Scan) → s.missing ≡ true → settle m d s ≡ failed m
settle-missing m d s h = ground arith

repeated_result-prepend :
    (m d : DeltaCode) (k : Text) (x : Value) (o : Option Index)
    → repeated_result m d (prepend (some k) x o) ≡ repeated_result m d o
repeated_result-prepend m d k x none = refl
repeated_result-prepend m d k x (some r) = refl

tried-repeated :
    (m d : DeltaCode) (seen : Index) (k : Text) (x : Value) (o : Option Index)
    → has k seen ≡ true
    → repeated_result m d o ≡ tried m d seen (prepend (some k) x o)
tried-repeated m d seen k x none h = refl
tried-repeated m d seen k x (some r) h = ground arith

tried-fresh :
    (m d : DeltaCode) (seen : Index) (k : Text) (x : Value) (o : Option Index)
    → has k seen ≡ false
    → tried m d (seen ++ (k, x) ∷ []) o ≡ tried m d seen (prepend (some k) x o)
tried-fresh m d seen k x none h = refl
tried-fresh m d seen k x (some r) h = ground (arith, append_assoc seen ((k, x) ∷ []) r)

module _ (key : Value → Option Text) where
  abbrev pub identified : Items → Option Index
  identified nil = some []
  identified (cons x xs) = prepend (key x) x (identified xs)

  missing_stays : (xs : Items) (s : Scan) → s.missing ≡ true → (scan key xs s).missing ≡ true
  unfolding scan
  missing_stays nil s h = h
  missing_stays (cons x xs) s h = missing_stays xs (step (key x) x s) (step-missing (key x) x s h)

  -- After a repeated key only a missing one matters.
  repeated :
      (m d : DeltaCode) (xs : Items) (s : Scan)
      → s.missing ≡ false
      → s.duplicate ≡ true
      → settle m d (scan key xs s) ≡ repeated_result m d (identified xs)
  unfolding scan
  repeated m d nil s h k = ground arith
  repeated m d (cons x xs) s h k =
      let after = λ (o : Option Text). settle m d (scan key xs (step o x s)) in
      let expected = λ (o : Option Text). repeated_result m d (prepend o x (identified xs)) in
      elim (Option-cases (key x)) [
        | inl e ↦
            let next = record s { missing = true } in
            ap after e
            ∙ settle-missing m d (scan key xs next) (missing_stays xs next refl)
            ∙ ap expected (sym e)
        | inr (t, e) ↦
            let (h', k') = step-repeated t x s h k in
            ap after e
            ∙ repeated m d xs (step (some t) x s) h' k'
            ∙ sym (repeated_result-prepend m d t x (identified xs))
            ∙ ap expected (sym e)
      ]

  settle-scan :
      (m d : DeltaCode) (xs : Items) (seen : Index)
      → settle m d (scan key xs (found seen)) ≡ tried m d seen (identified xs)
  unfolding scan
  settle-scan m d nil seen = ap passed (sym (append_nil seen))
  settle-scan m d (cons x xs) seen =
      let after = λ (o : Option Text). settle m d (scan key xs (step o x (found seen))) in
      let expected = λ (o : Option Text). tried m d seen (prepend o x (identified xs)) in
      elim (Option-cases (key x)) [
        | inl e ↦
            let next = record (found seen) { missing = true } in
            ap after e
            ∙ settle-missing m d (scan key xs next) (missing_stays xs next refl)
            ∙ ap expected (sym e)
        | inr (t, e) ↦ elim (Bool-cases (has t seen)) [
          | inl f ↦
              ap after e
              ∙ rw f (repeated m d xs (record (found seen) { duplicate = true }) refl refl)
              ∙ tried-repeated m d seen t x (identified xs) f
              ∙ ap expected (sym e)
          | inr f ↦
              ap after e
              ∙ rw f (settle-scan m d xs (seen ++ (t, x) ∷ []))
              ∙ tried-fresh m d seen t x (identified xs) f
              ∙ ap expected (sym e)
        ]
      ]

-- `stableIndex` fails on an item without an id, else on an id that stands twice, and else gives the
-- items under their ids, in their order.
stable_index_lem :
    (items : Value) (missing : DeltaCode)
    → stable_index items missing
      ≡ tried missing duplicate_stable_id [] (identified stable_id (items_of items))
unfolding stable_index
stable_index_lem items missing =
    settle-scan stable_id missing duplicate_stable_id (items_of items) []

-- No change is reported, of any kind.
pub record IsUnchanged (c : Comparison) : Type 0 where
  pub components : c.components ≡ []
  pub connections : c.connections ≡ []
  pub boundaries : c.boundaries ≡ []
  pub presentation : c.presentation_changed ≡ false
  pub provenance : c.provenance_changed ≡ false

>>=-passed {ℓ κ μ} :
    {A : Type ℓ} {B : Type κ} {C : Type μ} (m : Checked A) (f : A → Checked B) {b : B}
    → (m >>= f) ≡ passed b
    → ((a : A) → m ≡ passed a → f a ≡ passed b → C)
    → C
>>=-passed (failed code) f h k = absurd (ground arith)
>>=-passed (passed a) f h k = k a refl h

same_value_refl : (v : Value) → same_value v v ≡ true
unfolding same_value
same_value_refl v = text_eq_refl (canonical v)

passed-injective {ℓ} : {A : Type ℓ} {x y : A} → passed x ≡ passed y → x ≡ y
passed-injective h = ground arith

unchanged_entities :
    {D : Type 0} (describe : Text → Option Value → Option Value → D) (kind : Kind)
    {o : Checked Index} {a b : Index}
    → o ≡ passed a
    → o ≡ passed b
    → compare_entities describe kind a b ≡ []
unchanged_entities describe kind {o} {a} {b} e f =
    let same : b ≡ a = passed-injective (sym f ∙ e) in
    ap (λ (i : Index). compare_entities describe kind a i) same
    ∙ compare_entities_refl describe kind a

-- A diagram that is compared with itself, if it passes the checks, has no changes.
pub compare_architecture-IsUnchanged :
    (lower : Text → Text) (diagram : Value) (v w : Bool) (c : Comparison)
    → compare_architecture lower diagram diagram v w ≡ passed c
    → IsUnchanged c
unfolding compare_architecture presentation_changed
compare_architecture-IsUnchanged lower diagram v w c h =
    >>=-passed (require_comparable_shape diagram) _ h λ _ _ h.
      >>=-passed (require_comparable_shape diagram) _ h λ _ _ h.
        >>=-passed (stable_index (get diagram (codes "components")) stable_id_required) _ h
          λ a ea h.
            >>=-passed (stable_index (get diagram (codes "components")) stable_id_required) _ h
              λ b eb h. >>=-passed (require_shared a b) _ h λ _ _ h.
                >>=-passed
                  (stable_index (get diagram (codes "connections")) relationship_id_required) _ h
                  λ x ex h.
                    >>=-passed
                      (stable_index (get diagram (codes "connections")) relationship_id_required) _
                      h
                      λ y ey h.
                        >>=-passed (boundary_index (get diagram (codes "boundaries"))) _ h λ p ep h.
                          >>=-passed (boundary_index (get diagram (codes "boundaries"))) _ h
                            λ q eq h.
                              >>=-passed
                                (require_same_repository (repository_of lower diagram)
                                  (repository_of lower diagram))
                                _ h
                                λ _ _ h.
                                  let same = sym (passed-injective h) in
                                  record {
                                    components =
                                        ap (λ (r : Comparison). r.components) same
                                        ∙ unchanged_entities describe_component component ea eb;
                                    connections =
                                        ap (λ (r : Comparison). r.connections) same
                                        ∙ unchanged_entities describe_connection connection ex ey;
                                    boundaries =
                                        ap (λ (r : Comparison). r.boundaries) same
                                        ∙ unchanged_entities describe_boundary boundary ep eq;
                                    presentation =
                                        ap (λ (r : Comparison). r.presentation_changed) same
                                        ∙ ap not (same_value_refl (presentation diagram));
                                    provenance =
                                        ap (λ (r : Comparison). r.provenance_changed) same
                                        ∙ ap not (
                                            same_value_refl
                                              (repository_value (repository_of lower diagram)));
                                  }
