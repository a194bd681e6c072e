-- ===== src/Workflow/Keys.antt =====
-- The keys of `authoredEdges` in renderers/workflow/workflow-compiler.mjs, which join two ids by a
-- code unit 0.
use codearmory_blacksmith.Base.{
  ℕ, ◌≡◌, refl, Text, List, [], ◌∷◌, ◌++◌, map, Bool, true, false, not, ◌&&◌, ◌==◌, none, text_eq,
  includes, all, arith,
}
use codearmory_blacksmith.Workflow.Contract.{Relation, edge_key}
use codearmory_blacksmith.Workflow.Paths.{has_edge}

-- No code unit is 0, which separates the ids of a key.
abbrev pub is_plain : Text → Bool
is_plain t = all (λ c. not (c == 0)) t

key-inj :
    (a b c d : Text)
    → is_plain a ≡ true
    → is_plain b ≡ true
    → text_eq (c ++ (0 ∷ d)) (a ++ (0 ∷ b)) ≡ (text_eq c a && text_eq d b)
unfolding text_eq
key-inj [] b [] d h k = refl
key-inj [] b (y ∷ c) d h k = ground (arith, plain-tail y c d b)
  where
    plain-tail : (y : ℕ) (c d b : Text) → text_eq (c ++ (0 ∷ d)) b ≡ true → is_plain b ≡ false
    plain-tail y [] d [] e = cc
    plain-tail y [] d (x ∷ b) e = ground arith
    plain-tail y (z ∷ c) d [] e = cc
    plain-tail y (z ∷ c) d (x ∷ b) e = ground (arith, plain-tail y c d b)
key-inj (x ∷ a) b [] d h k = ground arith
key-inj (x ∷ a) b (y ∷ c) d h k = ground (arith, key-inj a b c d)

pub key-has_edge :
    (r : Relation) (es : List Relation)
    → is_plain r.from ≡ true
    → is_plain r.to ≡ true
    → includes (edge_key r) (map edge_key es)
      ≡ has_edge (record { nodes = []; edges = es; semantic_checks = none }) r.from r.to
unfolding includes
key-has_edge r [] h k = refl
key-has_edge r (e ∷ es) h k = ground (arith, key-has_edge r es h k, key-inj r.from r.to e.from e.to)
