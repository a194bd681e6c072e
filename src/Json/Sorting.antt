-- ===== src/Json/Sorting.antt =====
-- Sorting texts keeps them.
use codearmory_blacksmith.Base.{
  ◌≡◌, refl, ap, ◌∙◌, Text, List, [], ◌∷◌, Bool, ◌||◌, includes, text_eq, arith,
}
use codearmory_blacksmith.Json.{insert_text, sort_texts}

includes-insert_text :
    (e t : Text) (xs : List Text) → includes e (insert_text t xs) ≡ includes e (t ∷ xs)
unfolding includes insert_text
includes-insert_text e t [] = refl
includes-insert_text e t (x ∷ xs) = ground (arith, includes-insert_text e t xs)

pub includes-sort_texts : (e : Text) (xs : List Text) → includes e (sort_texts xs) ≡ includes e xs
unfolding sort_texts includes
includes-sort_texts e [] = refl
includes-sort_texts e (x ∷ xs) =
    includes-insert_text e x (sort_texts xs)
    ∙ ap (λ (b : Bool). text_eq x e || b) (includes-sort_texts e xs)
