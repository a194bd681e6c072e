-- ===== src/Update/Operations/Newest.antt =====
-- The state that is read is that of the newest committed operation that has one. The program writes
-- a generation with 20 digits, so that it has one directory of each kind.
use mathlib.Core.Bool.{true≢false}
use codearmory_blacksmith.Base.Pairs.{Pairwise, Each-map}
use codearmory_blacksmith.Base.{
  ℕ, ◌≡◌, ◌≤◌, ◌<◌, ◌⊎◌, inl, inr, refl, sym, ap, ◌∙◌, Text, List, [], ◌∷◌, Bool, true, ◌&&◌, ◌||◌,
  Option, none, some, ltb, ◌==◌, any, filter, Each, arith, if_elim, elim_option, ltb→lt,
}
use codearmory_blacksmith.Update.State.{State, empty_state}
use codearmory_blacksmith.Update.Operations.{committed}
use codearmory_blacksmith.Update.Operations.Names.{Operation}
use codearmory_blacksmith.Update.Operations.Turns.{
  is_kind, insert_newest, sort_newest, first_state, read_state,
}

abbrev pub is_committed_at : ℕ → Operation → Bool
is_committed_at g o = is_kind o.kind committed && o.generation == g

-- A committed operation has the state, and no later one has any; or none has.
abbrev pub IsNewest : (ℕ → Option State) → Option Text → List Operation → State → Type 0
IsNewest states installed operations s =
    ((g : ℕ) × (any (is_committed_at g) operations ≡ true)
      × ((states g ≡ some s)
          × Each
              (λ (o : Operation).
                is_kind o.kind committed ≡ true → g < o.generation → states o.generation ≡ none)
              operations))
    ⊎ (Each (λ (o : Operation). is_kind o.kind committed ≡ true → states o.generation ≡ none)
          operations
        × (s ≡ empty_state installed))

abbrev NotAfter : Operation → Operation → Type 0
NotAfter x y = y.generation ≤ x.generation

any-insert_newest :
    (p : Operation → Bool) (o : Operation) (xs : List Operation)
    → any p (insert_newest o xs) ≡ (p o || any p xs)
unfolding insert_newest
any-insert_newest p o [] = refl
any-insert_newest p o (x ∷ xs) = ground (arith, any-insert_newest p o xs)

any-sort_newest : (p : Operation → Bool) (xs : List Operation) → any p (sort_newest xs) ≡ any p xs
unfolding sort_newest
any-sort_newest p [] = refl
any-sort_newest p (x ∷ xs) =
    any-insert_newest p x (sort_newest xs) ∙ ap (λ b. p x || b) (any-sort_newest p xs)

any-filter :
    (p q : Operation → Bool) (xs : List Operation) → any p (filter q xs) ≡ any (λ x. q x && p x) xs
any-filter p q [] = refl
any-filter p q (x ∷ xs) = ground (arith, any-filter p q xs)

Each-insert_newest :
    (P : Operation → Type 0) (o : Operation) (xs : List Operation)
    → P o
    → Each P xs
    → Each P (insert_newest o xs)
unfolding insert_newest
Each-insert_newest P o [] h k = (h, tt)
Each-insert_newest P o (x ∷ xs) h k =
    if_elim (Each P) (ltb o.generation x.generation) _ _
      (λ below. (k.0, Each-insert_newest P o xs h k.1)) (λ above. (h, k))

inserted_before :
    (P : Operation → Type 0) (o : Operation) (xs : List Operation)
    → Each P (insert_newest o xs)
    → P o × Each P xs
unfolding insert_newest
inserted_before P o [] h = (h.0, tt)
inserted_before P o (x ∷ xs) h =
    if_elim (λ ys. Each P ys → P o × Each P (x ∷ xs)) (ltb o.generation x.generation) _ _
      (λ below h. let rest = inserted_before P o xs h.1 in (rest.0, (h.0, rest.1)))
      (λ above h. (h.0, h.1)) h

sorted_before : (P : Operation → Type 0) (xs : List Operation) → Each P (sort_newest xs) → Each P xs
unfolding sort_newest
sorted_before P [] h = tt
sorted_before P (x ∷ xs) h =
    let parts = inserted_before P x (sort_newest xs) h in (parts.0, sorted_before P xs parts.1)

filtered_before :
    (P : Operation → Type 0) (q : Operation → Bool) (xs : List Operation)
    → Each P (filter q xs)
    → Each (λ x. q x ≡ true → P x) xs
filtered_before P q [] h = tt
filtered_before P q (x ∷ xs) h =
    if_elim (λ ys. Each P ys → Each (λ y. q y ≡ true → P y) (x ∷ xs)) (q x) _ _
      (λ yes h. (λ k. h.0, filtered_before P q xs h.1))
      (λ no h. (λ k. elim (true≢false (sym k ∙ no)) [ ], filtered_before P q xs h)) h

insert_newest-NotAfter :
    (o : Operation) (xs : List Operation)
    → Pairwise NotAfter xs
    → Pairwise NotAfter (insert_newest o xs)
unfolding insert_newest
insert_newest-NotAfter o [] h = (tt, tt)
insert_newest-NotAfter o (x ∷ xs) h =
    if_elim (Pairwise NotAfter) (ltb o.generation x.generation) _ _
      (λ below. (
        Each-insert_newest (NotAfter x) o xs (omega (arith, ltb→lt _ _ below)) h.0,
        insert_newest-NotAfter o xs h.1,
      ))
      (λ above.
        let higher : x.generation ≤ o.generation = ground arith in
        ((higher, Each-map xs (λ y k. omega (arith, k, higher)) h.0), h))

sort_newest-NotAfter : (xs : List Operation) → Pairwise NotAfter (sort_newest xs)
unfolding sort_newest
sort_newest-NotAfter [] = tt
sort_newest-NotAfter (x ∷ xs) = insert_newest-NotAfter x (sort_newest xs) (sort_newest-NotAfter xs)

-- The first state of a list of operations, the newest one first.
abbrev IsFirst : (ℕ → Option State) → Option Text → List Operation → State → Type 0
IsFirst states installed xs s =
    ((g : ℕ) × (any (λ (o : Operation). o.generation == g) xs ≡ true)
      × ((states g ≡ some s)
          × Each (λ (o : Operation). g < o.generation → states o.generation ≡ none) xs))
    ⊎ (Each (λ (o : Operation). states o.generation ≡ none) xs × (s ≡ empty_state installed))

state_behind :
    (states : ℕ → Option State) (installed : Option Text) (o : Operation) (xs : List Operation)
    (s : State)
    → states o.generation ≡ none
    → IsFirst states installed xs s
    → IsFirst states installed (o ∷ xs) s
state_behind states installed o xs s e (inl (g, at, (found, later))) =
    inl (g, ground (arith, at), (found, (λ below. e, later)))
state_behind states installed o xs s e (inr (all_none, none_found)) =
    inr ((e, all_none), none_found)

first_state-IsFirst :
    (states : ℕ → Option State) (installed : Option Text) (xs : List Operation)
    → Pairwise NotAfter xs
    → IsFirst states installed xs (first_state states installed xs)
first_state-IsFirst states installed [] h = inr (tt, refl)
first_state-IsFirst states installed (o ∷ xs) h =
    elim_option (IsFirst states installed (o ∷ xs)) (states o.generation) _ _
      (λ e. state_behind states installed o xs _ e (first_state-IsFirst states installed xs h.1))
      (λ s e. inl (
        o.generation,
        ground arith,
        (
          e,
          (
            λ below. elim (not_above o.generation o.generation below (omega arith)) [ ],
            Each-map xs (λ y low below. elim (not_above o.generation y.generation below low) [ ])
                h.0,
          ),
        ),
      ))
  where
    not_above : (m n : ℕ) → m < n → n ≤ m → ⊥
    not_above m n above low = omega arith

read_state_lem :
    (states : ℕ → Option State) (installed : Option Text) (xs : List Operation) (s : State)
    → IsFirst states installed
        (sort_newest (filter (λ (o : Operation). is_kind o.kind committed) xs))
        s
    → IsNewest states installed xs s
read_state_lem states installed xs s (inl (g, at, (found, later))) =
    let test = λ (o : Operation). o.generation == g in
    let committed_only = λ (o : Operation). is_kind o.kind committed in
    inl (
      g,
      sym (any-sort_newest test (filter committed_only xs) ∙ any-filter test committed_only xs)
          ∙ at,
      (
        found,
        filtered_before _ committed_only xs (sorted_before _ (filter committed_only xs) later),
      ),
    )
read_state_lem states installed xs s (inr (all_none, none_found)) =
    let committed_only = λ (o : Operation). is_kind o.kind committed in
    inr (
      filtered_before _ committed_only xs (sorted_before _ (filter committed_only xs) all_none),
      none_found,
    )

-- The state that is read is that of a committed operation, and no committed operation of a later
-- generation has a state; or no committed operation has one, and it is the empty state.
pub read_state-IsNewest :
    (states : ℕ → Option State) (installed : Option Text) (operations : List Operation)
    → IsNewest states installed operations (read_state states installed operations)
unfolding read_state
read_state-IsNewest states installed operations = read_state_lem states installed operations _ (
    first_state-IsFirst states installed _
      (sort_newest-NotAfter (filter (λ (o : Operation). is_kind o.kind committed) operations)))
