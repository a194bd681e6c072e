-- ===== src/Update/Operations/Reserve.antt =====
-- How `reserveOperation` finds a generation, and that it finds one.
use codearmory_blacksmith.Base.{
  ℕ, zero, suc, ◌+◌, ◌-◌, ◌^◌, ◌≡◌, ◌≤◌, refl, List, ◌∷◌, Bool, true, false, ◌&&◌, none, some, ltb,
  ◌==◌, any, arith, elim_either, elim_option, if_elim, ltb→lt, ap, sym, ◌∙◌, ◌≢◌,
}
use mathlib.Core.Bool.{true≢false}
use codearmory_blacksmith.Update.Operations.{
  Kind, reserved, pending, Entry, Directory, make, write, put, has_kind,
}
use codearmory_blacksmith.Update.Operations.Settled.{make_inv, write_same, write_elsewhere}

abbrev pub max_operation_generation : ℕ
max_operation_generation = 10 ^ 20 - 1

-- An operation, with the directories as they are then; the error of a space without a free
-- generation; or a loop that has not ended yet.
pub data Reservation : Type 0 where
  reserved_at : ℕ → Directory → Reservation
  exhausted out_of_fuel : Reservation

abbrev pub has_number : ℕ → List ℕ → Bool
has_number n ns = any (λ m. m == n) ns

-- The loop, from a generation on, with the occupied ones that it knows of. No call fails for another
-- reason than that a directory is there, and what follows the second one, the file of the owner, is
-- left out.
unfoldable pub reserve_from : ℕ → List ℕ → ℕ → Directory → Reservation
unfolding make
reserve_from zero occupied g d = out_of_fuel
reserve_from (suc fuel) occupied g d = elim (has_number g occupied) [
  | true ↦ reserve_from fuel occupied (suc g) d
  | false ↦ elim (ltb max_operation_generation g) [
    | true ↦ exhausted
    | false ↦ elim (make reserved g d) [
      | none ↦ reserve_from fuel (g ∷ occupied) (suc g) d
      | some e ↦ elim (make pending g e) [
        | none ↦ reserve_from fuel (g ∷ occupied) (suc g) e
        | some f ↦ reserved_at g f
      ]
    ]
  ]
]

-- More fuel than there are generations.
unfoldable pub reserve_operation : List ℕ → Directory → Reservation
unfolding reserve_from
reserve_operation occupied d = reserve_from (2 + max_operation_generation) occupied 1 d

-- An operation is reserved at a generation up to `k`, for which there was no reservation.
abbrev pub IsReserved : ℕ → Directory → Reservation → Type 0
IsReserved k d r =
    (h : ℕ) × (e : Directory) × (r ≡ reserved_at h e)
    × ((h ≤ k) × (((d h).is_reserved ≡ false) × (((e h).is_reserved && (e h).is_pending) ≡ true)))

abbrev pub IsFree : ℕ → List ℕ → Directory → Type 0
IsFree k occupied d =
    (has_number k occupied ≡ false) × (((d k).is_reserved ≡ false) × ((d k).is_pending ≡ false))

make-none :
    (kind : Kind) (g : ℕ) (d : Directory) → make kind g d ≡ none → has_kind kind (d g) ≡ true
unfolding make
make-none kind g d h = ground arith

-- What is unreserved after the reservation of `g` was so before.
unreserved_before :
    (g n : ℕ) (d : Directory)
    → (write g (put reserved (d g)) d n).is_reserved ≡ false
    → (d n).is_reserved ≡ false
unreserved_before g n d =
    if_elim (λ (x : Entry). x.is_reserved ≡ false → (d n).is_reserved ≡ false) (n == g)
      (put reserved (d g)) (d n) (λ h k. elim (true≢false k) [ ]) (λ h k. k)

beyond_fuel : (k g : ℕ) → g ≤ k → suc k ≤ zero + g → ⊥
beyond_fuel k g low high = omega arith

not_number :
    (k g : ℕ) (occupied : List ℕ)
    → g ≢ k
    → has_number k occupied ≡ false
    → has_number k (g ∷ occupied) ≡ false
not_number k g occupied other h = ground arith

abbrev IsUnmade : ℕ → Directory → Type 0
IsUnmade k d = ((d k).is_reserved ≡ false) × ((d k).is_pending ≡ false)

-- After the reservation: the pending directory is made, or the loop goes on.
pending_lem :
    (k g : ℕ) (d e : Directory) (rest : Directory → Reservation)
    → g ≤ k
    → IsUnmade k d
    → (has_kind reserved (d g) ≡ false) × (write g (put reserved (d g)) d ≡ e)
    → ((c : Directory) → g ≢ k → IsUnmade k c → IsReserved k c (rest c))
    → IsReserved k d (elim (make pending g e) [ none ↦ rest e | some f ↦ reserved_at g f ])
pending_lem k g d e rest low unmade (fresh, written) next =
    let at_g : e g ≡ put reserved (d g) =
      ap (λ (c : Directory). c g) (sym written) ∙ write_same g (put reserved (d g)) d in
    elim_option (IsReserved k d) (make pending g e) _ _
      (λ taken.
        let other : g ≢ k = λ same. true≢false (
          sym (make-none pending g e taken)
          ∙ ap (λ (x : Entry). x.is_pending) at_g
          ∙ ap (λ m. (d m).is_pending) same
          ∙ unmade.1) in
        let at_k : e k ≡ d k =
          ap (λ (c : Directory). c k) (sym written)
          ∙ write_elsewhere k g (put reserved (d g)) d (λ same. other (sym same)) in
        let found = next e other (
          ap (λ (x : Entry). x.is_reserved) at_k ∙ unmade.0,
          ap (λ (x : Entry). x.is_pending) at_k ∙ unmade.1,
        ) in
        let h = found.0 in
        (
          h,
          found.1,
          found.2,
          (
            found.3.0,
            (
              unreserved_before g h d
                  (ap (λ (c : Directory). (c h).is_reserved) written ∙ found.3.1.0),
              found.3.1.1,
            ),
          ),
        ))
      (λ f done.
        let inv = make_inv pending g e f done in
        let at : f g ≡ put pending (e g) =
          ap (λ (c : Directory). c g) (sym inv.1) ∙ write_same g (put pending (e g)) e in
        (g, f, refl, (low, (fresh, made f at at_g))))
  where
    made :
        (f : Directory)
        → f g ≡ put pending (e g)
        → e g ≡ put reserved (d g)
        → ((f g).is_reserved && (f g).is_pending) ≡ true
    made f at at_g = rw at (rw at_g refl)

pub reserve_from_lem :
    (fuel k g : ℕ) (occupied : List ℕ) (d : Directory)
    → g ≤ k
    → suc k ≤ fuel + g
    → k ≤ max_operation_generation
    → IsFree k occupied d
    → IsReserved k d (reserve_from fuel occupied g d)
unfolding reserve_from
reserve_from_lem zero k g occupied d low enough high free = elim (beyond_fuel k g low enough) [ ]
reserve_from_lem (suc fuel) k g occupied d low enough high free =
    let next = λ (e : Directory) (other : g ≢ k) (unmade : IsUnmade k e).
      reserve_from_lem fuel k (suc g) (g ∷ occupied) e (beyond other) (omega arith) high
        (not_number k g occupied other free.0, unmade) in
    elim_either (IsReserved k d) (has_number g occupied) _ _
      (λ h. reserve_from_lem fuel k (suc g) occupied d (beyond (known h)) (omega arith) high free)
      (λ h.
        elim_either (IsReserved k d) (ltb max_operation_generation g) _ _
          (λ full. elim (not_full full) [ ])
          (λ room.
            elim_option (IsReserved k d) (make reserved g d) _ _
              (λ taken. next d (unlike (make-none reserved g d taken)) free.1)
              (λ e made.
                pending_lem k g d e (λ c. reserve_from fuel (g ∷ occupied) (suc g) c) low free.1
                  (make_inv reserved g d e made) next)))
  where
    beyond : g ≢ k → suc g ≤ k
    beyond other = omega arith

    known : has_number g occupied ≡ true → g ≢ k
    known h same = true≢false (sym h ∙ ap (λ m. has_number m occupied) same ∙ free.0)

    unlike : (d g).is_reserved ≡ true → g ≢ k
    unlike h same = true≢false (sym h ∙ ap (λ m. (d m).is_reserved) same ∙ free.1.0)

    not_full : ltb max_operation_generation g ≢ true
    not_full full = ground (arith, ltb→lt max_operation_generation g full)

-- If some generation from 1 on that a name can hold is not listed and has neither a reservation nor
-- a pending directory, the loop ends with both directories made for a generation up to it that was
-- not reserved.
pub reserve_operation-IsReserved :
    (occupied : List ℕ) (d : Directory) (k : ℕ)
    → 1 ≤ k
    → k ≤ max_operation_generation
    → IsFree k occupied d
    → IsReserved k d (reserve_operation occupied d)
unfolding reserve_operation
reserve_operation-IsReserved occupied d k low high free =
    reserve_from_lem (2 + max_operation_generation) k 1 occupied d low (omega arith) high free
