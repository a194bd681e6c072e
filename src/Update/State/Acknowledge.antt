-- ===== src/Update/State/Acknowledge.antt =====
-- What an acknowledgement does to the two lists of digests.
use codearmory_blacksmith.Base.{
  Text, List, [], ◌∷◌, ◌++◌, ◌≡◌, refl, true, false, not, ◌&&◌, ◌||◌, text_eq, text_eq_iff,
  text_eq_refl, includes, if◌then◌else◌, arith,
}
use codearmory_blacksmith.Update.State.{State, without, state_after_acknowledgement}

pub includes-without :
    (e t : Text) (xs : List Text) → includes e (without t xs) ≡ (includes e xs && not (text_eq t e))
unfolding includes without
includes-without e t [] = refl
includes-without e t (x ∷ xs) =
    ground (arith, includes-without e t xs, text_eq_iff x t, text_eq_iff x e, text_eq_iff t e)

pub includes-append :
    (e : Text) (xs ys : List Text) → includes e (xs ++ ys) ≡ (includes e xs || includes e ys)
unfolding includes
includes-append e [] ys = refl
includes-append e (x ∷ xs) ys = ground (arith, includes-append e xs ys)

pub without-none : (t : Text) (xs : List Text) → includes t xs ≡ false → without t xs ≡ xs
unfolding includes without
without-none t [] h = refl
without-none t (x ∷ xs) h = ground (arith, without-none t xs)

-- The target is acknowledged and no longer offered, every other digest stays where it was, and
-- nothing else of the state changes.
pub record IsAcknowledged (t : Text) (s s' : State) : Type 0 where
  pub acknowledged : includes t s'.acknowledged ≡ true
  pub withdrawn : includes t s'.offered ≡ false
  pub others :
      (e : Text)
      → text_eq t e ≡ false
      → (includes e s'.offered ≡ includes e s.offered)
        × (includes e s'.acknowledged ≡ includes e s.acknowledged)
  pub candidate : s'.candidate ≡ s.candidate
  pub installed_version : s'.installed_version ≡ s.installed_version
  pub next_check_at : s'.next_check_at ≡ s.next_check_at
  pub consecutive_failures : s'.consecutive_failures ≡ s.consecutive_failures

-- After an acknowledgement the target is acknowledged and no longer offered, every other digest
-- stays where it was, and nothing else of the state changes.
pub state_after_acknowledgement-IsAcknowledged :
    (s : State) (t : Text) → IsAcknowledged t s (state_after_acknowledgement s t)
unfolding state_after_acknowledgement
state_after_acknowledgement-IsAcknowledged s t = record {
  acknowledged =
      unfold includes in ground (arith, includes-append t s.acknowledged (t ∷ []), text_eq_refl t);
  withdrawn = ground (arith, includes-without t t s.offered, text_eq_refl t);
  others = λ e h. (
    ground (arith, includes-without e t s.offered),
    unfold includes in ground (arith, includes-append e s.acknowledged (t ∷ [])),
  );
  candidate = refl;
  installed_version = refl;
  next_check_at = refl;
  consecutive_failures = refl;
}

-- A second acknowledgement of the same digest changes nothing.
state_after_acknowledgement_idem :
    (s : State) (t : Text)
    → state_after_acknowledgement (state_after_acknowledgement s t) t
      ≡ state_after_acknowledgement s t
unfolding state_after_acknowledgement
state_after_acknowledgement_idem s t =
    let once = state_after_acknowledgement-IsAcknowledged s t in
    let again = (state_after_acknowledgement s t).acknowledged in
    let kept : (if includes t again then again else again ++ t ∷ []) ≡ again =
      rw once.acknowledged in
    λ i. record s {
      offered = without-none t (without t s.offered) once.withdrawn i;
      acknowledged = kept i;
    }
