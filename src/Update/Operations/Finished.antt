-- ===== src/Update/Operations/Finished.antt =====
-- How `promoteOperationClaim` ends, whatever its rounds show.
use codearmory_blacksmith.Base.{
  ℕ, zero, suc, ◌+◌, ◌≡◌, ◌≤◌, ◌<◌, ◌≢◌, refl, Text, Bool, true, false, Option, none, some, length,
  Each, arith, if_elim,
}
use codearmory_blacksmith.Update.Operations.Turns.{
  ClaimOwner, ClaimStatus, absent, busy, releasable,
}
use codearmory_blacksmith.Update.Operations.Promote.{
  done, in_use, failed, Rename, Activity, active, inactive, refused, broken, Round, won, lost,
  raised, Verdict, Place, prepared, installed, discarded, Promotion, ended, discard, retire_first,
  is_newer, after_failure, after_move, after_rename, after_inspection, unless_superseded,
  promote_from, promote_operation_claim,
}

-- The claim of the operation became the active one in a round, and was found active there.
abbrev pub IsInstalled : (ℕ → Round) → ℕ → Type 0
IsInstalled rounds attempt =
    (i : ℕ) × (i < attempt) × ((rounds i).rename ≡ done) × ((rounds i).activity ≡ active)

-- A claim that is won is installed, a claim that is lost does not stay under its own name, and no
-- claim of a higher generation is retired.
pub record IsFinished (rounds : ℕ → Round) (attempts left g : ℕ) (p : Promotion) : Type 0 where
  pub installs : p.verdict ≡ won → (p.place ≡ installed) × IsInstalled rounds attempts
  pub leaves : p.verdict ≡ lost → p.place ≢ prepared
  pub retires : length p.retired ≤ left
  pub older : Each (λ (c : Text × Option ClaimOwner). is_newer g c.1 ≡ false) p.retired

module _ (rounds : ℕ → Round) (attempts g : ℕ) where
  raised-IsFinished : (n : ℕ) (place : Place) → IsFinished rounds attempts n g (ended raised place)
  raised-IsFinished n place = record {
    installs = λ h. cc;
    leaves = λ h. cc;
    retires = omega arith;
    older = tt;
  }

  lost-IsFinished :
      (n : ℕ) (place : Place) → place ≢ prepared → IsFinished rounds attempts n g (ended lost place)
  lost-IsFinished n place away = record {
    installs = λ h. cc;
    leaves = λ h. away;
    retires = omega arith;
    older = tt;
  }

  discard-IsFinished :
      (n : ℕ) (works : Bool) (v : Verdict) (place : Place)
      → v ≢ won
      → IsFinished rounds attempts n g (discard works v place)
  discard-IsFinished n works won place h = absurd (h refl)
  discard-IsFinished n works lost installed h = lost-IsFinished n installed (λ e. cc)
  discard-IsFinished n works lost discarded h = lost-IsFinished n discarded (λ e. cc)
  discard-IsFinished n true lost prepared h = lost-IsFinished n discarded (λ e. cc)
  discard-IsFinished n false lost prepared h = raised-IsFinished n prepared
  discard-IsFinished n works raised installed h = raised-IsFinished n installed
  discard-IsFinished n works raised discarded h = raised-IsFinished n discarded
  discard-IsFinished n true raised prepared h = raised-IsFinished n discarded
  discard-IsFinished n false raised prepared h = raised-IsFinished n prepared

  later-IsFinished :
      (n : ℕ) (p : Promotion)
      → IsFinished rounds attempts n g p
      → IsFinished rounds attempts (suc n) g p
  later-IsFinished n p h = record {
    installs = h.installs;
    leaves = h.leaves;
    retires = omega (arith, h.retires);
    older = h.older;
  }

  -- A round whose rest is finished.
  module _ (n : ℕ) (r : Round) (later : Place → Promotion)
      (rest : (place : Place) → IsFinished rounds attempts n g (later place)) where
    after_failure-IsFinished :
        (place : Place) (is_in_use : Bool) (raced : Option ClaimStatus)
        → IsFinished rounds attempts (suc n) g (after_failure r later place is_in_use raced)
    after_failure-IsFinished place code none = raised-IsFinished (suc n) place
    after_failure-IsFinished place true (some absent) = later-IsFinished n _ (rest place)
    after_failure-IsFinished place false (some absent) =
        discard-IsFinished (suc n) r.discards raised place (λ h. cc)
    after_failure-IsFinished place code (some (busy o)) = later-IsFinished n _ (rest place)
    after_failure-IsFinished place code (some (releasable key o)) =
        later-IsFinished n _ (rest place)

    after_move-IsFinished :
        (a : Activity)
        → (a ≡ active → IsInstalled rounds attempts)
        → IsFinished rounds attempts (suc n) g (after_move r later a)
    after_move-IsFinished active h = record {
      installs = λ e. (refl, h refl);
      leaves = λ e. cc;
      retires = omega arith;
      older = tt;
    }
    after_move-IsFinished inactive h = lost-IsFinished (suc n) installed (λ e. cc)
    after_move-IsFinished refused h = after_failure-IsFinished installed true r.raced
    after_move-IsFinished broken h = after_failure-IsFinished installed false r.raced

    after_rename-IsFinished :
        (rename : Rename)
        → (rename ≡ done → r.activity ≡ active → IsInstalled rounds attempts)
        → IsFinished rounds attempts (suc n) g (after_rename r later rename)
    after_rename-IsFinished done h = after_move-IsFinished r.activity (h refl)
    after_rename-IsFinished in_use h = after_failure-IsFinished prepared true r.raced
    after_rename-IsFinished failed h = after_failure-IsFinished prepared false r.raced

    retire_first-IsFinished :
        (key : Text) (o : Option ClaimOwner) (p : Promotion)
        → is_newer g o ≡ false
        → IsFinished rounds attempts n g p
        → IsFinished rounds attempts (suc n) g (retire_first key o p)
    retire_first-IsFinished key o p older h = record {
      installs = h.installs;
      leaves = h.leaves;
      retires = omega (arith, h.retires);
      older = (older, h.older);
    }

    after_inspection-IsFinished :
        (place : Place) (claim : Option ClaimStatus)
        → (r.rename ≡ done → r.activity ≡ active → IsInstalled rounds attempts)
        → IsFinished rounds attempts (suc n) g (after_inspection g r later place claim)
    unfolding after_inspection
    after_inspection-IsFinished place none h = raised-IsFinished (suc n) place
    after_inspection-IsFinished place (some (busy o)) h =
        discard-IsFinished (suc n) r.discards lost place (λ e. cc)
    after_inspection-IsFinished place (some (releasable key o)) h =
        if_elim (IsFinished rounds attempts (suc n) g) (is_newer g o) _ _
          (λ e. discard-IsFinished (suc n) r.discards lost place (λ l. cc))
          (λ e. retire_first-IsFinished key o _ e (
            if_elim (IsFinished rounds attempts n g) r.retires (later place) (ended raised place)
              (λ k. rest place) (λ k. raised-IsFinished n place)))
    after_inspection-IsFinished prepared (some absent) h = after_rename-IsFinished r.rename h
    after_inspection-IsFinished installed (some absent) h =
        after_failure-IsFinished installed false r.raced
    after_inspection-IsFinished discarded (some absent) h =
        after_failure-IsFinished discarded false r.raced

    round-IsFinished :
        (place : Place) (superseded : Option Bool)
        → (r.rename ≡ done → r.activity ≡ active → IsInstalled rounds attempts)
        → IsFinished rounds attempts
            (suc n)
            g
            (unless_superseded r place (after_inspection g r later place r.claim) superseded)
    round-IsFinished place none h = raised-IsFinished (suc n) place
    round-IsFinished place (some true) h =
        discard-IsFinished (suc n) r.discards lost place (λ e. cc)
    round-IsFinished place (some false) h = after_inspection-IsFinished place r.claim h

promote_from-IsFinished :
    (left g : ℕ) (last : Bool) (rounds : ℕ → Round) (attempt attempts : ℕ) (place : Place)
    → attempt + left ≤ attempts
    → IsFinished rounds attempts left g (promote_from left g last rounds attempt place)
unfolding promote_from
promote_from-IsFinished zero g last rounds attempt attempts place h =
    discard-IsFinished rounds attempts g 0 last lost place (λ k. cc)
promote_from-IsFinished (suc left) g last rounds attempt attempts place h =
    round-IsFinished rounds attempts g left (rounds attempt)
      (λ next. promote_from left g last rounds (suc attempt) next)
      (λ next. promote_from-IsFinished left g last rounds (suc attempt) attempts next (omega arith))
      place (rounds attempt).is_superseded (λ renamed alive. (attempt, omega arith, renamed, alive))

-- The promotion of a prepared claim ends after at most 8 rounds: won, and then its claim was
-- installed by a rename of one of them and was found active there; lost, and then its claim does
-- not stay under its own name; or with an error. It has at most 8 claims retired, none of which
-- names an owner of a higher generation.
pub promote_operation_claim-IsFinished :
    (g : ℕ) (last : Bool) (rounds : ℕ → Round)
    → IsFinished rounds 8 8 g (promote_operation_claim g last rounds)
unfolding promote_operation_claim
promote_operation_claim-IsFinished g last rounds =
    promote_from-IsFinished 8 g last rounds 0 8 prepared (omega arith)
