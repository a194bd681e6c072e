-- ===== src/Update/Operations/Promote.antt =====
-- `promoteOperationClaim` and `acquireOperation`. What the directories show and how each call of the
-- file system ends is given for each round; `none` and `false` are an error that is thrown, and
-- whether a claim was retired shows in the next round.
use codearmory_blacksmith.Base.{
  ℕ, zero, suc, Text, List, [], ◌∷◌, Bool, true, false, Option, none, some, if◌then◌else◌, ltb,
}
use codearmory_blacksmith.Update.Operations.Turns.{
  ClaimOwner, ClaimStatus, absent, busy, releasable,
}

-- The rename of the prepared claim: done, refused since something is there (EEXIST, ENOTEMPTY,
-- EPERM), or failed otherwise.
pub data Rename : Type 0 where
  done in_use failed : Rename

-- What `operationIsActive` answers, or the kind of its error.
pub data Activity : Type 0 where
  active inactive refused broken : Activity

pub record Round : Type 0 where
  pub is_superseded : Option Bool
  pub claim : Option ClaimStatus
  pub retires : Bool
  pub rename : Rename
  pub activity : Activity
  pub raced : Option ClaimStatus
  pub discards : Bool

pub data Verdict : Type 0 where
  won lost raised : Verdict

-- Where the claim that was prepared is: under its own name, as the active one, or discarded.
pub data Place : Type 0 where
  prepared installed discarded : Place

-- How the promotion ends, and the claims that were to be retired.
pub record Promotion : Type 0 where
  pub verdict : Verdict
  pub place : Place
  pub retired : List (Text × Option ClaimOwner)

abbrev pub ended : Verdict → Place → Promotion
ended v place = record { verdict = v; place = place; retired = [] }

-- `discardPreparedClaim`, and the end; `works` says whether it throws no error.
abbrev pub discard : Bool → Verdict → Place → Promotion
discard works v installed = ended v installed
discard works v discarded = ended v discarded
discard works v prepared = if works then ended v discarded else ended raised prepared

abbrev pub retire_first : Text → Option ClaimOwner → Promotion → Promotion
retire_first key o p = record p { retired = (key, o) ∷ p.retired }

-- `owner?.generation > generation`
abbrev pub is_newer : ℕ → Option ClaimOwner → Bool
is_newer g none = false
is_newer g (some owner) = ltb g owner.generation

-- The `catch` block, where `is_in_use` tells the code of the error.
abbrev pub after_failure :
    Round → (Place → Promotion) → Place → Bool → Option ClaimStatus → Promotion
after_failure r later place is_in_use none = ended raised place
after_failure r later place is_in_use (some absent) =
    if is_in_use then later place else discard r.discards raised place
after_failure r later place is_in_use (some (busy o)) = later place
after_failure r later place is_in_use (some (releasable key o)) = later place

abbrev pub after_move : Round → (Place → Promotion) → Activity → Promotion
after_move r later active = ended won installed
after_move r later inactive = ended lost installed
after_move r later refused = after_failure r later installed true r.raced
after_move r later broken = after_failure r later installed false r.raced

abbrev pub after_rename : Round → (Place → Promotion) → Rename → Promotion
after_rename r later done = after_move r later r.activity
after_rename r later in_use = after_failure r later prepared true r.raced
after_rename r later failed = after_failure r later prepared false r.raced

-- The `try` block. A claim that is moved has no name to rename it from, which is an error.
abbrev pub attempt_rename : Round → (Place → Promotion) → Place → Promotion
attempt_rename r later prepared = after_rename r later r.rename
attempt_rename r later installed = after_failure r later installed false r.raced
attempt_rename r later discarded = after_failure r later discarded false r.raced

unfoldable pub after_inspection :
    ℕ → Round → (Place → Promotion) → Place → Option ClaimStatus → Promotion
after_inspection g r later place none = ended raised place
after_inspection g r later place (some (busy o)) = discard r.discards lost place
after_inspection g r later place (some (releasable key o)) =
    if is_newer g o
    then discard r.discards lost place
    else retire_first key o (if r.retires then later place else ended raised place)
after_inspection g r later place (some absent) = attempt_rename r later place

abbrev pub unless_superseded : Round → Place → Promotion → Option Bool → Promotion
unless_superseded r place next none = ended raised place
unless_superseded r place next (some true) = discard r.discards lost place
unless_superseded r place next (some false) = next

-- `last` says whether the claim can be discarded behind the loop.
unfoldable pub promote_from : ℕ → ℕ → Bool → (ℕ → Round) → ℕ → Place → Promotion
unfolding after_inspection
promote_from zero g last rounds attempt place = discard last lost place
promote_from (suc left) g last rounds attempt place =
    let later = λ (next : Place). promote_from left g last rounds (suc attempt) next in
    let r = rounds attempt in
    unless_superseded r place (after_inspection g r later place r.claim) r.is_superseded

-- From the prepared claim on.
unfoldable pub promote_operation_claim : ℕ → Bool → (ℕ → Round) → Promotion
unfolding promote_from
promote_operation_claim g last rounds = promote_from 8 g last rounds 0 prepared

-- An operation that is held, or none; whether the one that was reserved is cancelled; or an error.
pub data Acquired : Type 0 where
  held : ℕ → Acquired
  busy_cache : Acquired
  given_up : ℕ → Acquired
  raised_error : Acquired

abbrev pub after_promotion : ℕ → Verdict → Acquired
after_promotion g won = held g
after_promotion g lost = given_up g
after_promotion g raised = raised_error

abbrev pub after_reservation : Bool → (ℕ → Verdict) → Option ℕ → Acquired
after_reservation superseded promote none = busy_cache
after_reservation superseded promote (some g) =
    if superseded then given_up g else after_promotion g (promote g)

-- The reservation is `none` when it was fenced.
unfoldable pub acquire_operation : ClaimStatus → Bool → Option ℕ → Bool → (ℕ → Verdict) → Acquired
acquire_operation (busy o) pending reservation superseded promote = busy_cache
acquire_operation absent pending reservation superseded promote =
    if pending then busy_cache else after_reservation superseded promote reservation
acquire_operation (releasable key o) pending reservation superseded promote =
    if pending then busy_cache else after_reservation superseded promote reservation
