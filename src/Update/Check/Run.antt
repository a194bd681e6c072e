-- ===== src/Update/Check/Run.antt =====
-- `commitOperation`, `checkForUpdate` and `acknowledgeUpdate`, step by step.
use codearmory_blacksmith.Base.{
  ℕ, ◌+◌, ltb, Text, codes, List, [], ◌∷◌, ◌++◌, Bool, true, false, not, Option, none, some,
  includes, if◌then◌else◌,
}
use codearmory_blacksmith.Json.{Value, coerce}
use codearmory_blacksmith.Update.Contract.{LocalRelease, validate_stable_update_manifest}
use codearmory_blacksmith.Update.Semver.{◌>>=◌}
use codearmory_blacksmith.Update.State.{State, Candidate, includes_value, encode_recoverable_state}
use codearmory_blacksmith.Update.Check.{
  Clock, Reason, Result, silent, update_available, Decision, runtime_unavailable,
  invalid_local_release, invalid_clock, cache_unavailable, check_in_progress, invalid_manifest,
  check_failed, invalid_acknowledgement, result_for_candidate, is_fresh, state_after_failed_check,
  next_successful_check, decide_acknowledgement, digest_for_event_key,
}

-- How the write and the rename of the state file end.
pub data Write : Type 0 where
  stored fenced failed : Write

-- What a commit meets: whether the operation owns the claim before and after the fencing of older
-- operations, whether a cancellation succeeds, the state that is read, and how the write ends.
-- `none` is an exception.
pub record CommitRun : Type 0 where
  pub owns_before : Option Bool
  pub owns_after : Option Bool
  pub cancels : Bool
  pub current : Option State
  pub write : Write

pub record Commit : Type 0 where
  pub fenced : Bool
  pub result : Result
  pub stored : Option State

-- The operation is cancelled first, which may raise.
abbrev pub lost : CommitRun → Option Commit
lost run =
    if run.cancels
    then some (record { fenced = true; result = silent check_in_progress; stored = none })
    else none

abbrev pub unchanged : CommitRun → Result → Option Commit
unchanged run r =
    if run.cancels then some (record { fenced = false; result = r; stored = none }) else none

-- `none` is an exception, which the caller turns into `cache-unavailable`.
abbrev pub store : Write → State → Result → Option Commit
store stored s r = some (record { fenced = false; result = r; stored = some s })
store fenced s r = some (record { fenced = true; result = silent check_in_progress; stored = none })
store failed s r = none

abbrev pub store_fallback : CommitRun → Option (State × Result) → Option Commit
store_fallback run none = unchanged run (silent cache_unavailable)
store_fallback run (some (s, r)) = elim (encode_recoverable_state s) [
  | none ↦ unchanged run (silent cache_unavailable)
  | some _ ↦ store run.write s r
]

abbrev pub carry_out : CommitRun → Decision → Option Commit
carry_out run d = elim d.state [
  | none ↦ unchanged run d.result
  | some s ↦ elim (encode_recoverable_state s) [
    | some _ ↦ store run.write s d.result
    | none ↦ store_fallback run d.fallback
  ]
]

abbrev pub commit_owned : CommitRun → (State → Option Decision) → Option Commit
commit_owned run mutate = elim run.current [
  | none ↦ none
  | some s ↦ elim (mutate s) [ none ↦ none | some d ↦ carry_out run d ]
]

unfoldable pub commit_operation : CommitRun → (State → Option Decision) → Option Commit
commit_operation run mutate = elim run.owns_before [
  | none ↦ none
  | some false ↦ lost run
  | some true ↦ elim run.owns_after [
    | none ↦ none
    | some false ↦ lost run
    | some true ↦ commit_owned run mutate
  ]
]

pub data Acquire : Type 0 where
  acquired busy unavailable : Acquire

pub data Fetch : Type 0 where
  decoded : Value → Fetch
  contract_error other_error : Fetch

-- What a check meets, in the order of the steps.
pub record CheckRun : Type 0 where
  pub has_fetch : Bool
  pub release : Option LocalRelease
  pub now : Option ℕ
  pub random : ℕ
  pub prepared : Option State
  pub acquire : Acquire
  pub seen_busy : Option State
  pub reread : Option State
  pub cancels : Bool
  pub owns_claim : Option Bool
  pub owns_verified : Option Bool
  pub seen_lost : Option State
  pub fetch : Fetch
  pub commit : CommitRun

-- A result and the state that the run stored.
pub record Outcome : Type 0 where
  pub result : Result
  pub stored : Option State

abbrev pub just : Result → Outcome
just r = record { result = r; stored = none }

-- `catch { return silent('cache-unavailable') }`
abbrev pub or_unavailable : Option Result → Outcome
or_unavailable none = just (silent cache_unavailable)
or_unavailable (some r) = just r

abbrev pub finish : Option Commit → Outcome
finish none = just (silent cache_unavailable)
finish (some c) = record { result = c.result; stored = c.stored }

-- The cached answer of a run that may not check itself: only what was offered before.
abbrev pub is_offered_candidate : State → Option Candidate → Bool
is_offered_candidate s none = false
is_offered_candidate s (some c) = includes_value c.target_digest s.offered

abbrev pub offered_result : LocalRelease → State → Option Result
offered_result release s =
    if is_offered_candidate s s.candidate
    then result_for_candidate release s
    else some (silent check_in_progress)

abbrev pub or_offered : LocalRelease → Option State → Outcome
or_offered release none = just (silent cache_unavailable)
or_offered release (some s) = or_unavailable (offered_result release s)

abbrev pub offered_text : Value → List Text
offered_text (Value.str t) = t ∷ []
offered_text _ = []

-- An offer is recorded with the state that announces it. (The digest of a fetched candidate is a
-- text.)
abbrev pub add_offer : Result → Candidate → State → State
add_offer (update_available n) c s =
    if includes_value c.target_digest s.offered
    then s
    else record s { offered = s.offered ++ offered_text c.target_digest }
add_offer _ c s = s

-- `validateManifest`
unfoldable pub validate_manifest : Value → Option Candidate
unfolding coerce
validate_manifest v = do
  m ← validate_stable_update_manifest v
  some (record {
    version = m.version;
    target_digest = Value.str (codes "sha256:" ++ coerce m.sha256);
    severity = m.severity;
    release_notes = m.release_notes;
  })

module _ (clock : Clock) where
  unfoldable pub successful_state : State → ℕ → ℕ → Candidate → State
  unfolding next_successful_check
  successful_state s now random c = record s {
    candidate = some c;
    next_check_at = some (next_successful_check clock now random);
    consecutive_failures = 0;
  }

  abbrev pub success_decision : State → ℕ → Candidate → State → Option Result → Option Decision
  success_decision s now c next none = none
  success_decision s now c next (some r) = some (record {
    state = some (add_offer r c next);
    result = r;
    fallback = some (state_after_failed_check clock s now true, silent cache_unavailable);
  })

  unfoldable pub decide_success : LocalRelease → ℕ → ℕ → Candidate → State → Option Decision
  unfolding successful_state result_for_candidate state_after_failed_check includes
  decide_success release now random c s =
      let next = successful_state s now random c in
      success_decision s now c next (result_for_candidate release next)

  unfoldable pub decide_failure : Reason → ℕ → State → Option Decision
  unfolding state_after_failed_check
  decide_failure reason now s = some (record {
    state = some (state_after_failed_check clock s now false);
    result = silent reason;
    fallback = none;
  })

  abbrev pub commit_failure : CheckRun → Reason → ℕ → Outcome
  commit_failure run reason now = finish (commit_operation run.commit (decide_failure reason now))

  abbrev pub commit_manifest : CheckRun → LocalRelease → ℕ → Option Candidate → Outcome
  commit_manifest run release now none = commit_failure run invalid_manifest now
  commit_manifest run release now (some c) =
      finish (commit_operation run.commit (decide_success release now run.random c))

  abbrev pub fetch_and_commit : CheckRun → LocalRelease → ℕ → Fetch → Outcome
  fetch_and_commit run release now contract_error = commit_failure run invalid_manifest now
  fetch_and_commit run release now other_error = commit_failure run check_failed now
  fetch_and_commit run release now (decoded v) =
      commit_manifest run release now (validate_manifest v)

  abbrev pub check_claimed : CheckRun → LocalRelease → ℕ → Option Bool → Outcome → Outcome
  check_claimed run release now none next = just (silent cache_unavailable)
  check_claimed run release now (some false) next =
      if run.cancels then or_offered release run.seen_lost else just (silent cache_unavailable)
  check_claimed run release now (some true) next = next

  abbrev pub check_owned : CheckRun → LocalRelease → ℕ → State → Outcome
  check_owned run release now s =
      if is_fresh clock s now
      then (if run.cancels
          then or_unavailable (result_for_candidate release s)
          else just (silent cache_unavailable))
      else check_claimed run release now run.owns_claim (
          check_claimed run release now run.owns_verified
            (fetch_and_commit run release now run.fetch))

  abbrev pub after_reread : CheckRun → LocalRelease → ℕ → Option State → Outcome
  after_reread run release now none = just (silent cache_unavailable)
  after_reread run release now (some s) = check_owned run release now s

  abbrev pub check_stale : CheckRun → LocalRelease → ℕ → Acquire → Outcome
  check_stale run release now unavailable = just (silent cache_unavailable)
  check_stale run release now busy = or_offered release run.seen_busy
  check_stale run release now acquired = after_reread run release now run.reread

  abbrev pub check_prepared : CheckRun → LocalRelease → ℕ → Option State → Outcome
  check_prepared run release now none = just (silent cache_unavailable)
  check_prepared run release now (some s) =
      if is_fresh clock s now
      then or_unavailable (result_for_candidate release s)
      else check_stale run release now run.acquire

  abbrev pub check_started : CheckRun → LocalRelease → Option ℕ → Outcome
  check_started run release none = just (silent invalid_clock)
  check_started run release (some now) = check_prepared run release now run.prepared

  abbrev pub check_installed : CheckRun → Option LocalRelease → Outcome
  check_installed run none = just (silent invalid_local_release)
  check_installed run (some release) = check_started run release run.now

  unfoldable pub check_for_update : CheckRun → Outcome
  check_for_update run =
      if not run.has_fetch
      then just (silent runtime_unavailable)
      else check_installed run run.release

abbrev pub ack_lock_wait_ms : ℕ
ack_lock_wait_ms = 1200

-- One round of the loop: the attempt to acquire, the commit, and the clock when the round would be
-- repeated (`none` if it cannot be read).
pub record Round : Type 0 where
  pub acquire : Acquire
  pub commit : CommitRun
  pub clock : Option ℕ

-- Whether `waitUntilRetry` has time left.
abbrev pub may_retry : ℕ → Option ℕ → Bool
may_retry deadline none = false
may_retry deadline (some now) = ltb now deadline

-- How a round ends: with an outcome, or with a wait.
abbrev pub end_of_commit : Option Commit → Option Outcome
end_of_commit none = some (just (silent cache_unavailable))
end_of_commit (some c) =
    if c.fenced then none else some (record { result = c.result; stored = c.stored })

abbrev pub end_of_round : Text → Text → Acquire → CommitRun → Option Outcome
end_of_round event_key target unavailable run = some (just (silent cache_unavailable))
end_of_round event_key target busy run = none
end_of_round event_key target acquired run =
    end_of_commit (commit_operation run (λ s. some (decide_acknowledgement event_key target s)))

-- The loop of `acknowledgeUpdate`; `none` means that the rounds ran out.
unfoldable pub acknowledge_rounds : Text → Text → ℕ → List Round → Option Outcome
unfolding commit_operation decide_acknowledgement
acknowledge_rounds event_key target deadline [] = none
acknowledge_rounds event_key target deadline (r ∷ rest) =
    let later = acknowledge_rounds event_key target deadline rest in
    elim (end_of_round event_key target r.acquire r.commit) [
      | some o ↦ some o
      | none ↦ if may_retry deadline r.clock then later else some (just (silent check_in_progress))
    ]

-- What an acknowledgement meets before the loop.
pub record AcknowledgeRun : Type 0 where
  pub event_key : Text
  pub release : Option LocalRelease
  pub is_prepared : Bool
  pub started : Option ℕ
  pub rounds : List Round

unfoldable pub acknowledge_update : AcknowledgeRun → Option Outcome
unfolding digest_for_event_key acknowledge_rounds
acknowledge_update run = elim (digest_for_event_key run.event_key) [
  | none ↦ some (just (silent invalid_acknowledgement))
  | some target ↦ elim run.release [
    | none ↦ some (just (silent invalid_local_release))
    | some _ ↦
        if not run.is_prepared then some (just (silent cache_unavailable)) else elim run.started [
          | none ↦ some (just (silent invalid_acknowledgement))
          | some now ↦ acknowledge_rounds run.event_key target (now + ack_lock_wait_ms) run.rounds
        ]
  ]
]
