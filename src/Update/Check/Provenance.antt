-- ===== src/Update/Check/Provenance.antt =====
-- Where the update comes from that `checkForUpdate` announces.
use mathlib.Core.Path.{subst}
use codearmory_blacksmith.Base.{
  ℕ, ◌≡◌, refl, sym, inl, inr, Text, codes, ◌++◌, Bool, true, false, not, Option, none, some,
  if◌then◌else◌, Option-cases, arith,
}
use codearmory_blacksmith.Json.{Value, str, coerce}
use codearmory_blacksmith.Update.Contract.{LocalRelease, validate_stable_update_manifest}
use codearmory_blacksmith.Update.State.{State, Candidate}
use codearmory_blacksmith.Update.Check.Announce.{
  IsAnnounced, IsAdmitted, result_for_candidate-IsAnnounced, offered_result-IsAnnounced,
  commit_success-IsAnnounced, commit_failure-silent,
}
use codearmory_blacksmith.Update.Check.{
  Clock, Reason, runtime_unavailable, invalid_clock, invalid_manifest, check_failed, silent,
  cache_unavailable, update_available, Notification, result_for_candidate, is_fresh,
}
use codearmory_blacksmith.Update.Check.Run.{
  check_started, check_installed, just, CheckRun, Outcome, check_for_update, or_unavailable,
  or_offered, fetch_and_commit, check_owned, check_stale, check_prepared, after_reread, Acquire,
  acquired, busy, unavailable, validate_manifest, commit_manifest, check_claimed, Fetch, decoded,
  contract_error, other_error,
}

-- The states that a run read.
pub data Seen (run : CheckRun) (s : State) : Type 0 where
  at_start : run.prepared ≡ some s → Seen run s
  when_busy : run.seen_busy ≡ some s → Seen run s
  when_reread : run.reread ≡ some s → Seen run s
  when_lost : run.seen_lost ≡ some s → Seen run s

validate_manifest-digest :
    (v : Value) {c : Candidate}
    → validate_manifest v ≡ some c
    → (t : Text) × (c.target_digest ≡ str t)
unfolding validate_manifest
validate_manifest-digest v h = elim (Option-cases (validate_stable_update_manifest v)) [
  | inl e ↦ absurd (ground arith)
  | inr (m, e) ↦ (codes "sha256:" ++ coerce m.sha256, ground arith)
]

-- Where an announced update comes from: the state that the run stored, or one that it read.
pub data Source (run : CheckRun) (o : Outcome) (s : State) : Type 0 where
  from_stored : o.stored ≡ some s → Source run o s
  from_seen : Seen run s → Source run o s

abbrev pub Announced : CheckRun → LocalRelease → Outcome → Notification → Type 0
Announced run release o n = (s : State) × Source run o s × IsAnnounced release n s

-- What a run may assume of the states that it reads for this installed version.
abbrev pub ReadsAdmitted : CheckRun → LocalRelease → Type 0
ReadsAdmitted run release = (s : State) → Seen run s → IsAdmitted release s

module _ (clock : Clock) (run : CheckRun) (release : LocalRelease) (n : Notification) where
  offered-Announced :
      (o : Option State)
      → ((s : State) → o ≡ some s → Seen run s)
      → (or_offered release o).result ≡ update_available n
      → Announced run release (or_offered release o) n
  offered-Announced none seen h = absurd (ground arith)
  offered-Announced (some s) seen h =
      (s, from_seen (seen s refl), offered_result-IsAnnounced release s n (ground arith))

  cached-Announced :
      (s : State)
      → Seen run s
      → IsAdmitted release s
      → (or_unavailable (result_for_candidate release s)).result ≡ update_available n
      → Announced run release (or_unavailable (result_for_candidate release s)) n
  cached-Announced s seen ok h =
      (s, from_seen seen, result_for_candidate-IsAnnounced release s n ok (ground arith))

  manifest-Announced :
      (now : ℕ) (c : Option Candidate)
      → ((x : Candidate) → c ≡ some x → (t : Text) × (x.target_digest ≡ str t))
      → (commit_manifest clock run release now c).result ≡ update_available n
      → Announced run release (commit_manifest clock run release now c) n
  manifest-Announced now none digest h =
      absurd (commit_failure-silent clock run.commit invalid_manifest now n h)
  manifest-Announced now (some c) digest h =
      let (t, d) = digest c refl in
      let (s, st, a) =
        commit_success-IsAnnounced clock run.commit release now run.random c t n d h in
      (s, from_stored st, a)

  fetch-Announced :
      (now : ℕ) (f : Fetch)
      → (fetch_and_commit clock run release now f).result ≡ update_available n
      → Announced run release (fetch_and_commit clock run release now f) n
  fetch-Announced now contract_error h =
      absurd (commit_failure-silent clock run.commit invalid_manifest now n h)
  fetch-Announced now other_error h =
      absurd (commit_failure-silent clock run.commit check_failed now n h)
  fetch-Announced now (decoded v) h =
      manifest-Announced now (validate_manifest v) (λ x e. validate_manifest-digest v e) h

  if-Announced :
      (b : Bool) (x y : Outcome)
      → (x.result ≡ update_available n → Announced run release x n)
      → (y.result ≡ update_available n → Announced run release y n)
      → (if b then x else y).result ≡ update_available n
      → Announced run release (if b then x else y) n
  if-Announced true x y k l h = k h
  if-Announced false x y k l h = l h

  silent-Announced :
      (r : Reason)
      → (just (silent r)).result ≡ update_available n
      → Announced run release (just (silent r)) n
  silent-Announced r h = absurd (ground arith)

  claimed-Announced :
      (now : ℕ) (owns : Option Bool) (next : Outcome)
      → (next.result ≡ update_available n → Announced run release next n)
      → (check_claimed clock run release now owns next).result ≡ update_available n
      → Announced run release (check_claimed clock run release now owns next) n
  claimed-Announced now none next k = silent-Announced cache_unavailable
  claimed-Announced now (some false) next k =
      if-Announced run.cancels _ _ (offered-Announced run.seen_lost (λ s. when_lost))
        (silent-Announced cache_unavailable)
  claimed-Announced now (some true) next k = k

  owned-Announced :
      (now : ℕ) (s : State)
      → run.reread ≡ some s
      → IsAdmitted release s
      → (check_owned clock run release now s).result ≡ update_available n
      → Announced run release (check_owned clock run release now s) n
  owned-Announced now s e ok =
      if-Announced (is_fresh clock s now) _ _
        (if-Announced run.cancels _ _ (cached-Announced s (when_reread e) ok)
          (silent-Announced cache_unavailable))
        (claimed-Announced now run.owns_claim _
          (claimed-Announced now run.owns_verified _ (fetch-Announced now run.fetch)))

  reread-Announced :
      (now : ℕ) (o : Option State)
      → o ≡ run.reread
      → ReadsAdmitted run release
      → (after_reread clock run release now o).result ≡ update_available n
      → Announced run release (after_reread clock run release now o) n
  reread-Announced now none e ok h = absurd (ground arith)
  reread-Announced now (some s) e ok h =
      owned-Announced now s (sym e) (ok s (when_reread (sym e))) h

  stale-Announced :
      (now : ℕ) (a : Acquire)
      → ReadsAdmitted run release
      → (check_stale clock run release now a).result ≡ update_available n
      → Announced run release (check_stale clock run release now a) n
  stale-Announced now unavailable ok h = absurd (ground arith)
  stale-Announced now busy ok h = offered-Announced run.seen_busy (λ s. when_busy) h
  stale-Announced now acquired ok h = reread-Announced now run.reread refl ok h

  prepared-Announced :
      (now : ℕ) (o : Option State)
      → o ≡ run.prepared
      → ReadsAdmitted run release
      → (check_prepared clock run release now o).result ≡ update_available n
      → Announced run release (check_prepared clock run release now o) n
  prepared-Announced now none e ok = silent-Announced cache_unavailable
  prepared-Announced now (some s) e ok =
      if-Announced (is_fresh clock s now) _ _
        (cached-Announced s (at_start (sym e)) (ok s (at_start (sym e))))
        (stale-Announced now run.acquire ok)

  started-Announced :
      (now : Option ℕ)
      → ReadsAdmitted run release
      → (check_started clock run release now).result ≡ update_available n
      → Announced run release (check_started clock run release now) n
  started-Announced none ok = silent-Announced invalid_clock
  started-Announced (some now) ok = prepared-Announced now run.prepared refl ok

  installed-Announced :
      (r : Option LocalRelease)
      → r ≡ some release
      → ReadsAdmitted run release
      → (check_installed clock run r).result ≡ update_available n
      → Announced run release (check_installed clock run r) n
  installed-Announced none e ok h = absurd (ground arith)
  installed-Announced (some r) e ok h =
      let same : release ≡ r = ground arith in
      subst
        (λ x.
          (check_started clock run x run.now).result ≡ update_available n
          → Announced run release (check_started clock run x run.now) n)
        same (started-Announced run.now ok) h

-- If every state that a run reads is one that `normalizeState` admits for the installed release, an
-- update that the run announces is the candidate of a state that the run has stored or read: newer
-- than the installed version, its digest offered in that state and not acknowledged there.
pub check_for_update-IsAnnounced :
    (clock : Clock) (run : CheckRun) (release : LocalRelease) (n : Notification)
    → run.release ≡ some release
    → ReadsAdmitted run release
    → (check_for_update clock run).result ≡ update_available n
    → Announced run release (check_for_update clock run) n
unfolding check_for_update
check_for_update-IsAnnounced clock run release n e ok =
    if-Announced clock run release n (not run.has_fetch) _ _
      (silent-Announced clock run release n runtime_unavailable)
      (installed-Announced clock run release n run.release e ok)
