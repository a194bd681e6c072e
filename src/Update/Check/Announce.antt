-- ===== src/Update/Check/Announce.antt =====
-- When a run announces an update, and that an announced update can be acknowledged.
use Prim.Native.Nat.{Ordering}
use codearmory_blacksmith.Base.{
  ℕ, ◌≡◌, refl, sym, ap, ◌∙◌, inl, inr, Text, ◌≢◌, List, [], ◌∷◌, Bool, true, false, ◌||◌, Option,
  none, some, includes, Option-cases, Bool-cases, arith, text_eq_refl,
}
use codearmory_blacksmith.Json.{Value, str}
use codearmory_blacksmith.Update.Semver.{compare_semver}
use codearmory_blacksmith.Update.Contract.{LocalRelease}
use codearmory_blacksmith.Update.State.{State, Candidate, includes_value}
use codearmory_blacksmith.Update.State.Acknowledge.{includes-append}
use codearmory_blacksmith.Update.Check.{
  Clock, Result, Reason, silent, cache_unavailable, update_available, Decision, Notification,
  notification, result_for_candidate, result_by_candidate, result_by_order,
  state_after_failed_check,
}
use codearmory_blacksmith.Update.Check.Run.{
  CommitRun, commit_operation, Outcome, offered_result, is_offered_candidate, carry_out, add_offer,
  decide_success, decide_failure, successful_state, finish,
}

-- The cached candidate is the one that the notification names, it is newer than the installed
-- version, its digest is recorded as offered, and nobody has acknowledged it.
pub record IsAnnounced (release : LocalRelease) (n : Notification) (s : State) : Type 0 where
  pub digest : Text
  pub candidate : Candidate
  pub cached : s.candidate ≡ some candidate
  pub target : candidate.target_digest ≡ str digest
  pub names : n ≡ notification release candidate
  pub newer : compare_semver candidate.version release.version ≡ some Ordering.gt
  pub offered : includes digest s.offered ≡ true
  pub pending : includes digest s.acknowledged ≡ false

-- What `normalizeState` demands of a state that it reads for this installed version.
abbrev pub IsAdmitted : LocalRelease → State → Type 0
IsAdmitted release s =
    (c : Candidate)
    → s.candidate ≡ some c
    → compare_semver c.version release.version ≡ some Ordering.gt
    → (includes_value c.target_digest s.offered || includes_value c.target_digest s.acknowledged)
      ≡ true

by_order :
    (release : LocalRelease) (s : State) (c : Candidate) (o : Option Ordering) {n : Notification}
    → result_by_order release s c o ≡ some (update_available n)
    → (o ≡ some Ordering.gt)
      × (includes_value c.target_digest s.acknowledged ≡ false)
      × (n ≡ notification release c)
by_order release s c none h = cc
by_order release s c (some Ordering.lt) h = cc
by_order release s c (some Ordering.eq) h = cc
by_order release s c (some Ordering.gt) h = ground arith

pub announced_candidate :
    (release : LocalRelease) (s : State) (o : Option Candidate) {n : Notification}
    → result_by_candidate release s o ≡ some (update_available n)
    → (c : Candidate) × (o ≡ some c)
      × (compare_semver c.version release.version ≡ some Ordering.gt)
      × (includes_value c.target_digest s.acknowledged ≡ false)
      × (n ≡ notification release c)
announced_candidate release s none h = absurd (ground arith)
announced_candidate release s (some c) h =
    let (g, f, e) = by_order release s c (compare_semver c.version release.version) h in
    (c, refl, g, f, e)

offered_digest :
    (v : Value) (ts : List Text)
    → includes_value v ts ≡ true
    → (t : Text) × (v ≡ str t) × (includes t ts ≡ true)
offered_digest (str t) ts h = (t, refl, h)
offered_digest _ ts h = absurd (ground arith)

announce :
    (release : LocalRelease) (s : State) (c : Candidate) (n : Notification)
    → s.candidate ≡ some c
    → compare_semver c.version release.version ≡ some Ordering.gt
    → includes_value c.target_digest s.acknowledged ≡ false
    → n ≡ notification release c
    → includes_value c.target_digest s.offered ≡ true
    → IsAnnounced release n s
announce release s c n e g f named o =
    let (t, d, i) = offered_digest c.target_digest s.offered o in
    record {
      digest = t;
      candidate = c;
      cached = e;
      target = d;
      names = named;
      newer = g;
      offered = i;
      pending = rw d at f;
    }

-- From a state that was read.
pub result_for_candidate-IsAnnounced :
    (release : LocalRelease) (s : State) (n : Notification)
    → IsAdmitted release s
    → result_for_candidate release s ≡ some (update_available n)
    → IsAnnounced release n s
unfolding result_for_candidate
result_for_candidate-IsAnnounced release s n ok h =
    let (c, e, g, f, named) = announced_candidate release s s.candidate h in
    announce release s c n e g f named (ground (arith, ok c e g))

offered_eq :
    (release : LocalRelease) (s : State)
    → is_offered_candidate s s.candidate ≡ true
    → result_by_candidate release s s.candidate ≡ offered_result release s
unfolding result_for_candidate
offered_eq release s e = rw e

pub offered_result-IsAnnounced :
    (release : LocalRelease) (s : State) (n : Notification)
    → offered_result release s ≡ some (update_available n)
    → IsAnnounced release n s
offered_result-IsAnnounced release s n h = elim (Bool-cases (is_offered_candidate s s.candidate)) [
  | inr e ↦ absurd (ground arith)
  | inl e ↦
      let (c, cached, g, f, named) =
        announced_candidate release s s.candidate {n = n} (offered_eq release s e ∙ h) in
      announce release s c n cached g f named (rw cached at e)
]

-- A commit that announces an update has stored the state of its decision.
carry_out-announces :
    (run : CommitRun) (s : State) (n : Notification) (fallback : State) (r : Result)
    → (finish (
        carry_out run (record {
          state = some s;
          result = r;
          fallback = some (fallback, silent cache_unavailable);
        }))).result
      ≡ update_available n
    → (r ≡ update_available n)
      × ((finish (
            carry_out run (record {
              state = some s;
              result = r;
              fallback = some (fallback, silent cache_unavailable);
            }))).stored
          ≡ some s)
carry_out-announces run s n fallback r h = ground arith

commit-announces :
    (run : CommitRun) (mutate : State → Option Decision) (n : Notification)
    → (finish (commit_operation run mutate)).result ≡ update_available n
    → (s : State) × (d : Decision) × (mutate s ≡ some d)
      × (finish (commit_operation run mutate) ≡ finish (carry_out run d))
unfolding commit_operation
commit-announces run mutate n h = elim (Option-cases run.current) [
  | inl e ↦ absurd (ground arith)
  | inr (s, e) ↦ elim (Option-cases (mutate s)) [
    | inl f ↦ absurd (ground arith)
    | inr (d, f) ↦ (s, d, f, ground arith)
  ]
]

includes-last : (t : Text) (b : Bool) → (b || includes t (t ∷ [])) ≡ true
unfolding includes
includes-last t b = ground (arith, text_eq_refl t)

add_offer-IsAnnounced :
    (release : LocalRelease) (c : Candidate) (t : Text) (n : Notification) (next : State)
    → c.target_digest ≡ str t
    → next.candidate ≡ some c
    → result_for_candidate release next ≡ some (update_available n)
    → IsAnnounced release n (add_offer (update_available n) c next)
unfolding result_for_candidate
add_offer-IsAnnounced release c t n next d e h =
    let (c', e', g, f, named) = announced_candidate release next next.candidate h in
    let same : c' ≡ c = ground arith in
    let target : c'.target_digest ≡ c.target_digest =
      ap (λ (x : Candidate). x.target_digest) same in
    elim (Bool-cases (includes_value c.target_digest next.offered)) [
      | inl i ↦ rw i (
          announce release next c' n e' g f named
            (ap (λ v. includes_value v next.offered) target ∙ i))
      | inr i ↦ rw i (record {
        digest = t;
        candidate = c';
        cached = e';
        target = target ∙ d;
        names = named;
        newer = g;
        offered = rw (d, includes-append) (includes-last t (includes t next.offered));
        pending = rw (target ∙ d) at f;
      })
    ]

success-IsAnnounced :
    (clock : Clock) (run : CommitRun) (release : LocalRelease) (now random : ℕ) (c : Candidate)
    (t : Text) (n : Notification) (s : State) (x : Decision)
    → c.target_digest ≡ str t
    → decide_success clock release now random c s ≡ some x
    → (finish (carry_out run x)).result ≡ update_available n
    → finish (commit_operation run (decide_success clock release now random c))
      ≡ finish (carry_out run x)
    → (s' : State) × ((finish
          (commit_operation run (decide_success clock release now random c))).stored
        ≡ some s')
      × IsAnnounced release n s'
unfolding decide_success
success-IsAnnounced clock run release now random c t n s x d e h f =
    let next = successful_state clock s now random c in
    elim (Option-cases (result_for_candidate release next)) [
      | inl q ↦ absurd (ground arith)
      | inr (r, q) ↦
          let fallback = state_after_failed_check clock s now true in
          let same : x ≡ (record {
            state = some (add_offer r c next);
            result = r;
            fallback = some (fallback, silent cache_unavailable);
          }) =
            ground arith in
          let (u, kept) =
            carry_out-announces run (add_offer r c next) n fallback r
              (sym (ap (λ (y : Decision). (finish (carry_out run y)).result) same) ∙ h) in
          (
            add_offer r c next,
            ap (λ (o : Outcome). o.stored) f
                ∙ ap (λ (y : Decision). (finish (carry_out run y)).stored) same
                ∙ kept,
            rw u (add_offer-IsAnnounced release c t n next d refl (q ∙ ap some u)),
          )
    ]

-- From the state that a successful check stores.
pub commit_success-IsAnnounced :
    (clock : Clock) (run : CommitRun) (release : LocalRelease) (now random : ℕ) (c : Candidate)
    (t : Text) (n : Notification)
    → c.target_digest ≡ str t
    → (finish (commit_operation run (decide_success clock release now random c))).result
      ≡ update_available n
    → (s : State) × ((finish
          (commit_operation run (decide_success clock release now random c))).stored
        ≡ some s)
      × IsAnnounced release n s
commit_success-IsAnnounced clock run release now random c t n d h =
    let (s, x, e, f) = commit-announces run (decide_success clock release now random c) n h in
    success-IsAnnounced clock run release now random c t n s x d e
      (sym (ap (λ (o : Outcome). o.result) f) ∙ h) f

-- A failed check announces nothing.
pub commit_failure-silent :
    (clock : Clock) (run : CommitRun) (reason : Reason) (now : ℕ) (n : Notification)
    → (finish (commit_operation run (decide_failure clock reason now))).result ≢ update_available n
unfolding commit_operation decide_failure
commit_failure-silent clock run reason now n h = ground arith
