-- ===== src/Update/Check/Admitted.antt =====
-- What `normalizeState` guarantees to the checks that read a state.
use mathlib.Core.Path.{subst}
use Prim.Native.Nat.{Ordering}
use codearmory_blacksmith.Base.{
  ◌≡◌, ◌∙◌, Text, codes, List, Bool, true, false, not, ◌&&◌, Option, none, some, if◌then◌else◌,
  arith,
}
use codearmory_blacksmith.Json.{Value, get, fields_of, has_own}
use codearmory_blacksmith.Update.Semver.{compare_semver}
use codearmory_blacksmith.Update.Semver.Syntax.{>>=-elim}
use codearmory_blacksmith.Update.Contract.{LocalRelease}
use codearmory_blacksmith.Update.Contract.Trusted.{guard-elim, then-elim, Option-injective}
use codearmory_blacksmith.Update.State.{
  State, Candidate, normalize_state, is_known, admits, read_candidate, or_else, read_text_or_null,
  read_count, read_digests, validate_cached_candidate, encode_recoverable_state, is_version, agrees,
}
use codearmory_blacksmith.Update.Check.Announce.{IsAdmitted}

candidate-admitted :
    (b : Bool) (o : Option Candidate) (installed : Option Text) (offered acknowledged : List Text)
    {r : Option Candidate} {c : Candidate}
    → (if not b then some none else elim o [
      | none ↦ none
      | some c ↦ if admits installed offered acknowledged c then some (some c) else none
    ])
      ≡ some r
    → r ≡ some c
    → admits installed offered acknowledged c ≡ true
candidate-admitted false o installed offered acknowledged h e = absurd (ground arith)
candidate-admitted true none installed offered acknowledged h e = absurd (ground arith)
candidate-admitted true (some x) installed offered acknowledged {r} {c} h e =
    let (a, f) = then-elim (admits installed offered acknowledged x) _ h in
    subst (λ y. admits installed offered acknowledged y ≡ true)
      (Option-injective (Option-injective f ∙ e)) a

known :
    (installed : Text) (offered acknowledged : List Text) (c : Candidate)
    → compare_semver c.version installed ≡ some Ordering.gt
    → admits (some installed) offered acknowledged c ≡ true
    → is_known c offered acknowledged ≡ true
known installed offered acknowledged c g h = ground arith

-- A state that is read for an installed version holds no candidate that is newer than that version
-- and neither offered nor acknowledged.
pub normalize_state-IsAdmitted :
    (v : Value) (release : LocalRelease) (s : State)
    → normalize_state v (some release.version) ≡ some s
    → IsAdmitted release s
unfolding normalize_state
normalize_state-IsAdmitted v release s h =
    let (_, h) = guard-elim _ _ h in
    >>=-elim (read_text_or_null (get v (codes "installedVersion"))) _ h λ found e₁ h.
      >>=-elim (read_text_or_null (get (get v (codes "check")) (codes "nextCheckAt"))) _ h
        λ next e₂ h.
          >>=-elim (read_count (get (get v (codes "check")) (codes "consecutiveFailures"))) _ h
            λ failures e₃ h.
              let (_, h) =
                guard-elim
                  (agrees (some release.version) found
                    && is_version (or_else (some release.version) found))
                  _ h in
              >>=-elim (read_digests (get (get v (codes "notification")) (codes "offeredDigests")))
                _ h
                λ offered e₄ h.
                  >>=-elim
                    (read_digests
                      (get (get v (codes "notification")) (codes "acknowledgedDigests")))
                    _ h
                    λ acknowledged e₅ h.
                      >>=-elim (read_candidate v (some release.version) offered acknowledged) _ h
                        λ candidate e₆ h.
                          let read : State = record {
                            installed_version = some release.version;
                            next_check_at = next;
                            consecutive_failures = failures;
                            offered = offered;
                            acknowledged = acknowledged;
                            candidate = candidate;
                          } in
                          >>=-elim (encode_recoverable_state read) _ h λ encoded e₇ h.
                            subst (IsAdmitted release) (Option-injective h) (λ c e g.
                              known release.version offered acknowledged c g (
                                candidate-admitted (has_own (codes "candidate") (fields_of v))
                                  (validate_cached_candidate (get v (codes "candidate")))
                                  (some release.version) offered acknowledged e₆ e))
