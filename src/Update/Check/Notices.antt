-- ===== src/Update/Check/Notices.antt =====
-- Acknowledging an announced update: event keys, and what a later check says.
use Prim.Native.Nat.{Ordering}
use codearmory_blacksmith.Base.{
  ◌≡◌, refl, ap, ◌∙◌, Text, [], ◌∷◌, ◌++◌, true, none, some, includes, if◌then◌else◌, arith,
  strip_prefix-append,
}
use codearmory_blacksmith.Json.{str, coerce}
use codearmory_blacksmith.Update.Semver.{compare_semver}
use codearmory_blacksmith.Update.Contract.{LocalRelease, skill_id}
use codearmory_blacksmith.Update.State.{State, Candidate, state_after_acknowledgement, is_digest}
use codearmory_blacksmith.Update.State.Acknowledge.{
  state_after_acknowledgement-IsAcknowledged, IsAcknowledged,
}
use codearmory_blacksmith.Update.Check.{
  silent, acknowledged, already_notified, Notification, notification, result_for_candidate,
  event_key_for_digest, digest_for_event_key, decide_acknowledgement,
}
use codearmory_blacksmith.Update.Check.Announce.{IsAnnounced}

-- The event key of a text is read back as that text when it is a digest, and refused otherwise.
digest_for_event_key-event_key_for_digest :
    (t : Text)
    → digest_for_event_key (event_key_for_digest (str t)) ≡ (if is_digest t then some t else none)
unfolding digest_for_event_key event_key_for_digest coerce
digest_for_event_key-event_key_for_digest t =
    ground (arith, strip_prefix-append (skill_id ++ (b'@' ∷ [])) t)

-- The candidate that the user has acknowledged is not announced again.
acknowledged_candidate :
    (release : LocalRelease) (s : State) (c : Candidate) (t : Text)
    → s.candidate ≡ some c
    → c.target_digest ≡ str t
    → compare_semver c.version release.version ≡ some Ordering.gt
    → includes t s.acknowledged ≡ true
    → result_for_candidate release s ≡ some (silent already_notified)
unfolding result_for_candidate
acknowledged_candidate release s c t e d g h = rw (e, g, d, h) refl

-- If a state announces an update whose digest has the form of one, its event key gives the digest
-- back, acknowledging it stores a state in which the digest is acknowledged and no longer offered,
-- and that state answers `already-notified` for the same release.
pub acknowledge-IsAnnounced :
    (release : LocalRelease) (n : Notification) (s : State) (a : IsAnnounced release n s)
    → is_digest a.digest ≡ true
    → (digest_for_event_key n.event_key ≡ some a.digest)
      × ((decide_acknowledgement n.event_key a.digest s).result ≡ acknowledged n.event_key)
      × (s' : State) × ((decide_acknowledgement n.event_key a.digest s).state ≡ some s')
      × IsAcknowledged a.digest s s'
      × (result_for_candidate release s' ≡ some (silent already_notified))
unfolding decide_acknowledgement notification
acknowledge-IsAnnounced release n s a h =
    let s' = state_after_acknowledgement s a.digest in
    let done = state_after_acknowledgement-IsAcknowledged s a.digest in
    let key : n.event_key ≡ event_key_for_digest (str a.digest) =
      ap (λ (m : Notification). m.event_key) a.names ∙ ap event_key_for_digest a.target in
    (
      rw (key, digest_for_event_key-event_key_for_digest a.digest, h) refl,
      rw (a.offered) refl,
      s',
      rw (a.offered) refl,
      done,
      acknowledged_candidate release s' a.candidate a.digest (done.candidate ∙ a.cached) a.target
          a.newer done.acknowledged,
    )
