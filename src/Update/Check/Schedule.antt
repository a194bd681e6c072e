-- ===== src/Update/Check/Schedule.antt =====
-- When the next check is due: `nextSuccessfulCheck`, `nextFailedCheck` and `freshStateResult`.
use Prim.Native.Nat.{min}
use codearmory_blacksmith.Base.{
  ℕ, ◌+◌, ◌≤◌, ◌≡◌, refl, ap, ◌∙◌, Bool, some, ltb, leb, arith, if◌then◌else◌,
}
use codearmory_blacksmith.Update.State.{State, Candidate, state_with_failure_check}
use codearmory_blacksmith.Update.Check.{
  next_check, next_check_of, Clock, successful_delay, failed_delay, next_successful_check,
  next_failed_check, state_after_failed_check, is_fresh, max_cache_horizon_ms,
}
use codearmory_blacksmith.Update.Check.Run.{successful_state}

-- The delay after a successful check lies between 0.8 and 1.2 of the 72 hours, whatever the random
-- number is.
pub successful_delay-bounds :
    (random : ℕ) → (207360000 ≤ successful_delay random) × (successful_delay random ≤ 311040000)
unfolding successful_delay
successful_delay-bounds random = (omega arith, omega arith)

-- A state whose next check is set to an instant within the horizon is fresh until that instant.
is_fresh-iso :
    (clock : Clock) (s : State) (next t : ℕ)
    → s.next_check_at ≡ some (clock.iso next)
    → next ≤ 8640000000000000
    → next ≤ t + max_cache_horizon_ms
    → is_fresh clock s t ≡ ltb t next
unfolding is_fresh
is_fresh-iso clock s next t e h k =
    let read : next_check clock s ≡ some next =
      ap (next_check_of clock) e ∙ clock.parse-iso next h in
    ground (arith, read)

-- At an instant t not before a successful check at now, the stored state counts as fresh exactly
-- while t is before the next check (while the next check is an instant that `Date` can express).
pub successful_state-is_fresh :
    (clock : Clock) (s : State) (now random t : ℕ) (c : Candidate)
    → now ≤ t
    → now + max_cache_horizon_ms ≤ 8640000000000000
    → is_fresh clock (successful_state clock s now random c) t
      ≡ ltb t (now + successful_delay random)
unfolding successful_state next_successful_check
successful_state-is_fresh clock s now random t c h k =
    let (low, high) = successful_delay-bounds random in
    is_fresh-iso clock (successful_state clock s now random c) (now + successful_delay random) t
      refl (omega arith) (omega arith)

-- At an instant t not before a failed check at now, no check is made for 6 hours after a first
-- failure in a row, for 24 hours after a later one, and a check is due from then on (while the next
-- check is an instant that `Date` can express).
state_after_failed_check-is_fresh :
    (clock : Clock) (s : State) (now t : ℕ) (withdraw : Bool)
    → now ≤ t
    → now + max_cache_horizon_ms ≤ 8640000000000000
    → is_fresh clock (state_after_failed_check clock s now withdraw) t
      ≡ ltb t (now + (if leb s.consecutive_failures 0 then 21600000 else 86400000))
unfolding state_after_failed_check state_with_failure_check next_failed_check
state_after_failed_check-is_fresh clock s now t withdraw h k =
    let delay = failed_delay (min (s.consecutive_failures + 1) 2) in
    is_fresh-iso clock (state_after_failed_check clock s now withdraw) (now + delay) t refl
      (ground arith) (ground arith)
    ∙ ap (λ (d : ℕ). ltb t (now + d)) (ground arith)
