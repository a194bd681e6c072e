-- ===== src/Update/Operations/Exclusive.antt =====
-- What the turns of the processes guarantee: one owner of the active claim, and final outcomes.
use mathlib.Core.Bool.{true≢false}
use codearmory_blacksmith.Base.{ℕ, ◌≡◌, ◌≢◌, refl, sym, ap, ◌∙◌, true, false, arith, and_true}
use codearmory_blacksmith.Update.Contract.Trusted.{Option-injective}
use codearmory_blacksmith.Update.Operations.{
  reserved, pending, fenced, Directory, opening, running, System, start, Step, reserve,
  open_pending, finish, fence, promote, retire, leave, Reach, here, next, Owns,
}
use codearmory_blacksmith.Update.Operations.Settled.{
  IsSettled, is_ended, start-IsSettled, Reach-IsSettled, make_inv, transition_inv, holds-running,
  write_elsewhere,
}

-- However the steps of the processes are ordered, a process that owns the active claim owns it
-- alone.
pub owner_alone : {s : System} (p q : ℕ) → Reach start s → Owns s p → p ≢ q → ¬ Owns s q
unfolding Owns
owner_alone {s} p q r (g, runs, active) other (h, runs', active') =
    let w = Reach-IsSettled r start-IsSettled in
    let same : g ≡ h = Option-injective (sym active ∙ active') in
    other (
      w.alone p q g (holds-running (s.phase p) g runs)
        (holds-running (s.phase q) g (runs' ∙ ap running (sym same))))

-- No step writes to an operation that has ended.
module _ {s : System} (w : IsSettled s) (n : ℕ) (ended : is_ended (s.directory n) ≡ true) where
  ended_at : (g : ℕ) → n ≡ g → is_ended (s.directory g) ≡ true
  ended_at g same = ap (λ m. is_ended (s.directory m)) (sym same) ∙ ended

  not_unreserved : (g : ℕ) → (s.directory g).is_reserved ≡ false → n ≢ g
  not_unreserved g free same = true≢false (ground (arith, w.settled g, ended_at g same))

  not_opening : (p g : ℕ) → s.phase p ≡ opening g → n ≢ g
  not_opening p g phase same = true≢false (ground (arith, w.unopened p g phase, ended_at g same))

  not_pending : (g : ℕ) → (s.directory g).is_pending ≡ true → n ≢ g
  not_pending g there same = true≢false (ground (arith, w.settled g, ended_at g same))

  Step_final : {t : System} → Step s t → t.directory n ≡ s.directory n
  Step_final (reserve p g d phase made) =
      let inv = make_inv reserved g s.directory d made in
      ap (λ (e : Directory). e n) (sym inv.1)
      ∙ write_elsewhere n g _ s.directory (not_unreserved g inv.0)
  Step_final (open_pending p g d phase made) =
      let inv = make_inv pending g s.directory d made in
      ap (λ (e : Directory). e n) (sym inv.1)
      ∙ write_elsewhere n g _ s.directory (not_opening p g phase)
  Step_final (finish p g kind d phase ending moved) =
      let inv = transition_inv kind g s.directory d moved in
      ap (λ (e : Directory). e n) (sym inv.1)
      ∙ write_elsewhere n g _ s.directory (not_pending g (and_true _ _ inv.0).0)
  Step_final (fence p g h d phase below moved) =
      let inv = transition_inv fenced g s.directory d moved in
      ap (λ (e : Directory). e n) (sym inv.1)
      ∙ write_elsewhere n g _ s.directory (not_pending g (and_true _ _ inv.0).0)
  Step_final (promote p g phase free) = refl
  Step_final (retire p h phase) = refl
  Step_final (leave p) = refl

-- However the steps of the processes are ordered, a generation whose operation is committed, fenced
-- or cancelled keeps its directories.
pub ended_final :
    {s t : System} (n : ℕ)
    → Reach start s
    → Reach s t
    → is_ended (s.directory n) ≡ true
    → t.directory n ≡ s.directory n
ended_final n r here ended = refl
ended_final {s} n r (next {u} run step) ended =
    let before = ended_final n r run ended in
    let w = Reach-IsSettled run (Reach-IsSettled r start-IsSettled) in
    Step_final w n (ap is_ended before ∙ ended) step ∙ before
