-- ===== src/Update/Operations/Settled.antt =====
-- What the steps keep of the directories: a generation has one of its states, and an ended operation
-- stays as it ended.
use codearmory_blacksmith.Base.{
  ℕ, ◌≡◌, ◌≢◌, refl, sym, and_true, ap, ◌∙◌, Bool, true, false, not, ◌&&◌, ◌||◌, Option, none, some,
  if◌then◌else◌, ◌==◌, ==_iff, arith, if_elim,
}
use mathlib.Core.Bool.{true≢false}
use codearmory_blacksmith.Update.Operations.{
  Kind, reserved, pending, committed, fenced, cancelled, Entry, has_kind, put, drop_pending,
  Directory, write, make, transition, Phase, idle, opening, running, holds, System, start, enter,
  with_directory, with_active, Ending, commits, cancels, Step, reserve, open_pending, finish, fence,
  promote, retire, leave, Reach, here, next,
}

abbrev pub is_ended : Entry → Bool
is_ended e = e.is_committed || e.is_fenced || e.is_cancelled

-- At most one of pending, committed, fenced and cancelled, and none without the reservation.
abbrev pub is_settled : Entry → Bool
is_settled e =
    (e.is_reserved || not (e.is_pending || is_ended e))
    && not (e.is_pending && is_ended e)
    && not (e.is_committed && e.is_fenced)
    && not (e.is_committed && e.is_cancelled)
    && not (e.is_fenced && e.is_cancelled)

pub record IsSettled (s : System) : Type 0 where
  pub settled : (g : ℕ) → is_settled (s.directory g) ≡ true
  pub kept : (p g : ℕ) → holds (s.phase p) g ≡ true → (s.directory g).is_reserved ≡ true
  pub alone : (p q g : ℕ) → holds (s.phase p) g ≡ true → holds (s.phase q) g ≡ true → p ≡ q
  pub unopened :
      (p g : ℕ)
      → s.phase p ≡ opening g
      → ((s.directory g).is_pending || is_ended (s.directory g)) ≡ false

pub start-IsSettled : IsSettled start
start-IsSettled = record {
  settled = λ g. refl;
  kept = λ p g h. cc;
  alone = λ p q g h k. cc;
  unopened = λ p g h. refl;
}

pub make_inv :
    (kind : Kind) (g : ℕ) (d e : Directory)
    → make kind g d ≡ some e
    → (has_kind kind (d g) ≡ false) × (write g (put kind (d g)) d ≡ e)
unfolding make
make_inv kind g d e h = ground arith

pub transition_inv :
    (kind : Kind) (g : ℕ) (d e : Directory)
    → transition kind g d ≡ some e
    → (((d g).is_pending && not (has_kind kind (d g))) ≡ true)
      × (write g (put kind (drop_pending (d g))) d ≡ e)
unfolding transition
transition_inv kind g d e h = ground arith

-- A directory that changes at one generation.
write-IsSettled :
    (s : System) (g : ℕ) (e : Entry)
    → IsSettled s
    → is_settled e ≡ true
    → ((s.directory g).is_reserved ≡ true → e.is_reserved ≡ true)
    → ((q : ℕ) → s.phase q ≡ opening g → (e.is_pending || is_ended e) ≡ false)
    → IsSettled (with_directory (write g e s.directory) s)
write-IsSettled s g e w settled kept unopened = record {
  settled = λ n.
      if_elim (λ x. is_settled x ≡ true) (n == g) e (s.directory n) (λ h. settled)
        (λ h. w.settled n);
  kept = λ p n h.
      if_elim (λ (x : Entry). x.is_reserved ≡ true) (n == g) e (s.directory n)
        (λ k.
          kept
            (ap (λ (m : ℕ). (s.directory m).is_reserved) (sym ((==_iff n g).0 k)) ∙ w.kept p n h))
        (λ k. w.kept p n h);
  alone = w.alone;
  unopened = λ p n h.
      if_elim (λ (x : Entry). (x.is_pending || is_ended x) ≡ false) (n == g) e (s.directory n)
        (λ k. unopened p (h ∙ ap opening ((==_iff n g).0 k))) (λ k. w.unopened p n h);
}

-- A process that changes its phase.
enter-IsSettled :
    (s : System) (p : ℕ) (now : Phase)
    → IsSettled s
    → ((n : ℕ) → holds now n ≡ true → (s.directory n).is_reserved ≡ true)
    → ((q n : ℕ) → holds now n ≡ true → holds (s.phase q) n ≡ true → q ≡ p)
    → ((n : ℕ) → now ≡ opening n → ((s.directory n).is_pending || is_ended (s.directory n)) ≡ false)
    → IsSettled (enter p now s)
enter-IsSettled s p now w kept alone unopened = record {
  settled = w.settled;
  kept = λ q n.
      if_elim (λ (x : Phase). holds x n ≡ true → (s.directory n).is_reserved ≡ true) (q == p) now
        (s.phase q) (λ k. kept n) (λ k. w.kept q n);
  alone = λ q r n.
      if_elim
        (λ (x : Phase).
          holds x n ≡ true → holds (if r == p then now else s.phase r) n ≡ true → q ≡ r)
        (q == p) now (s.phase q)
        (λ k h.
          if_elim (λ (y : Phase). holds y n ≡ true → q ≡ r) (r == p) now (s.phase r)
            (λ j i. (==_iff q p).0 k ∙ sym ((==_iff r p).0 j))
            (λ j i. (==_iff q p).0 k ∙ sym (alone r n h i)))
        (λ k h.
          if_elim (λ (y : Phase). holds y n ≡ true → q ≡ r) (r == p) now (s.phase r)
            (λ j i. alone q n i h ∙ sym ((==_iff r p).0 j)) (λ j i. w.alone q r n h i));
  unopened = λ q n.
      if_elim
        (λ (x : Phase).
          x ≡ opening n → ((s.directory n).is_pending || is_ended (s.directory n)) ≡ false)
        (q == p) now (s.phase q) (λ k. unopened n) (λ k. w.unopened q n);
}

leave-IsSettled : (s : System) (p : ℕ) → IsSettled s → IsSettled (enter p idle s)
leave-IsSettled s p w = enter-IsSettled s p idle w (λ n h. cc) (λ q n h k. cc) (λ n h. cc)

active-IsSettled : (s : System) (a : Option ℕ) → IsSettled s → IsSettled (with_active a s)
active-IsSettled s a w = record {
  settled = w.settled;
  kept = w.kept;
  alone = w.alone;
  unopened = w.unopened;
}

holds-opening : (ph : Phase) (g : ℕ) → ph ≡ opening g → holds ph g ≡ true
holds-opening ph g h = rw h (ground arith)

pub holds-running : (ph : Phase) (g : ℕ) → ph ≡ running g → holds ph g ≡ true
holds-running ph g h = rw h (ground arith)

pub write_same : (g : ℕ) (e : Entry) (d : Directory) → write g e d g ≡ e
write_same g e d = ground arith

-- A write elsewhere leaves an entry as it was.
pub write_elsewhere : (n g : ℕ) (e : Entry) (d : Directory) → n ≢ g → write g e d n ≡ d n
write_elsewhere n g e d other =
    if_elim (λ (x : Entry). x ≡ d n) (n == g) e (d n) (λ h. elim (other ((==_iff n g).0 h)) [ ])
      (λ h. refl)

-- What holds of the written entry holds of the one at an equal generation.
write_at :
    (P : Entry → Bool) (b : Bool) (g n : ℕ) (e : Entry) (d : Directory)
    → g ≡ n
    → P e ≡ b
    → P (write g e d n) ≡ b
write_at P b g n e d same h = ap (λ m. P (write g e d m)) (sym same) ∙ ap P (write_same g e d) ∙ h

opening-injective : (g n : ℕ) → opening g ≡ opening n → g ≡ n
opening-injective g n h = cc

abbrev is_taken : Entry → Bool
is_taken e = e.is_pending || is_ended e

reserve-IsSettled :
    (s : System) (p g : ℕ)
    → IsSettled s
    → (s.directory g).is_reserved ≡ false
    → IsSettled (
        enter p (opening g) (with_directory (write g (put reserved (s.directory g)) s.directory) s))
reserve-IsSettled s p g w free =
    let e = put reserved (s.directory g) in
    enter-IsSettled (with_directory (write g e s.directory) s) p (opening g)
      (write-IsSettled s g e w (ground (arith, w.settled g)) (λ h. refl) (λ q h. w.unopened q g h))
      (λ n h.
        write_at (λ (x : Entry). x.is_reserved) true g n e s.directory ((==_iff g n).0 h) refl)
      (λ q n h k.
        let known = ap (λ m. (s.directory m).is_reserved) ((==_iff g n).0 h) ∙ w.kept q n k in
        elim (true≢false (sym known ∙ free)) [ ])
      (λ n h.
        write_at is_taken false g n e s.directory (opening-injective g n h)
          (ground (arith, w.settled g)))

open_pending-IsSettled :
    (s : System) (p g : ℕ)
    → IsSettled s
    → s.phase p ≡ opening g
    → IsSettled
        (enter p (running g) (with_directory (write g (put pending (s.directory g)) s.directory) s))
open_pending-IsSettled s p g w phase =
    let held = holds-opening (s.phase p) g phase in
    let entered =
      enter-IsSettled s p (running g) w
        (λ n h. w.kept p n (ap (λ m. holds (s.phase p) m) (sym ((==_iff g n).0 h)) ∙ held))
        (λ q n h k. w.alone q p n k (ap (λ m. holds (s.phase p) m) (sym ((==_iff g n).0 h)) ∙ held))
        (λ n h. cc) in
    write-IsSettled (enter p (running g) s) g (put pending (s.directory g)) entered
      (ground (arith, w.settled g, w.unopened p g phase, w.kept p g held)) (λ h. h)
      (λ q h. elim (not_opening q h) [ ])
  where
    not_opening : (q : ℕ) → (if q == p then running g else s.phase q) ≢ opening g
    not_opening q =
        if_elim (λ (x : Phase). x ≢ opening g) (q == p) (running g) (s.phase q) (λ k h. cc)
          (λ k h.
            let same =
              w.alone q p g (holds-opening (s.phase q) g h) (holds-opening (s.phase p) g phase) in
            true≢false (sym ((==_iff q p).1 same) ∙ k))

-- The kinds that a pending operation becomes.
data IsOutcome : Kind → Type 0 where
  commit : IsOutcome committed
  fencing : IsOutcome fenced
  cancel : IsOutcome cancelled

put_settled :
    {kind : Kind} (e : Entry)
    → IsOutcome kind
    → is_settled e ≡ true
    → e.is_pending ≡ true
    → is_settled (put kind (drop_pending e)) ≡ true
put_settled e commit h there = ground arith
put_settled e fencing h there = ground arith
put_settled e cancel h there = ground arith

put_reserved :
    {kind : Kind} (e : Entry)
    → IsOutcome kind
    → e.is_reserved ≡ true
    → (put kind (drop_pending e)).is_reserved ≡ true
put_reserved e commit h = h
put_reserved e fencing h = h
put_reserved e cancel h = h

transition-IsSettled :
    {kind : Kind} (s : System) (g : ℕ)
    → IsSettled s
    → IsOutcome kind
    → (s.directory g).is_pending ≡ true
    → IsSettled (with_directory (write g (put kind (drop_pending (s.directory g))) s.directory) s)
transition-IsSettled {kind} s g w outcome there =
    write-IsSettled s g (put kind (drop_pending (s.directory g))) w
      (put_settled (s.directory g) outcome (w.settled g) there)
      (put_reserved (s.directory g) outcome)
      (λ q h. elim (true≢false (ground (arith, w.unopened q g h))) [ ])

as_final : {kind : Kind} → Ending kind → IsOutcome kind
as_final commits = commit
as_final cancels = cancel

pub Step-IsSettled : {s t : System} → Step s t → IsSettled s → IsSettled t
Step-IsSettled {s} (reserve p g d phase made) w =
    let inv = make_inv reserved g s.directory d made in
    rw (← inv.1) (reserve-IsSettled s p g w inv.0)
Step-IsSettled {s} (open_pending p g d phase made) w =
    let inv = make_inv pending g s.directory d made in
    rw (← inv.1) (open_pending-IsSettled s p g w phase)
Step-IsSettled {s} (finish p g kind d phase ending moved) w =
    let inv = transition_inv kind g s.directory d moved in
    rw (← inv.1) (
      leave-IsSettled
        (with_directory (write g (put kind (drop_pending (s.directory g))) s.directory) s) p
        (transition-IsSettled s g w (as_final ending) (and_true _ _ inv.0).0))
Step-IsSettled {s} (fence p g h d phase below moved) w =
    let inv = transition_inv fenced g s.directory d moved in
    rw (← inv.1) (transition-IsSettled s g w fencing (and_true _ _ inv.0).0)
Step-IsSettled {s} (promote p g phase free) w = active-IsSettled s (some g) w
Step-IsSettled {s} (retire p h phase) w = active-IsSettled s none w
Step-IsSettled {s} (leave p) w = leave-IsSettled s p w

pub Reach-IsSettled : {s t : System} → Reach s t → IsSettled s → IsSettled t
Reach-IsSettled here w = w
Reach-IsSettled (next r step) w = Step-IsSettled step (Reach-IsSettled r w)
