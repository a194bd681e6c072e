-- ===== src/Update/Operations.antt =====
-- The operations in the cache directory, by which runs of check-update.mjs take turns: which
-- directories stand for a generation, and the steps of the processes that share them. Each step is
-- one call of the file system, which takes effect at once.
pub mod Settled
pub mod Names
pub mod Exclusive
pub mod Turns
pub mod Release
pub mod Promote
pub mod Finished
pub mod Newest
pub mod Reserve
mod Examples
use codearmory_blacksmith.Base.{
  ℕ, ◌≡◌, ◌<◌, Bool, true, false, not, ◌&&◌, ◌||◌, Option, none, some, if◌then◌else◌, ◌==◌,
}

-- The kinds of `OPERATION_NAME`: the directory `${kind}-${generation}`.
pub data Kind : Type 0 where
  reserved pending committed fenced cancelled : Kind

-- Which directories there are for one generation.
pub record Entry : Type 0 where
  pub is_reserved : Bool
  pub is_pending : Bool
  pub is_committed : Bool
  pub is_fenced : Bool
  pub is_cancelled : Bool

abbrev pub no_entry : Entry
no_entry = record {
  is_reserved = false;
  is_pending = false;
  is_committed = false;
  is_fenced = false;
  is_cancelled = false;
}

abbrev pub has_kind : Kind → Entry → Bool
has_kind reserved e = e.is_reserved
has_kind pending e = e.is_pending
has_kind committed e = e.is_committed
has_kind fenced e = e.is_fenced
has_kind cancelled e = e.is_cancelled

abbrev pub put : Kind → Entry → Entry
put reserved e = record e { is_reserved = true }
put pending e = record e { is_pending = true }
put committed e = record e { is_committed = true }
put fenced e = record e { is_fenced = true }
put cancelled e = record e { is_cancelled = true }

abbrev pub drop_pending : Entry → Entry
drop_pending e = record e { is_pending = false }

abbrev pub Directory : Type 0
Directory = ℕ → Entry

abbrev pub write : ℕ → Entry → Directory → Directory
write g e d = λ n. if n == g then e else d n

-- `mkdir`, and `none` for the error EEXIST.
unfoldable pub make : Kind → ℕ → Directory → Option Directory
make kind g d = if has_kind kind (d g) then none else some (write g (put kind (d g)) d)

-- `transitionOperation`: a rename of the pending directory, and `none` for the error ENOENT, or for
-- that of a directory that is there.
unfoldable pub transition : Kind → ℕ → Directory → Option Directory
transition kind g d =
    if (d g).is_pending && not (has_kind kind (d g))
    then some (write g (put kind (drop_pending (d g))) d)
    else none

-- Where a process stands: between the two directories that `reserveOperation` makes, or with an
-- operation that it has reserved.
pub data Phase : Type 0 where
  idle : Phase
  opening running : ℕ → Phase

abbrev pub holds : Phase → ℕ → Bool
holds idle g = false
holds (opening h) g = h == g
holds (running h) g = h == g

-- The generation in the active claim, if there is one.
pub record System : Type 0 where
  pub directory : Directory
  pub phase : ℕ → Phase
  pub active : Option ℕ

abbrev pub start : System
start = record { directory = λ n. no_entry; phase = λ p. idle; active = none }

abbrev pub enter : ℕ → Phase → System → System
enter p now s = record s { phase = λ q. if q == p then now else s.phase q }

abbrev pub with_directory : Directory → System → System
with_directory d s = record s { directory = d }

abbrev pub with_active : Option ℕ → System → System
with_active a s = record s { active = a }

-- The owner of an operation ends it in one of these.
pub data Ending : Kind → Type 0 where
  commits : Ending committed
  cancels : Ending cancelled

-- A step of a process. The tests that the program makes before a step may be out of date when it
-- takes it, so that they are no conditions here, except that it fences lower generations only.
pub data Step (s : System) : System → Type 0 where
  reserve :
      (p g : ℕ) (d : Directory)
      → s.phase p ≡ idle
      → make reserved g s.directory ≡ some d
      → Step s (enter p (opening g) (with_directory d s))
  open_pending :
      (p g : ℕ) (d : Directory)
      → s.phase p ≡ opening g
      → make pending g s.directory ≡ some d
      → Step s (enter p (running g) (with_directory d s))
  finish :
      (p g : ℕ) (kind : Kind) (d : Directory)
      → s.phase p ≡ running g
      → Ending kind
      → transition kind g s.directory ≡ some d
      → Step s (enter p idle (with_directory d s))
  fence :
      (p g h : ℕ) (d : Directory)
      → s.phase p ≡ running h
      → g < h
      → transition fenced g s.directory ≡ some d
      → Step s (with_directory d s)
  promote : (p g : ℕ) → s.phase p ≡ running g → s.active ≡ none → Step s (with_active (some g) s)
  retire : (p h : ℕ) → s.phase p ≡ running h → Step s (with_active none s)
  leave : (p : ℕ) → Step s (enter p idle s)

pub data Reach (s : System) : System → Type 0 where
  here : Reach s s
  next : {t u : System} → Reach s t → Step t u → Reach s u

-- `operationOwnsActiveClaim`: the process runs the operation that the active claim names.
pub Owns : System → ℕ → Type 0
Owns s p = (g : ℕ) × (s.phase p ≡ running g) × (s.active ≡ some g)
