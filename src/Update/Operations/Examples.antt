-- ===== src/Update/Operations/Examples.antt =====
-- Two processes that take turns, and the names of their operations.
use codearmory_blacksmith.Base.{
  ℕ, ◌≡◌, refl, arith, codes, List, [], ◌∷◌, Option, none, some, true, false, if◌then◌else◌, ◌==◌,
  includes, text_eq,
}
use codearmory_blacksmith.Update.Operations.{
  reserved, pending, committed, no_entry, put, drop_pending, Directory, write, make, transition,
  idle, opening, running, System, start, enter, with_directory, with_active, commits, reserve,
  open_pending, finish, promote, Reach, here, next, Owns,
}
use codearmory_blacksmith.Update.Operations.Names.{
  parse_operation_name, operation_name, parse_operation_name-operation_name,
}
use codearmory_blacksmith.Json.{Fields, num, str, obj, end, field}
use codearmory_blacksmith.Json.Size.{natural_number}
use codearmory_blacksmith.Update.State.{State, empty_state}
use codearmory_blacksmith.Update.Operations.{fenced}
use codearmory_blacksmith.Update.Operations.Names.{Operation}
use codearmory_blacksmith.Update.Operations.Turns.{
  ClaimOwner, Metadata, Found, absent, releasable, inspect_active_claim, read_state,
}
use codearmory_blacksmith.Update.Operations.Release.{MayRetire, inspect_active_claim-MayRetire}
use codearmory_blacksmith.Update.Operations.Finished.{
  IsFinished, promote_operation_claim-IsFinished,
}
use codearmory_blacksmith.Update.Operations.Promote.{Round, done, active, promote_operation_claim}
use codearmory_blacksmith.Update.Operations.Newest.{IsNewest, read_state-IsNewest}
use codearmory_blacksmith.Update.Operations.Exclusive.{owner_alone, ended_final}
use codearmory_blacksmith.Update.Operations.Reserve.{
  reserve_operation, IsReserved, reserve_operation-IsReserved,
}

name_example :
    parse_operation_name (operation_name committed 42)
    ≡ some (record { kind = committed; generation = 42 })
name_example = parse_operation_name-operation_name committed 42 (omega arith)

abbrev empty : Directory
empty = λ n. no_entry

abbrev one_reserved : Directory
one_reserved = write 1 (put reserved no_entry) empty

abbrev one_pending : Directory
one_pending = write 1 (put pending (one_reserved 1)) one_reserved

abbrev one_committed : Directory
one_committed = write 1 (put committed (drop_pending (one_pending 1))) one_pending

abbrev first_opening : System
first_opening = enter 0 (opening 1) (with_directory one_reserved start)

abbrev first_running : System
first_running = enter 0 (running 1) (with_directory one_pending first_opening)

abbrev first_active : System
first_active = with_active (some 1) first_running

abbrev first_done : System
first_done = enter 0 idle (with_directory one_committed first_active)

to_running : Reach start first_running
unfolding make
to_running =
    next (next here (reserve 0 1 one_reserved refl refl)) (open_pending 0 1 one_pending refl refl)

to_active : Reach start first_active
to_active = next to_running (promote 0 1 refl refl)

to_done : Reach start first_done
unfolding transition
to_done = next to_active (finish 0 1 committed one_committed refl commits refl)

abbrev two_reserved : Directory
two_reserved = write 2 (put reserved no_entry) one_committed

second_opens : Reach first_done (enter 5 (opening 2) (with_directory two_reserved first_done))
unfolding make
second_opens = next here (reserve 5 2 two_reserved refl refl)

first-Owns : Owns first_active 0
unfolding Owns
first-Owns = (1, refl, refl)

owner_example : ¬ Owns first_active 5
owner_example = owner_alone {s = first_active} 0 5 to_active first-Owns (λ h. cc)

final_example : two_reserved 1 ≡ one_committed 1
final_example = ended_final 1 to_done second_opens refl

reserve_example : IsReserved 3 one_committed (reserve_operation (1 ∷ 2 ∷ []) one_committed)
reserve_example =
    reserve_operation-IsReserved (1 ∷ 2 ∷ []) one_committed 3 (omega arith) (omega arith)
      (refl, (refl, refl))

abbrev owner_fields : Fields
owner_fields = field (codes "pid") (num (natural_number 41)) (
    field (codes "token") (str (codes "0123456789abcdef0123456789abcdef"))
      (field (codes "generation") (str (codes "7")) end))

abbrev owner : ClaimOwner
owner = record { pid = 41; token = codes "0123456789abcdef0123456789abcdef"; generation = 7 }

abbrev file : Metadata
file = record {
  is_file = true;
  is_directory = false;
  is_symbolic_link = false;
  size = 80;
  mtime_ns = 5000000;
}

abbrev found : Found
found = record {
  now = 6;
  fingerprint = codes "abc";
  directory = some (record file { is_file = false; is_directory = true });
  owner_file = some file;
  owner_value = some (obj owner_fields);
  operations = record { kind = fenced; generation = 7 } ∷ [];
  is_active = λ g. true;
}

found_releasable : inspect_active_claim found ≡ releasable (codes "7") (some owner)
unfolding inspect_active_claim includes text_eq
found_releasable = refl

retire_example : MayRetire found (some owner)
retire_example = inspect_active_claim-MayRetire found (codes "7") (some owner) found_releasable

abbrev rounds : ℕ → Round
rounds attempt = record {
  is_superseded = some false;
  claim = some (
      if attempt == 0
      then releasable (codes "2") (some (record owner { generation = 2 }))
      else absent);
  retires = true;
  rename = done;
  activity = active;
  raced = some absent;
  discards = true;
}

promote_example : IsFinished rounds 8 8 3 (promote_operation_claim 3 true rounds)
promote_example = promote_operation_claim-IsFinished 3 true rounds

abbrev states : ℕ → Option State
states g = if g == 2 then some (empty_state (some (codes "2.12.0"))) else none

abbrev three_operations : List Operation
three_operations =
    record { kind = committed; generation = 2 }
    ∷ record { kind = committed; generation = 3 }
    ∷ record { kind = pending; generation = 4 }
    ∷ []

read_state_example : IsNewest states none three_operations (read_state states none three_operations)
read_state_example = read_state-IsNewest states none three_operations
