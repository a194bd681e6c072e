-- ===== src/Update/Operations/Turns.antt =====
-- What check-update.mjs makes of the directories that it finds: the listed operations, the state
-- that it reads, the active claim, and whether it may go on. What `lstat` and the reading of a file
-- tell enters as values; an error of the file system ends the run and is left out.
use codearmory_blacksmith.Base.{
  ℕ, ◌+◌, ◌-◌, ◌*◌, Text, codes, List, [], ◌∷◌, ◌++◌, Bool, true, false, not, ◌&&◌, ◌||◌, Option,
  none, some, text_eq, if◌then◌else◌, ltb, leb, ◌==◌, any, all, filter,
}
use codearmory_blacksmith.Json.{Value, num, get, is_plain_object, has_only_keys, as_text}
use codearmory_blacksmith.Json.Size.{natural_number}
use codearmory_blacksmith.Update.Semver.{is_digit, ◌>>=◌}
use codearmory_blacksmith.Update.Semver.Numeric.{decimal}
use codearmory_blacksmith.Update.Contract.{is_hex}
use codearmory_blacksmith.Update.State.{State, empty_state, max_safe_integer}
use codearmory_blacksmith.Update.Operations.{Kind, reserved, pending, committed, fenced, cancelled}
use codearmory_blacksmith.Update.Operations.Names.{Operation, parse_operation_name}

abbrev pub is_kind : Kind → Kind → Bool
is_kind reserved reserved = true
is_kind pending pending = true
is_kind committed committed = true
is_kind fenced fenced = true
is_kind cancelled cancelled = true
is_kind _ _ = false

abbrev pub add_operation : Operation → Option (List Operation) → Option (List Operation)
add_operation o none = none
add_operation o (some rest) = some (o ∷ rest)

-- The names in the directory, each with whether it is a directory and no symbolic link; `none` is
-- the error for an operation that is not.
unfoldable pub list_operations : List (Text × Bool) → Option (List Operation)
unfolding parse_operation_name
list_operations [] = some []
list_operations (e ∷ rest) =
    let others = list_operations rest in
    elim (parse_operation_name e.0) [
      | none ↦ others
      | some o ↦ if e.1 then add_operation o others else none
    ]

unfoldable pub insert_newest : Operation → List Operation → List Operation
insert_newest o [] = o ∷ []
insert_newest o (x ∷ xs) =
    let later = x ∷ insert_newest o xs in
    if ltb o.generation x.generation then later else o ∷ x ∷ xs

unfoldable pub sort_newest : List Operation → List Operation
unfolding insert_newest
sort_newest [] = []
sort_newest (o ∷ rest) = insert_newest o (sort_newest rest)

-- The newest generation whose state can be read; `none` stands for a state that is missing,
-- incomplete or not valid.
abbrev pub first_state : (ℕ → Option State) → Option Text → List Operation → State
first_state states installed [] = empty_state installed
first_state states installed (o ∷ rest) =
    let older = first_state states installed rest in
    elim (states o.generation) [ none ↦ older | some s ↦ s ]

unfoldable pub read_state : (ℕ → Option State) → Option Text → List Operation → State
unfolding sort_newest
read_state states installed operations =
    first_state states installed
      (sort_newest (filter (λ (o : Operation). is_kind o.kind committed) operations))

unfoldable pub operation_is_superseded : List Operation → ℕ → Bool
operation_is_superseded operations g = any (λ (o : Operation). ltb g o.generation) operations

-- The operations that `fenceLowerOperations` renames, from the lowest one on.
insert_oldest : Operation → List Operation → List Operation
insert_oldest o [] = o ∷ []
insert_oldest o (x ∷ xs) =
    let later = x ∷ insert_oldest o xs in
    if ltb x.generation o.generation then later else o ∷ x ∷ xs

sort_oldest : List Operation → List Operation
unfolding insert_oldest
sort_oldest [] = []
sort_oldest (o ∷ rest) = insert_oldest o (sort_oldest rest)

unfoldable pub lower_operations : List Operation → ℕ → List Operation
unfolding sort_oldest
lower_operations operations g =
    sort_oldest
      (filter (λ (o : Operation). is_kind o.kind pending && ltb o.generation g) operations)

-- What `lstat` tells of a path, with the time of its last change in nanoseconds.
pub record Metadata : Type 0 where
  pub is_file : Bool
  pub is_directory : Bool
  pub is_symbolic_link : Bool
  pub size : ℕ
  pub mtime_ns : ℕ

abbrev pub lock_stale_ms : ℕ
lock_stale_ms = 30000

unfoldable pub metadata_is_within_lease : ℕ → Metadata → Bool
metadata_is_within_lease now m =
    let now_ns = now * 1000000 in
    leb ((now_ns - m.mtime_ns) + (m.mtime_ns - now_ns)) (lock_stale_ms * 1000000)

-- A missing file is `none`.
unfoldable pub operation_is_active : ℕ → Option Metadata → Option Metadata → Bool
unfolding metadata_is_within_lease
operation_is_active now none owner = false
operation_is_active now (some directory) none = metadata_is_within_lease now directory
operation_is_active now (some directory) (some owner) =
    owner.is_file && not owner.is_symbolic_link && metadata_is_within_lease now owner

pub record ClaimOwner : Type 0 where
  pub pid : ℕ
  pub token : Text
  pub generation : ℕ

abbrev safe_positive : Value → Option ℕ
safe_positive (num x) = elim x.natural [
  | none ↦ none
  | some n ↦ if ltb 0 n && leb n max_safe_integer then some n else none
]
safe_positive _ = none

-- /^[1-9]\d*$/
abbrev pub positive_digits : Text → Option ℕ
unfolding decimal
positive_digits [] = none
positive_digits (c ∷ cs) =
    if ltb b'0' c && is_digit c && all is_digit cs then some (decimal 0 (c ∷ cs)) else none

abbrev token_of : Text → Option Text
token_of t = if is_hex 32 t then some t else none

abbrev claim_owner : Value → Option ClaimOwner
unfolding get decimal
claim_owner v = do
  pid ← safe_positive (get v (codes "pid"))
  token_text ← as_text (get v (codes "token"))
  token ← token_of token_text
  generation_text ← as_text (get v (codes "generation"))
  generation ← positive_digits generation_text
  some (record { pid = pid; token = token; generation = generation })

unfoldable pub validate_claim_owner : Value → Option ClaimOwner
unfolding get decimal has_only_keys
validate_claim_owner v =
    let owner = claim_owner v in
    if is_plain_object v && has_only_keys v (codes "pid" ∷ codes "token" ∷ codes "generation" ∷ [])
    then owner
    else none

pub data ClaimStatus : Type 0 where
  absent : ClaimStatus
  busy : Option ClaimOwner → ClaimStatus
  releasable : Text → Option ClaimOwner → ClaimStatus

-- The first 24 digits of the hash of the directory's identity come as the fingerprint.
unfoldable pub corrupt_claim_status : ℕ → Text → Metadata → ClaimStatus
unfolding metadata_is_within_lease
corrupt_claim_status now fingerprint owner =
    if metadata_is_within_lease now owner
    then busy none
    else releasable (codes "corrupt-" ++ fingerprint) none

abbrev pub ends : ℕ → Operation → Bool
ends g o =
    o.generation == g
    && (is_kind o.kind committed || is_kind o.kind fenced || is_kind o.kind cancelled)

abbrev pub is_pending_at : ℕ → Operation → Bool
is_pending_at g o = is_kind o.kind pending && o.generation == g

-- What is found of the active claim: its directory, its owner file with what is read of it, the
-- operations, and whether the pending one of a generation is active.
pub record Found : Type 0 where
  pub now : ℕ
  pub fingerprint : Text
  pub directory : Option Metadata
  pub owner_file : Option Metadata
  pub owner_value : Option Value
  pub operations : List Operation
  pub is_active : ℕ → Bool

abbrev pub max_claim_owner_bytes : ℕ
max_claim_owner_bytes = 1024

unfoldable pub owned_status : Found → Metadata → ClaimOwner → ClaimStatus
unfolding corrupt_claim_status natural_number
owned_status f meta owner =
    let key = (natural_number owner.generation).text in
    if any (ends owner.generation) f.operations
    then releasable key (some owner)
    else if any (is_pending_at owner.generation) f.operations
    then (if f.is_active owner.generation then busy (some owner) else releasable key (some owner))
    else corrupt_claim_status f.now f.fingerprint meta

unfoldable pub read_owner : Option Value → Option ClaimOwner
unfolding validate_claim_owner
read_owner none = none
read_owner (some v) = validate_claim_owner v

abbrev pub is_bad_owner_file : Metadata → Bool
is_bad_owner_file m = not m.is_file || m.is_symbolic_link || ltb max_claim_owner_bytes m.size

unfoldable pub owner_status : Found → Metadata → Option ClaimOwner → ClaimStatus
unfolding owned_status corrupt_claim_status
owner_status f meta none = corrupt_claim_status f.now f.fingerprint meta
owner_status f meta (some owner) = owned_status f meta owner

unfoldable pub file_status : Found → Metadata → Option Metadata → ClaimStatus
unfolding owner_status corrupt_claim_status read_owner
file_status f directory none = corrupt_claim_status f.now f.fingerprint directory
file_status f directory (some m) =
    if is_bad_owner_file m
    then corrupt_claim_status f.now f.fingerprint m
    else owner_status f m (read_owner f.owner_value)

unfoldable pub directory_status : Found → Option Metadata → ClaimStatus
unfolding file_status corrupt_claim_status
directory_status f none = absent
directory_status f (some d) =
    if not d.is_directory || d.is_symbolic_link
    then corrupt_claim_status f.now f.fingerprint d
    else file_status f d f.owner_file

unfoldable pub inspect_active_claim : Found → ClaimStatus
unfolding directory_status
inspect_active_claim f = directory_status f f.directory

-- `operationOwnsActiveClaim`
unfoldable pub operation_owns_active_claim : ClaimStatus → ℕ → Text → Bool
unfolding text_eq
operation_owns_active_claim (busy (some owner)) g token =
    owner.generation == g && text_eq owner.token token
operation_owns_active_claim _ g token = false
