-- ===== src/Ledger.antt =====
-- internal/ledger: the task ledger in memory and its file on disk.
pub mod Value
pub mod Durable
pub mod Swap
mod Examples
use Prim.Native.String.{compare}
use text.Mathlib.Text.{is_le}
use agent_remote_node.Prelude.{
  ℕ, suc, String, ◌≡◌, Bool, true, false, not, ◌&&◌, ◌||◌, Option, none, some, List, [], ◌∷◌, map,
  if◌then◌else◌, ◌==◌, Eq, string_Eq, Outcome, ok, err, all, is_some,
}
use agent_remote_node.Prelude.Map.{Map, empty, get, put, map_values, entries}
use agent_remote_node.Prelude.Map
use Value.{Entry, entry_Eq, marshalable_entry, normal_entry}

-- `ErrConflict`, the errors that the package makes itself, and those that it passes on.
pub data LedgerError : Type 0 where
  conflict not_an_object uncertain unsupported_value invalid_json io_error : LedgerError

-- The ledger file: missing, not readable, no valid JSON, `null`, or an object of entries.
pub data File : Type 0 where
  absent unreadable malformed null_document : File
  document : Map String Entry → File

-- `Ledger` without its path and lock, with the file that it owns. `failed` is `failed != nil`.
pub record Ledger : Type 0 where
  pub entries : Map String Entry
  pub failed : Bool
  pub disk : File

-- What each system call of `publish` returns on one run: `true` for success.
pub data Found : Type 0 where
  missing regular irregular lstat_error : Found

pub record Calls : Type 0 where
  pub mkdir : Bool
  pub lstat : Found
  pub open_parent : Bool
  pub create : Bool
  pub write : Bool
  pub sync : Bool
  pub close : Bool
  pub rename : Bool
  pub sync_parent : Bool

-- `Open`
unfoldable pub open_file : File → Outcome LedgerError Ledger
open_file absent = ok (record { entries = empty; failed = false; disk = absent })
open_file unreadable = err io_error
open_file malformed = err invalid_json
open_file null_document = err not_an_object
open_file (document m) = ok (record { entries = m; failed = false; disk = document m })

abbrev pub usable : Found → Bool
usable missing = true
usable regular = true
usable irregular = false
usable lstat_error = false

-- `publish`: the file after the call, whether it was renamed into place, and whether an error came.
unfoldable pub publish : Calls → Map String Entry → File → File × Bool × Bool
publish c new old =
    if c.mkdir
      && (usable c.lstat
          && (c.open_parent && (c.create && (c.write && (c.sync && (c.close && c.rename))))))
    then (document new, true, not c.sync_parent)
    else (old, false, true)

-- `json.MarshalIndent` of all entries, read back by `decodeJSON`.
unfoldable pub round_trip : Map String Entry → Option (Map String Entry)
round_trip m =
    if all (λ e. marshalable_entry e.1) (Map.entries m)
    then some (map_values normal_entry m)
    else none

-- The ledger after a call that writes, with the error that it returned.
abbrev pub Written : Type 0
Written = Ledger × Outcome LedgerError (Unit {0})

unfoldable pub published : Map String Entry → File × Bool × Bool → Ledger → Written
published next (disk, renamed, true) l =
    (record l { disk = disk; failed = l.failed || renamed }, err io_error)
published next (disk, renamed, false) l = (record l { disk = disk; entries = next }, ok tt)

unfoldable pub save_next : Calls → Option (Map String Entry) → Ledger → Written
unfolding published publish
save_next c none l = (l, err unsupported_value)
save_next c (some next) l = published next (publish c next l.disk) l

-- `saveLocked`, at the time `now`.
unfoldable pub save_locked : ℕ → Calls → Entry → Ledger → Written
unfolding save_next round_trip
save_locked now c e l =
    if l.failed
    then (l, err uncertain)
    else save_next c (round_trip (put l.entries e.task_id (record e { updated_at = now }))) l

-- `Save`
unfoldable pub save : ℕ → Calls → Entry → Ledger → Written
unfolding save_locked
save = save_locked

-- The JSON of an entry, known by the entry that is read back from it.
unfoldable pub marshal : Entry → Option Entry
marshal e = if marshalable_entry e then some (normal_entry e) else none

abbrev pub detached : Option Entry → Outcome LedgerError (Option Entry)
detached none = err unsupported_value
detached (some e) = ok (some e)

-- `Get`
unfoldable pub get_entry : String → Ledger → Outcome LedgerError (Option Entry)
unfolding marshal
get_entry id l =
    if l.failed
    then err uncertain
    else elim (get l.entries id) [ none ↦ ok none | some e ↦ detached (marshal e) ]

-- The comparison of `CompareAndSwap`: `none` lets the write go on.
unfoldable pub compare_json : Option Entry → Option Entry → Option LedgerError
compare_json (some before) (some actual) = if before == actual then none else some conflict
compare_json _ _ = some unsupported_value

-- What `CompareAndSwap` finds against the expected record.
unfoldable pub mismatch : Option Entry → Entry → Option Entry → Option LedgerError
unfolding compare_json marshal
mismatch none e none = none
mismatch none e (some current) = some conflict
mismatch (some x) e none = some conflict
mismatch (some x) e (some current) =
    if x.task_id == e.task_id then compare_json (marshal x) (marshal current) else some conflict

unfoldable pub swapped : ℕ → Calls → Entry → Ledger → Option LedgerError → Written
unfolding save_locked
swapped now c e l (some x) = (l, err x)
swapped now c e l none = save_locked now c e l

-- `CompareAndSwap`; `none` expects absence.
unfoldable pub compare_and_swap : ℕ → Calls → Option Entry → Entry → Ledger → Written
unfolding swapped mismatch
compare_and_swap now c expected e l =
    if l.failed
    then (l, err uncertain)
    else swapped now c e l (mismatch expected e (get l.entries e.task_id))

-- `a.TaskID <= b.TaskID`, in byte order.
abbrev pub in_order : Entry → Entry → Bool
in_order a b = is_le (compare a.task_id b.task_id)

unfoldable pub insert_sorted : Entry → List Entry → List Entry
insert_sorted e [] = e ∷ []
insert_sorted e (x ∷ xs) =
    let rest = insert_sorted e xs in if in_order e x then e ∷ (x ∷ xs) else x ∷ rest

-- `sort.Slice` by task.
unfoldable pub sort_entries : List Entry → List Entry
unfolding insert_sorted
sort_entries [] = []
sort_entries (e ∷ es) = insert_sorted e (sort_entries es)

unfoldable pub with_status : String → List (String × Entry) → List Entry
with_status status [] = []
with_status status ((k, e) ∷ m) =
    let rest = with_status status m in if e.status == status then e ∷ rest else rest

-- `List`
unfoldable pub list_entries : String → Ledger → Outcome LedgerError (List Entry)
unfolding sort_entries with_status
list_entries status l =
    let found = with_status status (Map.entries l.entries) in
    if l.failed
    then err uncertain
    else if all marshalable_entry found
    then ok (sort_entries (map normal_entry found))
    else err unsupported_value

-- One call of a method that writes, with the outcomes of its system calls.
pub data Write : Type 0 where
  saves : ℕ → Calls → Entry → Write
  swaps : ℕ → Calls → Option Entry → Entry → Write

unfoldable pub write : Write → Ledger → Written
write (saves now c e) l = save now c e l
write (swaps now c x e) l = compare_and_swap now c x e l

unfoldable pub write_all : List Write → Ledger → Ledger
unfolding write
write_all [] l = l
write_all (w ∷ ws) l = write_all ws (write w l).0
