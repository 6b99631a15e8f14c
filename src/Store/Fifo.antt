-- ===== src/Store/Fifo.antt =====
-- The queue that the admission table of internal/store/postgres stands for: the pending snapshots of a
-- root in the order of their sequence numbers.
pub mod Rows
pub mod Departures
pub mod Heads
pub mod Arrivals
pub mod Steps
pub mod Moves
pub mod Requests
pub mod Refinement
use index_core.Base.{
  Str, str_eq, ℕ, ◌≤◌, ◌<◌, ◌≡◌, Bool, true, Option, none, some, List, [], ◌∷◌, map, select, All,
  if◌then◌else◌,
}
use index_core.Domain.Records.{ResourceRoot, Admission}
use index_core.Store.Tables.{Database}
use index_core.Store.Tables.Rows.{pending_of, of_root, find_root}

abbrev pub Queue : Type 0
Queue = List (ℕ × Str)

abbrev pub ticket : Admission → ℕ × Str
ticket a = (a.admission_seq, a.snapshot_id)

unfoldable pub queue_of : Str → List Admission → Queue
queue_of root_id rows = map ticket (select (pending_of root_id) rows)

abbrev pub front : Queue → Option ℕ
front [] = none
front (t ∷ q) = some t.0

-- The rows of a root stand in the order of their sequence numbers, all above `n`.
abbrev pub Ascends : Str → ℕ → List Admission → Type 0
Ascends root_id n [] = Unit
Ascends root_id n (a ∷ rows) =
    (of_root root_id a ≡ true → n < a.admission_seq)
    × Ascends root_id (if of_root root_id a then a.admission_seq else n) rows

abbrev pub AtMost : Str → ℕ → List Admission → Type 0
AtMost root_id n = All λ a. of_root root_id a ≡ true → a.admission_seq ≤ n

-- The counter of the root is at least every sequence number in use.
pub record IsFifo (root_id : Str) (db : Database) : Type 0 where
  pub root : ResourceRoot
  pub rooted : find_root root_id db.roots ≡ some root
  pub ascending : Ascends root_id 0 db.admissions
  pub counted : AtMost root_id root.latest_admission_seq db.admissions
