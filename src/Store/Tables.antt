-- ===== src/Store/Tables.antt =====
-- The tables that a reconcile transaction reads and writes, and a transaction as a result: one that
-- aborts is rolled back. internal/store/postgres/repo_*.go and the keys of migrations/0001_init.sql.
pub mod Aggregates
pub mod Rows
pub mod Commits
use index_core.Base.{Str, Bool, true, false, Option, none, some, List}
use index_core.Domain.Entities.{CanonicalResource, SnapshotEntry}
use index_core.Domain.Records.{
  ResourceRoot, Generation, IdentityEvidenceObservation, Snapshot, Admission, AppliedSnapshot,
  JournalEvent, ReconcileResult,
}

pub record Database : Type 0 where
  pub roots : List ResourceRoot
  pub generations : List Generation
  pub resources : List CanonicalResource
  pub observations : List IdentityEvidenceObservation
  pub snapshots : List Snapshot
  pub entries : List SnapshotEntry
  pub admissions : List Admission
  pub applied_snapshots : List AppliedSnapshot
  pub journal : List JournalEvent
  pub results : List ReconcileResult

pub data TxError : Type 0 where
  not_found binding_mismatch not_submitted not_draft not_head cas_conflict : TxError
  terminal_snapshot stale_head_consumed invalid_config invalid_transition : TxError
  scoped_fetch_stale invalid_coverage unique_violation out_of_range query_failed : TxError

pub data Tx {ℓ} (A : Type ℓ) : Type ℓ where
  done : A → Tx A
  aborted : TxError → Tx A

infixl 5 ◌>>=◌ ◌>>◌
abbrev pub ◌>>=◌ {ℓ} : {A B : Type ℓ} → Tx A → (A → Tx B) → Tx B
done a >>= k = k a
aborted e >>= k = aborted e

abbrev pub ◌>>◌ {ℓ} : {A B : Type ℓ} → Tx A → Tx B → Tx B
m >> k = m >>= λ _. k

abbrev pub require : Bool → TxError → Tx (Unit {0})
require true e = done tt
require false e = aborted e

-- A row that a query scans, or `ErrNotFound`.
abbrev pub scan : {A : Type 0} → TxError → Option A → Tx A
scan e none = aborted e
scan e (some a) = done a
