-- ===== src/Lib.antt =====
-- The index core keeps an inventory of the files of a storage root. Collectors hand in snapshots; the
-- kernel judges how complete a snapshot is, reconciles it with the inventory, and the store writes the
-- decision. Between full snapshots a durable queue of work items says which scopes to look at again.
--
-- Domain models internal/domain (enums.go, entities.go, identity.go): the string types as data types
-- with a constructor `other` for a text that is no constant, and the rows as records.
--
-- Kernel/Reconcile models internal/kernel/reconcile. Types is types.go; Paths the helpers at the end
-- of identity.go; Index is BuildPriorIndex and indexObservation; Resolve is the rule cascade R1 to R10
-- of `resolve`, one function per rule; Missing is missingTransition; Run is applyMatched and
-- Reconcile, with the loop's variables as a record; Directory is ReconcileDirectory. A Go map is a
-- function from keys, and the pointers that the index holds are the resources themselves, which the
-- run does not write. `NewID` is the parameter `new_id` of Config: what its k-th call returns.
--
-- Kernel/Completeness models internal/kernel/completeness: the cascade C-1 to C-10 of Evaluate, and
-- DeriveShrinkCorroboration. The float64 operations of the shrink test are the parameter Float64.
--
-- Kernel/Journal models internal/kernel/journal: where a replay may start, and the order it applies
-- events in. A cursor vector is a function from root ids.
--
-- Store/Inventory models the writes of internal/store/postgres/repo_resource.go and applyTransition
-- of decision.go: a table is the list of its rows, and an UPDATE a map over it. Store/Plan
-- models PlanFromResult and eventTypeFor of decision.go; encoding/json is a parameter.
--
-- Kernel/Identity models internal/kernel/identity, the bytes that the identity of a snapshot hashes;
-- Kernel/Reconcile/Context is context.go, which the identity includes; Kernel/Pipeline models
-- internal/kernel/pipeline, which puts verdict and identity together. SHA-256 is a parameter.
--
-- Store/Tables is the part of the database that a reconcile transaction sees: a record of tables, each
-- the list of its rows, and a transaction as a result that either commits or aborts, so that an aborted
-- one leaves nothing behind. Tables/Rows models the statements of repo_admission.go, repo_applied.go,
-- repo_journal.go, repo_snapshot.go and repo_root.go, with the primary keys of these tables; their
-- sequence and generation numbers do not wrap, a value past the column's range aborts. The insert of a
-- resource checks neither its key nor the table's constraints. Store/Admission models the stage-1 transactions
-- (snapshot_create_admit.go, AdmitSnapshot and admitOrResumeSnapshot), Store/Prior the reads (prior.go),
-- Store/Shrink the corroboration, Store/Commit the endings and Store/Coordinator reconcileHeadSafe, cut
-- into one function per group of its checks. Store/Terminal is terminal_snapshot.go and
-- consumed_stale_head.go, Store/Worker ProcessHead and ProcessSnapshot, Store/Head the transactions of
-- tx.go, Store/RootAdmin the root lifecycle. Coordinator/Ended lists the ways in which the reconcile
-- transaction commits, Commit/Effects what each writes; Store/Fifo compares the admission table with an
-- abstract queue. What the transaction takes from elsewhere is the record Env: SHA-256, encoding/json,
-- strconv, float64, the collation of the database, and the checks of scoped_fetch_fence.go and
-- directory_coverage.go, which only read. Store/Coverage models the second of these.
--
-- Incremental models internal/incremental/state: Model is model.go, Sets the validation and the sets
-- of validate.go, Scope the scope keys of scope.go. Store/Work models incremental_work.go,
-- incremental_transitions.go and incremental_recovery.go of internal/store/postgres: the part of each
-- transaction that reads and writes one work row, under the row lock that the code takes. Steps puts
-- the operations together as a step relation, and Store/Queue is the recovery of all rows of a root. A
-- transaction that rolls back is a failed outcome, which has no row.
--
-- SourceBudget models internal/sourcebudget/budget.go, but for the parsing of endpoints and the HTTP
-- transport: the manager as a record, each pass of `acquire` as one step, since the mutex guards it, and
-- the clock readings as arguments. A retry delay below zero, which no caller passes, is not modelled.
--
-- Numbers: an instant is its nanoseconds, as a natural number; `Sub` saturates at an int64 of
-- nanoseconds; the int32 and int64 counters wrap around. A row's version is counted by the database,
-- which refuses to pass its largest bigint, so it is a plain natural number. No model needs fuel:
-- every loop runs over a list.
--
-- Not modelled: SQL itself and the connection pool, the scoped fetch fence that the
-- coordinator consults, the lease of an admission, the collectors, HTTP, configuration and the
-- runtime's goroutines. The watch row that a work transaction writes is left out: it enters as
-- an argument, whether that write would succeed.
pub mod Base
pub mod Domain
pub mod Kernel
pub mod Store
pub mod Incremental
pub mod SourceBudget
pub mod Tests
