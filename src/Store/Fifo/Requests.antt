-- ===== src/Store/Fifo/Requests.antt =====
-- Admissions and drafts as moves of the queue.
use index_core.Base.{
  Str, str_eq, ℕ, ◌≡◌, refl, ap, subst, ◌⊎◌, inl, inr, Bool, true, ◌&&◌, none, some, List, [], ◌∷◌,
  ◌++◌, arith, if◌then◌else◌,
}
use index_core.Domain.Enums.{SnapshotLifecycleState, is_submitted, is_reconciled}
use index_core.Domain.Entities.{SnapshotEntry}
use index_core.Domain.Records.{Snapshot, ResourceRoot}
use index_core.Store.Admission.{
  create_draft_snapshot, stub, insert_entries, submit_and_admit_snapshot, admit_snapshot,
  admit_or_resume_snapshot, resume, admit_new, pending_admission,
}
use index_core.Store.Commit.{Env}
use index_core.Store.Fifo.Moves.{Refines, Refines-same, allocate-Refines}
use index_core.Store.Fifo.{IsFifo}
use index_core.Store.Tables.{
  Database, Tx, done, aborted, ◌>>=◌, ◌>>◌, require, scan, binding_mismatch, not_found,
  not_submitted,
}
use index_core.Store.Terminal.{TxOutcome, terminal_snapshot_receipt}
use index_core.Store.Tables.Commits.{
  Commits, Commits-intro, Commits-bind, Commits-if, Commits-scan, Commits-require, Commits-done,
}
use index_core.Store.Tables.Rows.{
  find_root, find_snapshot, allocate_admission, mark_snapshot_submitted,
  set_snapshot_lifecycle_state,
}

module _ (env : Env) (root_id other snapshot_id : Str) (clock : ℕ) (db : Database)
    (s : IsFifo other db) where
  submit-allocates :
      {r : Database × ℕ}
      → submit_and_admit_snapshot env.validate_scoped_fetch root_id snapshot_id clock db ≡ done r
      → allocate_admission root_id snapshot_id clock
          (set_snapshot_lifecycle_state snapshot_id SnapshotLifecycleState.submitted db)
        ≡ done r
  unfolding submit_and_admit_snapshot mark_snapshot_submitted
  submit-allocates e = ground (arith, e)

  pub submit-Refines :
      {r : Database × ℕ}
      → submit_and_admit_snapshot env.validate_scoped_fetch root_id snapshot_id clock db ≡ done r
      → Refines other db r.0
  unfolding set_snapshot_lifecycle_state
  submit-Refines e =
      let d = set_snapshot_lifecycle_state snapshot_id SnapshotLifecycleState.submitted db in
      allocate-Refines root_id other snapshot_id clock d (submit-allocates e)
        (Refines-same other db d refl refl s).1

  pub admit-allocates :
      {r : Database × ℕ}
      → admit_snapshot env.validate_scoped_fetch root_id snapshot_id clock db ≡ done r
      → allocate_admission root_id snapshot_id clock db ≡ done r
  unfolding admit_snapshot
  admit-allocates e = ground (arith, e)

  abbrev Grants : Database × ℕ × Bool → Type 0
  Grants r = (r.0 ≡ db) ⊎ ((id : Str) × (allocate_admission root_id id clock db ≡ done (r.0, r.1)))

  admit_new-allocates :
      (handoff : Bool) (snap : Snapshot) {r : Database × ℕ × Bool}
      → admit_new env.validate_scoped_fetch handoff root_id snap clock db ≡ done r
      → allocate_admission root_id snap.snapshot_id clock db ≡ done (r.0, r.1)
  unfolding admit_new
  admit_new-allocates handoff snap e = ground (arith, e)

  resume-Grants :
      (handoff : Bool) (current : ℕ) (snap : Snapshot)
      → Commits Grants (resume env.validate_scoped_fetch handoff root_id current snap clock db)
  unfolding resume
  resume-Grants handoff current snap =
      let new = admit_new env.validate_scoped_fetch handoff root_id snap clock db in
      let look = terminal_snapshot_receipt root_id snap.snapshot_id 0 current db in
      let read : ℕ × TxOutcome → Tx (Database × ℕ × Bool) = λ r. done (db, r.0, true) in
      let handed : Tx (Database × ℕ × Bool) =
        if handoff && is_reconciled snap.lifecycle_state
        then look >>= read
        else aborted not_submitted in
      let open_ : Tx (Database × ℕ × Bool) =
        elim (pending_admission root_id snap.snapshot_id db.admissions) [
          | some seq ↦ done (db, seq, true)
          | none ↦ new
        ] in
      Commits-if Grants (is_submitted snap.lifecycle_state) open_ handed
        (λ sub.
          elim (pending_admission root_id snap.snapshot_id db.admissions)
            as (λ o. Commits Grants (elim o [ some seq ↦ done (db, seq, true) | none ↦ new ])) [
              | some seq ↦ inl refl
              | none ↦
                  Commits-intro Grants new
                    (λ r e. inr (snap.snapshot_id, admit_new-allocates handoff snap e))
            ])
        (λ no.
          Commits-if Grants (handoff && is_reconciled snap.lifecycle_state) (look >>= read)
            (aborted not_submitted) (λ y. Commits-bind Grants look read (λ b e. inl refl))
            (λ n. tt))

  admit_or_resume-Grants :
      (handoff : Bool)
      → Commits Grants
          (admit_or_resume_snapshot env.validate_scoped_fetch handoff root_id snapshot_id clock db)
  unfolding admit_or_resume_snapshot
  admit_or_resume-Grants handoff =
      let go : ResourceRoot → Snapshot → Tx (Database × ℕ × Bool) = λ root snap.
        resume env.validate_scoped_fetch handoff root_id root.current_generation snap clock db in
      let own : ResourceRoot → Snapshot → Tx (Database × ℕ × Bool) =
        λ root snap. require (str_eq snap.root_id root_id) binding_mismatch >> go root snap in
      let load : ResourceRoot → Tx (Database × ℕ × Bool) =
        λ root. scan not_found (find_snapshot snapshot_id db.snapshots) >>= own root in
      Commits-scan Grants (find_root root_id db.roots) not_found load (λ root e.
        Commits-scan Grants (find_snapshot snapshot_id db.snapshots) not_found (own root) (λ snap f.
          Commits-require Grants (str_eq snap.root_id root_id) binding_mismatch (go root snap)
            (λ g. resume-Grants handoff root.current_generation snap)))

-- The entries of a draft, and the draft, are in tables of their own.
insert_entries-done :
    (id : Str) (entries : List SnapshotEntry) (db : Database) {d : Database}
    → insert_entries id entries db ≡ done d
    → d ≡ record db { entries = d.entries }
unfolding insert_entries
insert_entries-done id [] db {d} e =
    let same : db ≡ d = ground (arith, e) in
    subst (λ x. x ≡ record db { entries = x.entries }) same refl
insert_entries-done id (x ∷ entries) db {d} e =
    let new = record x { snapshot_id = id } in
    let rest : insert_entries id entries (record db { entries = db.entries ++ new ∷ [] }) ≡ done d =
      ground (arith, e) in
    insert_entries-done id entries _ rest

create_draft-done :
    (snap : Snapshot) (entries : List SnapshotEntry) (db : Database) {d : Database}
    → create_draft_snapshot snap entries db ≡ done d
    → insert_entries snap.snapshot_id entries
        (record db { snapshots = db.snapshots ++ stub snap ∷ [] })
      ≡ done d
unfolding create_draft_snapshot
create_draft-done snap entries db e = ground (arith, e)

pub create_draft-Refines :
    (root_id : Str) (snap : Snapshot) (entries : List SnapshotEntry) (db : Database)
    {later : Database}
    → IsFifo root_id db
    → create_draft_snapshot snap entries db ≡ done later
    → Refines root_id db later
create_draft-Refines root_id snap entries db {later} s e =
    let written =
      insert_entries-done snap.snapshot_id entries _ (create_draft-done snap entries db e) in
    Refines-same root_id db later (ap (λ x. x.admissions) written) (ap (λ x. x.roots) written) s

pub resumed-Refines :
    (env : Env) (other root_id id : Str) (clock : ℕ) (db : Database) {r : Database × ℕ × Bool}
    → IsFifo root_id db
    → (handoff : Bool)
    → admit_or_resume_snapshot env.validate_scoped_fetch handoff other id clock db ≡ done r
    → Refines root_id db r.0
resumed-Refines env other root_id id clock db {r} s handoff e =
    elim (Commits-done (Grants env other root_id id clock db s) _ r e
      (admit_or_resume-Grants env other root_id id clock db s handoff)) [
        | inl same ↦
            Refines-same root_id db r.0 (ap (λ x. x.admissions) same) (ap (λ x. x.roots) same) s
        | inr (snapshot_id, allocated) ↦
            allocate-Refines other root_id snapshot_id clock db allocated s
      ]
