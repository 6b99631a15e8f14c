-- ===== src/Tests/Coordinator.antt =====
-- Instances of the theorems on the coordinator: a root whose first snapshot holds one new file, and
-- whose second one waits.
use index_core.Base.{
  All, Str, codes, ℕ, pos, ◌≡◌, ◌⊎◌, refl, Bool, true, false, none, some, [], ◌∷◌, str_eq, str_ltb,
  insert_sorted, sort_by, select, any, count_if, contains, trim_slash, has_prefix,
}
use index_core.Domain.Enums.{
  AcceptanceState, ScopeShrinkCorroboration, SnapshotIdentityKind, RootLifecycleState,
  SnapshotLifecycleState, AdmissionStatus, TraversalStatus, CompletenessFlag, FreshnessEvidence,
  FailureVisibility, is_reconciled, is_applied,
}
use index_core.Domain.Records.{ResourceRoot, Snapshot, Admission}
use native.Mathlib.Omega.{arith}
use index_core.Domain.Entities.{DirectoryCoverage}
use index_core.Kernel.Pipeline as Pipeline
use index_core.Kernel.Reconcile.Run.Removals.{is_removal_step}
use index_core.Store.Coordinator.Decisions.{Licensed, decide-Licensed}
use index_core.Store.Fifo.{IsFifo, queue_of}
use index_core.Store.Fifo.Departures.{Answered, reconcile_head_safe-dequeues}
use index_core.Store.Fifo.Moves.{Moves}
use index_core.Store.Fifo.Steps.{reconcile_head}
use index_core.Store.Fifo.Refinement.{Step-Refines}
use index_core.Store.Terminal.Handoff.{IsFresh, reconcile_head_safe-again}
use index_core.Store.Coordinator.Outcomes.{
  SameCanonical, Advances, reconcile_head_safe-SameCanonical, reconcile_head_safe-Advances,
}
use index_core.Store.Tables.{Database, Tx, done, aborted}
use index_core.Tests.Data.{policy, seen_file, exact, library, listing}
use index_core.Store.Tables.Rows.{
  find_root, find_snapshot, update_root, update_snapshot, find_admission, allocate_admission,
  head_seq, set_status, set_admission_status, applied_max, set_snapshot_lifecycle_state,
  mark_snapshot_submitted, set_snapshot_evaluated, same_kind, same_identity,
  applied_exists_at_generation, insert_applied_snapshot, max_applied_generation, insert_generation,
  max_event_seq, next_event_seq, next_intra_generation_seq, append_journal_event, insert_result,
}
use index_core.Store.Tables.Aggregates.{max_of, min_of}
use index_core.Store.Terminal.{
  TxOutcome, unchanged_outcome, check_history, receipt_of, terminal_snapshot_receipt,
  consumed_stale_head,
}
use index_core.Store.Prior.{
  latest_observation, enrich, load_prior_resources, entry_before, list_snapshot_entries,
  observation_row,
}
use index_core.Store.Shrink.{
  significant_shrink, is_anchor, scope_signature, is_intervening, no_intervening_growth, serves,
  derive_qualified_corroboration,
}
use index_core.Store.Commit.{
  Env, ReconcileInput, record_result, finish, reject, stale_input, commit_noop, advance_generation,
  append_events, append_plan, apply_plan, produce_generation, write_plan, commit_applied,
}
use index_core.Store.Coordinator.{
  pipeline_evidence, evaluate_head, decide, settle, conclude, conclude_covered, conclude_fenced,
  reconcile_admitted, reconcile_bound, resolve_head, reconcile_head_safe,
}
use index_core.Store.Inventory.{
  update_row, resolve_parent_id, added_row, apply_transition, apply_transitions,
}
use index_core.Store.Plan.{event_type_for, plan_events}
use index_core.Kernel.Pipeline.{
  to_digest_entry, signature_line, concat_lines, raw_scope_signature, skipped_canonical,
  normalize_freshness, normalize_assurance, completeness_evidence, evaluate_snapshot,
}
use index_core.Kernel.Identity.{
  cmp_str, cmp_opt_int, cmp_bool, less_entry, put_uint64, write_tag, write_bool, uint64_of,
  write_opt_int, entry_bytes, entries_bytes, evidence_bytes, digest_input, final_digest,
  directory_digest,
}
use index_core.Kernel.Completeness.{
  freshness_of, assurance_of, is_corroborated, ratio, evaluate_positive, evaluate, first_fit,
  derive_shrink_corroboration,
}
use index_core.Kernel.Reconcile.Context.{
  join, digits, itoa, see, see_entries, context_line, context_lines, removal_decision_context,
}
use index_core.Kernel.Reconcile.Run.{
  path_changed, parent_changed, attrs_changed, has_any_evidence, reset_evidence, change_path,
  change_attributes, leave_unchanged, change, apply_matched, add_resource, add_conflict,
  take_resolution, take_entries, miss, take_missing, observe_entries, reconcile,
}
use index_core.Kernel.Reconcile.Index.{build_prior_index, index_observation}
use index_core.Kernel.Reconcile.Resolve.{
  provider_match, provider_stage, hash_match, hash_candidates, hash_same_path, hash_stage,
  moved_candidates, moved_match, size_stage, resolve,
}
use index_core.Kernel.Reconcile.Paths.{
  entry_path, entry_hash_comparable, hash_agrees, within_move_horizon,
}

abbrev host : Env
host = record {
  digest = λ s. s;
  decimal = λ n. [];
  marshal = λ s. codes s;
  marshal_counts = λ c. [];
  float64 = exact;
  text_less = str_ltb;
  validate_scoped_fetch = λ db snap seq. done tt;
  directory_coverage = λ db snap entries gen. done none;
}

abbrev first_root : ResourceRoot
first_root = record {
  root_id = codes "root";
  lifecycle_state = RootLifecycleState.active;
  current_generation = 0;
  latest_admission_seq = 2;
  updated_at = 0;
}

abbrev waiting : Str → Snapshot
waiting id = record {
  snapshot_id = id;
  root_id = codes "root";
  provenance = [];
  observed_at = 500;
  traversal_status = TraversalStatus.success;
  error_summary = none;
  skipped_scopes = none;
  skipped_scopes_known_empty = true;
  freshness_evidence = some FreshnessEvidence.fresh_direct;
  collector_completeness_assurance = some FailureVisibility.strong;
  scope_shrink_corroboration = none;
  completeness_flag = CompletenessFlag.complete;
  acceptance_state = none;
  lifecycle_state = SnapshotLifecycleState.submitted;
  entry_count = some (pos 1);
}

abbrev asked : ℕ → Str → Admission
asked seq id = record {
  root_id = codes "root";
  admission_seq = seq;
  snapshot_id = id;
  status = AdmissionStatus.pending;
  applied_generation = none;
}

abbrev store : Database
store = record {
  roots = first_root ∷ [];
  generations = [];
  resources = [];
  observations = [];
  snapshots = waiting (codes "s3") ∷ waiting (codes "s4") ∷ [];
  entries = seen_file (codes "/") (codes "a") (pos 5) ∷ [];
  admissions = asked 1 (codes "s3") ∷ asked 2 (codes "s4") ∷ [];
  applied_snapshots = [];
  journal = [];
  results = [];
}

abbrev head_input : ReconcileInput
head_input = record { root_id = codes "root"; admission_seq = 1; snapshot_id = codes "s3" }

abbrev is_done : {A : Type 0} → Tx A → Bool
is_done (done a) = true
is_done (aborted e) = false

abbrev value : {A : Type 0} → A → Tx A → A
value d (done a) = a
value d (aborted e) = d

done-value : {A : Type 0} (d : A) (t : Tx A) → is_done t ≡ true → t ≡ done (value d t)
done-value d (done a) h = refl
done-value d (aborted e) h = ground (arith, h)

abbrev run : Tx (Database × TxOutcome)
run = reconcile_head_safe host head_input policy 900 store

abbrev got : Database × TxOutcome
got = value (store, unchanged_outcome AdmissionStatus.pending 0) run

run_done : is_done run ≡ true
unfolding find_root find_snapshot update_root update_snapshot find_admission allocate_admission
    head_seq set_status set_admission_status applied_max set_snapshot_lifecycle_state
    mark_snapshot_submitted set_snapshot_evaluated same_kind same_identity
    applied_exists_at_generation insert_applied_snapshot max_applied_generation insert_generation
    max_event_seq next_event_seq next_intra_generation_seq append_journal_event insert_result max_of
    min_of check_history receipt_of terminal_snapshot_receipt consumed_stale_head latest_observation
    enrich load_prior_resources entry_before list_snapshot_entries observation_row
    significant_shrink is_anchor scope_signature is_intervening no_intervening_growth serves
    derive_qualified_corroboration record_result finish reject stale_input commit_noop
    advance_generation append_events append_plan apply_plan produce_generation write_plan
    commit_applied pipeline_evidence evaluate_head decide settle conclude conclude_covered
    conclude_fenced reconcile_admitted reconcile_bound resolve_head reconcile_head_safe update_row
    resolve_parent_id added_row apply_transition apply_transitions event_type_for plan_events
    to_digest_entry signature_line concat_lines raw_scope_signature skipped_canonical
    normalize_freshness normalize_assurance completeness_evidence evaluate_snapshot cmp_str
    cmp_opt_int cmp_bool less_entry put_uint64 write_tag write_bool uint64_of write_opt_int
    entry_bytes entries_bytes evidence_bytes digest_input final_digest directory_digest freshness_of
    assurance_of is_corroborated ratio evaluate_positive evaluate first_fit
    derive_shrink_corroboration join digits itoa see see_entries context_line context_lines
    removal_decision_context path_changed parent_changed attrs_changed has_any_evidence
    reset_evidence change_path change_attributes leave_unchanged change apply_matched add_resource
    add_conflict take_resolution take_entries miss take_missing observe_entries reconcile
    build_prior_index index_observation provider_match provider_stage hash_match hash_candidates
    hash_same_path hash_stage moved_candidates moved_match size_stage resolve entry_path
    entry_hash_comparable hash_agrees within_move_horizon str_eq str_ltb insert_sorted sort_by
    select any count_if contains trim_slash has_prefix
    index_core.Kernel.Completeness.significant_shrink
run_done = refl

committed : run ≡ done got
committed = done-value (store, unchanged_outcome AdmissionStatus.pending 0) run run_done

in_order : IsFifo (codes "root") store
unfolding find_root str_eq
in_order = record {
  root = first_root;
  rooted = refl;
  ascending = ((λ e. omega arith), ((λ e. omega arith), tt));
  counted = ((λ e. omega arith), ((λ e. omega arith), tt));
}

untried : IsFresh head_input store
unfolding find_root find_snapshot str_eq select any
untried = record {
  snap = waiting (codes "s3");
  stored = refl;
  open_state = refl;
  row = asked 1 (codes "s3");
  alone = refl;
  here = refl;
  root = first_root;
  rooted = refl;
  counted = omega arith;
  produced = refl;
  no_result = refl;
  no_history = refl;
  no_product = refl;
}

got_reconciled : is_reconciled got.1.snapshot_lifecycle ≡ true
unfolding find_root find_snapshot update_root update_snapshot find_admission allocate_admission
    head_seq set_status set_admission_status applied_max set_snapshot_lifecycle_state
    mark_snapshot_submitted set_snapshot_evaluated same_kind same_identity
    applied_exists_at_generation insert_applied_snapshot max_applied_generation insert_generation
    max_event_seq next_event_seq next_intra_generation_seq append_journal_event insert_result max_of
    min_of check_history receipt_of terminal_snapshot_receipt consumed_stale_head latest_observation
    enrich load_prior_resources entry_before list_snapshot_entries observation_row
    significant_shrink is_anchor scope_signature is_intervening no_intervening_growth serves
    derive_qualified_corroboration record_result finish reject stale_input commit_noop
    advance_generation append_events append_plan apply_plan produce_generation write_plan
    commit_applied pipeline_evidence evaluate_head decide settle conclude conclude_covered
    conclude_fenced reconcile_admitted reconcile_bound resolve_head reconcile_head_safe update_row
    resolve_parent_id added_row apply_transition apply_transitions event_type_for plan_events
    to_digest_entry signature_line concat_lines raw_scope_signature skipped_canonical
    normalize_freshness normalize_assurance completeness_evidence evaluate_snapshot cmp_str
    cmp_opt_int cmp_bool less_entry put_uint64 write_tag write_bool uint64_of write_opt_int
    entry_bytes entries_bytes evidence_bytes digest_input final_digest directory_digest freshness_of
    assurance_of is_corroborated ratio evaluate_positive evaluate first_fit
    derive_shrink_corroboration join digits itoa see see_entries context_line context_lines
    removal_decision_context path_changed parent_changed attrs_changed has_any_evidence
    reset_evidence change_path change_attributes leave_unchanged change apply_matched add_resource
    add_conflict take_resolution take_entries miss take_missing observe_entries reconcile
    build_prior_index index_observation provider_match provider_stage hash_match hash_candidates
    hash_same_path hash_stage moved_candidates moved_match size_stage resolve entry_path
    entry_hash_comparable hash_agrees within_move_horizon str_eq str_ltb insert_sorted sort_by
    select any count_if contains trim_slash has_prefix
    index_core.Kernel.Completeness.significant_shrink
got_reconciled = refl

reconcile_head_safe-dequeues_example :
    ((got.0 ≡ store) × Answered head_input store got.1)
    ⊎ ((queue_of (codes "root") store.admissions
          ≡ (1, codes "s3") ∷ queue_of (codes "root") got.0.admissions)
        × IsFifo (codes "root") got.0)
reconcile_head_safe-dequeues_example =
    reconcile_head_safe-dequeues host head_input policy 900 store committed in_order

Step-Refines_example :
    Moves (queue_of (codes "root") store.admissions) (queue_of (codes "root") got.0.admissions)
    × IsFifo (codes "root") got.0
Step-Refines_example =
    Step-Refines host (λ s. []) (codes "root") in_order
      (reconcile_head head_input policy 900 committed)

-- Later, and under another grace period.
reconcile_head_safe-again_example :
    reconcile_head_safe host head_input (record policy { removal_grace_period = pos 7 }) 5000 got.0
    ≡ done got
reconcile_head_safe-again_example =
    reconcile_head_safe-again host head_input policy
      (record policy { removal_grace_period = pos 7 }) 900 5000 store untried committed
      got_reconciled

waiting_found : find_snapshot (codes "s3") store.snapshots ≡ some (waiting (codes "s3"))
unfolding find_snapshot str_eq
waiting_found = refl

reconcile_head_safe-Advances_example : Advances head_input store got.0 got.1
reconcile_head_safe-Advances_example =
    reconcile_head_safe-Advances host head_input policy 900 store committed (waiting (codes "s3"))
      waiting_found refl

-- The same queue of a root that was deleted meanwhile.
abbrev orphaned : Database
orphaned = record store {
  roots = record first_root { lifecycle_state = RootLifecycleState.deleted } ∷ [];
}

abbrev refusal : Tx (Database × TxOutcome)
refusal = reconcile_head_safe host head_input policy 900 orphaned

abbrev left : Database × TxOutcome
left = value (store, unchanged_outcome AdmissionStatus.pending 0) refusal

refusal_done : is_done refusal ≡ true
unfolding find_root find_snapshot update_root update_snapshot find_admission allocate_admission
    head_seq set_status set_admission_status applied_max set_snapshot_lifecycle_state
    mark_snapshot_submitted set_snapshot_evaluated same_kind same_identity
    applied_exists_at_generation insert_applied_snapshot max_applied_generation insert_generation
    max_event_seq next_event_seq next_intra_generation_seq append_journal_event insert_result max_of
    min_of check_history receipt_of terminal_snapshot_receipt consumed_stale_head latest_observation
    enrich load_prior_resources entry_before list_snapshot_entries observation_row
    significant_shrink is_anchor scope_signature is_intervening no_intervening_growth serves
    derive_qualified_corroboration record_result finish reject stale_input commit_noop
    advance_generation append_events append_plan apply_plan produce_generation write_plan
    commit_applied pipeline_evidence evaluate_head decide settle conclude conclude_covered
    conclude_fenced reconcile_admitted reconcile_bound resolve_head reconcile_head_safe update_row
    resolve_parent_id added_row apply_transition apply_transitions event_type_for plan_events
    to_digest_entry signature_line concat_lines raw_scope_signature skipped_canonical
    normalize_freshness normalize_assurance completeness_evidence evaluate_snapshot cmp_str
    cmp_opt_int cmp_bool less_entry put_uint64 write_tag write_bool uint64_of write_opt_int
    entry_bytes entries_bytes evidence_bytes digest_input final_digest directory_digest freshness_of
    assurance_of is_corroborated ratio evaluate_positive evaluate first_fit
    derive_shrink_corroboration join digits itoa see see_entries context_line context_lines
    removal_decision_context path_changed parent_changed attrs_changed has_any_evidence
    reset_evidence change_path change_attributes leave_unchanged change apply_matched add_resource
    add_conflict take_resolution take_entries miss take_missing observe_entries reconcile
    build_prior_index index_observation provider_match provider_stage hash_match hash_candidates
    hash_same_path hash_stage moved_candidates moved_match size_stage resolve entry_path
    entry_hash_comparable hash_agrees within_move_horizon str_eq str_ltb insert_sorted sort_by
    select any count_if contains trim_slash has_prefix
    index_core.Kernel.Completeness.significant_shrink
refusal_done = refl

left_plain : is_applied left.1.status ≡ false
unfolding find_root find_snapshot update_root update_snapshot find_admission allocate_admission
    head_seq set_status set_admission_status applied_max set_snapshot_lifecycle_state
    mark_snapshot_submitted set_snapshot_evaluated same_kind same_identity
    applied_exists_at_generation insert_applied_snapshot max_applied_generation insert_generation
    max_event_seq next_event_seq next_intra_generation_seq append_journal_event insert_result max_of
    min_of check_history receipt_of terminal_snapshot_receipt consumed_stale_head latest_observation
    enrich load_prior_resources entry_before list_snapshot_entries observation_row
    significant_shrink is_anchor scope_signature is_intervening no_intervening_growth serves
    derive_qualified_corroboration record_result finish reject stale_input commit_noop
    advance_generation append_events append_plan apply_plan produce_generation write_plan
    commit_applied pipeline_evidence evaluate_head decide settle conclude conclude_covered
    conclude_fenced reconcile_admitted reconcile_bound resolve_head reconcile_head_safe update_row
    resolve_parent_id added_row apply_transition apply_transitions event_type_for plan_events
    to_digest_entry signature_line concat_lines raw_scope_signature skipped_canonical
    normalize_freshness normalize_assurance completeness_evidence evaluate_snapshot cmp_str
    cmp_opt_int cmp_bool less_entry put_uint64 write_tag write_bool uint64_of write_opt_int
    entry_bytes entries_bytes evidence_bytes digest_input final_digest directory_digest freshness_of
    assurance_of is_corroborated ratio evaluate_positive evaluate first_fit
    derive_shrink_corroboration join digits itoa see see_entries context_line context_lines
    removal_decision_context path_changed parent_changed attrs_changed has_any_evidence
    reset_evidence change_path change_attributes leave_unchanged change apply_matched add_resource
    add_conflict take_resolution take_entries miss take_missing observe_entries reconcile
    build_prior_index index_observation provider_match provider_stage hash_match hash_candidates
    hash_same_path hash_stage moved_candidates moved_match size_stage resolve entry_path
    entry_hash_comparable hash_agrees within_move_horizon str_eq str_ltb insert_sorted sort_by
    select any count_if contains trim_slash has_prefix
    index_core.Kernel.Completeness.significant_shrink
left_plain = refl

reconcile_head_safe-SameCanonical_example : SameCanonical orphaned left.0
reconcile_head_safe-SameCanonical_example =
    reconcile_head_safe-SameCanonical host head_input policy 900 orphaned
      (done-value (store, unchanged_outcome AdmissionStatus.pending 0) refusal refusal_done)
      left_plain

abbrev root_coverage : DirectoryCoverage
root_coverage = record {
  version = pos 2;
  path = codes "/";
  generation = 0;
  adapter_digest = [];
  entry_count = 1;
  topology_digest = [];
}

abbrev partial_result : Pipeline.Result
partial_result = record {
  acceptance = AcceptanceState.partial;
  corroboration = ScopeShrinkCorroboration.shrink_none;
  identity = record {
    kind = SnapshotIdentityKind.deterministic_digest;
    namespace = [];
    version = [];
    value = [];
  };
}

decide-Licensed_example :
    All
      (λ t.
        is_removal_step t.kind ≡ true
        → Licensed host
            (waiting (codes "s3"))
            library
            listing
            partial_result
            policy
            900
            (some root_coverage)
            t)
      (decide host
        (waiting (codes "s3"))
        library
        listing
        (some root_coverage)
        partial_result
        policy
        900).transitions
decide-Licensed_example =
    decide-Licensed host (waiting (codes "s3")) library listing partial_result policy 900
      (some root_coverage)
