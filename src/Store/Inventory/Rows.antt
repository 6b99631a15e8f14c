-- ===== src/Store/Inventory/Rows.antt =====
-- What applying a decision does to the rows as a whole: which there are, and which are removed.
use mathlib.Core.List.{append_assoc, append-nil, map-append}
use index_core.Base.{
  Str, ℕ, ◌≡◌, refl, sym, ap, ◌∙◌, Bool, false, Option, none, some, List, [], ◌∷◌, ◌++◌, map,
  count_if, count_if-snoc, All, arith,
}
use index_core.Domain.Enums.{is_removed, AcceptanceState, is_complete}
use index_core.Domain.Entities.{CanonicalResource, SnapshotEntry}
use index_core.Kernel.Reconcile.Types.{
  Config, PriorResource, Kind, add, update, rename, move, unchanged, reset_removal_evidence,
  missing_evidence, removal_candidate, confirm_removed, conflict, Transition,
}
use index_core.Kernel.Reconcile.Run.{reconcile}
use index_core.Kernel.Reconcile.Run.Removals.{is_removal_step, reconcile-no_removal}
use index_core.Store.Inventory.{
  update_row, added_row, apply_path, apply_attributes, apply_kind, apply_transition,
  apply_transitions,
}

abbrev pub row_ids : List CanonicalResource → List Str
row_ids rows = map (λ r. r.resource_id) rows

abbrev pub removed_count : List CanonicalResource → ℕ
removed_count rows = count_if (λ r. is_removed r.resource_presence) rows

update_row-ids :
    (id : Str) (f : CanonicalResource → CanonicalResource)
    → ((r : CanonicalResource) → (f r).resource_id ≡ r.resource_id)
    → (rows : List CanonicalResource) → row_ids (update_row id f rows) ≡ row_ids rows
unfolding update_row
update_row-ids id f same [] = refl
update_row-ids id f same (r ∷ rows) = ground (arith, same r, update_row-ids id f same rows)

update_row-removed :
    (id : Str) (f : CanonicalResource → CanonicalResource)
    → ((r : CanonicalResource) → (f r).resource_presence ≡ r.resource_presence)
    → (rows : List CanonicalResource)
    → count_if (λ r. is_removed r.resource_presence) (update_row id f rows)
      ≡ count_if (λ r. is_removed r.resource_presence) rows
unfolding update_row count_if
update_row-removed id f same [] = refl
update_row-removed id f same (r ∷ rows) = ground (arith, same r, update_row-removed id f same rows)

-- The rows that a decision adds.
abbrev pub added_ids : List Transition → List Str
added_ids [] = []
added_ids (t ∷ ts) = elim t.kind [ add ↦ t.resource_id ∷ added_ids ts | _ ↦ added_ids ts ]

module _ (root_id : Str) (generation clock : ℕ) where
  apply_path-ids :
      (o : Option PriorResource) (rows : List CanonicalResource) (t : Transition)
      → row_ids (apply_path o root_id rows generation clock t) ≡ row_ids rows
  unfolding apply_path
  apply_path-ids none rows t = refl
  apply_path-ids (some p) rows t = update_row-ids t.resource_id _ (λ r. refl) rows

  apply_path-removed :
      (o : Option PriorResource) (rows : List CanonicalResource) (t : Transition)
      → removed_count (apply_path o root_id rows generation clock t) ≡ removed_count rows
  unfolding apply_path
  apply_path-removed none rows t = refl
  apply_path-removed (some p) rows t = update_row-removed t.resource_id _ (λ r. refl) rows

module _ (generation clock : ℕ) where
  apply_attributes-ids :
      (o : Option PriorResource) (e : Option SnapshotEntry) (rows : List CanonicalResource)
      → row_ids (apply_attributes o e rows generation clock) ≡ row_ids rows
  unfolding apply_attributes
  apply_attributes-ids none e rows = refl
  apply_attributes-ids (some p) none rows = refl
  apply_attributes-ids (some p) (some e) rows = update_row-ids p.resource_id _ (λ r. refl) rows

  apply_attributes-removed :
      (o : Option PriorResource) (e : Option SnapshotEntry) (rows : List CanonicalResource)
      → removed_count (apply_attributes o e rows generation clock) ≡ removed_count rows
  unfolding apply_attributes
  apply_attributes-removed none e rows = refl
  apply_attributes-removed (some p) none rows = refl
  apply_attributes-removed (some p) (some e) rows =
      update_row-removed p.resource_id _ (λ r. refl) rows

abbrev added_by : Kind → Transition → List Str
added_by add t = t.resource_id ∷ []
added_by _ t = []

module _ (root_id : Str) (generation clock : ℕ) where
  added_row-fresh :
      (rows : List CanonicalResource) (t : Transition)
      → let r = added_row rows root_id generation clock t in
        (r.resource_id ≡ t.resource_id) × (is_removed r.resource_presence ≡ false)
  unfolding added_row
  added_row-fresh rows t = ground arith

  apply_kind-ids :
      (k : Kind) (t : Transition) (rows : List CanonicalResource)
      → row_ids (apply_kind k root_id generation clock t rows) ≡ row_ids rows ++ added_by k t
  unfolding apply_kind
  apply_kind-ids add t rows =
      map-append (λ r. r.resource_id) rows (added_row rows root_id generation clock t ∷ [])
      ∙ ap (λ i. row_ids rows ++ i ∷ []) (added_row-fresh rows t).0
  apply_kind-ids update t rows =
      apply_attributes-ids generation clock t.prior t.entry rows ∙ sym (append-nil (row_ids rows))
  apply_kind-ids rename t rows =
      apply_path-ids root_id generation clock t.prior rows t ∙ sym (append-nil (row_ids rows))
  apply_kind-ids move t rows =
      apply_path-ids root_id generation clock t.prior rows t ∙ sym (append-nil (row_ids rows))
  apply_kind-ids reset_removal_evidence t rows =
      update_row-ids t.resource_id _ (λ r. refl) rows ∙ sym (append-nil (row_ids rows))
  apply_kind-ids missing_evidence t rows =
      update_row-ids t.resource_id _ (λ r. refl) rows ∙ sym (append-nil (row_ids rows))
  apply_kind-ids removal_candidate t rows =
      update_row-ids t.resource_id _ (λ r. refl) rows ∙ sym (append-nil (row_ids rows))
  apply_kind-ids confirm_removed t rows =
      update_row-ids t.resource_id _ (λ r. refl) (update_row t.resource_id _ rows)
      ∙ update_row-ids t.resource_id _ (λ r. refl) rows
      ∙ sym (append-nil (row_ids rows))
  apply_kind-ids unchanged t rows = sym (append-nil (row_ids rows))
  apply_kind-ids conflict t rows = sym (append-nil (row_ids rows))

  apply_kind-removed :
      (k : Kind) (t : Transition) (rows : List CanonicalResource)
      → is_removal_step k ≡ false
      → removed_count (apply_kind k root_id generation clock t rows) ≡ removed_count rows
  unfolding apply_kind
  apply_kind-removed add t rows h =
      let row = added_row rows root_id generation clock t in
      let p : CanonicalResource → Bool = λ r. is_removed r.resource_presence in
      ground (arith, count_if-snoc p rows row, (added_row-fresh rows t).1)
  apply_kind-removed update t rows h =
      apply_attributes-removed generation clock t.prior t.entry rows
  apply_kind-removed rename t rows h = apply_path-removed root_id generation clock t.prior rows t
  apply_kind-removed move t rows h = apply_path-removed root_id generation clock t.prior rows t
  apply_kind-removed reset_removal_evidence t rows h =
      update_row-removed t.resource_id _ (λ r. refl) rows
  apply_kind-removed missing_evidence t rows h = ground (arith, h)
  apply_kind-removed removal_candidate t rows h = ground (arith, h)
  apply_kind-removed confirm_removed t rows h = ground (arith, h)
  apply_kind-removed unchanged t rows h = refl
  apply_kind-removed conflict t rows h = refl

  -- Applying a decision deletes no row and changes no row's id: afterwards the table has the rows it
  -- had, in their order, and then one row for each ADD.
  pub apply_transitions-ids :
      (ts : List Transition) (rows : List CanonicalResource)
      → row_ids (apply_transitions root_id generation clock rows ts) ≡ row_ids rows ++ added_ids ts
  unfolding apply_transitions apply_transition
  apply_transitions-ids [] rows = sym (append-nil (row_ids rows))
  apply_transitions-ids (t ∷ ts) rows =
      apply_transitions-ids ts (apply_kind t.kind root_id generation clock t rows)
      ∙ ap (λ ids. ids ++ added_ids ts) (apply_kind-ids t.kind t rows)
      ∙ append_assoc (row_ids rows) (added_by t.kind t) (added_ids ts)
      ∙ ap (λ ids. row_ids rows ++ ids) (head t.kind)
    where
      head :
          (k : Kind)
          → added_by k t ++ added_ids ts
            ≡ elim k [ add ↦ t.resource_id ∷ added_ids ts | _ ↦ added_ids ts ]
      head k = ground arith

  apply_transitions-removed :
      (ts : List Transition) (rows : List CanonicalResource)
      → All (λ t. is_removal_step t.kind ≡ false) ts
      → removed_count (apply_transitions root_id generation clock rows ts) ≡ removed_count rows
  unfolding apply_transitions apply_transition
  apply_transitions-removed [] rows h = refl
  apply_transitions-removed (t ∷ ts) rows h =
      apply_transitions-removed ts (apply_kind t.kind root_id generation clock t rows) h.1
      ∙ apply_kind-removed t.kind t rows h.0

  -- What `Reconcile` decides under a verdict other than COMPLETE leaves, once it has been applied, as
  -- many REMOVED rows in the inventory as there were.
  pub apply_reconcile-removed :
      (prior : List PriorResource) (entries : List SnapshotEntry) (acceptance : AcceptanceState)
      (cfg : Config) (now : ℕ) (snapshot_id : Str) (rows : List CanonicalResource)
      → is_complete acceptance ≡ false
      → removed_count (
          apply_transitions root_id generation clock rows
            (reconcile prior entries acceptance cfg now snapshot_id).transitions)
        ≡ removed_count rows
  apply_reconcile-removed prior entries acceptance cfg now snapshot_id rows h =
      apply_transitions-removed (reconcile prior entries acceptance cfg now snapshot_id).transitions
        rows (reconcile-no_removal prior entries acceptance cfg now snapshot_id h)
