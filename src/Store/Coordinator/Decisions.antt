-- ===== src/Store/Coordinator/Decisions.antt =====
-- What the coordinator's decision on a snapshot may remove, with and without directory coverage.
use index_core.Base.{
  ℕ, ◌≡◌, inl, inr, true, Option, none, some, List, All, All-map, [], ◌∷◌, Bool-cases, map, arith,
}
use index_core.Domain.Enums.{AcceptanceState, is_complete}
use index_core.Domain.Entities.{SnapshotEntry, DirectoryCoverage}
use index_core.Domain.Records.{Snapshot}
use index_core.Kernel.Pipeline as Pipeline
use index_core.Kernel.Reconcile.Types.{Config, PriorResource, Transition}
use index_core.Kernel.Reconcile.Paths.{entry_path}
use index_core.Kernel.Reconcile.Run.{reconcile}
use index_core.Kernel.Reconcile.Run.Removals.{is_removal_step, reconcile-no_removal}
use index_core.Kernel.Reconcile.Directory.{observed_ids}
use index_core.Kernel.Reconcile.Directory.Removals.{IsRemovable, reconcile_directory-IsRemovable}
use index_core.Store.Commit.{Env}
use index_core.Store.Coordinator.{decide, decision_time}

module _ (env : Env) (snap : Snapshot) (prior : List PriorResource) (entries : List SnapshotEntry)
    (eval : Pipeline.Result) (cfg : Config) (clock : ℕ) where
  -- What licenses a removal step.
  abbrev pub Licensed : Option DirectoryCoverage → Transition → Type 0
  Licensed none t = eval.acceptance ≡ AcceptanceState.complete
  Licensed (some coverage) t =
      (p : PriorResource) × (t.resource_id ≡ p.resource_id)
      × IsRemovable prior coverage.path (map entry_path entries)
          (observed_ids (
            reconcile prior entries AcceptanceState.partial cfg (decision_time snap clock)
              snap.snapshot_id))
          p

  -- The coordinator's decision has a removal step for a snapshot without directory coverage only under
  -- the verdict COMPLETE, and for one with coverage, whatever its verdict, only for a known PRESENT
  -- resource, not observed by identity, that was a direct child of the covered directory at a path no
  -- entry has, or lies under a directory that was such a child.
  pub decide-Licensed :
      (coverage : Option DirectoryCoverage)
      → All
          (λ t. is_removal_step t.kind ≡ true → Licensed coverage t)
          (decide env snap prior entries coverage eval cfg clock).transitions
  unfolding decide
  decide-Licensed none = elim (Bool-cases (is_complete eval.acceptance)) [
    | inl full ↦
        let verdict : eval.acceptance ≡ AcceptanceState.complete = ground (arith, full) in
        always (λ t removes. verdict) _
    | inr short ↦
        All-map (λ t none_here removes. ground (arith, none_here, removes)) _
          (reconcile-no_removal prior entries eval.acceptance cfg (decision_time snap clock)
            snap.snapshot_id short)
  ]
    where
      always :
          {P : Transition → Type 0} → ((t : Transition) → P t) → (ts : List Transition) → All P ts
      always h [] = tt
      always h (t ∷ ts) = (h t, always h ts)
  decide-Licensed (some coverage) =
      reconcile_directory-IsRemovable prior entries coverage.path cfg (decision_time snap clock)
        snap.snapshot_id
