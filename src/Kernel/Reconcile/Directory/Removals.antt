-- ===== src/Kernel/Reconcile/Directory/Removals.antt =====
-- What a directory listing removes, and what it leaves alone.
use mathlib.Core.List.{Memᴰ, append_assoc, append-nil}
use index_core.Base.{
  Str, str_eq_iff, contains, has_prefix, path_dir, any, ℕ, ◌≡◌, ◌↔◌, ap, ◌∙◌, refl, sym, subst, ◌⊎◌,
  inl, inr, Bool, true, false, Option, some, List, [], ◌∷◌, ◌++◌, map, select, All, All-append,
  All-map, Bool-cases, arith,
}
use index_core.Domain.Enums.{AcceptanceState, is_present}
use index_core.Domain.Entities.{SnapshotEntry}
use index_core.Kernel.Reconcile.Types.{Config, PriorResource, deref_str, Transition, Result}
use index_core.Kernel.Reconcile.Paths.{entry_path}
use index_core.Kernel.Reconcile.Run.{reconcile}
use index_core.Kernel.Reconcile.Run.Removals.{is_removal_step, reconcile-no_removal}
use index_core.Kernel.Reconcile.Resolve.Stages.{mem-select}
use index_core.Kernel.Reconcile.Directory.{
  is_unlisted, is_absent_dir, is_under, absent_dirs, is_absent, mirror_transition, remove_resource,
  remove_absent, observed_ids, reconcile_directory,
}

remove_absent-transitions :
    (scope : Str) (paths observed dirs : List Str) (now : ℕ) (snapshot_id : Str)
    (ps : List PriorResource) (res : Result)
    → (remove_absent scope paths observed dirs now snapshot_id ps res).transitions
      ≡ res.transitions
        ++ map (mirror_transition now snapshot_id) (select (is_absent scope paths observed dirs) ps)
unfolding remove_absent select
remove_absent-transitions scope paths observed dirs now snapshot_id [] res =
    sym (append-nil res.transitions)
remove_absent-transitions scope paths observed dirs now snapshot_id (p ∷ ps) res =
    let rest =
      map (mirror_transition now snapshot_id) (select (is_absent scope paths observed dirs) ps) in
    ground (
      arith,
      remove_absent-transitions scope paths observed dirs now snapshot_id ps res,
      remove_absent-transitions scope paths observed dirs now snapshot_id ps
          (remove_resource now snapshot_id p res),
      append_assoc res.transitions (mirror_transition now snapshot_id p ∷ []) rest,
    )

-- A known resource at this path: PRESENT, a direct child of the scope, at no entry's path, and not
-- observed under another path.
pub record IsGone (prior : List PriorResource) (scope : Str) (paths observed : List Str)
    (p : PriorResource) (at : Str) : Type 0 where
  pub known : Memᴰ p prior
  pub live : is_present p.resource_presence ≡ true
  pub here : p.canonical_path ≡ some at
  pub child : path_dir at ≡ scope
  pub unlisted : contains paths at ≡ false
  pub unseen : contains observed p.resource_id ≡ false

-- Why a resource may be removed: it is gone itself, or it is under a directory that is.
pub record IsRemovable (prior : List PriorResource) (scope : Str) (paths observed : List Str)
    (p : PriorResource) : Type 0 where
  pub known : Memᴰ p prior
  pub live : is_present p.resource_presence ≡ true
  pub unseen : contains observed p.resource_id ≡ false
  pub because :
      ((at : Str) × IsGone prior scope paths observed p at)
      ⊎ ((d : PriorResource) × (at : Str) × (own : Str) × IsGone prior scope paths observed d at
          × (d.is_dir ≡ some true)
          × (p.canonical_path ≡ some own)
          × (has_prefix own (at ++ b'/' ∷ []) ≡ true))

any-mem {ℓ} :
    {A : Type ℓ} (q : A → Bool) (ds : List A) → any q ds ≡ true → (d : A) × Memᴰ d ds × (q d ≡ true)
unfolding any
any-mem q [] h = ground (arith, h)
any-mem q (d ∷ ds) h = elim (Bool-cases (q d)) [
  | inl hit ↦ (d, Memᴰ.head refl, hit)
  | inr miss ↦ let (c, m, ok) = any-mem q ds (ground (arith, h, miss)) in (c, Memᴰ.tail m, ok)
]

mem-map {ℓ κ} :
    {A : Type ℓ} {B : Type κ} (f : A → B) (xs : List A) {b : B}
    → Memᴰ b (map f xs)
    → (a : A) × Memᴰ a xs × (f a ≡ b)
mem-map f [] m = elim m [ ]
mem-map f (x ∷ xs) (Memᴰ.head q) = (x, Memᴰ.head refl, sym q)
mem-map f (x ∷ xs) (Memᴰ.tail m) = let (a, k, q) = mem-map f xs m in (a, Memᴰ.tail k, q)

module _ (prior : List PriorResource) (scope : Str) (paths observed : List Str) where
  is_absent_dir-IsGone :
      (d : PriorResource)
      → Memᴰ d prior
      → is_absent_dir scope paths observed d ≡ true
      → IsGone prior scope paths observed d (deref_str d.canonical_path) × (d.is_dir ≡ some true)
  unfolding is_absent_dir is_unlisted
  is_absent_dir-IsGone d m h = (
    record {
      known = m;
      live = ground (arith, h);
      here = ground (arith, h);
      child = ground (arith, h, str_eq_iff (path_dir (deref_str d.canonical_path)) scope);
      unlisted = ground (arith, h);
      unseen = ground (arith, h);
    },
    ground (arith, h),
  )

  under_absent-IsGone :
      (o : Option Str)
      → any (is_under o) (absent_dirs scope paths observed prior) ≡ true
      → (d : PriorResource) × (at : Str) × IsGone prior scope paths observed d at
        × (d.is_dir ≡ some true)
        × (is_under o at ≡ true)
  unfolding absent_dirs
  under_absent-IsGone o h =
      let (at, listed, under) = any-mem (is_under o) (absent_dirs scope paths observed prior) h in
      let (d, chosen, q) =
        mem-map (λ (x : PriorResource). deref_str x.canonical_path)
          (select (is_absent_dir scope paths observed) prior) listed in
      let (m, ok) = mem-select (is_absent_dir scope paths observed) prior chosen in
      let (gone, dir) = is_absent_dir-IsGone d m ok in
      (d, at, subst (IsGone prior scope paths observed d) q gone, dir, under)

  is_absent-IsRemovable :
      (p : PriorResource)
      → Memᴰ p prior
      → is_absent scope paths observed (absent_dirs scope paths observed prior) p ≡ true
      → IsRemovable prior scope paths observed p
  unfolding is_absent is_unlisted
  is_absent-IsRemovable p m h = record {
    known = m;
    live = ground (arith, h);
    unseen = ground (arith, h);
    because = elim (Bool-cases (is_unlisted scope paths p.canonical_path)) [
      | inl gone ↦ inl (
        deref_str p.canonical_path,
        record {
          known = m;
          live = ground (arith, h);
          here = ground (arith, gone);
          child = ground (arith, gone, str_eq_iff (path_dir (deref_str p.canonical_path)) scope);
          unlisted = ground (arith, gone);
          unseen = ground (arith, h);
        },
      )
      | inr listed ↦
          let (d, at, gone, dir, under) =
            under_absent-IsGone p.canonical_path (ground (arith, h, listed)) in
          inr (
            d,
            at,
            deref_str p.canonical_path,
            gone,
            dir,
            ground (arith, under),
            ground (arith, under),
          )
    ];
  }

  mem-any {ℓ} :
      {A : Type ℓ} (q : A → Bool) (ds : List A) {d : A} → Memᴰ d ds → q d ≡ true → any q ds ≡ true
  unfolding any
  mem-any q [] m h = elim m [ ]
  mem-any q (x ∷ ds) (Memᴰ.head e) h = ground (arith, ap q e, h)
  mem-any q (x ∷ ds) (Memᴰ.tail m) h = ground (arith, mem-any q ds m h)

  select-mem {ℓ} :
      {A : Type ℓ} (q : A → Bool) (ds : List A) {d : A}
      → Memᴰ d ds
      → q d ≡ true
      → Memᴰ d (select q ds)
  unfolding select
  select-mem q [] m h = elim m [ ]
  select-mem q (x ∷ ds) (Memᴰ.head e) h = rw (sym (ap q e) ∙ h) (Memᴰ.head e)
  select-mem q (x ∷ ds) (Memᴰ.tail m) h = elim (Bool-cases (q x)) [
    | inl kept ↦ rw kept (Memᴰ.tail (select-mem q ds m h))
    | inr dropped ↦ rw dropped (select-mem q ds m h)
  ]

  map-mem {ℓ κ} :
      {A : Type ℓ} {B : Type κ} (f : A → B) (xs : List A) {a : A}
      → Memᴰ a xs
      → Memᴰ (f a) (map f xs)
  map-mem f [] m = elim m [ ]
  map-mem f (x ∷ xs) (Memᴰ.head e) = Memᴰ.head (ap f e)
  map-mem f (x ∷ xs) (Memᴰ.tail m) = Memᴰ.tail (map-mem f xs m)

  gone-is_unlisted :
      (p : PriorResource) (at : Str)
      → IsGone prior scope paths observed p at
      → is_unlisted scope paths p.canonical_path ≡ true
  unfolding is_unlisted
  gone-is_unlisted p at g =
      rw g.here (ground (arith, str_eq_iff (path_dir at) scope, g.child, g.unlisted))

  gone-is_absent_dir :
      (d : PriorResource) (at : Str)
      → IsGone prior scope paths observed d at
      → d.is_dir ≡ some true
      → is_absent_dir scope paths observed d ≡ true
  unfolding is_absent_dir
  gone-is_absent_dir d at g dir = ground (arith, gone-is_unlisted d at g, g.live, g.unseen, dir)

  under-absent :
      (p d : PriorResource) (at own : Str)
      → IsGone prior scope paths observed d at
      → d.is_dir ≡ some true
      → p.canonical_path ≡ some own
      → has_prefix own (at ++ b'/' ∷ []) ≡ true
      → any (is_under p.canonical_path) (absent_dirs scope paths observed prior) ≡ true
  unfolding absent_dirs
  under-absent p d at own g dir here under =
      let chosen =
        select-mem (is_absent_dir scope paths observed) prior g.known
          (gone-is_absent_dir d at g dir) in
      let listed = map-mem (λ (x : PriorResource). deref_str x.canonical_path) _ chosen in
      let known : deref_str d.canonical_path ≡ at = ap deref_str g.here in
      mem-any (is_under p.canonical_path) _ listed
        (ap (is_under p.canonical_path) known ∙ ap (λ o. is_under o at) here ∙ under)

  IsRemovable-is_absent :
      (p : PriorResource)
      → IsRemovable prior scope paths observed p
      → is_absent scope paths observed (absent_dirs scope paths observed prior) p ≡ true
  unfolding is_absent
  IsRemovable-is_absent p r = elim r.because [
    | inl (at, g) ↦ ground (arith, r.live, r.unseen, gone-is_unlisted p at g)
    | inr (d, at, own, g, dir, here, under) ↦
        ground (arith, r.live, r.unseen, under-absent p d at own g dir here under)
  ]

  abbrev Justified : Transition → Type 0
  Justified t =
      is_removal_step t.kind ≡ true
      → (p : PriorResource) × (t.resource_id ≡ p.resource_id)
        × IsRemovable prior scope paths observed p

  mirrored-Justified :
      (now : ℕ) (snapshot_id : Str) (ps : List PriorResource)
      → ((p : PriorResource) → Memᴰ p ps → IsRemovable prior scope paths observed p)
      → All Justified (map (mirror_transition now snapshot_id) ps)
  mirrored-Justified now snapshot_id [] h = tt
  mirrored-Justified now snapshot_id (p ∷ ps) h = (
    (λ _. (p, refl, h p (Memᴰ.head refl))),
    mirrored-Justified now snapshot_id ps (λ q m. h q (Memᴰ.tail m)),
  )

-- What the two loops emit, by the code's own guards.
directory-transitions :
    (prior : List PriorResource) (entries : List SnapshotEntry) (scope : Str) (cfg : Config)
    (now : ℕ) (snapshot_id : Str)
    → let res = reconcile prior entries AcceptanceState.partial cfg now snapshot_id in
      let paths = map entry_path entries in
      let dirs = absent_dirs scope paths (observed_ids res) prior in
      (reconcile_directory prior entries scope cfg now snapshot_id).transitions
      ≡ res.transitions
        ++ map
            (mirror_transition now snapshot_id)
            (select (is_absent scope paths (observed_ids res) dirs) prior)
unfolding reconcile_directory
directory-transitions prior entries scope cfg now snapshot_id =
    let res = reconcile prior entries AcceptanceState.partial cfg now snapshot_id in
    let paths = map entry_path entries in
    remove_absent-transitions scope paths (observed_ids res)
      (absent_dirs scope paths (observed_ids res) prior) now snapshot_id prior res

-- A directory listing removes nothing that it observed, and nothing outside its scope. Every removal
-- step is for a PRESENT resource, not observed by identity, that either was a direct child of the
-- scope at a path no entry has, or lies under a directory that was such a child and is gone.
pub reconcile_directory-IsRemovable :
    (prior : List PriorResource) (entries : List SnapshotEntry) (scope : Str) (cfg : Config)
    (now : ℕ) (snapshot_id : Str)
    → let res = reconcile prior entries AcceptanceState.partial cfg now snapshot_id in
      All
        (λ t.
          is_removal_step t.kind ≡ true
          → (p : PriorResource) × (t.resource_id ≡ p.resource_id)
            × IsRemovable prior scope (map entry_path entries) (observed_ids res) p)
        (reconcile_directory prior entries scope cfg now snapshot_id).transitions
reconcile_directory-IsRemovable prior entries scope cfg now snapshot_id =
    let res = reconcile prior entries AcceptanceState.partial cfg now snapshot_id in
    let paths = map entry_path entries in
    let observed = observed_ids res in
    let P = Justified prior scope paths observed in
    let absent = is_absent scope paths observed (absent_dirs scope paths observed prior) in
    subst (All P) (sym (directory-transitions prior entries scope cfg now snapshot_id)) (
      All-append P res.transitions _
        (All-map (λ t none_here removes. ground (arith, none_here, removes)) res.transitions
          (reconcile-no_removal prior entries AcceptanceState.partial cfg now snapshot_id refl))
        (mirrored-Justified prior scope paths observed now snapshot_id (select absent prior) (λ p m.
          let (k, ok) = mem-select absent prior m in
          is_absent-IsRemovable prior scope paths observed p k ok)))

-- A directory listing first emits what a PARTIAL snapshot of the same entries would, and then confirms
-- the removal of a list of known resources: exactly those that may be removed, in the order of the
-- inventory. A resource may be removed if it is PRESENT, not observed by identity, and either was a
-- direct child of the scope at a path no entry has, or lies under a directory that was such a child.
pub reconcile_directory-transitions :
    (prior : List PriorResource) (entries : List SnapshotEntry) (scope : Str) (cfg : Config)
    (now : ℕ) (snapshot_id : Str)
    → let res = reconcile prior entries AcceptanceState.partial cfg now snapshot_id in
      (goes : PriorResource → Bool) × ((reconcile_directory prior entries scope cfg now
          snapshot_id).transitions
        ≡ res.transitions ++ map (mirror_transition now snapshot_id) (select goes prior))
      × ((p : PriorResource)
          → Memᴰ p (select goes prior)
            ↔ IsRemovable prior scope (map entry_path entries) (observed_ids res) p)
reconcile_directory-transitions prior entries scope cfg now snapshot_id =
    let res = reconcile prior entries AcceptanceState.partial cfg now snapshot_id in
    let paths = map entry_path entries in
    let observed = observed_ids res in
    let absent = is_absent scope paths observed (absent_dirs scope paths observed prior) in
    (
      absent,
      directory-transitions prior entries scope cfg now snapshot_id,
      λ p. (
        λ m.
            let (k, ok) = mem-select absent prior m in
            is_absent-IsRemovable prior scope paths observed p k ok,
        λ r.
            select-mem prior scope paths observed absent prior r.known
              (IsRemovable-is_absent prior scope paths observed p r),
      ),
    )
