-- ===== src/Store/Coverage/Children.antt =====
-- What coverage that is accepted says of the snapshot's entries.
use index_core.Base.{
  codes, ◌≢◌, not, is_empty, is_dot, is_dot_dot, any, Str, ℕ, ◌+◌, ◌≡◌, refl, Bool, true, false,
  ◌||◌, none, some, if◌then◌else◌, List, [], ◌∷◌, length, All, Bool-cases, inl, inr, arith, str_eq,
  str_eq_iff, contains, count_if, ◌≤◌, Option,
}
use mathlib.Core.Path.{subst}
use index_core.Domain.Entities.{SnapshotEntry, DirectoryCoverage}
use index_core.Domain.Records.{Snapshot}
use index_core.Store.Tables.{
  Database, Tx, done, aborted, ◌>>=◌, require, scan, invalid_coverage, query_failed,
}
use index_core.Store.Coverage.{
  CoverageEnv, contains_any, is_child, are_children, check_adapter, check_coverage,
  check_generation, directory_coverage, Claimed, opaque, malformed, coverage, is_well_formed,
  AdapterConfig, is_fresh_read,
}

-- A child of the directory, under a name that is one component of a path.
pub record IsChild (dir : Str) (e : SnapshotEntry) : Type 0 where
  pub parent : e.parent_ref ≡ dir
  pub named : e.name ≢ []
  pub not_itself : e.name ≢ codes "."
  pub not_parent : e.name ≢ codes ".."
  pub clean : All (λ c. (c ≢ b'/') × (c ≢ b'\\') × (c ≢ 0)) e.name

contains_any-clean :
    (s : Str)
    → contains_any (b'/' ∷ 92 ∷ 0 ∷ []) s ≡ false
    → All (λ c. (c ≢ b'/') × (c ≢ b'\\') × (c ≢ 0)) s
unfolding contains_any any
contains_any-clean [] h = tt
contains_any-clean (c ∷ s) h = (
  (λ q. ground (arith, h, q), λ q. ground (arith, h, q), λ q. ground (arith, h, q)),
  contains_any-clean s (ground (arith, h)),
)

plain_name : Str → Bool
plain_name s = not (is_empty s || is_dot s || is_dot_dot s)

module _ (s : Str) (h : plain_name s ≡ true) where
  plain_name-named : s ≢ []
  unfolding plain_name
  plain_name-named q = ground (arith, subst (λ t. plain_name t ≡ true) q h)

  plain_name-not_itself : s ≢ codes "."
  unfolding plain_name
  plain_name-not_itself q = ground (arith, subst (λ t. plain_name t ≡ true) q h)

  plain_name-not_parent : s ≢ codes ".."
  unfolding plain_name
  plain_name-not_parent q = ground (arith, subst (λ t. plain_name t ≡ true) q h)

is_child-IsChild : (dir : Str) (e : SnapshotEntry) → is_child dir e ≡ true → IsChild dir e
unfolding is_child plain_name
is_child-IsChild dir e h =
    let plain : plain_name e.name ≡ true = ground (arith, h) in
    record {
      parent = ground (arith, h, str_eq_iff e.parent_ref dir);
      named = plain_name-named e.name plain;
      not_itself = plain_name-not_itself e.name plain;
      not_parent = plain_name-not_parent e.name plain;
      clean = contains_any-clean e.name (ground (arith, h));
    }

are_children-IsChild :
    (dir : Str) (seen : List Str) (es : List SnapshotEntry)
    → are_children dir seen es ≡ true
    → All (IsChild dir) es
unfolding are_children
are_children-IsChild dir seen [] h = tt
are_children-IsChild dir seen (e ∷ es) h = (
  is_child-IsChild dir e (ground (arith, h)),
  are_children-IsChild dir (e.name ∷ seen) es (ground (arith, h)),
)

contains-cons :
    (m : Str) (seen : List Str) (n : Str) → contains (m ∷ seen) n ≡ (str_eq m n || contains seen n)
unfolding contains
contains-cons m seen n = refl

-- The name of an accepted entry was not seen before.
fresh-at :
    (dir : Str) (seen : List Str) (e : SnapshotEntry) (es : List SnapshotEntry) (n : Str)
    → str_eq e.name n ≡ true
    → are_children dir seen (e ∷ es) ≡ true
    → contains seen n ≡ false
unfolding are_children
fresh-at dir seen e es n same h =
    subst (λ m. contains seen m ≡ false) ((str_eq_iff e.name n).0 same) (ground (arith, h))

are_children-once :
    (dir : Str) (seen : List Str) (es : List SnapshotEntry) (n : Str)
    → are_children dir seen es ≡ true
    → count_if (λ e. str_eq e.name n) es + (if contains seen n then 1 else 0) ≤ 1
unfolding are_children count_if
are_children-once dir seen [] n h = ground arith
are_children-once dir seen (e ∷ es) n h =
    let rest = are_children-once dir (e.name ∷ seen) es n (ground (arith, h)) in
    elim (Bool-cases (str_eq e.name n)) [
      | inl same ↦
          ground (arith, same, rest, contains-cons e.name seen n, fresh-at dir seen e es n same h)
      | inr other ↦ ground (arith, other, rest, contains-cons e.name seen n)
    ]

-- What accepted coverage says of the entries.
pub record Covers (p : DirectoryCoverage) (entries : List SnapshotEntry) : Type 0 where
  counted : p.entry_count ≡ length entries
  children : All (IsChild p.path) entries
  once : (n : Str) → count_if (λ e. str_eq e.name n) entries ≤ 1

-- A chain of checks that succeeds has passed each.
passes :
    (first : Tx (Unit {0})) (b c : Bool) (row : Option AdapterConfig)
    (last : AdapterConfig → Tx (Option DirectoryCoverage)) (p : DirectoryCoverage)
    → first >>= (λ _.
      require b invalid_coverage
      >>= (λ _. require c invalid_coverage >>= (λ _. scan query_failed row >>= last)))
      ≡ done (some p)
    → (b ≡ true) × (a : AdapterConfig) × (last a ≡ done (some p))
passes (done u) true true (some a) last p h = (refl, a, h)
passes (aborted e) b c row last p h = ground (arith, h)
passes (done u) false c row last p h = ground (arith, h)
passes (done u) true false row last p h = ground (arith, h)
passes (done u) true true none last p h = ground (arith, h)

module _ (env : CoverageEnv) where
  check_adapter-Covers :
      (p q : DirectoryCoverage) (entries : List SnapshotEntry) (a : AdapterConfig)
      → check_adapter env q entries a ≡ done (some p)
      → (q ≡ p) × (are_children q.path [] entries ≡ true)
  unfolding check_adapter
  check_adapter-Covers p q entries a h = ground (arith, h)

  check_coverage-passes :
      (snap : Snapshot) (entries : List SnapshotEntry) (generation : ℕ) (q p : DirectoryCoverage)
      (db : Database)
      → check_coverage env snap entries generation q db ≡ done (some p)
      → (is_well_formed env q (length entries) ≡ true)
        × (a : AdapterConfig) × (check_adapter env q entries a ≡ done (some p))
  unfolding check_coverage
  check_coverage-passes snap entries generation q p db h =
      passes (check_generation env snap q generation db) (is_well_formed env q (length entries))
        (is_fresh_read env snap q) (env.adapter snap.root_id) (check_adapter env q entries) p h

  check_coverage-Covers :
      (snap : Snapshot) (entries : List SnapshotEntry) (generation : ℕ) (q p : DirectoryCoverage)
      (db : Database)
      → check_coverage env snap entries generation q db ≡ done (some p)
      → Covers p entries
  unfolding is_well_formed
  check_coverage-Covers snap entries generation q p db h =
      let (shaped, a, rest) = check_coverage-passes snap entries generation q p db h in
      let (same, listed) = check_adapter-Covers p q entries a rest in
      subst (λ r. Covers r entries) same
        (record {
          counted = ground (arith, shaped);
          children = are_children-IsChild q.path [] entries listed;
          once = λ n. ground (arith, are_children-once q.path [] entries n listed);
        })

  claimed-Covers :
      (snap : Snapshot) (entries : List SnapshotEntry) (generation : ℕ) (p : DirectoryCoverage)
      (db : Database) (c : Claimed)
      → (elim c as (λ x. Tx (Option DirectoryCoverage)) [
        | opaque ↦ done none
        | malformed ↦ aborted invalid_coverage
        | coverage q ↦ check_coverage env snap entries generation q db
      ])
        ≡ done (some p)
      → Covers p entries
  claimed-Covers snap entries generation p db opaque h = ground (arith, h)
  claimed-Covers snap entries generation p db malformed h = ground (arith, h)
  claimed-Covers snap entries generation p db (coverage q) h =
      check_coverage-Covers snap entries generation q p db h

  -- Coverage that is accepted counts the entries of the snapshot. Each has the covered directory as its
  -- parent, under a name that is not empty, not "." or "..", and holds no slash, backslash or NUL; and no
  -- two have the same name.
  pub directory_coverage-Covers :
      (db : Database) (snap : Snapshot) (entries : List SnapshotEntry) (generation : ℕ)
      (p : DirectoryCoverage)
      → directory_coverage env db snap entries generation ≡ done (some p)
      → Covers p entries
  unfolding directory_coverage
  directory_coverage-Covers db snap entries generation p h =
      claimed-Covers snap entries generation p db (env.unmarshal snap.provenance) h
