-- ===== src/Store/Work/Unions.antt =====
-- What the union of two buckets holds.
use index_core.Base.{
  str_eq_refl, ◌≡◌, refl, true, false, ◌&&◌, ◌||◌, some, List, [], ◌∷◌, is_empty, any, arith,
}
use index_core.Incremental.Model.{TriggerSource, TriggerReason, Bucket}
use index_core.Incremental.Sets.{Tag, has, union, sources, reasons}
use index_core.Incremental.Sets.Membership.{union-has}
use index_core.Incremental.Sets.Totality.{Valid, union-Valid}
use index_core.Store.Work.{union_sets}

module _ {A : Type 0} (tag : Tag A) where
  pub has-not_empty : (xs : List A) (x : A) → has tag xs x ≡ true → is_empty xs ≡ false
  unfolding any
  has-not_empty [] x h = ground (arith, h)
  has-not_empty (y ∷ ys) x h = refl

  has_head : (x : A) (xs : List A) → has tag (x ∷ xs) x ≡ true
  unfolding any
  has_head x xs = ground (arith, str_eq_refl (tag.text x))

  union-not_empty :
      (xs ys zs : List A)
      → union tag xs ys ≡ some zs
      → (is_empty xs && is_empty ys) ≡ false
      → is_empty zs ≡ false
  union-not_empty (x ∷ xs) ys zs h k =
      has-not_empty zs x (ground (arith, union-has tag (x ∷ xs) ys zs x h, has_head x xs))
  union-not_empty [] (y ∷ ys) zs h k =
      has-not_empty zs y (ground (arith, union-has tag [] (y ∷ ys) zs y h, has_head y ys))
  union-not_empty [] [] zs h k = ground (arith, k)

pub record ValidBucket (b : Bucket) : Type 0 where
  pub valid_sources : Valid sources b.source_set
  pub valid_reasons : Valid reasons b.reason_set

-- The union of two valid buckets: what it holds.
pub record Joins (a b : Bucket) (srcs : List TriggerSource) (rs : List TriggerReason) : Type 0 where
  pub made : union_sets a b ≡ some (srcs, rs)
  pub valid_sources : Valid sources srcs
  pub valid_reasons : Valid reasons rs
  pub not_empty : (is_empty a.source_set && is_empty b.source_set) ≡ false → is_empty srcs ≡ false
  pub holds :
      (x : TriggerSource)
      → has sources srcs x ≡ (has sources a.source_set x || has sources b.source_set x)

pub union_sets-Joins :
    (a b : Bucket)
    → ValidBucket a
    → ValidBucket b
    → (srcs : List TriggerSource) × (rs : List TriggerReason) × Joins a b srcs rs
unfolding union_sets
union_sets-Joins a b va vb =
    let (srcs, e, vs, ascending_srcs, both_srcs) =
      union-Valid sources a.source_set b.source_set va.valid_sources vb.valid_sources in
    let (rs, f, vr, ascending_rs, both_rs) =
      union-Valid reasons a.reason_set b.reason_set va.valid_reasons vb.valid_reasons in
    (
      srcs,
      rs,
      record {
        made = ground (arith, e, f);
        valid_sources = vs;
        valid_reasons = vr;
        not_empty = union-not_empty sources a.source_set b.source_set srcs e;
        holds = both_srcs;
      },
    )
