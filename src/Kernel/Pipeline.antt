-- ===== src/Kernel/Pipeline.antt =====
-- internal/kernel/pipeline: the verdict and the identity of one admitted snapshot.
use index_core.Base.{
  Str, codes, ℕ, ◌*◌, ◌^◌, ℤ, pos, sub_ℕ, Bool, false, ◌&&◌, not, Option, none, some, is_some, List,
  [], ◌∷◌, ◌++◌, map, length, is_empty, str_ltb, sort_by, if◌then◌else◌,
}
use index_core.Domain.Enums.{
  TraversalStatus, FreshnessEvidence, FailureVisibility, ScopeShrinkCorroboration, AcceptanceState,
  ProviderIdentityAssurance,
}
use index_core.Domain.Entities.{SnapshotEntry, SnapshotIdentity}
use index_core.Domain.Texts.{
  traversal_text, freshness_text, visibility_text, corroboration_text, assurance_text,
}
use index_core.Kernel.Completeness as Completeness
use index_core.Kernel.Completeness.{Float64, evaluate}
use index_core.Kernel.Identity.{Entry, final_digest}
use index_core.Kernel.Reconcile.Types.{Config, PriorResource, deref_str}
use index_core.Kernel.Reconcile.Context.{removal_decision_context}

pub record Result : Type 0 where
  pub acceptance : AcceptanceState
  pub identity : SnapshotIdentity
  pub corroboration : ScopeShrinkCorroboration

-- `Corroboration`, which is a constant here, is never the empty text.
pub record Evidence : Type 0 where
  pub traversal_status : TraversalStatus
  pub skipped_scopes : Option Str
  pub skipped_known_empty : Bool
  pub has_error_summary : Bool
  pub freshness : FreshnessEvidence
  pub assurance : FailureVisibility
  pub used_cache : Bool
  pub entry_count : ℤ
  pub prior_present : ℤ
  pub corroboration : ScopeShrinkCorroboration

-- `len(s) > 0` of a slice that may be nil.
abbrev pub is_full : Option Str → Bool
is_full none = false
is_full (some s) = not (is_empty s)

-- `Mtime.UnixNano()`: an instant is counted from the year 1.
abbrev pub unix_nano : ℕ → ℤ
unix_nano t = sub_ℕ t (62_135_596_800 * 10 ^ 9)

abbrev pub assurance_of : Option ProviderIdentityAssurance → Str
assurance_of none = []
assurance_of (some a) = assurance_text a

abbrev pub nano_of : Option ℕ → Option ℤ
nano_of none = none
nano_of (some t) = some (unix_nano t)

unfoldable pub to_digest_entry : SnapshotEntry → Entry
to_digest_entry e = record {
  parent_ref = e.parent_ref;
  name = e.name;
  is_dir = e.is_dir;
  size = e.size;
  mtime_unix_nano = nano_of e.mtime;
  content_hash = deref_str e.content_hash;
  hash_algorithm = deref_str e.hash_algorithm;
  content_type = deref_str e.content_type;
  provider_object_id = deref_str e.provider_object_id;
  provider_object_id_scope = deref_str e.provider_object_id_scope;
  provider_assurance = assurance_of e.provider_identity_assurance;
}

unfoldable pub signature_line : SnapshotEntry → Str
signature_line e =
    e.parent_ref ++ 0 ∷ e.name ++ 0 ∷ deref_str e.content_hash ++ 0 ∷ deref_str e.hash_algorithm

unfoldable pub concat_lines : List Str → Str
concat_lines [] = []
concat_lines (l ∷ ls) = l ++ codes "\n" ++ concat_lines ls

unfoldable pub raw_scope_signature : List SnapshotEntry → Str
raw_scope_signature entries = concat_lines (sort_by str_ltb (map signature_line entries))

unfoldable pub skipped_canonical : Evidence → Str
skipped_canonical ev =
    if ev.skipped_known_empty
    then codes "CONFIRMED_EMPTY"
    else if is_full ev.skipped_scopes
    then deref_str ev.skipped_scopes
    else codes "UNKNOWN"

abbrev pub error_canonical : Bool → Str
error_canonical has = if has then codes "PRESENT" else codes "NONE"

unfoldable pub normalize_freshness : FreshnessEvidence → FreshnessEvidence
normalize_freshness (FreshnessEvidence.other []) = FreshnessEvidence.unknown
normalize_freshness f = f

unfoldable pub normalize_assurance : FailureVisibility → FailureVisibility
normalize_assurance (FailureVisibility.other []) = FailureVisibility.unknown
normalize_assurance a = a

abbrev pub corroboration_pointer : ScopeShrinkCorroboration → Option ScopeShrinkCorroboration
corroboration_pointer ScopeShrinkCorroboration.shrink_none = none
corroboration_pointer c = some c

-- The evidence that `Evaluate` hands to the completeness gate.
unfoldable pub completeness_evidence : List SnapshotEntry → Evidence → Completeness.Evidence
completeness_evidence entries ev = record {
  traversal_status = ev.traversal_status;
  has_error_summary = ev.has_error_summary;
  has_skipped_scopes = is_full ev.skipped_scopes;
  skipped_known_empty = ev.skipped_known_empty;
  skipped_unknown = not (is_some ev.skipped_scopes) && not ev.skipped_known_empty;
  freshness = ev.freshness;
  assurance = ev.assurance;
  used_cache = ev.used_cache;
  entry_count = pos (length entries);
  prior_present = ev.prior_present;
  corroboration = corroboration_pointer ev.corroboration;
}

-- `Config{}` of the completeness gate has the ratio 0.
module _ (digest : Str → Str) (fl : Float64) where
  unfoldable pub evaluate_snapshot :
      List SnapshotEntry → List PriorResource → Evidence → Config → ℕ → Result
  evaluate_snapshot entries prior ev cfg now = record {
    acceptance = evaluate fl fl.zero_f (completeness_evidence entries ev);
    identity = final_digest digest (map to_digest_entry entries) (record {
      traversal_status = traversal_text ev.traversal_status;
      error_summary_canonical = error_canonical ev.has_error_summary;
      skipped_scopes_canonical = skipped_canonical ev;
      freshness = freshness_text (normalize_freshness ev.freshness);
      assurance = visibility_text (normalize_assurance ev.assurance);
      scope_shrink_corroboration = corroboration_text ev.corroboration;
      removal_decision_context = removal_decision_context prior entries cfg now;
    });
    corroboration = ev.corroboration;
  }
