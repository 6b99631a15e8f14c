-- ===== src/Kernel/Reconcile/Context.antt =====
-- `RemovalDecisionContext` of internal/kernel/reconcile/context.go: the removal evidence that the
-- decision on a snapshot reads, as a text.
use index_core.Base.{
  Str, codes, str_eq, ℕ, zero, suc, ◌+◌, ◌/◌, ◌%◌, ◌==◌, ℤ, pos, negsuc, ltb_ℤ, Bool, ◌||◌, not,
  is_some, List, [], ◌∷◌, ◌++◌, contains, str_ltb, sort_by, if◌then◌else◌,
}
use index_core.Domain.Enums.{is_present}
use index_core.Domain.Entities.{SnapshotEntry}
use index_core.Domain.Texts.{removal_text}
use index_core.Kernel.Reconcile.Types.{Config, PriorResource, has_missing_evidence, deref_str}
use index_core.Kernel.Reconcile.Index.{PriorIndex, build_prior_index, index_observation}
use index_core.Kernel.Reconcile.Resolve.{IdentityResolution, matched, resolve}

-- `strings.Join(parts, sep)`.
unfoldable pub join : Str → List Str → Str
join sep [] = []
join sep (s ∷ []) = s
join sep (s ∷ t ∷ r) = s ++ sep ++ join sep (t ∷ r)

-- The decimal digits, in the twenty bytes of the buffer, which every int fits.
unfoldable pub digits : ℕ → ℕ → Str → Str
digits zero n acc = acc
digits (suc left) n acc =
    let more = digits left (n / 10) ((b'0' + n % 10) ∷ acc) in if n == 0 then acc else more

unfoldable pub itoa : ℤ → Str
itoa (pos n) = if n == 0 then codes "0" else digits 20 n []
itoa (negsuc n) = b'-' ∷ digits 20 (n + 1) []

-- The two maps `observed` and `reset`.
pub record Seen : Type 0 where
  pub observed : List Str
  pub reset : List Str

abbrev pub reappears : PriorResource → Bool
reappears p =
    has_missing_evidence p
    || is_some p.missing_since
    || ltb_ℤ (pos 0) p.consecutive_complete_missing

unfoldable pub see : Seen → IdentityResolution → Seen
see s (matched p reason) = record {
  observed = p.resource_id ∷ s.observed;
  reset = if reappears p then p.resource_id ∷ s.reset else s.reset;
}
see s _ = s

unfoldable pub see_entries : PriorIndex → Config → ℕ → Seen → List SnapshotEntry → Seen
see_entries ix cfg now s [] = s
see_entries ix cfg now s (e ∷ es) = see_entries ix cfg now (see s (resolve ix e cfg now)) es

abbrev pub first_flag : PriorResource → Str
first_flag p = if str_eq (deref_str p.missing_first_snapshot_id) [] then codes "0" else codes "1"

unfoldable pub context_line : Str → PriorResource → Str
context_line tag p = join (codes "|") (
    tag
    ∷ (codes "rid=" ++ p.resource_id)
    ∷ (codes "state=" ++ removal_text p.removal_evidence_state)
    ∷ (codes "consec=" ++ itoa p.consecutive_complete_missing)
    ∷ (codes "first=" ++ first_flag p)
    ∷ [])

unfoldable pub context_lines : Seen → List PriorResource → List Str
context_lines s [] = []
context_lines s (p ∷ ps) =
    let rest = context_lines s ps in
    if not (is_present p.resource_presence)
    then rest
    else if contains s.reset p.resource_id
    then context_line (codes "reappears_reset") p ∷ rest
    else if contains s.observed p.resource_id
    then rest
    else context_line (codes "absent") p ∷ rest

unfoldable pub removal_decision_context : List PriorResource → List SnapshotEntry → Config → ℕ → Str
removal_decision_context prior entries cfg now =
    let ix = index_observation (build_prior_index prior) entries in
    let seen = see_entries ix cfg now (record { observed = []; reset = [] }) entries in
    join (codes "\n") (sort_by str_ltb (context_lines seen prior))
