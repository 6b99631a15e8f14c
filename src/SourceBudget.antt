-- ===== src/SourceBudget.antt =====
-- internal/sourcebudget/budget.go: the pacing of requests to a source. A map is the list of its keys
-- with their slots, an instant its nanoseconds; a duration below zero is refused like 0. The mutex makes
-- each pass of `acquire` one step; `times` are the instants at which the passes read the clock.
pub mod Pacing
pub mod Spacing
use index_core.Base.{
  Str, str_eq, ℕ, zero, suc, ◌+◌, ◌-◌, ◌*◌, ltb, leb, Bool, true, false, ◌&&◌, ◌||◌, not, Option,
  none, some, is_some, List, [], ◌∷◌, ◌++◌, length, is_empty, if◌then◌else◌,
}

pub record Config : Type 0 where
  pub global : ℕ
  pub root : ℕ
  pub provider : ℕ
  pub backoff : ℕ
  pub max_backoff : ℕ
  pub max_keys : ℕ

abbrev millisecond : ℕ
millisecond = 1_000_000

abbrev minute : ℕ
minute = 60_000_000_000

abbrev pub defaults : Config
defaults = record {
  global = 100 * millisecond;
  root = 100 * millisecond;
  provider = 100 * millisecond;
  backoff = 45_000 * millisecond;
  max_backoff = 15 * minute;
  max_keys = 4096;
}

abbrev is_spacing : ℕ → Bool
is_spacing d = leb millisecond d && leb d minute

-- `true` is no error.
unfoldable pub validate : Config → Bool
validate c =
    is_spacing c.global
    && is_spacing c.root
    && is_spacing c.provider
    && leb millisecond c.backoff
    && leb c.backoff c.max_backoff
    && leb c.max_backoff (60 * minute)
    && leb 1 c.max_keys
    && leb c.max_keys 4096

-- The zero value, with the zero time twice, is a key's first slot.
pub record Slot : Type 0 where
  pub next : ℕ
  pub until : ℕ
  pub strikes : ℕ

abbrev fresh_slot : Slot
fresh_slot = record { next = 0; until = 0; strikes = 0 }

abbrev pub Slots : Type 0
Slots = List (Str × Slot)

pub record Manager : Type 0 where
  pub global : ℕ
  pub roots : Slots
  pub groups : Slots

unfoldable pub find_slot : Str → Slots → Option Slot
find_slot key [] = none
find_slot key (s ∷ ss) = let rest = find_slot key ss in if str_eq s.0 key then some s.1 else rest

unfoldable pub put_slot : Str → Slot → Slots → Slots
put_slot key slot [] = []
put_slot key slot (s ∷ ss) =
    let rest = put_slot key slot ss in if str_eq s.0 key then (s.0, slot) ∷ ss else s ∷ rest

unfoldable pub ensure_slot : Str → Slots → Slots
ensure_slot key ss = if is_some (find_slot key ss) then ss else ss ++ (key, fresh_slot) ∷ []

abbrev pub slot_of : Str → Slots → Slot
slot_of key ss = elim (find_slot key ss) [ none ↦ fresh_slot | some s ↦ s ]

abbrev pub max : ℕ → ℕ → ℕ
max a b = if ltb a b then b else a

pub data BudgetError : Type 0 where
  deferred capacity endpoint : BudgetError

abbrev is_at_capacity : Config → Str → Slots → Bool
is_at_capacity c key ss = not (is_some (find_slot key ss)) && leb c.max_keys (length ss)

abbrev is_bad_key : Str → Str → Bool
is_bad_key root group =
    is_empty root || is_empty group || ltb 128 (length root) || ltb 512 (length group)

-- Why a pair of keys is refused, if it is.
unfoldable pub register_error : Config → Str → Str → Manager → Option BudgetError
register_error c root group m =
    if is_bad_key root group
    then some endpoint
    else if is_at_capacity c root m.roots || is_at_capacity c group m.groups
    then some capacity
    else none

unfoldable pub registered : Str → Str → Manager → Manager
registered root group m = record m {
  roots = ensure_slot root m.roots;
  groups = ensure_slot group m.groups;
}

-- What one pass of the loop ends in.
pub data Pass : Type 0 where
  granted postponed : Manager → Pass
  waits : Manager → ℕ → Pass
  refused : BudgetError → Pass

abbrev pub with_until : Str → ℕ → Slots → Slots
with_until key t ss = put_slot key (record (slot_of key ss) { until = t }) ss

abbrev pub with_next : Str → ℕ → Slots → Slots
with_next key t ss = put_slot key (record (slot_of key ss) { next = t }) ss

unfoldable pub due_at : Str → Str → Manager → ℕ
due_at root group m = max m.global (max (slot_of root m.roots).next (slot_of group m.groups).next)

unfoldable pub cooldown : Str → Str → Manager → ℕ
cooldown root group m = max (slot_of root m.roots).until (slot_of group m.groups).until

unfoldable pub grant : Config → Str → Str → ℕ → Manager → Manager
grant c root group now m = record {
  global = now + c.global;
  roots = with_next root (now + c.root) m.roots;
  groups = with_next group (now + c.provider) m.groups;
}

-- A pass on two slots that are there.
unfoldable pub pass_registered : Config → Str → Str → ℕ → Manager → Pass
pass_registered c root group now r =
    if ltb now (cooldown root group r)
    then postponed (record r { roots = with_until root (cooldown root group r) r.roots })
    else if ltb now (due_at root group r)
    then waits r (due_at root group r - now)
    else granted (grant c root group now r)

unfoldable pub pass : Config → Str → Str → ℕ → Manager → Pass
pass c root group now m = elim (register_error c root group m) [
  | some e ↦ refused e
  | none ↦ pass_registered c root group now (registered root group m)
]

-- The loop, as far as the clock readings go; a wait that the context cuts short ends it.
unfoldable pub acquire : Config → Str → Str → List ℕ → Manager → Pass
acquire c root group [] m = waits m 0
acquire c root group (now ∷ times) m = elim (pass c root group now m) [
  | waits r d ↦ acquire c root group times r
  | granted r ↦ granted r
  | postponed r ↦ postponed r
  | refused e ↦ refused e
]

-- `for i := 1; i < p.strikes && d < m.cfg.MaxBackoff; i++ { d *= 2 }`.
unfoldable pub doubled : ℕ → ℕ → ℕ → ℕ
doubled zero cap d = d
doubled (suc n) cap d = let more = doubled n cap (d * 2) in if ltb d cap then more else d

-- The exponential delay, capped, or a longer Retry-After.
unfoldable pub penalty : Config → ℕ → ℕ → ℕ
penalty c strikes retry =
    let d = doubled (strikes - 1) c.max_backoff c.backoff in
    let capped = if ltb c.max_backoff d then c.max_backoff else d in max capped retry

abbrev pub struck : ℕ → ℕ
struck n = if ltb n 20 then n + 1 else n

unfoldable pub punish : Config → Str → Str → ℕ → ℕ → Manager → Manager
punish c root group retry now m =
    let p = slot_of group m.groups in
    let strikes = struck p.strikes in
    let until = max p.until (now + penalty c strikes retry) in
    record m {
      groups = put_slot group (record p { strikes = strikes; until = until }) m.groups;
      roots = with_until root (max (slot_of root m.roots).until until) m.roots;
    }

unfoldable pub penalize : Config → Str → Str → ℕ → ℕ → Manager → Manager
penalize c root group retry now m = elim (register_error c root group m) [
  | some e ↦ m
  | none ↦ punish c root group retry now (registered root group m)
]

unfoldable pub root_until : Str → Manager → ℕ
root_until root m = (slot_of root m.roots).until

-- `ReadyAt`, of a group that is determined already.
unfoldable pub ready_at : Config → Str → Str → Manager → Option (Manager × ℕ)
ready_at c root group m = elim (register_error c root group m) [
  | some e ↦ none
  | none ↦
      let r = registered root group m in
      some (
        record r { roots = with_until root (cooldown root group r) r.roots },
        cooldown root group r,
      )
]

abbrev pub forgiven : Str → ℕ → Slot → Manager → Manager
forgiven group now p m =
    if ltb now p.until
    then m
    else record m { groups = put_slot group (record p { strikes = 0 }) m.groups }

-- `Succeeded`, likewise: only the end of a cooldown forgets the strikes.
unfoldable pub succeeded : Str → ℕ → Manager → Manager
succeeded group now m = elim (find_slot group m.groups) [
  | none ↦ m
  | some p ↦ forgiven group now p m
]

-- The calls on a manager, each with the clock reading that it takes.
pub data Call : Type 0 where
  acquires : Str → Str → ℕ → Call
  penalizes : Str → Str → ℕ → ℕ → Call
  asks : Str → Str → Call
  succeeds : Str → ℕ → Call

abbrev pub left_by : Manager → Pass → Manager
left_by m (granted r) = r
left_by m (postponed r) = r
left_by m (waits r d) = r
left_by m (refused e) = m

unfoldable pub apply : Config → Call → Manager → Manager
apply c (acquires root group now) m = left_by m (pass c root group now m)
apply c (penalizes root group retry now) m = penalize c root group retry now m
apply c (asks root group) m = elim (ready_at c root group m) [ none ↦ m | some r ↦ r.0 ]
apply c (succeeds group now) m = succeeded group now m

unfoldable pub apply_all : Config → List Call → Manager → Manager
apply_all c [] m = m
apply_all c (call ∷ calls) m = apply_all c calls (apply c call m)
