-- ===== src/SourceBudget/Pacing.antt =====
-- The spacing of grants, and the length of a cooldown.
use index_core.Base.{
  Str, str_eq, str_eq_refl, ℕ, zero, suc, ◌+◌, ◌-◌, ◌*◌, ◌≤◌, ◌<◌, ◌≡◌, refl, Bool, true, false,
  none, some, is_some, List, [], ◌∷◌, ◌++◌, arith, Bool-cases, inl, inr,
}
use index_core.SourceBudget.{
  Config, Slot, Slots, Manager, Pass, postponed, find_slot, put_slot, ensure_slot, slot_of, max,
  register_error, registered, cooldown, pass, pass_registered, doubled, penalty, punish, penalize,
  struck, acquire, is_bad_key,
}

-- Enough doublings pass the first delay, none passes twice the cap, and none is lost.
doubled-ge : (n cap d : ℕ) → d ≤ doubled n cap d
unfolding doubled
doubled-ge zero cap d = omega arith
doubled-ge (suc n) cap d = ground (arith, doubled-ge n cap (d * 2))

-- A penalty is at least the Retry-After and at least the first delay, and unless the Retry-After is
-- longer it is at most the longest one.
penalty-bounds :
    (c : Config) (strikes retry : ℕ)
    → c.backoff ≤ c.max_backoff
    → (retry ≤ penalty c strikes retry)
      × (c.backoff ≤ penalty c strikes retry)
      × (penalty c strikes retry ≤ max c.max_backoff retry)
unfolding penalty
penalty-bounds c strikes retry h =
    ground (arith, h, doubled-ge (strikes - 1) c.max_backoff c.backoff)

pub slot-put :
    (key : Str) (slot : Slot) (ss : Slots)
    → is_some (find_slot key ss) ≡ true
    → find_slot key (put_slot key slot ss) ≡ some slot
unfolding find_slot put_slot
slot-put key slot [] h = ground (arith, h)
slot-put key slot (s ∷ ss) h = elim (Bool-cases (str_eq s.0 key)) [
  | inl here ↦ ground (arith, here)
  | inr past ↦ ground (arith, past, slot-put key slot ss (ground (arith, h, past)))
]

slot-append :
    (key : Str) (slot : Slot) (ss : Slots) → is_some (find_slot key (ss ++ (key, slot) ∷ [])) ≡ true
unfolding find_slot
slot-append key slot [] = ground (arith, str_eq_refl key)
slot-append key slot (s ∷ ss) = ground (arith, slot-append key slot ss)

pub slot-ensure : (key : Str) (ss : Slots) → is_some (find_slot key (ensure_slot key ss)) ≡ true
unfolding ensure_slot
slot-ensure key ss = elim (Bool-cases (is_some (find_slot key ss))) [
  | inl has ↦ ground (arith, has)
  | inr lacks ↦
      ground (arith, lacks, slot-append key (record { next = 0; until = 0; strikes = 0 }) ss)
]

ensure-id : (key : Str) (ss : Slots) → is_some (find_slot key ss) ≡ true → ensure_slot key ss ≡ ss
unfolding ensure_slot
ensure-id key ss h = ground (arith, h)

abbrev pub is_postponed : Pass → Bool
is_postponed (postponed m) = true
is_postponed _ = false

key-ok :
    (c : Config) (root group : Str) (m : Manager)
    → register_error c root group m ≡ none
    → is_bad_key root group ≡ false
unfolding register_error
key-ok c root group m h = elim (Bool-cases (is_bad_key root group)) [
  | inl bad ↦ ground (arith, h, bad)
  | inr good ↦ good
]

-- Keys that are there already are not refused, even at capacity.
register_error-known :
    (c : Config) (root group : Str) (m : Manager)
    → is_bad_key root group ≡ false
    → is_some (find_slot root m.roots) ≡ true
    → is_some (find_slot group m.groups) ≡ true
    → register_error c root group m ≡ none
unfolding register_error
register_error-known c root group m good hr hg = ground (arith, good, hr, hg)

registered-known :
    (root group : Str) (m : Manager)
    → is_some (find_slot root m.roots) ≡ true
    → is_some (find_slot group m.groups) ≡ true
    → registered root group m ≡ m
unfolding registered
registered-known root group m hr hg =
    rw (ensure-id root m.roots hr) (rw (ensure-id group m.groups hg) refl)

cooldown-group :
    (root group : Str) (m : Manager) (p : Slot)
    → find_slot group m.groups ≡ some p
    → p.until ≤ cooldown root group m
unfolding cooldown
cooldown-group root group m p h = ground (arith, h)

pass-postponed :
    (c : Config) (root group : Str) (later : ℕ) (m : Manager) (p : Slot)
    → is_bad_key root group ≡ false
    → is_some (find_slot root m.roots) ≡ true
    → find_slot group m.groups ≡ some p
    → later < p.until
    → is_postponed (pass c root group later m) ≡ true
unfolding pass pass_registered
pass-postponed c root group later m p good hr hg before =
    let known : is_some (find_slot group m.groups) ≡ true = rw hg refl in
    ground (
      arith,
      before,
      cooldown-group root group m p hg,
      register_error-known c root group m good hr known,
      registered-known root group m hr known,
    )

penalize-root :
    (c : Config) (root group : Str) (retry now : ℕ) (m : Manager)
    → register_error c root group m ≡ none
    → is_some (find_slot root (penalize c root group retry now m).roots) ≡ true
unfolding penalize punish registered
penalize-root c root group retry now m ok = ground (
  arith,
  ok,
  slot-put root
      (record (slot_of root (ensure_slot root m.roots)) {
        until = max (slot_of root (ensure_slot root m.roots)).until (
            max (slot_of group (ensure_slot group m.groups)).until (
              now + penalty c (struck (slot_of group (ensure_slot group m.groups)).strikes) retry));
      })
      (ensure_slot root m.roots) (slot-ensure root m.roots),
)

-- The slot that a penalty leaves behind for the group.
abbrev punished : Config → ℕ → ℕ → Slot → Slot
punished c retry now p = record p {
  strikes = struck p.strikes;
  until = max p.until (now + penalty c (struck p.strikes) retry);
}

penalize-group :
    (c : Config) (root group : Str) (retry now : ℕ) (m : Manager)
    → register_error c root group m ≡ none
    → find_slot group (penalize c root group retry now m).groups
      ≡ some (punished c retry now (slot_of group (ensure_slot group m.groups)))
unfolding penalize punish registered
penalize-group c root group retry now m ok = ground (
  arith,
  ok,
  slot-put group (punished c retry now (slot_of group (ensure_slot group m.groups)))
      (ensure_slot group m.groups) (slot-ensure group m.groups),
)

punished-until :
    (c : Config) (retry now : ℕ) (p : Slot)
    → c.backoff ≤ c.max_backoff
    → now + max c.backoff retry ≤ (punished c retry now p).until
punished-until c retry now p h = ground (arith, penalty-bounds c (struck p.strikes) retry h)

-- After a penalty that takes place, a request of the same root and group that reads the clock earlier
-- than both the configured delay and the Retry-After ask for is deferred at its first pass, without
-- waiting and without a grant.
pub penalize-postpones :
    (c : Config) (root group : Str) (retry now later : ℕ) (times : List ℕ) (m : Manager)
    → c.backoff ≤ c.max_backoff
    → register_error c root group m ≡ none
    → later < now + max c.backoff retry
    → is_postponed (acquire c root group (later ∷ times) (penalize c root group retry now m)) ≡ true
unfolding acquire
penalize-postpones c root group retry now later times m h ok before =
    let p : Slot = punished c retry now (slot_of group (ensure_slot group m.groups)) in
    let first : is_postponed (pass c root group later (penalize c root group retry now m)) ≡ true =
      pass-postponed c root group later (penalize c root group retry now m) p
        (key-ok c root group m ok) (penalize-root c root group retry now m ok)
        (penalize-group c root group retry now m ok)
        (ground (
          arith,
          before,
          punished-until c retry now (slot_of group (ensure_slot group m.groups)) h,
        )) in
    ground (arith, first)
