-- ===== src/SourceBudget/Spacing.antt =====
-- The spacing of grants, over whatever calls come between them.
use index_core.Base.{
  Str, str_eq, ℕ, ◌+◌, ◌≤◌, ltb, ◌≡◌, refl, true, Option, none, some, is_some, List, [], ◌∷◌, ◌++◌,
  arith, Bool-cases, Option-cases, inl, inr,
}
use index_core.SourceBudget.Pacing.{slot-put, slot-ensure}
use index_core.SourceBudget.{
  Config, Slot, Slots, Manager, granted, find_slot, put_slot, ensure_slot, slot_of, max,
  register_error, registered, due_at, cooldown, grant, pass, pass_registered, forgiven, penalty,
  punish, penalize, with_until, struck, ready_at, succeeded, Call, acquires, penalizes, asks,
  succeeds, left_by, apply, apply_all,
}

next_of : Str → Slots → ℕ
next_of key ss = (slot_of key ss).next

next-append :
    (k key : Str) (ss : Slots)
    → (slot_of k (ss ++ (key, record { next = 0; until = 0; strikes = 0 }) ∷ [])).next
      ≡ (slot_of k ss).next
unfolding find_slot
next-append k key [] = ground arith
next-append k key (s ∷ ss) = ground (arith, next-append k key ss)

next-ensure :
    (k key : Str) (ss : Slots) → (slot_of k (ensure_slot key ss)).next ≡ (slot_of k ss).next
unfolding ensure_slot
next-ensure k key ss = ground (arith, next-append k key ss)

-- A slot that is written with no earlier `next` makes no key's `next` earlier.
next-put :
    (k key : Str) (slot : Slot) (ss : Slots)
    → (slot_of key ss).next ≤ slot.next
    → (slot_of k ss).next ≤ (slot_of k (put_slot key slot ss)).next
unfolding find_slot put_slot
next-put k key slot [] h = omega arith
next-put k key slot (s ∷ ss) h = elim (Bool-cases (str_eq s.0 key)) [
  | inl here ↦ ground (arith, here, h)
  | inr past ↦ ground (arith, past, h, next-put k key slot ss (ground (arith, past, h)))
]

-- The earliest times of grants never move back.
record Grows (m n : Manager) : Type 0 where
  global : m.global ≤ n.global
  root : (k : Str) → (slot_of k m.roots).next ≤ (slot_of k n.roots).next
  group : (k : Str) → (slot_of k m.groups).next ≤ (slot_of k n.groups).next

Grows-refl : (m : Manager) → Grows m m
Grows-refl m = record { global = omega arith; root = λ k. omega arith; group = λ k. omega arith }

Grows-trans : {a b c : Manager} → Grows a b → Grows b c → Grows a c
Grows-trans g h = record {
  global = omega (arith, g.global, h.global);
  root = λ k. omega (arith, g.root k, h.root k);
  group = λ k. omega (arith, g.group k, h.group k);
}

Grows-registered : (root group : Str) (m : Manager) → Grows m (registered root group m)
unfolding registered
Grows-registered root group m = record {
  global = omega arith;
  root = λ k. ground (arith, next-ensure k root m.roots);
  group = λ k. ground (arith, next-ensure k group m.groups);
}

Grows-grant :
    (c : Config) (root group : Str) (now : ℕ) (m : Manager)
    → due_at root group m ≤ now
    → Grows m (grant c root group now m)
unfolding grant due_at
Grows-grant c root group now m h = record {
  global = ground (arith, h);
  root = λ k.
      next-put k root (record (slot_of root m.roots) { next = now + c.root }) m.roots
        (ground (arith, h));
  group = λ k.
      next-put k group (record (slot_of group m.groups) { next = now + c.provider }) m.groups
        (ground (arith, h));
}

Grows-with_until :
    (root : Str) (t : ℕ) (m : Manager) → Grows m (record m { roots = with_until root t m.roots })
Grows-with_until root t m = record {
  global = omega arith;
  root = λ k. next-put k root (record (slot_of root m.roots) { until = t }) m.roots (omega arith);
  group = λ k. omega arith;
}

Grows-punish :
    (c : Config) (root group : Str) (retry now : ℕ) (m : Manager)
    → Grows m (punish c root group retry now m)
unfolding punish
Grows-punish c root group retry now m = record {
  global = omega arith;
  root = λ k.
      next-put k root
        (record (slot_of root m.roots) {
          until = max (slot_of root m.roots).until (
              max (slot_of group m.groups).until
                (now + penalty c (struck (slot_of group m.groups).strikes) retry));
        })
        m.roots (omega arith);
  group = λ k.
      next-put k group
        (record (slot_of group m.groups) {
          strikes = struck (slot_of group m.groups).strikes;
          until =
              max (slot_of group m.groups).until
                (now + penalty c (struck (slot_of group m.groups).strikes) retry);
        })
        m.groups (omega arith);
}

Grows-penalize :
    (c : Config) (root group : Str) (retry now : ℕ) (m : Manager)
    → Grows m (penalize c root group retry now m)
unfolding penalize
Grows-penalize c root group retry now m =
    elim (register_error c root group m)
      as (λ e.
        Grows m (elim e [
          | some x ↦ m
          | none ↦ punish c root group retry now (registered root group m)
        ])) [
          | some e ↦ Grows-refl m
          | none ↦
              Grows-trans (Grows-registered root group m)
                (Grows-punish c root group retry now (registered root group m))
        ]

Grows-forgiven :
    (group : Str) (now : ℕ) (p : Slot) (m : Manager)
    → find_slot group m.groups ≡ some p
    → Grows m (forgiven group now p m)
Grows-forgiven group now p m at = elim (Bool-cases (ltb now p.until)) [
  | inl cools ↦ rw cools (Grows-refl m)
  | inr over ↦ rw over (record {
    global = omega arith;
    root = λ k. omega arith;
    group = λ k. next-put k group (record p { strikes = 0 }) m.groups (ground (arith, at));
  })
]

Grows-found :
    (group : Str) (now : ℕ) (m : Manager) (found : Option Slot)
    → find_slot group m.groups ≡ found
    → Grows m (elim found [ none ↦ m | some p ↦ forgiven group now p m ])
Grows-found group now m none at = Grows-refl m
Grows-found group now m (some p) at = Grows-forgiven group now p m at

Grows-succeeded : (group : Str) (now : ℕ) (m : Manager) → Grows m (succeeded group now m)
unfolding succeeded
Grows-succeeded group now m = Grows-found group now m (find_slot group m.groups) refl

Grows-asks : (c : Config) (root group : Str) (m : Manager) → Grows m (apply c (asks root group) m)
unfolding apply ready_at
Grows-asks c root group m = elim (Option-cases (register_error c root group m)) [
  | inl free ↦
      rw (free, apply)
        (Grows-trans (Grows-registered root group m) (
          Grows-with_until root (cooldown root group (registered root group m))
            (registered root group m)))
  | inr taken ↦ rw (taken.1, apply) (Grows-refl m)
]

Grows-pass_registered :
    (c : Config) (root group : Str) (now : ℕ) (m r : Manager)
    → Grows m r
    → Grows m (left_by m (pass_registered c root group now r))
unfolding pass_registered
Grows-pass_registered c root group now m r g = elim (Bool-cases (ltb now (cooldown root group r))) [
  | inl cools ↦ rw cools (Grows-trans g (Grows-with_until root (cooldown root group r) r))
  | inr warm ↦ rw warm (elim (Bool-cases (ltb now (due_at root group r))) [
    | inl early ↦ rw early g
    | inr ripe ↦ rw ripe (Grows-trans g (Grows-grant c root group now r (ground (arith, ripe))))
  ])
]

Grows-pass :
    (c : Config) (root group : Str) (now : ℕ) (m : Manager)
    → Grows m (left_by m (pass c root group now m))
unfolding pass
Grows-pass c root group now m = elim (Option-cases (register_error c root group m)) [
  | inl free ↦
      rw (free, left_by)
        (Grows-pass_registered c root group now m (registered root group m)
          (Grows-registered root group m))
  | inr taken ↦ rw (taken.1, left_by) (Grows-refl m)
]

Grows-apply : (c : Config) (call : Call) (m : Manager) → Grows m (apply c call m)
unfolding apply
Grows-apply c (acquires root group now) m = Grows-pass c root group now m
Grows-apply c (penalizes root group retry now) m = Grows-penalize c root group retry now m
Grows-apply c (asks root group) m = Grows-asks c root group m
Grows-apply c (succeeds group now) m = Grows-succeeded group now m

Grows-apply_all : (c : Config) (calls : List Call) (m : Manager) → Grows m (apply_all c calls m)
unfolding apply_all
Grows-apply_all c [] m = Grows-refl m
Grows-apply_all c (call ∷ calls) m =
    Grows-trans (Grows-apply c call m) (Grows-apply_all c calls (apply c call m))

due_at-registered :
    (root group : Str) (m : Manager)
    → due_at root group (registered root group m) ≡ due_at root group m
unfolding due_at registered
due_at-registered root group m =
    ground (arith, next-ensure root root m.roots, next-ensure group group m.groups)

granted-after :
    (c : Config) (root group : Str) (now : ℕ) (m n : Manager)
    → pass c root group now m ≡ granted n
    → (due_at root group m ≤ now) × (n ≡ grant c root group now (registered root group m))
unfolding pass pass_registered
granted-after c root group now m n h = ground (arith, h, due_at-registered root group m)

next-put-same :
    (key : Str) (slot : Slot) (ss : Slots)
    → is_some (find_slot key ss) ≡ true
    → (slot_of key (put_slot key slot ss)).next ≡ slot.next
next-put-same key slot ss h = ground (arith, slot-put key slot ss h)

grant-next :
    (c : Config) (root group : Str) (now : ℕ) (m : Manager)
    → ((grant c root group now (registered root group m)).global ≡ now + c.global)
      × ((slot_of root (grant c root group now (registered root group m)).roots).next
          ≡ now + c.root)
      × ((slot_of group (grant c root group now (registered root group m)).groups).next
          ≡ now + c.provider)
unfolding grant registered
grant-next c root group now m = (
  refl,
  next-put-same root (record (slot_of root (ensure_slot root m.roots)) { next = now + c.root })
      (ensure_slot root m.roots) (slot-ensure root m.roots),
  next-put-same group
      (record (slot_of group (ensure_slot group m.groups)) { next = now + c.provider })
      (ensure_slot group m.groups) (slot-ensure group m.groups),
)

-- The earliest times that a grant leaves hold for the next grant, whatever is called in between.
granted-later :
    (c : Config) (root group : Str) (now : ℕ) (m n : Manager)
    → pass c root group now m ≡ granted n
    → (n.global ≡ now + c.global)
      × ((slot_of root n.roots).next ≡ now + c.root)
      × ((slot_of group n.groups).next ≡ now + c.provider)
granted-later c root group now m n h =
    rw (granted-after c root group now m n h).1 (grant-next c root group now m)

-- After a grant at `now`, and whatever calls follow it, the next grant to any source reads the clock no
-- earlier than the global spacing after `now`, one to the same root no earlier than the root's spacing,
-- and one to the same group no earlier than the provider's. The clock may run backwards in between.
pub grants-spaced :
    (c : Config) (root group : Str) (now : ℕ) (m n : Manager) (calls : List Call)
    (next_root next_group : Str) (later : ℕ) (o : Manager)
    → pass c root group now m ≡ granted n
    → pass c next_root next_group later (apply_all c calls n) ≡ granted o
    → (now + c.global ≤ later)
      × (next_root ≡ root → now + c.root ≤ later)
      × (next_group ≡ group → now + c.provider ≤ later)
unfolding due_at
grants-spaced c root group now m n calls next_root next_group later o first second =
    let g : Grows n (apply_all c calls n) = Grows-apply_all c calls n in
    let left = granted-later c root group now m n first in
    let ready = (granted-after c next_root next_group later (apply_all c calls n) o second).0 in
    (
      ground (arith, g.global, left, ready),
      λ same. ground (arith, same, g.root root, left, ready),
      λ same. ground (arith, same, g.group group, left, ready),
    )
