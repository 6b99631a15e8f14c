-- ===== src/Store/Tables/Commits.antt =====
-- What holds of a transaction if it commits, followed through its steps.
use index_core.Base.{
  ◌≡◌, ◌≢◌, arith, refl, subst, Bool, true, false, Option, none, some, if◌then◌else◌,
}
use index_core.Store.Tables.{Tx, done, aborted, ◌>>=◌, ◌>>◌, require, scan, TxError}

abbrev pub Commits {κ} : {A : Type 0} → (A → Type κ) → Tx A → Type κ
Commits P (done a) = P a
Commits P (aborted e) = Unit

module _ {κ} {A : Type 0} (P : A → Type κ) where
  pub Commits-intro : (t : Tx A) → ((a : A) → t ≡ done a → P a) → Commits P t
  Commits-intro (done a) h = h a refl
  Commits-intro (aborted e) h = tt

  pub Commits-done : (t : Tx A) (a : A) → t ≡ done a → Commits P t → P a
  Commits-done t a e h = subst (Commits P) e h

  pub Commits-bind :
      {B : Type 0} (m : Tx B) (k : B → Tx A)
      → ((b : B) → m ≡ done b → Commits P (k b))
      → Commits P (m >>= k)
  Commits-bind (done b) k h = h b refl
  Commits-bind (aborted e) k h = tt

  pub Commits-require :
      (b : Bool) (e : TxError) (t : Tx A) → (b ≡ true → Commits P t) → Commits P (require b e >> t)
  Commits-require true e t h = h refl
  Commits-require false e t h = tt

  pub Commits-scan :
      {B : Type 0} (o : Option B) (e : TxError) (k : B → Tx A)
      → ((b : B) → o ≡ some b → Commits P (k b))
      → Commits P (scan e o >>= k)
  Commits-scan (some b) e k h = h b refl
  Commits-scan none e k h = tt

  pub Commits-if :
      (b : Bool) (s t : Tx A)
      → (b ≡ true → Commits P s)
      → (b ≡ false → Commits P t)
      → Commits P (if b then s else t)
  Commits-if true s t h k = h refl
  Commits-if false s t h k = k refl

pub Commits-map {κ μ} :
    {A : Type 0} {P : A → Type κ} {Q : A → Type μ} (f : (a : A) → P a → Q a) (t : Tx A)
    → Commits P t
    → Commits Q t
Commits-map f (done a) h = f a h
Commits-map f (aborted e) h = tt

aborted-ne-done : {A : Type 0} (x : TxError) (r : A) → (let t : Tx A = aborted x in t ≢ done r)
aborted-ne-done x r e = ground (arith, e)

-- A sequence commits when both parts do.
pub bind-done :
    {A B : Type 0} (m : Tx B) (k : B → Tx A) {r : A}
    → (m >>= k) ≡ done r
    → (b : B) × (m ≡ done b) × (k b ≡ done r)
bind-done (done b) k e = (b, refl, e)
bind-done (aborted x) k e = elim (aborted-ne-done x _ e) [ ]
