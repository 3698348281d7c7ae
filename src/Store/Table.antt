-- ===== src/Store/Table.antt =====
-- What the statements of internal/store share: a row by its primary key, and UPDATE … WHERE.
use zappermeow.Base.{
  ℕ, Bool, ◌≡◌, refl, ap, ◌∙◌, List, [], ◌∷◌, Option, none, some, ◌==◌, if◌then◌else◌, arith,
}

module _ {R : Type 0} where
  -- `UPDATE … SET f WHERE p`.
  unfoldable pub update : (R → Bool) → (R → R) → List R → List R
  update p f [] = []
  update p f (r ∷ rs) = (if p r then f r else r) ∷ update p f rs

  -- What an update makes of one row, if there is one.
  abbrev pub touched : (R → Bool) → (R → R) → Option R → Option R
  touched p f none = none
  touched p f (some r) = some (if p r then f r else r)

module _ {R : Type 0} (key : R → ℕ) where
  -- `SELECT … WHERE key = k`, on a primary key.
  unfoldable pub find : ℕ → List R → Option R
  find k [] = none
  find k (r ∷ rs) = if key r == k then some r else find k rs

  -- An update that keeps the keys acts on each row alone.
  pub find-update :
      (p : R → Bool) (f : R → R)
      → ((r : R) → key (f r) ≡ key r)
      → (k : ℕ) (rs : List R) → find k (update p f rs) ≡ touched p f (find k rs)
  unfolding find update
  find-update p f keeps k [] = refl
  find-update p f keeps k (r ∷ rs) = ground (arith, keeps r, find-update p f keeps k rs)

  -- A row added under a new key is found, and hides none.
  pub find-cons :
      (r : R) (k : ℕ) (rs : List R) → find k (r ∷ rs) ≡ (if key r == k then some r else find k rs)
  unfolding find
  find-cons r k rs = refl

  -- What is found has the key that was asked for.
  pub key-find : (k : ℕ) (rs : List R) (r : R) → find k rs ≡ some r → key r ≡ k
  unfolding find
  key-find k [] r e = cc
  key-find k (x ∷ rs) r e = ground (arith, key-find k rs r)

  -- A row that is there stays under its key, updated or not.
  pub find-update-some :
      (p : R → Bool) (f : R → R)
      → ((r : R) → key (f r) ≡ key r)
      → (k : ℕ) (rs : List R) (r : R) → find k rs ≡ some r
      → find k (update p f rs) ≡ some (if p r then f r else r)
  find-update-some p f keeps k rs r e = find-update p f keeps k rs ∙ ap (touched p f) e
