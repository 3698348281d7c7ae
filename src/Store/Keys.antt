-- ===== src/Store/Keys.antt =====
-- The primary key of a table of internal/store: no two rows have the same.
use zappermeow.Base.{
  ℕ, Bool, ◌≡◌, refl, ap, sym, ◌∙◌, List, [], ◌∷◌, none, some, ◌==◌, if◌then◌else◌, inl, inr, In,
  Bool-cases, arith, ==_iff,
}
use zappermeow.Store.Table.{find, update, find-update-some}

module _ {R : Type 0} (p : R → Bool) (f : R → R) where
  -- The rows after an update are the rows before, each treated alone.
  pub In-update :
      (rs : List R) (x : R)
      → In x (update p f rs)
      → (r : R) × In r rs × (x ≡ (if p r then f r else r))
  unfolding update
  In-update [] x i = absurd i
  In-update (r ∷ rs) x (inl e) = (r, inl refl, e)
  In-update (r ∷ rs) x (inr i) = let (y, j, e) = In-update rs x i in (y, inr j, e)

module _ {R : Type 0} (key : R → ℕ) where
  -- Looking up the key of a row finds that row.
  abbrev pub IsKeyed : List R → Type 0
  IsKeyed t = (r : R) → In r t → find key (key r) t ≡ some r

  pub In-find : (k : ℕ) (t : List R) (r : R) → find key k t ≡ some r → In r t
  unfolding find
  In-find k [] r e = cc
  In-find k (x ∷ t) r e = elim (Bool-cases (key x == k)) [
    | inl same ↦ inl (ground arith)
    | inr different ↦ inr (In-find k t r (ground arith))
  ]

  pub update-IsKeyed :
      (p : R → Bool) (f : R → R)
      → ((r : R) → key (f r) ≡ key r)
      → (t : List R) → IsKeyed t
      → IsKeyed (update p f t)
  update-IsKeyed p f keeps t u x i =
      let (r, j, e) = In-update p f t x i in
      ap (λ k. find key k (update p f t)) (ap key e ∙ same_key r)
      ∙ find-update-some key p f keeps (key r) t r (u r j)
      ∙ ap some (sym e)
    where
      same_key : (r : R) → key (if p r then f r else r) ≡ key r
      same_key r = ground (arith, keeps r)

  pub cons-IsKeyed : (r : R) (t : List R) → find key (key r) t ≡ none → IsKeyed t → IsKeyed (r ∷ t)
  unfolding find
  cons-IsKeyed r t fresh u x (inl e) = ground (arith, ==_iff (key x) (key x))
  cons-IsKeyed r t fresh u x (inr i) = ground (arith, u x i)
