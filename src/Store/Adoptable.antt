-- ===== src/Store/Adoptable.antt =====
-- The query ListAdoptableLeases of internal/store/leases.sql.go, which joins leases and instances.
use text.Mathlib.Text.{◌==◌ as str_eq}
use zappermeow.Base.{
  ℕ, Bool, true, false, not, ◌&&◌, List, [], ◌∷◌, map, Option, none, some, String, leb,
  if◌then◌else◌, take, select, any,
}
use zappermeow.Domain.Reason.{DisconnectReason, to_string}
use zappermeow.Store.Leases.{LeaseRow, Leases, can_acquire}
use zappermeow.Store.Instances.{Instances, get_instance}

-- `reason IS NULL OR reason <> ALL(permanent)`.
abbrev pub is_retried : List String → Option DisconnectReason → Bool
is_retried permanent none = true
is_retried permanent (some r) = not (any (λ s. str_eq s (to_string r)) permanent)

-- The joined row passes the WHERE clause; a lease with no instance joins nothing.
unfoldable pub is_adoptable : ℕ → ℕ → List String → Instances → LeaseRow → Bool
is_adoptable now expiry permanent instances r =
    can_acquire now expiry r && (elim (get_instance r.instance_id instances) [
      | none ↦ false
      | some i ↦ is_retried permanent i.last_disconnect_reason
    ])

-- ORDER BY updated_at, oldest first.
unfoldable pub insert_by_age : LeaseRow → List LeaseRow → List LeaseRow
insert_by_age r [] = r ∷ []
insert_by_age r (x ∷ xs) =
    if leb r.updated_at x.updated_at then r ∷ x ∷ xs else x ∷ insert_by_age r xs

unfoldable pub order_by_age : List LeaseRow → List LeaseRow
unfolding insert_by_age
order_by_age [] = []
order_by_age (r ∷ rs) = insert_by_age r (order_by_age rs)

unfoldable pub list_adoptable_leases : ℕ → ℕ → List String → ℕ → Instances → Leases → List ℕ
list_adoptable_leases now expiry permanent max_rows instances t = take max_rows (
    map (λ r. r.instance_id)
      (order_by_age (select (is_adoptable now expiry permanent instances) t)))
