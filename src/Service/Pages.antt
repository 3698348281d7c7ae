-- ===== src/Service/Pages.antt =====
-- internal/store/connection_events.sql.go and Events of internal/domain/services/connection.go: reading
-- the connection trail page by page, and the sweep of internal/worker/retention.go. A row carries the
-- number that its column counts up; `wanted` is membership in the types asked for, and the cursor is the
-- number under the opaque text.
use zappermeow.Base.{
  ℕ, ◌-◌, Bool, true, false, not, ◌&&◌, ◌||◌, List, [], ◌∷◌, Option, none, some, Result, ok, err,
  ltb, ◌==◌, if◌then◌else◌, select, take, length,
}
use zappermeow.Domain.Errors.{Error, err_internal, err_not_found}
use zappermeow.Domain.Trail.{ConnectionEvent, ConnectionEventType}
use zappermeow.Store.Instances.{InstanceRow, Instances, get_instance}

pub record TrailRow : Type 0 where
  pub id : ℕ
  pub event : ConnectionEvent

-- `occurred_at DESC, id DESC`: whether `a` comes before `b`.
abbrev is_newer : TrailRow → TrailRow → Bool
is_newer a b =
    ltb b.event.occurred_at a.event.occurred_at
    || (b.event.occurred_at == a.event.occurred_at) && ltb b.id a.id

unfoldable pub insert : TrailRow → List TrailRow → List TrailRow
insert r [] = r ∷ []
insert r (x ∷ xs) = let rest = insert r xs in if is_newer x r then x ∷ rest else r ∷ x ∷ xs

-- ORDER BY.
unfoldable pub sort : List TrailRow → List TrailRow
sort [] = []
sort (r ∷ rs) = insert r (sort rs)

abbrev pub is_before : Option ℕ → TrailRow → Bool
is_before none r = true
is_before (some b) r = ltb r.id b

abbrev pub is_asked : ℕ → (ConnectionEventType → Bool) → TrailRow → Bool
is_asked instance wanted r = (r.event.instance_id == instance) && wanted r.event.type

unfoldable pub list_connection_events :
    ℕ → Option ℕ → (ConnectionEventType → Bool) → ℕ → List TrailRow → List TrailRow
list_connection_events instance before wanted max_rows rows =
    take max_rows (sort (select (λ r. is_asked instance wanted r && is_before before r) rows))

abbrev max_trail_page : ℕ
max_trail_page = 200

-- The limit of a request, in which a number below 1 is 0.
unfoldable pub page_limit : ℕ → ℕ
page_limit limit =
    if ltb limit 1 then 50 else if ltb max_trail_page limit then max_trail_page else limit

pub record EventPage : Type 0 where
  pub events : List TrailRow
  pub next_before : Option ℕ

abbrev pub last_id : List TrailRow → Option ℕ
last_id [] = none
last_id (r ∷ []) = some r.id
last_id (r ∷ x ∷ rs) = last_id (x ∷ rs)

-- A full page may have a successor.
abbrev pub next_cursor : ℕ → List TrailRow → Option ℕ
next_cursor limit rows = if length rows == limit then last_id rows else none

unfoldable pub page : ℕ → ℕ → Option ℕ → (ConnectionEventType → Bool) → List TrailRow → EventPage
page instance limit before wanted rows =
    let found = list_connection_events instance before wanted (page_limit limit) rows in
    record { events = found; next_before = next_cursor (page_limit limit) found }

-- The calls that can fail.
pub data TrailCall : Type 0 where
  reads_instance lists : TrailCall

abbrev is_owned : ℕ → Option InstanceRow → Bool
is_owned tenant none = false
is_owned tenant (some i) = i.tenant_id == tenant

-- The instance is looked up under the tenant before the trail is read.
unfoldable pub events :
    (TrailCall → Bool)
    → ℕ
    → ℕ
    → ℕ
    → Option ℕ
    → (ConnectionEventType → Bool)
    → Instances
    → List TrailRow
    → Result Error EventPage
events down tenant instance limit before wanted is rows =
    if down reads_instance
    then err (err_internal "get instance")
    else if not (is_owned tenant (get_instance instance is))
    then err err_not_found
    else if down lists
    then err (err_internal "list events")
    else ok (page instance limit before wanted rows)

-- What the sweep of one worker meets: the lock, then the deletion.
pub record Sweep : Type 0 where
  pub acquired : Option Bool
  pub deletes : Bool

abbrev is_expired : ℕ → TrailRow → Bool
is_expired cutoff r = ltb r.event.occurred_at cutoff

-- `none` is a failure of the lock; the rows that went are counted.
unfoldable sweep_once : Sweep → ℕ → ℕ → List TrailRow → ℕ × List TrailRow
sweep_once e now window rows = elim e.acquired [
  | some true ↦
      let kept = select (λ r. not (is_expired (now - window) r)) rows in
      if e.deletes then (length rows - length kept, kept) else (0, rows)
  | _ ↦ (0, rows)
]
