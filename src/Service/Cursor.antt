-- ===== src/Service/Cursor.antt =====
-- The pages of a trail whose rows were appended one after the other (internal/domain/services/
-- connection.go and internal/store/connection_events.sql.go): what a cursor leaves of it.
use zappermeow.Base.{
  ℕ, zero, suc, ◌-◌, ◌≤◌, ◌<◌, Bool, true, false, ◌&&◌, List, [], ◌∷◌, ◌++◌, Option, none, some,
  ltb, ltb→lt, ◌≡◌, refl, ap, inl, inr, arith, Bool-cases, ◌==◌, select, take, length,
}
use zappermeow.Service.Pages.{TrailRow, insert, sort, is_before, page_limit, last_id}

-- Every later row has a smaller number and is not newer.
abbrev Above : TrailRow → List TrailRow → Type 0
Above r [] = Unit
Above r (x ∷ xs) = (x.id < r.id) × (x.event.occurred_at ≤ r.event.occurred_at) × Above r xs

-- The latest row first, as rows that were appended one after the other stand: the numbers count up, and
-- the clock does not run back.
abbrev pub IsAppended : List TrailRow → Type 0
IsAppended [] = Unit
IsAppended (r ∷ rs) = Above r rs × IsAppended rs

pub sort_fixed : (rs : List TrailRow) → IsAppended rs → sort rs ≡ rs
unfolding sort insert
sort_fixed [] h = refl
sort_fixed (r ∷ []) h = refl
sort_fixed (r ∷ x ∷ rs) ((below, older, above), h) =
    rw (sort_fixed (x ∷ rs) h) (ground (arith, below, older))

Above-select :
    (p : TrailRow → Bool) (r : TrailRow) (rs : List TrailRow) → Above r rs → Above r (select p rs)
Above-select p r [] h = tt
Above-select p r (x ∷ rs) (below, older, h) = elim (Bool-cases (p x)) [
  | inl kept ↦ rw kept (below, older, Above-select p r rs h)
  | inr gone ↦ rw gone (Above-select p r rs h)
]

pub IsAppended-select :
    (p : TrailRow → Bool) (rs : List TrailRow) → IsAppended rs → IsAppended (select p rs)
IsAppended-select p [] h = tt
IsAppended-select p (r ∷ rs) (above, h) = elim (Bool-cases (p r)) [
  | inl kept ↦ rw kept (Above-select p r rs above, IsAppended-select p rs h)
  | inr gone ↦ rw gone (IsAppended-select p rs h)
]

pub select_both :
    (p q : TrailRow → Bool) (rs : List TrailRow)
    → select (λ r. p r && q r) rs ≡ select q (select p rs)
select_both p q [] = refl
select_both p q (r ∷ rs) = ground (arith, select_both p q rs)

select_all :
    (c : ℕ) (r : TrailRow) (rs : List TrailRow)
    → r.id ≤ c
    → Above r rs
    → select (is_before (some c)) rs ≡ rs
select_all c r [] l h = refl
select_all c r (x ∷ rs) l (below, older, h) = ground (arith, below, l, select_all c r rs l h)

last-lt :
    (n c : ℕ) (r : TrailRow) (rs : List TrailRow)
    → Above r rs
    → last_id (take n rs) ≡ some c
    → c < r.id
last-lt zero c r rs h e = cc
last-lt (suc n) c r [] h e = cc
last-lt (suc zero) c r (x ∷ rs) (below, older, h) e = ground (arith, below, e)
last-lt (suc (suc n)) c r (x ∷ []) (below, older, h) e = ground (arith, below, e)
last-lt (suc (suc n)) c r (x ∷ y ∷ rs) (below, older, h) e = last-lt (suc n) c r (y ∷ rs) h e

-- What follows a full page is what lies below its last number.
pub rest_after :
    (n c : ℕ) (rs : List TrailRow)
    → IsAppended rs
    → length (take (suc n) rs) ≡ suc n
    → last_id (take (suc n) rs) ≡ some c
    → rs ≡ take (suc n) rs ++ select (is_before (some c)) rs
rest_after n c [] h full e = absurd (omega arith)
rest_after zero c (r ∷ rs) (above, h) full e =
    ground (arith, e, select_all c r rs (ground (arith, e)) above)
rest_after (suc n) c (r ∷ []) h full e = absurd (omega arith)
rest_after (suc n) c (r ∷ x ∷ rs) (above, h) full e =
    let lower : c < r.id = last-lt (suc n) c r (x ∷ rs) above e in
    let skipped : ltb r.id c ≡ false = ground (arith, lower) in
    rw skipped (ap (◌∷◌ r) (rest_after n c (x ∷ rs) h (omega (arith, full)) e))

select_under :
    (b c : ℕ) (rs : List TrailRow)
    → c < b
    → select (is_before (some c)) (select (is_before (some b)) rs) ≡ select (is_before (some c)) rs
select_under b c [] l = refl
select_under b c (r ∷ rs) l = ground (arith, l, select_under b c rs l)

abbrev Under : ℕ → List TrailRow → Type 0
Under b [] = Unit
Under b (r ∷ rs) = (r.id < b) × Under b rs

Under-select : (b : ℕ) (rs : List TrailRow) → Under b (select (is_before (some b)) rs)
Under-select b [] = tt
Under-select b (r ∷ rs) = elim (Bool-cases (ltb r.id b)) [
  | inl kept ↦ rw kept (ltb→lt r.id b kept, Under-select b rs)
  | inr gone ↦ rw gone (Under-select b rs)
]

Under-last : (b n c : ℕ) (rs : List TrailRow) → Under b rs → last_id (take n rs) ≡ some c → c < b
Under-last b zero c rs h e = cc
Under-last b (suc n) c [] h e = cc
Under-last b (suc zero) c (r ∷ rs) (below, h) e = ground (arith, below, e)
Under-last b (suc (suc n)) c (r ∷ []) (below, h) e = ground (arith, below, e)
Under-last b (suc (suc n)) c (r ∷ x ∷ rs) (below, h) e = Under-last b (suc n) c (x ∷ rs) h e

last-under :
    (b n c : ℕ) (rs : List TrailRow)
    → last_id (take n (select (is_before (some b)) rs)) ≡ some c
    → c < b
last-under b n c rs e = Under-last b n c _ (Under-select b rs) e

pub take_short : (n : ℕ) (rs : List TrailRow) → (length (take n rs) == n) ≡ false → take n rs ≡ rs
take_short zero rs e = cc
take_short (suc n) [] e = refl
take_short (suc n) (r ∷ rs) e = ap (◌∷◌ r) (take_short n rs (ground (arith, e)))

pub last_full : (n : ℕ) (rs : List TrailRow) → length rs ≡ suc n → (c : ℕ) × (last_id rs ≡ some c)
last_full n [] e = absurd (omega arith)
last_full n (r ∷ []) e = (r.id, refl)
last_full zero (r ∷ x ∷ rs) e = absurd (omega arith)
last_full (suc n) (r ∷ x ∷ rs) e = last_full n (x ∷ rs) (omega arith)

pub page_limit_pos : (limit : ℕ) → (n : ℕ) × (page_limit limit ≡ suc n) × (suc n ≤ 200)
unfolding page_limit
page_limit_pos limit = (page_limit limit - 1, ground arith, ground arith)

-- The rows of the trail that a cursor leaves.
abbrev pub left : Option ℕ → List TrailRow → List TrailRow
left before = select (is_before before)

pub left_all : (rs : List TrailRow) → select (λ r. true) rs ≡ rs
left_all [] = refl
left_all (r ∷ rs) = ap (◌∷◌ r) (left_all rs)

pub left_next :
    (before : Option ℕ) (n c : ℕ) (rs : List TrailRow)
    → last_id (take n (left before rs)) ≡ some c
    → left (some c) (left before rs) ≡ left (some c) rs
left_next none n c rs e = ap (left (some c)) (left_all rs)
left_next (some b) n c rs e = select_under b c rs (last-under b n c rs e)
