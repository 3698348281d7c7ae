-- ===== src/Service/Paged.antt =====
-- Reading the whole connection trail page by page (Events of internal/domain/services/connection.go).
use zappermeow.Base.{
  ℕ, zero, suc, ◌<◌, Bool, List, [], ◌++◌, Option, none, some, ◌≡◌, ap, sym, ◌∙◌, inl, inr, arith,
  Bool-cases, ◌==◌, select, take, length, length-append,
}
use mathlib.Core.List.{append-nil}
use zappermeow.Domain.Trail.{ConnectionEventType}
use zappermeow.Service.Pages.{
  TrailRow, sort, is_before, is_asked, list_connection_events, page_limit, next_cursor, page,
}
use zappermeow.Service.Cursor.{
  IsAppended, sort_fixed, IsAppended-select, select_both, rest_after, last_full, take_short,
  page_limit_pos, left, left_all, left_next,
}

abbrev following : (ℕ → List TrailRow) → Option ℕ → List TrailRow
following next none = []
following next (some c) = next c

module _ (instance limit : ℕ) (wanted : ConnectionEventType → Bool) (rows : List TrailRow) where
  -- A client that follows the cursors to the end; the first argument bounds the pages.
  abbrev pub pages : ℕ → Option ℕ → List TrailRow
  pages zero before = []
  pages (suc fuel) before =
      let p = page instance limit before wanted rows in
      p.events ++ following (λ c. pages fuel (some c)) p.next_before

  abbrev asked : List TrailRow
  asked = select (is_asked instance wanted) rows

  listed :
      (before : Option ℕ)
      → IsAppended rows
      → list_connection_events instance before wanted (page_limit limit) rows
        ≡ take (page_limit limit) (left before asked)
  unfolding list_connection_events
  listed before h =
      ap (λ x. take (page_limit limit) (sort x))
        (select_both (is_asked instance wanted) (is_before before) rows)
      ∙ ap (take (page_limit limit)) (
          sort_fixed (left before asked) (
            IsAppended-select (is_before before) asked
              (IsAppended-select (is_asked instance wanted) rows h)))

  -- A page of at most `suc n` rows, and what its cursor leads to.
  page_step :
      (n fuel : ℕ) (before : Option ℕ)
      → IsAppended rows
      → ((c : ℕ) → length (left (some c) asked) < fuel → pages fuel (some c) ≡ left (some c) asked)
      → length (left before asked) < suc fuel
      → take (suc n) (left before asked)
          ++ following
              (λ c. pages fuel (some c))
              (next_cursor (suc n) (take (suc n) (left before asked)))
        ≡ left before asked
  page_step n fuel before h next enough =
      let rest = left before asked in
      elim (Bool-cases (length (take (suc n) rest) == suc n)) [
        | inr short ↦ rw short (append-nil (take (suc n) rest) ∙ take_short (suc n) rest short)
        | inl full ↦
            let whole : length (take (suc n) rest) ≡ suc n = ground (arith, full) in
            let (c, last) = last_full n (take (suc n) rest) whole in
            let split =
              rest_after n c rest
                (IsAppended-select (is_before before) asked
                  (IsAppended-select (is_asked instance wanted) rows h))
                whole last
              ∙ ap (◌++◌ (take (suc n) rest)) (left_next before (suc n) c asked last) in
            let fewer : length (left (some c) asked) < fuel =
              omega
                (arith, ap length split, length-append (take (suc n) rest) (left (some c) asked)) in
            rw (full, last) (ap (◌++◌ (take (suc n) rest)) (next c fewer) ∙ sym split)
      ]

  pages-left :
      (fuel : ℕ) (before : Option ℕ)
      → IsAppended rows
      → length (left before asked) < fuel
      → pages fuel before ≡ left before asked
  unfolding page
  pages-left zero before h enough = absurd (omega arith)
  pages-left (suc fuel) before h enough =
      let (n, size, most) = page_limit_pos limit in
      rw (listed before h, size)
        (page_step n fuel before h (λ c fewer. pages-left fuel (some c) h fewer) enough)

-- On a trail whose numbers count up and whose clock does not run back, a client that follows the cursors
-- from the first page reads every entry of the instance with the types asked for, exactly once and the
-- latest first, whatever limit it asks for; it needs no more pages than there are such entries, and one.
pub pages_complete :
    (instance limit : ℕ) (wanted : ConnectionEventType → Bool) (rows : List TrailRow) (fuel : ℕ)
    → IsAppended rows
    → length (select (is_asked instance wanted) rows) < fuel
    → pages instance limit wanted rows fuel none ≡ select (is_asked instance wanted) rows
pages_complete instance limit wanted rows fuel h enough =
    let all = left_all (select (is_asked instance wanted) rows) in
    pages-left instance limit wanted rows fuel none h (omega (arith, ap length all, enough)) ∙ all
