-- ===== src/Domain/Reason/Laws.antt =====
-- What the two tables of permanent reasons of internal/domain/connectionevent.go have in common.
use text.Mathlib.Text.{◌==◌}
use zappermeow.Base.{Bool, ◌≡◌, refl, any}
use zappermeow.Domain.Reason.{
  DisconnectReason, none, other, to_string, is_permanent, permanent_reason_list,
}

-- A text that a known reason has.
abbrev pub IsKnown : DisconnectReason → Type 0
IsKnown (other s) = ⊥
IsKnown _ = Unit

abbrev pub listed : DisconnectReason → Bool
listed r = any (λ s. s == to_string r) permanent_reason_list

-- For every reason the program names, the texts that the adoption query excludes are exactly the
-- reasons for which `Permanent` holds.
pub listed-eq-is_permanent : (r : DisconnectReason) → IsKnown r → listed r ≡ is_permanent r
unfolding permanent_reason_list
listed-eq-is_permanent (other s) h = absurd h
listed-eq-is_permanent none h = refl
listed-eq-is_permanent _ h = refl
