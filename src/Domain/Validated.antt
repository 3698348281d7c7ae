-- ===== src/Domain/Validated.antt =====
-- What the rules of internal/domain/validate.go admit.
use Prim.Native.String.{String}
use Prim.Native.Char.{code}
use zappermeow.Base.{
  ◌≤◌, false, ◌&&◌, ◌≡◌, ◌↔◌, refl, ap, ◌∙◌, inl, inr, none, arith, Bool-cases, is_empty,
}
use zappermeow.Domain.Validate.{
  trim_left, trim_right, trim_space, rune_count, is_space, normalize_name, validate_name,
  max_name_length,
}

-- A text that begins with no space.
abbrev IsLeft : String → Type 0
IsLeft String.[] = Unit
IsLeft (String.◌∷◌ c s) = is_space (code c) ≡ false

trim_left_fixed : (s : String) → IsLeft s → trim_left s ≡ s
unfolding trim_left
trim_left_fixed String.[] h = refl
trim_left_fixed (String.◌∷◌ c s) h = rw h refl

trim_left-IsLeft : (s : String) → IsLeft (trim_left s)
unfolding trim_left
trim_left-IsLeft String.[] = tt
trim_left-IsLeft (String.◌∷◌ c s) = elim (Bool-cases (is_space (code c))) [
  | inl space ↦ rw space (trim_left-IsLeft s)
  | inr none_there ↦ rw none_there none_there
]

trim_right-IsLeft : (s : String) → IsLeft s → IsLeft (trim_right s)
unfolding trim_right
trim_right-IsLeft String.[] h = tt
trim_right-IsLeft (String.◌∷◌ c s) h = rw h h

trim_right_fixed : (s : String) → trim_right (trim_right s) ≡ trim_right s
unfolding trim_right
trim_right_fixed String.[] = refl
trim_right_fixed (String.◌∷◌ c s) =
    elim (Bool-cases (is_space (code c) && is_empty (trim_right s))) [
      | inl gone ↦ rw gone refl
      | inr stays ↦ rw (stays, trim_right_fixed s, stays) refl
    ]

trim_space_fixed : (s : String) → trim_space (trim_space s) ≡ trim_space s
unfolding trim_space
trim_space_fixed s =
    ap trim_right (
      trim_left_fixed (trim_right (trim_left s))
        (trim_right-IsLeft (trim_left s) (trim_left-IsLeft s)))
    ∙ trim_right_fixed (trim_left s)

-- A name passes exactly when, without the space around it, it is not empty and has at most 120
-- characters; and the form in which it is stored passes again and is stored as it is.
validate_name_iff :
    (location name : String)
    → ((validate_name location name ≡ none) ↔ (
        (is_empty (normalize_name name) ≡ false)
        × (rune_count (normalize_name name) ≤ max_name_length)))
      × (validate_name location (normalize_name name) ≡ validate_name location name)
      × (normalize_name (normalize_name name) ≡ normalize_name name)
unfolding validate_name
validate_name_iff location name = (
  (λ h. (ground arith, ground arith), λ (shown, short). ground (arith, shown, short)),
  rw (trim_space_fixed name) refl,
  trim_space_fixed name,
)
