-- ===== src/Domain/Instance/Transitions.antt =====
-- What the transition table of internal/domain/instance.go allows.
use zappermeow.Base.{true, ◌≡◌, refl, ◌≢◌, ◌⊎◌, arith}
use zappermeow.Domain.Instance.{
  InstanceState, registered, pairing, connecting, connected, disconnected, logged_out, banned,
  other, is_valid, is_terminal, can_transition,
}

-- A state that only an explicit command starts: pairing anew, dialling, or dropping the material.
abbrev IsCommanded : InstanceState → Type 0
IsCommanded pairing = Unit
IsCommanded connecting = Unit
IsCommanded registered = Unit
IsCommanded _ = ⊥

-- A chain of legal transitions.
pub data Reach (from : InstanceState) : InstanceState → Type 0 where
  here : is_valid from ≡ true → Reach from from
  then :
      {s : InstanceState}
      → Reach from s
      → (t : InstanceState) → can_transition s t ≡ true
      → Reach from t

-- A terminal state is left only for a state that a command starts, and a logged out instance, whose
-- session material is dead, is not dialled before it pairs again.
can_transition-terminal :
    (from to : InstanceState)
    → is_terminal from ≡ true
    → can_transition from to ≡ true
    → from ≢ to
    → IsCommanded to × (from ≡ logged_out → to ≢ connecting)
unfolding can_transition is_terminal
can_transition-terminal from to t c n = ground arith

-- An instance comes online only out of a pairing attempt or a dial, or stays online.
can_transition-connected :
    (from : InstanceState)
    → can_transition from connected ≡ true
    → (from ≡ pairing) ⊎ (from ≡ connecting) ⊎ (from ≡ connected)
unfolding can_transition
can_transition-connected from c = ground arith

Reach-pairing : (s : InstanceState) → is_valid s ≡ true → Reach s pairing
unfolding can_transition
Reach-pairing registered v = then (here v) pairing refl
Reach-pairing pairing v = here v
Reach-pairing connecting v = then (then (here v) disconnected refl) pairing refl
Reach-pairing connected v = then (then (here v) disconnected refl) pairing refl
Reach-pairing disconnected v = then (here v) pairing refl
Reach-pairing logged_out v = then (here v) pairing refl
Reach-pairing banned v = then (here v) pairing refl
Reach-pairing (other s) v = cc

-- No valid state is a dead end: legal transitions lead from it to every other valid state.
Reach-total : (from to : InstanceState) → is_valid from ≡ true → is_valid to ≡ true → Reach from to
unfolding can_transition
Reach-total from registered v w = then (Reach-pairing from v) registered refl
Reach-total from pairing v w = Reach-pairing from v
Reach-total from connecting v w = then (Reach-pairing from v) connecting refl
Reach-total from connected v w = then (Reach-pairing from v) connected refl
Reach-total from disconnected v w = then (Reach-pairing from v) disconnected refl
Reach-total from logged_out v w = then (then (Reach-pairing from v) connected refl) logged_out refl
Reach-total from banned v w = then (then (Reach-pairing from v) connected refl) banned refl
Reach-total from (other s) v w = cc
