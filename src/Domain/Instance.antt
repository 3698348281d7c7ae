-- ===== src/Domain/Instance.antt =====
-- internal/domain/instance.go: the states of an instance, what the user asked for, and the table
-- of legal transitions. The Go types are strings; a text that is no named value is `other`.
pub mod Transitions
use zappermeow.Base.{
  ℕ, Bool, true, false, not, ◌&&◌, ◌||◌, String, List, [], ◌∷◌, Option, none, some, if◌then◌else◌,
}
use zappermeow.Domain.Reason.{DisconnectReason, is_permanent}

pub data InstanceState : Type 0 where
  registered pairing connecting connected disconnected logged_out banned : InstanceState
  other : String → InstanceState

-- `==` of two states, where one side is a named value.
abbrev pub same : InstanceState → InstanceState → Bool
same registered registered = true
same pairing pairing = true
same connecting connecting = true
same connected connected = true
same disconnected disconnected = true
same logged_out logged_out = true
same banned banned = true
same _ _ = false

unfoldable pub is_valid : InstanceState → Bool
is_valid (other s) = false
is_valid _ = true

unfoldable pub is_terminal : InstanceState → Bool
is_terminal s = same s logged_out || same s banned

pub data ConnectionIntent : Type 0 where
  active stopped : ConnectionIntent
  other_intent : String → ConnectionIntent

abbrev pub is_active : ConnectionIntent → Bool
is_active active = true
is_active _ = false

-- The map `allowedTransitions`; a missing key reads as the empty slice.
unfoldable allowed_transitions : InstanceState → List InstanceState
allowed_transitions registered = pairing ∷ []
allowed_transitions pairing = connected ∷ connecting ∷ registered ∷ disconnected ∷ []
allowed_transitions connecting = connected ∷ disconnected ∷ logged_out ∷ banned ∷ registered ∷ []
allowed_transitions connected = connecting ∷ disconnected ∷ logged_out ∷ banned ∷ []
allowed_transitions disconnected = connecting ∷ pairing ∷ registered ∷ logged_out ∷ banned ∷ []
allowed_transitions logged_out = pairing ∷ registered ∷ []
allowed_transitions banned = pairing ∷ connecting ∷ registered ∷ []
allowed_transitions (other s) = []

-- The loop over the allowed targets.
unfoldable contains_state : List InstanceState → InstanceState → Bool
contains_state [] to = false
contains_state (allowed ∷ more) to = if same allowed to then true else contains_state more to

unfoldable pub can_transition : InstanceState → InstanceState → Bool
unfolding is_valid allowed_transitions contains_state
can_transition from to =
    if not (is_valid from) || not (is_valid to)
    then false
    else if same from to
    then true
    else contains_state (allowed_transitions from) to

pub record DeviceIdentity : Type 0 where
  pub jid : String
  pub lid : String
  pub phone_number : String
  pub push_name : String
  pub platform : String
  pub business_name : String

-- The columns of an instance that decide its connection; times are instants.
pub record Instance : Type 0 where
  pub id : ℕ
  pub tenant_id : ℕ
  pub state : InstanceState
  pub intent : ConnectionIntent
  pub device : Option DeviceIdentity
  pub connected_at : Option ℕ
  pub last_disconnect_at : Option ℕ
  pub last_disconnect_reason : DisconnectReason
  pub ban_expires_at : Option ℕ

-- The automatic loops may adopt the instance.
unfoldable should_auto_reconnect : Instance → Bool
should_auto_reconnect i = is_active i.intent && not (is_permanent i.last_disconnect_reason)
