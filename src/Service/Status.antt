-- ===== src/Service/Status.antt =====
-- Status of internal/domain/services/connection.go: what a tenant is told of a session from the tables
-- alone.
use zappermeow.Base.{
  ℕ, Bool, false, ◌&&◌, not, List, [], Option, none, some, String, Result, ok, err, ◌==◌,
  if◌then◌else◌, is_empty, same_text, select, map,
}
use zappermeow.Domain.Errors.{Error, err_internal, err_not_found}
use zappermeow.Domain.Instance.{InstanceState, ConnectionIntent, DeviceIdentity}
use zappermeow.Domain.Proxy.{Urls, mask_proxy_url}
use zappermeow.Domain.Reason.{DisconnectReason}
use zappermeow.Store.Instances.{InstanceRow, Instances, get_instance, instance_id}

-- An identity with the instant of its pairing.
pub record Device : Type 0 where
  pub identity : DeviceIdentity
  pub paired_at : Option ℕ

pub record ConnectionStatus : Type 0 where
  pub instance_id : ℕ
  pub state : InstanceState
  pub intent : ConnectionIntent
  pub connected_at : Option ℕ
  pub device : Option Device
  pub last_disconnect_at : Option ℕ
  last_reason : Option DisconnectReason
  pub ban_expires_at : Option ℕ
  shares_number_with : List ℕ
  pub proxy_url : String
  pub passive_mode : Bool

pub data StatusCall : Type 0 where
  reads lists : StatusCall

abbrev deref : Option String → String
deref none = ""
deref (some s) = s

-- A device for an instance that is paired.
abbrev device_of : InstanceRow → Option String → Option Device
device_of i none = none
device_of i (some jid) = some (record {
  identity = record {
    jid = jid;
    lid = deref i.wa_lid;
    phone_number = deref i.phone_number;
    push_name = deref i.push_name;
    platform = deref i.platform;
    business_name = deref i.business_name;
  };
  paired_at = i.paired_at;
})

abbrev has_number : String → Option String → Bool
has_number phone none = false
has_number phone (some p) = same_text p phone

-- The rows stand in the order in which they were created.
unfoldable pub list_instances_sharing_number : ℕ → String → ℕ → Instances → List ℕ
list_instances_sharing_number tenant phone id is = map instance_id (
    select
      (λ (i : InstanceRow).
        (i.tenant_id == tenant) && has_number phone i.phone_number && not (i.id == id))
      is)

abbrev masked : Urls → Option String → String
masked urls none = ""
masked urls (some url) = mask_proxy_url urls url

abbrev pub status_of : Urls → InstanceRow → List ℕ → ConnectionStatus
status_of urls i siblings = record {
  instance_id = i.id;
  state = i.connection_state;
  intent = i.connection_intent;
  connected_at = i.connected_at;
  device = device_of i i.wa_jid;
  last_disconnect_at = i.last_disconnect_at;
  last_reason = i.last_disconnect_reason;
  ban_expires_at = i.ban_expires_at;
  shares_number_with = siblings;
  proxy_url = masked urls i.proxy_url;
  passive_mode = i.passive_mode;
}

module _ (urls : Urls) (down : StatusCall → Bool) where
  -- The siblings are read where there is a number.
  abbrev with_siblings : InstanceRow → ℕ → Option String → Instances → Result Error ConnectionStatus
  with_siblings i tenant none is = ok (status_of urls i [])
  with_siblings i tenant (some phone) is =
      if is_empty phone
      then ok (status_of urls i [])
      else if down StatusCall.lists
      then err (err_internal "list siblings")
      else ok (status_of urls i (list_instances_sharing_number tenant phone i.id is))

  abbrev pub status_row : ℕ → Option InstanceRow → Instances → Result Error ConnectionStatus
  status_row tenant none is = err err_not_found
  status_row tenant (some i) is =
      if i.tenant_id == tenant then with_siblings i tenant i.phone_number is else err err_not_found

  unfoldable pub status : ℕ → ℕ → Instances → Result Error ConnectionStatus
  status tenant id is =
      if down StatusCall.reads
      then err (err_internal "get instance")
      else status_row tenant (get_instance id is) is
