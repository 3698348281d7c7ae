-- ===== src/Store/Instances.antt =====
-- The instances table and the statements of internal/store/connection.sql.go that the worker runs.
-- The columns hold what internal/domain names; `connection_state` admits the seven states.
use zappermeow.Base.{ℕ, Bool, List, Option, none, some, String, ◌==◌, if◌then◌else◌}
use zappermeow.Domain.Instance.{
  InstanceState, ConnectionIntent, DeviceIdentity, registered, connected, same,
}
use zappermeow.Domain.Reason.{DisconnectReason}
use zappermeow.Store.Table.{find, update}

pub record InstanceRow : Type 0 where
  pub id : ℕ
  pub tenant_id : ℕ
  pub name : String
  pub connection_state : InstanceState
  pub connection_intent : ConnectionIntent
  pub wa_jid : Option String
  pub wa_lid : Option String
  pub phone_number : Option String
  pub push_name : Option String
  pub platform : Option String
  pub business_name : Option String
  pub paired_at : Option ℕ
  pub connected_at : Option ℕ
  pub last_disconnect_at : Option ℕ
  pub last_disconnect_reason : Option DisconnectReason
  pub ban_expires_at : Option ℕ
  pub proxy_url : Option String
  pub passive_mode : Bool
  pub updated_at : ℕ

abbrev pub Instances : Type 0
Instances = List InstanceRow

abbrev pub instance_id : InstanceRow → ℕ
instance_id r = r.id

abbrev pub get_instance : ℕ → Instances → Option InstanceRow
get_instance = find instance_id

-- `UPDATE instances SET f WHERE id = $1`.
unfoldable pub on_instance : ℕ → (InstanceRow → InstanceRow) → Instances → Instances
on_instance id f = update (λ r. r.id == id) f

abbrev pub in_state : ℕ → InstanceState → InstanceRow → InstanceRow
in_state now s r = record r {
  connection_state = s;
  connected_at = if same s connected then some now else none;
  updated_at = now;
}

abbrev pub set_connection_state : ℕ → ℕ → InstanceState → Instances → Instances
set_connection_state now id s = on_instance id (in_state now s)

abbrev disconnected_as : ℕ → InstanceState → DisconnectReason → Option ℕ → InstanceRow → InstanceRow
disconnected_as now s reason ban r = record r {
  connection_state = s;
  connected_at = none;
  last_disconnect_at = some now;
  last_disconnect_reason = some reason;
  ban_expires_at = ban;
  updated_at = now;
}

abbrev pub record_disconnect :
    ℕ → ℕ → InstanceState → DisconnectReason → Option ℕ → Instances → Instances
record_disconnect now id s reason ban = on_instance id (disconnected_as now s reason ban)

abbrev with_device : ℕ → DeviceIdentity → InstanceRow → InstanceRow
with_device now d r = record r {
  wa_jid = some d.jid;
  wa_lid = some d.lid;
  phone_number = some d.phone_number;
  push_name = some d.push_name;
  platform = some d.platform;
  business_name = some d.business_name;
  paired_at = some now;
  updated_at = now;
}

abbrev pub set_device_identity : ℕ → ℕ → DeviceIdentity → Instances → Instances
set_device_identity now id d = on_instance id (with_device now d)

-- The number stays.
abbrev without_material : ℕ → InstanceRow → InstanceRow
without_material now r = record r {
  wa_jid = none;
  wa_lid = none;
  push_name = none;
  platform = none;
  business_name = none;
  paired_at = none;
  connected_at = none;
  updated_at = now;
}

abbrev pub clear_device_material : ℕ → ℕ → Instances → Instances
clear_device_material now id = on_instance id (without_material now)

abbrev pub without_identity : ℕ → InstanceRow → InstanceRow
without_identity now r = record r {
  wa_jid = none;
  wa_lid = none;
  phone_number = none;
  push_name = none;
  platform = none;
  business_name = none;
  paired_at = none;
  connected_at = none;
  ban_expires_at = none;
  connection_state = registered;
  updated_at = now;
}

abbrev pub clear_device_identity : ℕ → ℕ → Instances → Instances
clear_device_identity now id = on_instance id (without_identity now)

abbrev pub with_intent : ℕ → ConnectionIntent → Bool → InstanceRow → InstanceRow
with_intent now intent clear_reason r = record r {
  connection_intent = intent;
  last_disconnect_reason = if clear_reason then none else r.last_disconnect_reason;
  updated_at = now;
}

abbrev pub set_connection_intent : ℕ → ℕ → ConnectionIntent → Bool → Instances → Instances
set_connection_intent now id intent clear_reason =
    on_instance id (with_intent now intent clear_reason)

abbrev pub with_proxy : ℕ → Option String → InstanceRow → InstanceRow
with_proxy now url r = record r { proxy_url = url; updated_at = now }

abbrev pub set_instance_proxy : ℕ → ℕ → Option String → Instances → Instances
set_instance_proxy now id url = on_instance id (with_proxy now url)

abbrev with_passive_mode : ℕ → Bool → InstanceRow → InstanceRow
with_passive_mode now passive r = record r { passive_mode = passive; updated_at = now }

abbrev pub set_instance_passive_mode : ℕ → ℕ → Bool → Instances → Instances
set_instance_passive_mode now id passive = on_instance id (with_passive_mode now passive)
