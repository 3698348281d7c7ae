-- ===== src/Service/Settings.antt =====
-- internal/domain/services/connection.go: the settings of a session and the forwarded commands.
use zappermeow.Base.{
  ℕ, Bool, true, false, String, [], ◌∷◌, none, some, Result, ok, err, if◌then◌else◌,
}
use zappermeow.Domain.Errors.{Error, err_internal}
use zappermeow.Domain.Proxy.{Urls, normalize_proxy_url, validate_proxy_url, mask_proxy_url}
use zappermeow.Domain.Trail.{ConnectionEvent, ConnectionEventType, Detail, Value}
use zappermeow.Rpc.Client.{ClientError, translate_session_error}
use zappermeow.Service.{Call, sets_proxy, sets_passive, appends}
use zappermeow.Store.Instances.{set_instance_proxy, set_instance_passive_mode}
use zappermeow.Service.Front.{
  Front, Sessions, ApplyResponse, Codes, SettingsResult, with_plane, with_instances,
}

module _ {W : Type 0} (api : Sessions W) (down : Call → Bool) (now : ℕ) where
  -- The failures of the client are translated.
  abbrev translated : {A : Type 0} → Result ClientError A × Front W → Result Error A × Front W
  translated (ok a, w) = (ok a, w)
  translated (err e, w) = (err (translate_session_error e), w)

  abbrev applied : Result ClientError ApplyResponse → ApplyResponse
  applied (ok r) = r
  applied (err e) = record { reconnecting = false; passive_applied = false }

  -- A failure is not one of the request: the value is stored.
  unfoldable pub apply_settings : ℕ → Bool → Bool → Front W → ApplyResponse × Front W
  apply_settings id proxy passive w =
      let answer = api.apply_settings id proxy passive now w in (applied answer.0, answer.1)

  abbrev settings_entry : ℕ → ConnectionEventType → Detail → ConnectionEvent
  settings_entry id type detail = record {
    instance_id = id;
    type = type;
    reason = none;
    detail = detail;
    occurred_at = now;
  }

  abbrev record_settings_change : ℕ → ConnectionEventType → Detail → Front W → Front W
  record_settings_change id type detail w = record w {
    trail = if down appends then w.trail else settings_entry id type detail ∷ w.trail;
  }

  abbrev proxy_stored : ℕ → String → Front W → Front W
  proxy_stored id url w =
      with_plane w (with_instances (set_instance_proxy now id (some url) w.plane.instances) w.plane)

  -- The stored address is the one that the next connection reads; the owner is only told sooner.
  unfoldable set_proxy :
      Urls → (String → String) → ℕ → String → Front W → Result Error SettingsResult × Front W
  set_proxy urls lower id raw w =
      let normalized = normalize_proxy_url raw in
      let masked = mask_proxy_url urls normalized in
      elim (validate_proxy_url urls lower "body.url" raw) [
        | some e ↦ (err e, w)
        | none ↦
            if down sets_proxy
            then (err (err_internal "set proxy"), w)
            else let (r, w') = apply_settings id true false (
                record_settings_change id ConnectionEventType.proxy_updated
                  (("proxy", Value.text masked) ∷ []) (proxy_stored id normalized w)) in
              (
                ok (record {
                  proxy_url = masked;
                  reconnecting = r.reconnecting;
                  passive_mode = false;
                  passive_applied = false;
                }),
                w',
              )
      ]

  abbrev proxy_cleared : ℕ → Front W → Front W
  proxy_cleared id w =
      with_plane w (with_instances (set_instance_proxy now id none w.plane.instances) w.plane)

  unfoldable clear_proxy : ℕ → Front W → Result Error SettingsResult × Front W
  clear_proxy id w =
      if down sets_proxy
      then (err (err_internal "set proxy"), w)
      else let (r, w') = apply_settings id true false (
          record_settings_change id ConnectionEventType.proxy_updated (("proxy", Value.null) ∷ [])
            (proxy_cleared id w)) in
        (
          ok (record {
            proxy_url = "";
            reconnecting = r.reconnecting;
            passive_mode = false;
            passive_applied = false;
          }),
          w',
        )

  abbrev passive_stored : ℕ → Bool → Front W → Front W
  passive_stored id enabled w =
      with_plane w
        (with_instances (set_instance_passive_mode now id enabled w.plane.instances) w.plane)

  unfoldable set_passive_mode : ℕ → Bool → Front W → Result Error SettingsResult × Front W
  set_passive_mode id enabled w =
      if down sets_passive
      then (err (err_internal "set passive mode"), w)
      else let (r, w') = apply_settings id false true (
          record_settings_change id ConnectionEventType.passive_mode_updated
            (("passive", Value.flag enabled) ∷ []) (passive_stored id enabled w)) in
        (
          ok (record {
            proxy_url = "";
            reconnecting = false;
            passive_mode = enabled;
            passive_applied = r.passive_applied;
          }),
          w',
        )

  unfoldable pub submit_passkey_response : ℕ → String → Front W → Result Error (Unit {0}) × Front W
  submit_passkey_response id json w = translated (api.submit_passkey_response id json now w)

  unfoldable pub confirm_passkey : ℕ → Front W → Result Error (Unit {0}) × Front W
  confirm_passkey id w = translated (api.confirm_passkey id now w)

  unfoldable pub identity_verification_codes : ℕ → String → Front W → Result Error Codes × Front W
  identity_verification_codes id contact w =
      translated (api.identity_verification_codes id contact now w)
