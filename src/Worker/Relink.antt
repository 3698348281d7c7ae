-- ===== src/Worker/Relink.antt =====
-- A session built again for new settings keeps its place: its instance, its lease generation, and the
-- bound on the number of sessions (internal/worker/supervisor.go, `relink` and `ApplySettings`).
use zappermeow.Base.{
  String, ℕ, Bool, false, ◌≡◌, refl, sym, ap, ◌∙◌, inl, inr, List, ◌∷◌, Option, none, some, Result,
  ok, err, select, In, arith,
}
use zappermeow.Domain.Instance.{InstanceState}
use zappermeow.Store.Keys.{In-find, cons-IsKeyed}
use zappermeow.Store.Instances.{InstanceRow}
use zappermeow.Store.Table.{find, key-find}
use zappermeow.Lease.Ownership.{Advances-refl}
use zappermeow.Wa.Session.{SessionApi, SessionError}
use zappermeow.Worker.State.{
  Call, WorkerError, Config, Managed, World, managed_key, lookup, record_loss, append, emit,
  drop_snapshot, load_instance,
}
use zappermeow.Worker.Sessions.{
  is_dialled, stop, put, built, loaded_by, start, dial, publish_pairing_ended,
}
use zappermeow.Worker.Commands.{Outcome, load_settings}
use zappermeow.Worker.Settings.{
  apply_passive_mode, redialled, rebuilt, relink_recorded, ended, relink, settings_relinked,
  settings_applied, settings_loaded, apply_settings, response_sent, submit_passkey_response,
  confirmed, confirm_passkey,
}
use zappermeow.Worker.Keeps.{
  Source, Trims, Trims-trans, length-select, is_not, find-stopped, Trims-stop, length-stopped,
  Keeps, Keeps-refl, Change-trans, stop-Keeps, option-Keeps, if-Keeps,
}
use zappermeow.Worker.Preserve.{session-Keeps}

module _ {S : Type 0} where
  -- A session put in the place of one that runs.
  Trims-replaced :
      (xs : List (Managed S)) (m new : Managed S)
      → find managed_key m.instance_id xs ≡ some m
      → new.instance_id ≡ m.instance_id
      → new.generation ≡ m.generation
      → Trims xs (new ∷ select (is_not m.instance_id) (select (is_not m.instance_id) xs))
  Trims-replaced xs m new there same_id same_generation = record {
    shorter = omega (
      arith,
      length-stopped m.instance_id xs m there,
      length-select (is_not m.instance_id) (select (is_not m.instance_id) xs),
    );
    keyed = λ k.
        cons-IsKeyed managed_key new rest
          (ap (λ i. find managed_key i rest) same_id
            ∙ find-stopped m.instance_id (select (is_not m.instance_id) xs))
          (twice.keyed k);
    from = λ x i. source x i;
  }
    where
      rest : List (Managed S)
      rest = select (is_not m.instance_id) (select (is_not m.instance_id) xs)

      twice : Trims xs rest
      twice =
          Trims-trans xs (select (is_not m.instance_id) xs) rest (Trims-stop m.instance_id xs)
            (Trims-stop m.instance_id (select (is_not m.instance_id) xs))

      source : (x : Managed S) → In x (new ∷ rest) → Source xs x
      source x (inl e) = (
        m,
        In-find managed_key m.instance_id xs m there,
        sym same_id ∙ sym (ap managed_key e),
        sym same_generation ∙ sym (ap (λ (y : Managed S). y.generation) e),
      )
      source x (inr i) = twice.from x i

module _ {S : Type 0} (api : SessionApi S) (c : Config) (down : Call → Bool) (now : ℕ)
    {owner : ℕ} where
  put-Keeps :
      (m : Managed S) (s : S) (dial : Bool) (w : World S)
      → find managed_key m.instance_id w.sessions ≡ some m
      → Keeps owner w (put api c down now m.instance_id m.generation s dial (stop m.instance_id w))
  unfolding put stop
  put-Keeps m s dial w there = record {
    sessions = Trims-replaced w.sessions m _ there refl refl;
    leases = Advances-refl owner w.leases;
    drained = λ d. d;
  }

  pub rebuilt-Keeps :
      (id : ℕ) (r : Result WorkerError (Unit {0}) × World S)
      → Keeps owner r.1 (rebuilt api c down now id r).1
  rebuilt-Keeps id (err e, v) = Keeps-refl v
  rebuilt-Keeps id (ok u, v) = by_lookup (lookup id v)
    where
      by_lookup : (o : Option (Managed S)) → Keeps owner v (redialled api c down now o v).1
      by_lookup none = Keeps-refl v
      by_lookup (some m) = Keeps-refl v

  start-Keeps :
      (m : Managed S) (w : World S)
      → find managed_key m.instance_id w.sessions ≡ some m
      → Keeps owner w (start api c down now m.instance_id m.generation (stop m.instance_id w)).1
  unfolding start
  start-Keeps m w there = by_row (load_instance down now m.instance_id (stop m.instance_id w))
    where
      by_session :
          (row : InstanceRow) (r : Result SessionError S)
          → Keeps owner w
              (built api c down now m.instance_id m.generation row (stop m.instance_id w) r).1
      by_session row (err e) = stop-Keeps m.instance_id w
      by_session row (ok s) = put-Keeps m s (is_dialled row) w there

      by_row :
          (r : Result WorkerError InstanceRow)
          → Keeps owner w
              (loaded_by api c down now m.instance_id m.generation (stop m.instance_id w) r).1
      by_row (err e) = stop-Keeps m.instance_id w
      by_row (ok row) = by_session row _

  relink-Keeps :
      (m : Managed S) (w : World S)
      → find managed_key m.instance_id w.sessions ≡ some m
      → Keeps owner w (relink api c down now m w).1
  unfolding relink emit append record_loss publish_pairing_ended drop_snapshot
  relink-Keeps m w there =
      Change-trans
        (start-Keeps m (relink_recorded api c down now m (ended api c down now m w)) there)
        (rebuilt-Keeps m.instance_id _)

  pub passive-Keeps :
      (m : Managed S) (passive : Bool) (w : World S)
      → Keeps owner w (apply_passive_mode api c down now m passive w).1
  unfolding apply_passive_mode
  passive-Keeps m passive w =
      if-Keeps w (api.status m.session).connected _ _
        (session-Keeps api c down now (api.set_passive passive m.session).1 m.instance_id w)
        (Keeps-refl w)

  pub apply_settings-Keeps :
      (id : ℕ) (proxy passive : Bool) (w : World S)
      → Keeps owner w (apply_settings api c down now id proxy passive w).1
  unfolding apply_settings
  apply_settings-Keeps id proxy passive w =
      option-Keeps w (lookup id w) (err WorkerError.unknown_instance, w) _ (Keeps-refl w)
        (λ m e.
          by_settings m (load_settings api c down now id w)
            (ap (λ i. find managed_key i w.sessions) (key-find managed_key id w.sessions m e) ∙ e))
    where
      by_relink :
          (r : Outcome S (Unit {0})) → Keeps owner r.1 (settings_relinked api c down now r).1
      by_relink (err e, v) = Keeps-refl v
      by_relink (ok u, v) = Keeps-refl v

      by_mode :
          (i : ℕ) (r : Outcome S Bool) → Keeps owner r.1 (settings_applied api c down now i r).1
      by_mode i (err e, v) = Keeps-refl v
      by_mode i (ok a, v) = Keeps-refl v

      by_settings :
          (m : Managed S) (r : Result WorkerError Bool)
          → find managed_key m.instance_id w.sessions ≡ some m
          → Keeps owner w (settings_loaded api c down now proxy passive m r w).1
      by_settings m (err e) there = Keeps-refl w
      by_settings m (ok mode) there =
          if-Keeps w proxy _ _
            (Change-trans (relink-Keeps m w there) (by_relink (relink api c down now m w)))
            (Change-trans
              (if-Keeps w passive (apply_passive_mode api c down now m mode w) (ok false, w)
                (passive-Keeps m mode w) (Keeps-refl w))
              (by_mode m.instance_id _))

  response-Keeps :
      (id : ℕ) (r : Result SessionError (Unit {0}) × S) (w : World S)
      → Keeps owner w (response_sent api c down now id r w).1
  response-Keeps id (err e, s) w = session-Keeps api c down now s id w
  response-Keeps id (ok u, s) w = session-Keeps api c down now s id w

  pub submit-Keeps :
      (id : ℕ) (json : String) (w : World S)
      → Keeps owner w (submit_passkey_response api c down now id json w).1
  unfolding submit_passkey_response
  submit-Keeps id json w =
      option-Keeps w (lookup id w) (err WorkerError.unknown_instance, w) _ (Keeps-refl w)
        (λ m e. response-Keeps id (api.send_passkey_response json m.session) w)

  pub confirm-Keeps : (id : ℕ) (w : World S) → Keeps owner w (confirm_passkey api c down now id w).1
  unfolding confirm_passkey append
  confirm-Keeps id w =
      option-Keeps w (lookup id w) (err WorkerError.unknown_instance, w) _ (Keeps-refl w)
        (λ m e. Change-trans (response-Keeps id (api.confirm_passkey m.session) w) (by_answer _))
    where
      by_answer : (r : Outcome S InstanceState) → Keeps owner r.1 (confirmed api c down now id r).1
      by_answer (err e, v) = Keeps-refl v
      by_answer (ok s, v) = Keeps-refl v
