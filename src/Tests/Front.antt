-- ===== src/Tests/Front.antt =====
-- The commands of the connection service, and its reading of the trail, at a concrete session.
use zappermeow.Base.{
  ℕ, ◌+◌, Bool, true, false, List, [], ◌∷◌, none, some, Result, ok, err, ◌≡◌, refl, arith,
  if◌then◌else◌, ◌==◌, select, Option,
}
use zappermeow.Domain.Instance as Instance
use zappermeow.Domain.Trail.{ConnectionEventType}
use zappermeow.Domain.Errors.{Error}
use zappermeow.Lease.{acquire, not_acquired}
use zappermeow.Rpc.Client.{no_owner}
use zappermeow.Service.Commands.{disconnect}
use zappermeow.Service.Front.{Front, Sessions, Command, pause, woken, claim_and_retry}
use zappermeow.Service.Offline.{disconnect-offline}
use zappermeow.Service.Paged.{pages, pages_complete}
use zappermeow.Service.Pages.{TrailRow, is_asked}
use zappermeow.Service.Retried.{at_once, later, claim_and_retry-Returns, claim_and_retry-Delivers}
use zappermeow.Store.Instances.{get_instance, in_state, with_intent}
use zappermeow.Store.Table.{find}
use zappermeow.Tests.Service.{plane, fine}
use zappermeow.Tests.Workers.{config, resting}

-- The workers are the number of times that they were asked.
abbrev asleep : Front ℕ
asleep = record { plane = plane; trail = []; workers = 0 }

-- At the second question a worker has taken the session.
abbrev answers : Command ℕ ℕ
answers now w =
    let asked = record w { workers = w.workers + 1 } in
    if w.workers == 0 then (err no_owner, asked) else (ok 8, asked)

abbrev waits : ℕ → Front ℕ → Option (ℕ × Front ℕ)
waits now w = some (now + pause, w)

claim_and_retry-Returns_example :
    (r : Result Error ℕ × Front ℕ) × (claim_and_retry answers waits fine 5000000000 7 100 asleep
      ≡ some r)
claim_and_retry-Returns_example =
    claim_and_retry-Returns answers waits fine 5000000000 7 100 asleep
      (λ now now' w w' e. ground (arith, e))

abbrev served : Front ℕ
served = record (woken answers waits 7 asleep) { workers = 2 }

claim_and_retry-Delivers_example :
    claim_and_retry answers waits fine 5000000000 7 100 asleep ≡ some (ok 8, served)
claim_and_retry-Delivers_example =
    claim_and_retry-Delivers answers waits fine 5000000000 7 100 asleep 8 served
      (λ now now' w w' e. ground (arith, e)) refl (later refl (omega arith) refl (at_once refl))

-- Nobody has the session of instance 7.
abbrev alone : Sessions ℕ
alone = record {
  connect = λ id now w. (err no_owner, w);
  disconnect = λ id now w. (err no_owner, w);
  pair_phone = λ id phone replace now w. (err no_owner, w);
  logout = λ id clear now w. (err no_owner, w);
  apply_settings = λ id proxy passive now w. (err no_owner, w);
  submit_passkey_response = λ id json now w. (err no_owner, w);
  confirm_passkey = λ id now w. (err no_owner, w);
  identity_verification_codes = λ id contact now w. (err no_owner, w);
}

disconnect-offline_example :
    let q = disconnect alone config.manager fine 100 7 asleep in
    (q.0 ≡ ok Instance.disconnected)
    × (get_instance 7 q.1.plane.instances
        ≡ some
            (in_state 100 Instance.disconnected (with_intent 100 Instance.stopped false resting)))
    × ((acquire config.manager false 200 7 q.1.plane.leases).0 ≡ err not_acquired)
unfolding find
disconnect-offline_example =
    disconnect-offline alone config.manager fine 100 7 asleep resting config.manager 200 (λ c. refl)
      refl (λ v. refl)

abbrev entry : ℕ → ℕ → TrailRow
entry id at_ = record {
  id = id;
  event = record {
    instance_id = 7;
    type = ConnectionEventType.connected;
    reason = none;
    detail = [];
    occurred_at = at_;
  };
}

abbrev trail : List TrailRow
trail = entry 3 50 ∷ entry 2 40 ∷ entry 1 40 ∷ []

abbrev every : ConnectionEventType → Bool
every t = true

pages_complete_example : pages 7 2 every trail 4 none ≡ select (is_asked 7 every) trail
pages_complete_example =
    pages_complete 7 2 every trail 4
      (
        (omega arith, omega arith, (omega arith, omega arith, tt)),
        ((omega arith, omega arith, tt), (tt, tt)),
      )
      (omega arith)
