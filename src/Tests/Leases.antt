-- ===== src/Tests/Leases.antt =====
-- Two workers, 1 and 2, and one session, 7, on the lease table.
use zappermeow.Base.{ℕ, ◌<◌, false, ◌≡◌, refl, List, [], ◌∷◌, none, some, err, In, arith}
use zappermeow.Domain.Instance.{registered, active}
use zappermeow.Domain.Reason.{DisconnectReason, permanent_reason_list}
use zappermeow.Store.Table.{find, update}
use zappermeow.Store.Leases.{
  running, LeaseRow, acquire_lease, heartbeat_leases, ensure_lease, set_desired_state,
  release_lease, set_tenant_desired_state, release_worker_leases,
}
use zappermeow.Store.Instances.{InstanceRow}
use zappermeow.Store.Adoptable.{list_adoptable_leases, is_adoptable, order_by_age}
use zappermeow.Lease.{Manager, acquire, adoptable, check_generation, wrong_generation}
use zappermeow.Lease.Trace.{Call, sets, ensures, acquires, heartbeats, releases, step, run}
use zappermeow.Lease.Exclusive.{IsRefused, IsFenced, IsLive, run-exclusive}
use zappermeow.Lease.Fencing.{check_generation-outdated, acquire-increasing}
use zappermeow.Lease.Adoption.{adoptable_complete}
use zappermeow.Lease.Invariant.{Inv, run-Inv}

abbrev first : Manager
first = record { worker_id = 1; grpc_addr = 91; expiry = 30 }

abbrev pub second : Manager
second = record { worker_id = 2; grpc_addr = 92; expiry = 30 }

-- Session 7, owned by worker 1 under generation 4, renewed at 100.
abbrev pub owned : LeaseRow
owned = record {
  instance_id = 7;
  worker_id = some 1;
  grpc_addr = some 91;
  generation = 4;
  heartbeat_at = some 100;
  desired_state = running;
  updated_at = 100;
}

abbrev free : LeaseRow
free = record owned { worker_id = none; grpc_addr = none; heartbeat_at = none }

-- Worker 2 tries twice; worker 1 renews in between.
abbrev contest : List (ℕ × Call)
contest =
    (110, acquires 7 2 92) ∷ (120, heartbeats 1) ∷ (145, acquires 7 2 92) ∷ (146, releases 7 2) ∷ []

statements : Unit {0}
unfolding find update acquire_lease heartbeat_leases ensure_lease set_desired_state release_lease
    set_tenant_desired_state release_worker_leases list_adoptable_leases is_adoptable order_by_age
statements = tt

run-exclusive_example :
    let u = run 30 contest (owned ∷ []) in
    IsRefused second 150 7 u
    × (second.worker_id ≡ 1 → IsFenced second 7 4 u)
    × IsLive second 150 7 4 u
unfolding statements
run-exclusive_example =
    run-exclusive 30 1 7 4 100 contest (owned ∷ []) owned second 150 refl refl (ground arith)
      (ground arith) (omega arith)

-- Worker 1 has been silent for more than 30 at 131.
check_generation-outdated_example :
    check_generation first false 7 4 (run 30 contest (acquire second false 131 7 (owned ∷ [])).1)
    ≡ err wrong_generation
unfolding statements check_generation acquire
check_generation-outdated_example =
    check_generation-outdated first second 131 7 4 5 30 (owned ∷ []) contest refl refl

acquire-increasing_example : 5 < 6
unfolding statements acquire run step
acquire-increasing_example =
    acquire-increasing first second 130 200 7 5 6 30 (free ∷ []) ((131, heartbeats 1) ∷ []) refl
      refl

abbrev resting : InstanceRow
resting = record {
  id = 7;
  tenant_id = 3;
  name = "first";
  connection_state = registered;
  connection_intent = active;
  wa_jid = none;
  wa_lid = none;
  phone_number = none;
  push_name = none;
  platform = none;
  business_name = none;
  paired_at = none;
  connected_at = none;
  last_disconnect_at = some 90;
  last_disconnect_reason = some DisconnectReason.network;
  ban_expires_at = none;
  proxy_url = none;
  passive_mode = false;
  updated_at = 90;
}

adoptable_complete_example : In {A = ℕ} 7 (7 ∷ [])
unfolding statements adoptable permanent_reason_list
adoptable_complete_example =
    adoptable_complete first 200 5 7 (resting ∷ []) (free ∷ []) (7 ∷ []) refl (omega arith)
      (record {
        row = free;
        stored = refl;
        free = refl;
        instance_row = resting;
        joined = refl;
        retried = refl;
      })

abbrev boot : List (ℕ × Call)
boot = (50, ensures 7) ∷ (51, sets 7 running) ∷ (52, acquires 7 1 91) ∷ []

run-Inv_example : Inv (run 30 boot [])
run-Inv_example = run-Inv 30 boot
