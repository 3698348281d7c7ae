-- ===== src/Tests/Events.antt =====
-- The laws of the publisher at a concrete Redis.
use zappermeow.Base.{ℕ, ◌≤◌, ◌<◌, Bool, true, false, [], ◌∷◌, ◌++◌, some, ◌≡◌, refl, arith, length}
use zappermeow.Events.{
  Redis, Frame, FrameType, Envelope, Fault, publish, current_seq, current_deadline,
}
use zappermeow.Events.Watch.{arrives, takes, opened, watch, watches}
use zappermeow.Events.Watched.{kept, watches_complete}
use zappermeow.Events.Laws.{publish-increasing, publish_all}

abbrev fine : Fault → Bool
fine f = false

-- The broadcast fails, after the number was allocated.
abbrev unsent : Fault → Bool
unsent Fault.send = true
unsent _ = false

abbrev frame : FrameType → Frame
frame type = record { type = type; instance_id = 7; generation = 5; data_of = [] }

abbrev empty : Redis
empty = record { counters = []; sent = []; pairings = []; claims = []; stops = [] }

abbrev envelope : ℕ → FrameType → ℕ → Envelope
envelope seq type at = record {
  seq = seq;
  type = type;
  instance_id = 7;
  generation = 5;
  occurred_at = at;
  data_of = [];
}

publish-increasing_example : 1 < 3
unfolding publish current_seq current_deadline publish_all
publish-increasing_example =
    publish-increasing fine fine 100 130 (frame FrameType.pairing_code) (frame FrameType.connected)
      ((unsent, 110, frame FrameType.pairing_succeeded) ∷ []) empty
      (envelope 1 FrameType.pairing_code 100) (envelope 3 FrameType.connected 130) refl
      (ground arith) (omega arith) refl refl

-- Two frames arrive, one of them older than the snapshot; the handler has taken one.
watches_complete_example :
    let s =
      watches
        (arrives (some (envelope 4 FrameType.connected 90))
          ∷ arrives (some (envelope 6 FrameType.disconnected 110))
          ∷ takes true
          ∷ [])
        (opened (envelope 5 FrameType.state_snapshot 100)) in
    (s.sent ++ kept s.last_seq s.buffer
      ≡ envelope 5 FrameType.state_snapshot 100 ∷ envelope 6 FrameType.disconnected 110 ∷ [])
    × ((5 < 6) × Unit {0})
    × (length s.buffer ≤ 64)
unfolding watches watch
watches_complete_example =
    watches_complete (envelope 5 FrameType.state_snapshot 100)
      (arrives (some (envelope 4 FrameType.connected 90))
        ∷ arrives (some (envelope 6 FrameType.disconnected 110))
        ∷ takes true
        ∷ [])
      refl refl
