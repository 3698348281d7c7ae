-- ===== src/Events.antt =====
-- internal/events/events.go and publisher.go: the frames for the WebSocket clients, their sequence
-- numbers and the stored pairing snapshot, on a model of what Redis holds. A key's expiry is the
-- instant from which it reads as absent; the counter's 24-hour expiry is a refreshed deadline.
pub mod Laws
pub mod Watch
pub mod Watched
use zappermeow.Base.{
  ℕ, ◌+◌, Bool, true, List, [], ◌∷◌, Option, none, some, String, Result, ok, err, ltb, leb, ◌==◌,
  if◌then◌else◌,
}
use zappermeow.Domain.Trail.{Detail}

pub data FrameType : Type 0 where
  state_snapshot pairing_code pairing_succeeded pairing_expired pairing_failed : FrameType
  connected disconnected logged_out banned number_changed : FrameType
  pairing_passkey_challenge pairing_passkey_code : FrameType

pub record Envelope : Type 0 where
  pub seq : ℕ
  pub type : FrameType
  pub instance_id : ℕ
  pub generation : ℕ
  pub occurred_at : ℕ
  pub data_of : Detail

-- `unset` is the empty value that older snapshots carry.
pub data PairingPhase : Type 0 where
  qr passkey_challenge passkey_code unset : PairingPhase

pub record PairingSnapshot : Type 0 where
  pub method : String
  pub phase : PairingPhase
  pub code : String
  pub expires_at : ℕ
  pub challenge : String

unfoldable current_phase : PairingSnapshot → PairingPhase
current_phase s = elim s.phase [ unset ↦ qr | p ↦ p ]

pub record Counter : Type 0 where
  pub counts : ℕ
  pub value : ℕ
  pub until : Option ℕ

-- A counter with no deadline, or with one ahead.
abbrev is_current : ℕ → Counter → Bool
is_current now c = elim c.until [ none ↦ true | some d ↦ ltb now d ]

pub record Stored : Type 0 where
  pub stored_for : ℕ
  pub snapshot : PairingSnapshot
  pub until : ℕ

-- The counters, the frames sent (the latest first), the snapshots and the control messages.
pub record Redis : Type 0 where
  pub counters : List Counter
  pub sent : List Envelope
  pub pairings : List Stored
  pub claims : List ℕ
  pub stops : List ℕ

-- 24 hours, in seconds.
abbrev pub seq_ttl : ℕ
seq_ttl = 86400

-- The value of a live counter; an absent key counts from 0.
unfoldable pub current_seq : ℕ → ℕ → List Counter → ℕ
current_seq now id [] = 0
current_seq now id (c ∷ cs) =
    let rest = current_seq now id cs in
    if c.counts == id then (if is_current now c then c.value else 0) else rest

-- The deadline that INCR leaves: that of a live counter, none for a new one.
unfoldable pub current_deadline : ℕ → ℕ → List Counter → Option ℕ
current_deadline now id [] = none
current_deadline now id (c ∷ cs) =
    let rest = current_deadline now id cs in
    if c.counts == id then (if is_current now c then c.until else none) else rest

pub data Fault : Type 0 where
  incr expire send : Fault

-- What Publish takes: the fields the worker sets.
pub record Frame : Type 0 where
  pub type : FrameType
  pub instance_id : ℕ
  pub generation : ℕ
  pub data_of : Detail

abbrev stamped : ℕ → ℕ → Frame → Envelope
stamped now seq f = record {
  seq = seq;
  type = f.type;
  instance_id = f.instance_id;
  generation = f.generation;
  occurred_at = now;
  data_of = f.data_of;
}

abbrev counted : ℕ → ℕ → Option ℕ → Redis → Redis
counted id seq until r = record r {
  counters = (record { counts = id; value = seq; until = until }) ∷ r.counters;
}

-- INCR, then EXPIRE, then PUBLISH; the number stays allocated when a later one fails.
unfoldable pub publish : (Fault → Bool) → ℕ → Frame → Redis → Result Fault Envelope × Redis
publish fails now f r =
    let seq = current_seq now f.instance_id r.counters + 1 in
    let envelope = stamped now seq f in
    let old = current_deadline now f.instance_id r.counters in
    let incremented = counted f.instance_id seq old r in
    let refreshed = counted f.instance_id seq (some (now + seq_ttl)) r in
    if fails Fault.incr
    then (err Fault.incr, r)
    else if fails Fault.expire
    then (err Fault.expire, incremented)
    else if fails Fault.send
    then (err Fault.send, refreshed)
    else (ok envelope, record refreshed { sent = envelope ∷ r.sent })

abbrev pub without : ℕ → List Stored → List Stored
without id [] = []
without id (s ∷ ss) = let rest = without id ss in if s.stored_for == id then rest else s ∷ rest

unfoldable pub clear_pairing : Bool → ℕ → Redis → Redis
clear_pairing fails id r = record r {
  pairings = if fails then r.pairings else without id r.pairings;
}

-- A snapshot that has expired clears what is stored.
unfoldable pub set_pairing : Bool → ℕ → ℕ → PairingSnapshot → Redis → Redis
set_pairing fails now id s r = record r {
  pairings =
      if fails
      then r.pairings
      else if leb s.expires_at now
      then without id r.pairings
      else (record { stored_for = id; snapshot = s; until = s.expires_at }) ∷ without id r.pairings;
}

-- The stored attempt that has not expired.
unfoldable pub pairing : ℕ → ℕ → List Stored → Option PairingSnapshot
pairing now id [] = none
pairing now id (s ∷ ss) =
    let rest = pairing now id ss in
    if s.stored_for == id then (if ltb now s.until then some s.snapshot else none) else rest

unfoldable pub claim : Bool → ℕ → Redis → Redis
claim fails id r = record r { claims = if fails then r.claims else id ∷ r.claims }

unfoldable pub stop : Bool → ℕ → Redis → Redis
stop fails id r = record r { stops = if fails then r.stops else id ∷ r.stops }
