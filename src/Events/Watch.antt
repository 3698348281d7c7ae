-- ===== src/Events/Watch.antt =====
-- internal/events/subscriber.go and the loop of internal/api/ws/ws.go: one client that watches one
-- instance. The pump and the socket share a channel; what the two goroutines and the outside do to them
-- is a sequence of steps, in the order in which they happen.
use zappermeow.Base.{
  ℕ, Bool, true, false, ltb, leb, List, [], ◌∷◌, ◌++◌, Option, none, some, if◌then◌else◌, length,
}
use zappermeow.Events.{Envelope}

abbrev pub buffer_size : ℕ
buffer_size = 64

-- Why the handler closed the connection.
pub data Close : Type 0 where
  normal slow_consumer ping_timeout revoked broken : Close

-- The channel between the pump and the handler, the number sent last and the frames that the client got.
pub record Stream : Type 0 where
  pub buffer : List Envelope
  pub overflowed : Bool
  pub last_seq : ℕ
  pub sent : List Envelope
  pub closed : Option Close

-- A message of Redis (`none` is a malformed one); the cases of the handler's select, with what its call
-- gives; the client going away.
pub data Happening : Type 0 where
  arrives : Option Envelope → Happening
  takes pings rechecks : Bool → Happening
  notices cancels : Happening

-- After the subscription and the snapshot were written.
abbrev pub opened : Envelope → Stream
opened snapshot = record {
  buffer = [];
  overflowed = false;
  last_seq = snapshot.seq;
  sent = snapshot ∷ [];
  closed = none;
}

abbrev pub closing : Close → Stream → Stream
closing why s = record s { closed = some why }

-- One turn of the pump, which returns once the channel was full.
abbrev pub pump : Option Envelope → Stream → Stream
pump none s = s
pump (some e) s =
    if s.overflowed
    then s
    else if ltb (length s.buffer) buffer_size
    then record s { buffer = s.buffer ++ (e ∷ []) }
    else record s { overflowed = true }

-- The handler takes a frame; the pump closes the channel when it returns. A frame that the client knows is dropped, another is written.
abbrev pub take_frame : Bool → List Envelope → Stream → Stream
take_frame written [] s = if s.overflowed then closing Close.normal s else s
take_frame written (e ∷ rest) s =
    let taken = record s { buffer = rest } in
    if leb e.seq s.last_seq
    then taken
    else if written
    then record taken { last_seq = e.seq; sent = s.sent ++ (e ∷ []) }
    else closing Close.broken (record taken { last_seq = e.seq })

abbrev pub turn : Happening → Stream → Stream
turn (Happening.arrives m) s = pump m s
turn (Happening.takes written) s = take_frame written s.buffer s
turn (Happening.pings answered) s = if answered then s else closing Close.ping_timeout s
turn (Happening.rechecks valid) s = if valid then s else closing Close.revoked s
turn Happening.notices s = if s.overflowed then closing Close.slow_consumer s else s
turn Happening.cancels s = closing Close.normal s

-- A connection that is closed stays as it is.
unfoldable pub watch : Happening → Stream → Stream
watch h s = elim s.closed [ none ↦ turn h s | some c ↦ s ]

unfoldable pub watches : List Happening → Stream → Stream
watches [] s = s
watches (h ∷ hs) s = watches hs (watch h s)
