-- ===== src/Events/Watched.antt =====
-- What a client that watches an instance has got (internal/events/subscriber.go, internal/api/ws/ws.go).
use zappermeow.Base.{
  ℕ, ◌≤◌, ◌<◌, Bool, true, false, ltb, ltb→lt, leb, List, [], ◌∷◌, ◌++◌, none, some, ◌≡◌, refl, ap,
  subst, sym, ◌∙◌, inl, inr, arith, Bool-cases, Option-cases, if◌then◌else◌, length, length-append,
}
use mathlib.Core.List.{append-nil, append_assoc}
use zappermeow.Events.{Envelope}
use zappermeow.Events.Watch.{
  Stream, Happening, Close, opened, closing, pump, take_frame, turn, watch, watches, buffer_size,
}

-- What a client makes of frames after a number: those with a higher number than any before.
abbrev pub kept : ℕ → List Envelope → List Envelope
kept last [] = []
kept last (e ∷ es) = if leb e.seq last then kept last es else e ∷ kept e.seq es

-- The highest number.
abbrev final : ℕ → List Envelope → ℕ
final last [] = last
final last (e ∷ es) = if leb e.seq last then final last es else final e.seq es

-- The messages that can be read.
abbrev pub arrived : List Happening → List Envelope
arrived [] = []
arrived (Happening.arrives (some e) ∷ hs) = e ∷ arrived hs
arrived (_ ∷ hs) = arrived hs

-- Each number is higher than the one before.
abbrev IsIncreasing : ℕ → List Envelope → Type 0
IsIncreasing last [] = Unit
IsIncreasing last (e ∷ es) = (last < e.seq) × IsIncreasing e.seq es

kept-IsIncreasing : (last : ℕ) (es : List Envelope) → IsIncreasing last (kept last es)
kept-IsIncreasing last [] = tt
kept-IsIncreasing last (e ∷ es) = elim (Bool-cases (leb e.seq last)) [
  | inl known ↦ rw known (kept-IsIncreasing last es)
  | inr new ↦ rw new (ground (arith, new), kept-IsIncreasing e.seq es)
]

kept-append :
    (last : ℕ) (es fs : List Envelope)
    → kept last (es ++ fs) ≡ kept last es ++ kept (final last es) fs
kept-append last [] fs = refl
kept-append last (e ∷ es) fs = elim (Bool-cases (leb e.seq last)) [
  | inl known ↦ rw known (kept-append last es fs)
  | inr new ↦ rw new (ap (◌∷◌ e) (kept-append e.seq es fs))
]

final-append : (last : ℕ) (es fs : List Envelope) → final last (es ++ fs) ≡ final (final last es) fs
final-append last [] fs = refl
final-append last (e ∷ es) fs = elim (Bool-cases (leb e.seq last)) [
  | inl known ↦ rw known (final-append last es fs)
  | inr new ↦ rw new (final-append e.seq es fs)
]

-- With what arrived so far: nothing is lost between the client and the channel.
abbrev Inv : Envelope → List Envelope → Stream → Type 0
Inv snapshot es s =
    (s.closed ≡ none
      → s.overflowed ≡ false
      → (s.sent ++ kept s.last_seq s.buffer ≡ snapshot ∷ kept snapshot.seq es)
        × (final s.last_seq s.buffer ≡ final snapshot.seq es))
    × (length s.buffer ≤ buffer_size)

abbrev message : Happening → List Envelope
message h = arrived (h ∷ [])

pump-Inv :
    (snapshot : Envelope) (es : List Envelope) (s : Stream) (e : Envelope)
    → s.closed ≡ none
    → Inv snapshot es s
    → Inv snapshot (es ++ (e ∷ [])) (pump (some e) s)
pump-Inv snapshot es s e open_ (holds, fits) = elim (Bool-cases s.overflowed) [
  | inl lost ↦ rw lost (λ c o. cc, fits)
  | inr whole ↦ elim (Bool-cases (ltb (length s.buffer) buffer_size)) [
    | inr full ↦ rw (whole, full) (λ c o. cc, fits)
    | inl room ↦
        let (same, last) = holds open_ whole in
        rw (whole, room)
          (
            λ c o. (
              ap (◌++◌ s.sent) (kept-append s.last_seq s.buffer (e ∷ []))
                  ∙ sym (
                      append_assoc s.sent (kept s.last_seq s.buffer)
                        (kept (final s.last_seq s.buffer) (e ∷ [])))
                  ∙ rw (same, last) refl
                  ∙ ap (◌∷◌ snapshot) (sym (kept-append snapshot.seq es (e ∷ []))),
              final-append s.last_seq s.buffer (e ∷ [])
                  ∙ ap (λ n. final n (e ∷ [])) last
                  ∙ sym (final-append snapshot.seq es (e ∷ [])),
            ),
            omega
                (arith, length-append s.buffer (e ∷ []), ltb→lt (length s.buffer) buffer_size room),
          )
  ]
]

closing-Inv :
    (why : Close) (snapshot : Envelope) (es : List Envelope) (s : Stream)
    → Inv snapshot es s
    → Inv snapshot es (closing why s)
closing-Inv why snapshot es s (holds, fits) = (λ c o. cc, fits)

take-Inv :
    (snapshot : Envelope) (es : List Envelope) (s : Stream) (written : Bool)
    → s.closed ≡ none
    → Inv snapshot es s
    → (buffer : List Envelope) → s.buffer ≡ buffer
    → Inv snapshot es (take_frame written buffer s)
take-Inv snapshot es s written open_ inv [] e = elim (Bool-cases s.overflowed) [
  | inl lost ↦
      subst (Inv snapshot es) (sym (ap (λ b. if b then closing Close.normal s else s) lost))
        (closing-Inv Close.normal snapshot es s inv)
  | inr whole ↦
      subst (Inv snapshot es) (sym (ap (λ b. if b then closing Close.normal s else s) whole)) inv
]
take-Inv snapshot es s written open_ (holds, fits) (f ∷ rest) e =
    let less : length rest ≤ buffer_size = omega (arith, ap length e, fits) in
    elim (Bool-cases (leb f.seq s.last_seq)) [
      | inl known ↦ rw known (
        λ c o.
            let (same, last) = holds c o in
            (sym (rw (e, known) refl) ∙ same, sym (rw (e, known) refl) ∙ last),
        less,
      )
      | inr new ↦ elim written as (λ w. Inv snapshot es (take_frame w (f ∷ rest) s)) [
        | false ↦ rw new (λ c o. cc, less)
        | true ↦ rw new (
          λ c o.
              let (same, last) = holds open_ o in
              (
                append_assoc s.sent (f ∷ []) (kept f.seq rest) ∙ sym (rw (e, new) refl) ∙ same,
                sym (rw (e, new) refl) ∙ last,
              ),
          less,
        )
      ]
    ]

same-Inv :
    (snapshot : Envelope) (es : List Envelope) (s : Stream)
    → Inv snapshot es s
    → Inv snapshot (es ++ []) s
same-Inv snapshot es s inv = rw (append-nil es) inv

turn-Inv :
    (snapshot : Envelope) (es : List Envelope) (s : Stream) (h : Happening)
    → s.closed ≡ none
    → Inv snapshot es s
    → Inv snapshot (es ++ message h) (turn h s)
turn-Inv snapshot es s (Happening.arrives none) open_ inv = same-Inv snapshot es s inv
turn-Inv snapshot es s (Happening.arrives (some e)) open_ inv = pump-Inv snapshot es s e open_ inv
turn-Inv snapshot es s (Happening.takes written) open_ inv =
    same-Inv snapshot es _ (take-Inv snapshot es s written open_ inv s.buffer refl)
turn-Inv snapshot es s (Happening.pings true) open_ inv = same-Inv snapshot es s inv
turn-Inv snapshot es s (Happening.pings false) open_ inv =
    same-Inv snapshot es _ (closing-Inv Close.ping_timeout snapshot es s inv)
turn-Inv snapshot es s (Happening.rechecks true) open_ inv = same-Inv snapshot es s inv
turn-Inv snapshot es s (Happening.rechecks false) open_ inv =
    same-Inv snapshot es _ (closing-Inv Close.revoked snapshot es s inv)
turn-Inv snapshot es s Happening.cancels open_ inv =
    same-Inv snapshot es _ (closing-Inv Close.normal snapshot es s inv)
turn-Inv snapshot es s Happening.notices open_ inv = elim (Bool-cases s.overflowed) [
  | inl lost ↦
      subst (Inv snapshot (es ++ []))
        (sym (ap (λ b. if b then closing Close.slow_consumer s else s) lost))
        (same-Inv snapshot es (closing Close.slow_consumer s)
          (closing-Inv Close.slow_consumer snapshot es s inv))
  | inr whole ↦
      subst (Inv snapshot (es ++ []))
        (sym (ap (λ b. if b then closing Close.slow_consumer s else s) whole))
        (same-Inv snapshot es s inv)
]

watch-Inv :
    (snapshot : Envelope) (es : List Envelope) (s : Stream) (h : Happening)
    → Inv snapshot es s
    → Inv snapshot (es ++ message h) (watch h s)
unfolding watch
watch-Inv snapshot es s h inv = elim (Option-cases s.closed) [
  | inl open_ ↦
      subst (Inv snapshot (es ++ message h))
        (sym (ap (λ o. elim o [ none ↦ turn h s | some c ↦ s ]) open_))
        (turn-Inv snapshot es s h open_ inv)
  | inr (why, over) ↦
      subst (Inv snapshot (es ++ message h))
        (sym (ap (λ o. elim o [ none ↦ turn h s | some c ↦ s ]) over)) (λ c o. cc (over, c), inv.1)
]

arrived_cons : (h : Happening) (hs : List Happening) → arrived (h ∷ hs) ≡ message h ++ arrived hs
arrived_cons (Happening.arrives none) hs = refl
arrived_cons (Happening.arrives (some e)) hs = refl
arrived_cons (Happening.takes b) hs = refl
arrived_cons (Happening.pings b) hs = refl
arrived_cons (Happening.rechecks b) hs = refl
arrived_cons Happening.notices hs = refl
arrived_cons Happening.cancels hs = refl

watches-Inv :
    (snapshot : Envelope) (es : List Envelope) (s : Stream) (hs : List Happening)
    → Inv snapshot es s
    → Inv snapshot (es ++ arrived hs) (watches hs s)
unfolding watches
watches-Inv snapshot es s [] inv = same-Inv snapshot es s inv
watches-Inv snapshot es s (h ∷ hs) inv =
    let all : es ++ arrived (h ∷ hs) ≡ (es ++ message h) ++ arrived hs =
      ap (◌++◌ es) (arrived_cons h hs) ∙ sym (append_assoc es (message h) (arrived hs)) in
    rw all (watches-Inv snapshot (es ++ message h) (watch h s) hs (watch-Inv snapshot es s h inv))

-- While a connection is open and its channel has not overflowed, in whatever order frames arrive and the
-- handler gets to run: the client has got the snapshot and then, with what still waits in the channel,
-- every frame that arrived whose number is above all before it and above the snapshot's, once and in
-- order; and at most 64 frames wait.
pub watches_complete :
    (snapshot : Envelope) (hs : List Happening)
    → let s = watches hs (opened snapshot) in
      s.closed ≡ none
      → s.overflowed ≡ false
      → (s.sent ++ kept s.last_seq s.buffer ≡ snapshot ∷ kept snapshot.seq (arrived hs))
        × IsIncreasing snapshot.seq (kept snapshot.seq (arrived hs))
        × (length s.buffer ≤ buffer_size)
watches_complete snapshot hs open_ whole =
    let (holds, fits) =
      watches-Inv snapshot [] (opened snapshot) hs (λ c o. (refl, refl), omega arith) in
    ((holds open_ whole).0, kept-IsIncreasing snapshot.seq (arrived hs), fits)
