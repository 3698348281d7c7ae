-- ===== src/Events/Laws.antt =====
-- The order of the frames of one instance, and which snapshot a late client reads
-- (internal/events/publisher.go).
use zappermeow.Base.{
  ℕ, ◌<◌, ◌≤◌, ◌+◌, ◌↔◌, Bool, false, ◌≡◌, refl, sym, ap, ◌∙◌, List, [], ◌∷◌, Option, none, some,
  arith, ok, ◌==◌, inl, inr, Bool-cases, Option-cases, subst, ==_iff,
}
use zappermeow.Events.{
  Redis, Frame, Envelope, Fault, publish, current_seq, current_deadline, seq_ttl, Counter,
  PairingSnapshot, set_pairing, clear_pairing, pairing, without, Stored,
}

-- Until `end` the counter of the instance stands at `n` or more, and its deadline is not earlier.
pub record Reached (n end id : ℕ) (cs : List Counter) : Type 0 where
  pub value : (t : ℕ) → t < end → n ≤ current_seq t id cs
  pub later : (t d : ℕ) → t < end → current_deadline t id cs ≡ some d → end ≤ d

module _ (n end id : ℕ) where
  -- A counter written for the instance with its deadline at `end` or later, or with none.
  counted-Reached :
      (c : Counter) (cs : List Counter)
      → c.counts ≡ id
      → n ≤ c.value
      → ((d : ℕ) → c.until ≡ some d → end ≤ d)
      → Reached n end id (c ∷ cs)
  unfolding current_seq current_deadline
  counted-Reached c cs same h ahead = record {
    value = λ t lt. elim (Option-cases c.until) [
      | inl never ↦ ground (arith, h, same)
      | inr (d, until) ↦ let le = ahead d until in ground (arith, h, le, lt, same)
    ];
    later = λ t d lt e. elim (Option-cases c.until) [
      | inl never ↦ absurd (ground (arith, same, e))
      | inr (x, until) ↦ let le = ahead x until in ground (arith, le, lt, same, e)
    ];
  }

  other-Reached :
      (c : Counter) (cs : List Counter)
      → (c.counts == id) ≡ false
      → Reached n end id cs
      → Reached n end id (c ∷ cs)
  unfolding current_seq current_deadline
  other-Reached c cs other r = record {
    value = λ t lt. rw (other, current_seq) (r.value t lt);
    later = λ t d lt e. r.later t d lt (rw (other, current_deadline) at e);
  }

  -- A publication before `end`, of whatever instance, however it ends.
  publish-Reached :
      (fails : Fault → Bool) (now : ℕ) (f : Frame) (r : Redis)
      → now < end
      → end ≤ now + seq_ttl
      → Reached n end id r.counters
      → Reached n end id (publish fails now f r).1.counters
  unfolding publish
  publish-Reached fails now f r soon covered v = elim (Bool-cases (fails Fault.incr)) [
    | inl failing ↦ rw failing v
    | inr counting ↦ elim (Bool-cases (f.instance_id == id)) [
      | inr other ↦ elim (Bool-cases (fails Fault.expire)) [
        | inl failing ↦ rw (counting, failing) (other-Reached _ r.counters other v)
        | inr working ↦ elim (Bool-cases (fails Fault.send)) [
          | inl failing ↦ rw (counting, working, failing) (other-Reached _ r.counters other v)
          | inr sending ↦ rw (counting, working, sending) (other-Reached _ r.counters other v)
        ]
      ]
      | inl same ↦
          let one : f.instance_id ≡ id = (==_iff f.instance_id id).0 same in
          let higher : n ≤ current_seq now f.instance_id r.counters + 1 =
            let h = subst (λ k. n ≤ current_seq now k r.counters) (sym one) (v.value now soon) in
            omega (arith, h) in
          let old : (d : ℕ) → current_deadline now f.instance_id r.counters ≡ some d → end ≤ d =
            λ d e. v.later now d soon (ap (λ k. current_deadline now k r.counters) (sym one) ∙ e) in
          let new : (d : ℕ) → ◌≡◌ {A = Option ℕ} (some (now + seq_ttl)) (some d) → end ≤ d =
            λ d e. ground (arith, covered, e) in
          elim (Bool-cases (fails Fault.expire)) [
            | inl failing ↦ rw (counting, failing) (counted-Reached _ r.counters one higher old)
            | inr working ↦ elim (Bool-cases (fails Fault.send)) [
              | inl failing ↦
                  rw (counting, working, failing) (counted-Reached _ r.counters one higher new)
              | inr sending ↦
                  rw (counting, working, sending) (counted-Reached _ r.counters one higher new)
            ]
          ]
    ]
  ]

sent-seq :
    (fails : Fault → Bool) (now : ℕ) (f : Frame) (r : Redis) (a : Envelope)
    → (publish fails now f r).0 ≡ ok a
    → a.seq ≡ current_seq now f.instance_id r.counters + 1
unfolding publish
sent-seq fails now f r a sent = ground (arith, sent)

sent-Reached :
    (fails : Fault → Bool) (now : ℕ) (f : Frame) (r : Redis) (a : Envelope)
    → (publish fails now f r).0 ≡ ok a
    → Reached a.seq (now + seq_ttl) f.instance_id (publish fails now f r).1.counters
unfolding publish
sent-Reached fails now f r a sent =
    subst (λ cs. Reached a.seq (now + seq_ttl) f.instance_id cs) (sym written)
      (counted-Reached a.seq (now + seq_ttl) f.instance_id _ r.counters refl
        (let e = sent-seq fails now f r a sent in omega (arith, e)) (λ d e. ground (arith, e)))
  where
    written :
        (publish fails now f r).1.counters
        ≡ (record {
          counts = f.instance_id;
          value = current_seq now f.instance_id r.counters + 1;
          until = some (now + seq_ttl);
        })
          ∷ r.counters
    written = ground (arith, sent)

-- Publications by whatever workers, each with what fails and its instant.
unfoldable pub publish_all : List ((Fault → Bool) × ℕ × Frame) → Redis → Redis
publish_all [] r = r
publish_all ((fails, now, f) ∷ more) r = publish_all more (publish fails now f r).1

-- Every publication at an instant of the stretch.
abbrev Within : ℕ → ℕ → List ((Fault → Bool) × ℕ × Frame) → Type 0
Within from end [] = Unit
Within from end ((fails, now, f) ∷ more) = (from ≤ now) × (now < end) × Within from end more

publish_all-Reached :
    (n from id : ℕ) (fs : List ((Fault → Bool) × ℕ × Frame)) (r : Redis)
    → Within from (from + seq_ttl) fs
    → Reached n (from + seq_ttl) id r.counters
    → Reached n (from + seq_ttl) id (publish_all fs r).counters
unfolding publish_all
publish_all-Reached n from id [] r w v = v
publish_all-Reached n from id ((fails, now, f) ∷ more) r (low, high, ws) v =
    publish_all-Reached n from id more (publish fails now f r).1 ws
      (publish-Reached n (from + seq_ttl) id fails now f r high (omega (arith, low)) v)

-- Two frames of one instance that were published within 24 hours, whatever any worker publishes in
-- between and whichever of Redis's commands fail meanwhile: the later frame has the higher number.
pub publish-increasing :
    (fails fails' : Fault → Bool) (now last : ℕ) (f h : Frame)
    (between : List ((Fault → Bool) × ℕ × Frame)) (r : Redis) (a b : Envelope)
    → f.instance_id ≡ h.instance_id
    → Within now (now + seq_ttl) between
    → last < now + seq_ttl
    → (publish fails now f r).0 ≡ ok a
    → (publish fails' last h (publish_all between (publish fails now f r).1)).0 ≡ ok b
    → a.seq < b.seq
publish-increasing fails fails' now last f h between r a b same within soon sent sent' =
    let v =
      publish_all-Reached a.seq now f.instance_id between (publish fails now f r).1 within
        (sent-Reached fails now f r a sent) in
    let reached : a.seq
        ≤ current_seq last h.instance_id (publish_all between (publish fails now f r).1).counters =
      subst
        (λ k. a.seq ≤ current_seq last k (publish_all between (publish fails now f r).1).counters)
        same (v.value last soon) in
    let next = sent-seq fails' last h (publish_all between (publish fails now f r).1) b sent' in
    omega (arith, reached, next)

without-pairing : (t id : ℕ) (ss : List Stored) → pairing t id (without id ss) ≡ none
unfolding pairing
without-pairing t id [] = refl
without-pairing t id (s ∷ ss) = ground (arith, without-pairing t id ss)

-- A client that reads the stored attempt reads the one stored last exactly until it expires, whenever
-- it was stored, and nothing after a clear.
pairing-set_pairing :
    (now later id : ℕ) (s x : PairingSnapshot) (r : Redis)
    → now ≤ later
    → let stored = (set_pairing false now id s r).pairings in
      ((pairing later id stored ≡ some x) ↔ ((later < s.expires_at) × (x ≡ s)))
      × (pairing later id (clear_pairing false id r).pairings ≡ none)
unfolding set_pairing clear_pairing pairing
pairing-set_pairing now later id s x r ordered =
    let gone = without-pairing later id r.pairings in (ground (arith, gone, ordered), gone)
