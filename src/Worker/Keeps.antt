-- ===== src/Worker/Keeps.antt =====
-- What almost every operation of a worker keeps: it starts no session, the sessions left have the
-- generation they had, and it acquires no lease. The relation composes.
use zappermeow.Base.{
  ℕ, suc, ◌≤◌, ◌<◌, Bool, true, false, not, ◌≡◌, refl, sym, ap, ◌∙◌, inl, inr, List, [], ◌∷◌,
  Option, none, some, In, In-select, Bool-cases, arith, ◌==◌, if◌then◌else◌, length, select,
}
use zappermeow.Store.Table.{find, update}
use zappermeow.Store.Keys.{IsKeyed, In-update, update-IsKeyed}
use zappermeow.Lease.Ownership.{Advances, Advances-refl, Advances-trans, step-Advances}
use zappermeow.Lease.Trace.{step, releases}
use zappermeow.Lease.{release}
use zappermeow.Store.Leases.{Leases}
use zappermeow.Worker.State.{Call, Config, Managed, World, managed_key, amend}
use zappermeow.Worker.Sessions.{stop, hand_back}

module _ {S : Type 0} where
  -- A session of the first list with the same instance and generation.
  abbrev pub Source : List (Managed S) → Managed S → Type 0
  Source xs m =
      (m' : Managed S) × In m' xs
      × (m'.instance_id ≡ m.instance_id)
      × (m'.generation ≡ m.generation)

  pub record Trims (xs ys : List (Managed S)) : Type 0 where
    pub shorter : length ys ≤ length xs
    pub keyed : IsKeyed managed_key xs → IsKeyed managed_key ys
    pub from : (m : Managed S) → In m ys → Source xs m

  pub Trims-refl : (xs : List (Managed S)) → Trims xs xs
  Trims-refl xs = record { shorter = omega arith; keyed = λ k. k; from = λ m i. (m, i, refl, refl) }

  pub Trims-trans : (xs ys zs : List (Managed S)) → Trims xs ys → Trims ys zs → Trims xs zs
  Trims-trans xs ys zs a b = record {
    shorter = omega (arith, a.shorter, b.shorter);
    keyed = λ k. b.keyed (a.keyed k);
    from = λ m i.
        let (m', i', e, g) = b.from m i in
        let (m'', i'', e', g') = a.from m' i' in (m'', i'', e' ∙ e, g' ∙ g);
  }

  length-update :
      (p : Managed S → Bool) (f : Managed S → Managed S) (xs : List (Managed S))
      → length (update p f xs) ≡ length xs
  unfolding update
  length-update p f [] = refl
  length-update p f (x ∷ xs) = ap suc (length-update p f xs)

  pub length-select :
      (p : Managed S → Bool) (xs : List (Managed S)) → length (select p xs) ≤ length xs
  length-select p [] = omega arith
  length-select p (x ∷ xs) = ground (arith, length-select p xs)

  Trims-update :
      (p : Managed S → Bool) (f : Managed S → Managed S) (xs : List (Managed S))
      → ((m : Managed S) → (f m).instance_id ≡ m.instance_id)
      → ((m : Managed S) → (f m).generation ≡ m.generation)
      → Trims xs (update p f xs)
  Trims-update p f xs same_id same_generation = record {
    shorter = omega (arith, length-update p f xs);
    keyed = update-IsKeyed managed_key p f same_id xs;
    from = λ m i.
        let (r, j, e) = In-update p f xs m i in (r, j, instance_of r m e, generation_of r m e);
  }
    where
      instance_of : (r m : Managed S) → m ≡ (if p r then f r else r) → r.instance_id ≡ m.instance_id
      instance_of r m e = elim (Bool-cases (p r)) [
        | inl pass ↦ sym (ap managed_key (rw pass at e) ∙ same_id r)
        | inr fail ↦ sym (ap managed_key (rw fail at e))
      ]

      generation_of : (r m : Managed S) → m ≡ (if p r then f r else r) → r.generation ≡ m.generation
      generation_of r m e = elim (Bool-cases (p r)) [
        | inl pass ↦ sym (ap (λ (x : Managed S). x.generation) (rw pass at e) ∙ same_generation r)
        | inr fail ↦ sym (ap (λ (x : Managed S). x.generation) (rw fail at e))
      ]

  -- The test by which `stop` keeps the other sessions.
  abbrev pub is_not : ℕ → Managed S → Bool
  is_not id m = not (m.instance_id == id)

  find-select :
      (id k : ℕ) (xs : List (Managed S)) (m : Managed S)
      → (k == id) ≡ false
      → find managed_key k xs ≡ some m
      → find managed_key k (select (is_not id) xs) ≡ some m
  unfolding find
  find-select id k [] m d e = e
  find-select id k (x ∷ xs) m d e = grind (arith, find-select id k xs m d)

  pub find-stopped :
      (id : ℕ) (xs : List (Managed S)) → find managed_key id (select (is_not id) xs) ≡ none
  unfolding find
  find-stopped id [] = refl
  find-stopped id (x ∷ xs) = ground (arith, find-stopped id xs)

  pub Trims-stop : (id : ℕ) (xs : List (Managed S)) → Trims xs (select (is_not id) xs)
  Trims-stop id xs = record {
    shorter = length-select (is_not id) xs;
    keyed = λ k m i.
        let (j, pass) = In-select (is_not id) xs m i in
        find-select id m.instance_id xs m (ground arith) (k m j);
    from = λ m i. (m, (In-select (is_not id) xs m i).0, refl, refl);
  }

  -- Stopping a session that runs makes room for one.
  pub length-stopped :
      (id : ℕ) (xs : List (Managed S)) (m : Managed S)
      → find managed_key id xs ≡ some m
      → length (select (is_not id) xs) < length xs
  unfolding find
  length-stopped id [] m e = cc
  length-stopped id (x ∷ xs) m e =
      ground (arith, length-stopped id xs m, length-select (is_not id) xs)

-- The sessions, the leases and the draining flag, before and after.
pub record Change {S : Type 0} (owner : ℕ) (xs ys : List (Managed S)) (t u : Leases) (d e : Bool)
    : Type 0 where
  pub sessions : Trims xs ys
  pub leases : Advances owner t u
  pub drained : d ≡ true → e ≡ true

abbrev pub Keeps : {S : Type 0} → ℕ → World S → World S → Type 0
Keeps owner w v = Change owner w.sessions v.sessions w.leases v.leases w.draining v.draining

abbrev by_session : {S A : Type 0} → Option (Managed S) → A → (Managed S → A) → A
by_session o x f = elim o [ none ↦ x | some m ↦ f m ]

module _ {S : Type 0} {owner : ℕ} where
  pub Keeps-refl : (w : World S) → Keeps owner w w
  Keeps-refl w = record {
    sessions = Trims-refl w.sessions;
    leases = Advances-refl owner w.leases;
    drained = λ d. d;
  }

  pub Change-trans :
      {xs ys zs : List (Managed S)} {t u v : Leases} {d e f : Bool}
      → Change owner xs ys t u d e
      → Change owner ys zs u v e f
      → Change owner xs zs t v d f
  Change-trans {xs = xs} {ys = ys} {zs = zs} {t = t} {u = u} {v = v} a b = record {
    sessions = Trims-trans xs ys zs a.sessions b.sessions;
    leases = Advances-trans owner t u v a.leases b.leases;
    drained = λ d. b.drained (a.drained d);
  }

  pub amend-Keeps :
      (id : ℕ) (f : Managed S → Managed S) (w : World S)
      → ((m : Managed S) → (f m).instance_id ≡ m.instance_id)
      → ((m : Managed S) → (f m).generation ≡ m.generation)
      → Keeps owner w (amend id f w)
  amend-Keeps id f w same_id same_generation = record {
    sessions = Trims-update (λ m. m.instance_id == id) f w.sessions same_id same_generation;
    leases = Advances-refl owner w.leases;
    drained = λ d. d;
  }

  pub stop-Keeps : (id : ℕ) (w : World S) → Keeps owner w (stop id w)
  unfolding stop
  stop-Keeps id w = record {
    sessions = Trims-stop id w.sessions;
    leases = Advances-refl owner w.leases;
    drained = λ d. d;
  }

  -- A change of the lease table alone.
  pub leases-Keeps :
      (t : Leases) (w : World S)
      → Advances owner w.leases t
      → Keeps owner w (record w { leases = t })
  leases-Keeps t w a = record { sessions = Trims-refl w.sessions; leases = a; drained = λ d. d }

  pub hand_back-Keeps :
      (c : Config) (down : Call → Bool) (now id : ℕ) (w : World S)
      → Keeps owner w (hand_back c down now id w)
  unfolding hand_back release step
  hand_back-Keeps c down now id w =
      leases-Keeps (release c.manager (down Call.releases) now id w.leases).1 w
        (elim (Bool-cases (down Call.releases)) [
          | inl failing ↦ rw failing (Advances-refl owner w.leases)
          | inr working ↦ rw working (
              step-Advances c.manager.expiry now owner (releases id c.manager.worker_id) w.leases
                tt)
        ])

  -- An operation on a session that may be missing, or one of two.
  pub option-Keeps :
      {A : Type 0} (w : World S) (o : Option (Managed S)) (x : A × World S)
      (f : Managed S → A × World S)
      → Keeps owner w x.1
      → ((m : Managed S) → o ≡ some m → Keeps owner w (f m).1)
      → Keeps owner w (by_session o x f).1
  option-Keeps w none x f k h = k
  option-Keeps w (some m) x f k h = h m refl

  pub if-Keeps :
      {A : Type 0} (w : World S) (b : Bool) (x y : A × World S)
      → Keeps owner w x.1
      → Keeps owner w y.1
      → Keeps owner w (if b then x else y).1
  if-Keeps w true x y k h = k
  if-Keeps w false x y k h = h
