-- ===== src/Streams/Consumers/Served.antt =====
-- The records that a run of consumers.py has served.
use mathlib.Core.Path.{subst}
use tori_py.Prelude.{
  ℕ, zero, suc, ◌+◌, ◌≤◌, ◌≡◌, ◌≢◌, refl, ap, ◌∙◌, Option, none, some, Bool, true, false, ok, err,
  arith, ◌⊎◌, if◌then◌else◌, inl, inr,
}
use tori_py.Value.{int}
use tori_py.Streams.Errors.{Error, Fallible}
use tori_py.Streams.Models.Records.{StoredRecord}
use tori_py.Streams.Consumers.{
  PartitionLease, positive_limit, checkpoint_failure, attempt, serve_next, leave, poison, stopping,
  save, handle, turn, run_turns, run_once,
}

module _ {State : Type 0} (lease : PartitionLease State)
    (handler : StoredRecord → State → Fallible (Unit {0}) × State) where
  -- So many records, one after another, each delivered, handled and then saved.
  pub data Served : ℕ → State → State → Type 0 where
    nothing_served : {s : State} → Served 0 s s
    serve :
        {n : ℕ} {s s1 s2 s3 t : State} {r : StoredRecord}
        → lease.next_record s ≡ (ok (some r), s1)
        → handler r s1 ≡ (ok tt, s2)
        → lease.checkpoint r s2 ≡ (ok tt, s3)
        → Served n s3 t
        → Served (suc n) s t

  -- A call that answered a value.
  attempt-ok :
      {A B : Type 0} (p : Fallible A × State) (caught : Error → State → Fallible B × State)
      (next : A → State → Fallible B × State) (b : B) (t : State)
      → ((e : Error) (s : State) → (caught e s).0 ≢ ok b)
      → attempt p caught next ≡ (ok b, t)
      → (a : A) × (s : State) × (p ≡ (ok a, s)) × (next a s ≡ (ok b, t))
  attempt-ok (err e, s) caught next b t raises h = absurd (raises e s (ap (λ x. x.0) h))
  attempt-ok (ok a, s) caught next b t raises h = (a, s, refl, h)

  stopping-raises :
      (failure : Error → Error) (e : Error) (s : State)
      → (stopping lease handler failure e s).0 ≢ ok tt
  unfolding stopping
  stopping-raises failure e s h = ground arith

  handle-ok :
      (r : StoredRecord) (s t : State)
      → handle lease handler r s ≡ (ok tt, t)
      → (s2 : State) × (handler r s ≡ (ok tt, s2)) × (lease.checkpoint r s2 ≡ (ok tt, t))
  unfolding handle save
  handle-ok r s t h =
      let (_, s2, handled, rest) =
        attempt-ok (handler r s) (stopping lease handler (λ cause. poison lease handler r))
          (λ u s'. save lease handler r s') tt t (stopping-raises (λ cause. poison lease handler r))
          h in
      let (_, s3, saved, last) =
        attempt-ok (lease.checkpoint r s2) (stopping lease handler (checkpoint_failure r))
          (λ u s'. (ok tt, s')) tt t (stopping-raises (checkpoint_failure r)) rest in
      (s2, handled, saved ∙ last)

  -- What a turn did with the lease's answer.
  abbrev Progress : Option StoredRecord → Bool → State → State → Type 0
  Progress none more s t = (more ≡ false) × (s ≡ t)
  Progress (some r) more s t =
      (more ≡ true)
      × (s2 : State) × (handler r s ≡ (ok tt, s2))
      × (lease.checkpoint r s2 ≡ (ok tt, t))

  serve_next-Progress :
      (found : Option StoredRecord) (more : Bool) (s t : State)
      → serve_next lease handler found s ≡ (ok more, t)
      → Progress found more s t
  unfolding serve_next
  serve_next-Progress none more s t h = (ground arith, ap (λ x. x.1) h)
  serve_next-Progress (some r) more s t h =
      let (_, s3, served, last) =
        attempt-ok (handle lease handler r s) (λ e s'. (err e, s')) (λ u s'. (ok true, s')) more t
          (λ e s' k. absurd (ground arith)) h in
      let (s2, handled, saved) = handle-ok r s s3 served in
      (ground arith, s2, handled, saved ∙ ap (λ x. (ok tt, x.1)) last)

  turn-Progress :
      (more : Bool) (s t : State)
      → turn lease handler s ≡ (ok more, t)
      → (found : Option StoredRecord) × (s1 : State) × (lease.next_record s ≡ (ok found, s1))
        × Progress found more s1 t
  unfolding turn
  turn-Progress more s t h =
      let (found, s1, next, rest) =
        attempt-ok (lease.next_record s) (λ e s'. (err e, s')) (serve_next lease handler) more t
          (λ e s' k. absurd (ground arith)) h in
      (found, s1, next, serve_next-Progress found more s1 t rest)

  -- A run that served so many records and returned.
  abbrev Ran : ℕ → ℕ → ℕ → State → State → Type 0
  Ran k processed n s t =
      (m : ℕ) × (u : State) × (n ≡ processed + m)
      × (m ≤ k)
      × Served m s u
      × ((m ≡ k) × (u ≡ t) ⊎ (lease.next_record u ≡ (ok none, t)))

  after_turn :
      (k processed n : ℕ) (more : Bool) (found : Option StoredRecord) (s s1 s3 t : State)
      → ((s' : State)
          → run_turns lease handler k (processed + 1) s' ≡ (ok n, t)
          → Ran k (processed + 1) n s' t)
      → lease.next_record s ≡ (ok found, s1)
      → Progress found more s1 s3
      → (if more then run_turns lease handler k (processed + 1) s3 else (ok processed, s3))
        ≡ (ok n, t)
      → Ran (suc k) processed n s t
  after_turn k processed n more none s s1 s3 t again next (stopped, same) h =
      let before : Fallible ℕ = ok processed in
      let ended : (before, s3) ≡ (ok n, t) = rw stopped at h in
      let counted : before ≡ ok n = ap (λ x. x.0) ended in
      let left : s1 ≡ t = same ∙ ap (λ x. x.1) ended in
      (0, s, ground arith, omega arith, nothing_served, inr (next ∙ ap (λ x. (ok none, x)) left))
  after_turn k processed n more (some r) s s1 s3 t again next (went, s2, handled, saved) h =
      let (m, u, counted, few, served, end) = again s3 (rw went at h) in
      (
        suc m,
        u,
        omega (arith, counted),
        omega (arith, few),
        serve next handled saved served,
        elim end [ inl (all, same) ↦ inl (ap suc all, same) | inr at_end ↦ inr at_end ],
      )

  run_turns-Served :
      (k processed n : ℕ) (s t : State)
      → run_turns lease handler k processed s ≡ (ok n, t)
      → Ran k processed n s t
  unfolding run_turns
  run_turns-Served zero processed n s t h =
      (0, s, ground arith, omega arith, nothing_served, inl (refl, ap (λ x. x.1) h))
  run_turns-Served (suc k) processed n s t h =
      let (more, s3, turned, rest) =
        attempt-ok (turn lease handler s) (λ e s'. (err e, leave lease handler e s'))
          (λ more s'.
            if more then run_turns lease handler k (processed + 1) s' else (ok processed, s'))
          n t (λ e s' q. absurd (ground arith)) h in
      let (found, s1, next, progress) = turn-Progress more s s3 turned in
      after_turn k processed n more found s s1 s3 t
        (λ s'. run_turns-Served k (processed + 1) n s' t) next progress rest

  -- A run that returns a number has served exactly so many records, not more than its limit: each
  -- was delivered, handled and then saved before the next one was asked for. It served fewer than
  -- the limit only where the lease had no further record.
  pub run_once-Served :
      (limit n : ℕ) (s t : State)
      → run_once lease handler (int limit) s ≡ (ok n, t)
      → (u : State) × (n ≤ limit)
        × Served n s u
        × ((n ≡ limit) × (u ≡ t) ⊎ (lease.next_record u ≡ (ok none, t)))
  unfolding run_once positive_limit
  run_once-Served zero n s t h = absurd (ground arith)
  run_once-Served (suc limit) n s t h =
      let (m, u, counted, few, served, end) = run_turns-Served (suc limit) 0 n s t h in
      let same : m ≡ n = omega (arith, counted) in
      subst
        (λ i.
          (u' : State) × (i ≤ suc limit)
          × Served i s u'
          × ((i ≡ suc limit) × (u' ≡ t) ⊎ (lease.next_record u' ≡ (ok none, t))))
        same (u, few, served, end)
