-- ===== src/Streams/Leases/Ends/Total.antt =====
-- Every call of inmemory.py ends.
use tori_py.Prelude.{
  ℕ, zero, suc, ◌≤◌, ◌<◌, ◌≡◌, refl, List, length, [], ◌∷◌, true, arith, inl, inr, ◌⊎◌,
}
use tori_py.Streams.Leases.Tasks.{Task, Outcome, finished}
use tori_py.Streams.Leases.Scheduler.{resume, on_lock}
use tori_py.Streams.Leases.Ends.{rank, serve, Turn, serve_all, past_wait}
use tori_py.Streams.Leases.Ends.Serve.{serve-Below}

zero_or_more : (n : ℕ) → (n ≡ 0) ⊎ (0 < n)
zero_or_more zero = inl refl
zero_or_more (suc n) = inr (omega arith)

finished_of :
    (task : Task) → past_wait task ≡ true → rank task ≡ 0 → (o : Outcome) × (task ≡ finished o)
finished_of task past none_left = ground arith

serve_all-finished : (turns : List Turn) (o : Outcome) → serve_all turns (finished o) ≡ finished o
unfolding resume on_lock
serve_all-finished [] o = refl
serve_all-finished ((clock, reply, log) ∷ turns) o = serve_all-finished turns o

serve_all-ends_of :
    (turns : List Turn) (task : Task)
    → past_wait task ≡ true
    → rank task ≤ length turns
    → (o : Outcome) × (serve_all turns task ≡ finished o)
serve_all-ends_of [] task past enough = finished_of task past (omega arith)
serve_all-ends_of ((clock, reply, log) ∷ turns) task past enough = elim (zero_or_more (rank task)) [
  | inl done ↦
      let (o, end) = finished_of task past done in
      (o, rw end (serve_all-finished ((clock, reply, log) ∷ turns) o))
  | inr left ↦
      let (less, past') = serve-Below clock reply task log past left in
      serve_all-ends_of turns (serve clock reply task log).0 past' (omega (arith, less))
]

rank-past_wait : (task : Task) → past_wait task ≡ true → rank task ≤ 11
rank-past_wait task past = ground arith

-- Every call ends: once an `acquire` has not to wait for another lease's delivery, and from its
-- start for every other call, eleven turns are enough for it to have returned or raised, whatever
-- the checkpoint store replies, the clock returns and the other calls have made of the log at each
-- turn.
pub serve_all-ends :
    (turns : List Turn) (task : Task)
    → past_wait task ≡ true
    → 11 ≤ length turns
    → (o : Outcome) × (serve_all turns task ≡ finished o)
serve_all-ends turns task past enough =
    serve_all-ends_of turns task past (omega (arith, rank-past_wait task past))
