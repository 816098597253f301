-- ===== src/EventSourcing/Store/Commit/Conflict.antt =====
-- Two transactions that staged an append to the same version of a stream.
use mathlib.Core.Path.{subst}
use tori_py.Prelude.{
  ℕ, zero, suc, ◌+◌, ◌<◌, ◌≡◌, ◌≢◌, refl, ap, ◌∙◌, sym, some, List, [], ◌∷◌, Bool, ok, arith,
  length, length-append, select, get_elem?, All-get_elem?, nat_eq,
}
use tori_py.EventSourcing.Errors.{StreamId, stream_id_eq}
use tori_py.EventSourcing.Events.{AppendEvent, CommitResult}
use tori_py.EventSourcing.Store.{Store, stream_of}
use tori_py.EventSourcing.Store.Transaction.{StagedAppend, Transaction}
use tori_py.EventSourcing.Store.Transaction.Fits.{BatchFits}
use tori_py.EventSourcing.Store.Transaction.Staged.{IsStaged}
use tori_py.EventSourcing.Store.Valid.{of_stream}
use tori_py.EventSourcing.Store.Commit.{commit}
use tori_py.EventSourcing.Store.Commit.Batch.{batch, batches, select-append, select-batch_self}
use tori_py.EventSourcing.Store.Commit.Checks.{IsCurrent}
use tori_py.EventSourcing.Store.Commit.Keeps.{stream_of-build_store_state}
use tori_py.EventSourcing.Store.Commit.Atomic.{commit_ok, commit_lem}

length-batch :
    (sid : StreamId) (v p : ℕ) (events : List AppendEvent)
    → length (batch sid v p events) ≡ length events
unfolding batch
length-batch sid v p [] = refl
length-batch sid v p (e ∷ events) = omega (arith, length-batch sid (v + 1) (p + 1) events)

length-filled : (events : List AppendEvent) → events ≢ [] → 0 < length events
length-filled [] h = absurd (h refl)
length-filled (e ∷ events) h = omega arith

-- The stream of a staged batch gets events.
batches-grow :
    (p k : ℕ) (staged : List StagedAppend) (s : StagedAppend)
    → get_elem? staged k ≡ some s
    → s.events ≢ []
    → 0 < length (select (of_stream s.stream_id) (batches p staged))
unfolding batches
batches-grow p k [] s there filled = cc
batches-grow p zero (r ∷ staged) s there filled =
    let same : r ≡ s = cc in
    subst (λ x. 0 < length (select (of_stream s.stream_id) (batches p (x ∷ staged)))) (sym same)
      (rw (select-append, select-batch_self, length-append, length-batch)
        (omega (arith, length-filled s.events filled)))
batches-grow p (suc k) (r ∷ staged) s there filled =
    let rest = batches-grow (p + length r.events) k staged s there filled in
    rw (select-append, length-append) (omega (arith, rest))

-- Of two transactions that staged an append to the same stream at the same expected version, the
-- first with counters and sets that agree with what it staged, at most one commits: after the
-- commit of the first has returned, the commit of the second does not return a result.
pub commit-commit :
    (i j : Bool) (t u : Transaction) (store : Store) (first second : CommitResult) (k l : ℕ)
    (s r : StagedAppend)
    → IsStaged store.limits t
    → (commit i t store).0 ≡ ok first
    → get_elem? t.staged k ≡ some s
    → get_elem? u.staged l ≡ some r
    → r.stream_id ≡ s.stream_id
    → r.expected_version ≡ s.expected_version
    → (commit j u (commit i t store).2).0 ≢ ok second
commit-commit i j t u store first second k l s r staged done in_t in_u stream version again =
    let (currents, _, numbered, _) = commit_lem i t store first done in
    let (_, _, _, after) = commit_ok i t store first done in
    let (later, _, _, _) = commit_lem j u (commit i t store).2 second again in
    let fitting = All-get_elem? (BatchFits store.limits) t.staged k s staged.batches in_t in
    let before = All-get_elem? (IsCurrent store.state) t.staged k s currents in_t in
    let now = All-get_elem? (IsCurrent (commit i t store).2.state) u.staged l r later in_u in
    let grown : length (stream_of (commit i t store).2.state.streams r.stream_id)
        ≡ length (stream_of store.state.streams s.stream_id)
          + length (select (of_stream s.stream_id) (batches (length store.state.events) t.staged)) =
      ap (λ sid. length (stream_of (commit i t store).2.state.streams sid)) stream
      ∙ ap (λ (x : Store). length (stream_of x.state.streams s.stream_id)) after
      ∙ ap length (stream_of-build_store_state store.state first.events s.stream_id)
      ∙ length-append (stream_of store.state.streams s.stream_id)
          (select (of_stream s.stream_id) first.events)
      ∙ ap
          (λ events.
            length (stream_of store.state.streams s.stream_id)
            + length (select (of_stream s.stream_id) events))
          numbered in
    omega (
      arith,
      grown,
      before,
      now,
      version,
      batches-grow (length store.state.events) k t.staged s in_t fitting.filled,
    )
