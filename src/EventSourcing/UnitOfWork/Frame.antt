-- ===== src/EventSourcing/UnitOfWork/Frame.antt =====
-- What the loops over the aggregates of a unit of work leave as it is.
use tori_py.Prelude.{ℕ, ◌+◌, ◌≡◌, refl, ◌∙◌, List, [], ◌∷◌, Bool, ok, err, arith}
use tori_py.EventSourcing.Errors.{Fallible}
use tori_py.EventSourcing.Events.{PendingEvent, AppendEvent}
use tori_py.EventSourcing.Aggregate.{Aggregate, PreparedCommit}
use tori_py.EventSourcing.Aggregate.Commit.{mark_committed, prepare_commit}
use tori_py.EventSourcing.UnitOfWork.{
  CommitPlan, World, attempt, raise, on_aggregate, while_enlisted, each, mark_all, prepare_all,
  EventStoreTransaction, final_version,
}

module _ {Event : Type 0} {State : Type 0} {Store : Type 0} where
  -- What the loops over aggregates leave as it is.
  abbrev pub Frame : World Event State Store → World Event State Store → Type 0
  Frame w w' =
      (w'.state ≡ w.state)
      × (w'.outcome ≡ w.outcome)
      × (w'.commit_result ≡ w.commit_result)
      × (w'.plans ≡ w.plans)
      × (w'.store ≡ w.store)

  Frame-on_aggregate :
      {A : Type 0} (i : ℕ) (call : Aggregate Event State → Fallible A × Aggregate Event State)
      (w : World Event State Store)
      → Frame w (on_aggregate i call w).1
  Frame-on_aggregate i call w = ground arith

  Frame-attempt :
      {A B : Type 0} (w : World Event State Store) (p : Fallible A × World Event State Store)
      (next : A → World Event State Store → Fallible B × World Event State Store)
      → Frame w p.1
      → ((a : A) (w' : World Event State Store) → Frame w w' → Frame w (next a w').1)
      → Frame w (attempt p raise next).1
  Frame-attempt w (err e, w') next h k = h
  Frame-attempt w (ok a, w') next h k = k a w' h

  Frame-trans : (a b c : World Event State Store) → Frame a b → Frame b c → Frame a c
  Frame-trans a b c (s, o, r, p, t) (s', o', r', p', t') = (s' ∙ s, o' ∙ o, r' ∙ r, p' ∙ p, t' ∙ t)

  pub Frame-each :
      (call : Aggregate Event State → Fallible (Unit {0}) × Aggregate Event State)
      (plans : List (CommitPlan Event)) (w : World Event State Store)
      → Frame w (each call plans w).1
  unfolding each
  Frame-each call [] w = (refl, refl, refl, refl, refl)
  Frame-each call (p ∷ plans) w =
      Frame-attempt w (on_aggregate p.aggregate (while_enlisted call) w)
        (λ u w'. each call plans w') (Frame-on_aggregate p.aggregate (while_enlisted call) w)
        (λ u w' h. Frame-trans w w' (each call plans w').1 h (Frame-each call plans w'))

  pub Frame-mark_all :
      (prepared : List (ℕ × PreparedCommit Event State)) (w : World Event State Store)
      → Frame w (mark_all prepared w).1
  unfolding mark_all
  Frame-mark_all [] w = (refl, refl, refl, refl, refl)
  Frame-mark_all ((i, one) ∷ rest) w =
      Frame-attempt w (on_aggregate i (mark_committed one) w) (λ u w'. mark_all rest w')
        (Frame-on_aggregate i (mark_committed one) w)
        (λ u w' h. Frame-trans w w' (mark_all rest w').1 h (Frame-mark_all rest w'))

  pub Frame-prepare_all :
      (owner : ℕ) (transaction : EventStoreTransaction Store)
      (event_equal : PendingEvent Event → PendingEvent Event → Bool)
      (append_equal : AppendEvent → AppendEvent → Bool) (plans : List (CommitPlan Event))
      (w : World Event State Store)
      → Frame w (prepare_all owner transaction event_equal append_equal plans w).1
  unfolding prepare_all
  Frame-prepare_all owner transaction event_equal append_equal [] w = (refl, refl, refl, refl, refl)
  Frame-prepare_all owner transaction event_equal append_equal (p ∷ plans) w =
      let next = record w { next_identity = w.next_identity + 1 } in
      let call = prepare_commit event_equal w.next_identity owner p.pending (final_version p) in
      Frame-attempt w (on_aggregate p.aggregate call next) _
        (Frame-on_aggregate p.aggregate call next)
        (λ prepared w' h.
          Frame-attempt w (prepare_all owner transaction event_equal append_equal plans w') _
            (Frame-trans w w' (prepare_all owner transaction event_equal append_equal plans w').1 h
              (Frame-prepare_all owner transaction event_equal append_equal plans w'))
            (λ rest w'' k. k))
