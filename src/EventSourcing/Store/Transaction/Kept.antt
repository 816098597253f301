-- ===== src/EventSourcing/Store/Transaction/Kept.antt =====
-- The calls of a transaction of store.py that stage nothing: `__aenter__`, `rollback` and `__aexit__`.
use mathlib.Core.Path.{subst}
use tori_py.Prelude.{◌≡◌, ap, ◌∙◌, sym, [], arith, Fresh, nat_eq, Bool-cases, inl, inr, All, Bool}
use tori_py.EventSourcing.Errors.{stream_id_eq}
use tori_py.EventSourcing.Limits.{EventSourcingLimits}
use tori_py.EventSourcing.Store.{Store}
use tori_py.EventSourcing.Store.Transaction.{
  TransactionState, active, rolled_back, Transaction, enter, rollback, rollback_in, leave,
  is_active,
}
use tori_py.EventSourcing.Store.Transaction.Fits.{staged_size, BatchFits}
use tori_py.EventSourcing.Store.Commit.Checks.{staged_ids, staged_streams}
use tori_py.EventSourcing.Store.Transaction.Staged.{IsStaged, staged_count, clear_staged-IsStaged}

-- The life-cycle state and the snapshot are no part of it.
same_staged :
    (limits : EventSourcingLimits) (t u : Transaction)
    → u.staged ≡ t.staged
    → u.staged_streams ≡ t.staged_streams
    → u.staged_event_ids ≡ t.staged_event_ids
    → u.staged_event_count ≡ t.staged_event_count
    → u.staged_bytes ≡ t.staged_bytes
    → IsStaged limits t
    → IsStaged limits u
same_staged limits t u a b c d e v = record {
  streams = b ∙ v.streams ∙ ap staged_streams (sym a);
  separate = subst (Fresh []) (sym b) v.separate;
  ids = c ∙ v.ids ∙ ap staged_ids (sym a);
  distinct = subst (Fresh []) (sym c) v.distinct;
  counted = d ∙ v.counted ∙ ap staged_count (sym a);
  bounded = omega (arith, d, v.bounded);
  measured = e ∙ v.measured ∙ ap staged_size (sym a);
  fits = omega (arith, e, v.fits);
  batches = subst (All (BatchFits limits)) (sym a) v.batches;
}

pub enter-IsStaged :
    (limits : EventSourcingLimits) (interrupted : Bool) (store : Store) (t : Transaction)
    → IsStaged limits t
    → IsStaged limits (enter interrupted store t).1
unfolding enter
enter-IsStaged limits interrupted store t v =
    same_staged limits t (enter interrupted store t).1 (ground arith) (ground arith) (ground arith)
      (ground arith) (ground arith) v

rollback_in-IsStaged :
    (limits : EventSourcingLimits) (s : TransactionState) (t : Transaction)
    → IsStaged limits t
    → IsStaged limits (rollback_in s t).1
unfolding rollback_in
rollback_in-IsStaged limits rolled_back t v = v
rollback_in-IsStaged limits active t v =
    clear_staged-IsStaged limits (record t { state = rolled_back })
rollback_in-IsStaged limits _ t v = v

pub rollback-IsStaged :
    (limits : EventSourcingLimits) (t : Transaction)
    → IsStaged limits t
    → IsStaged limits (rollback t).1
unfolding rollback
rollback-IsStaged limits t v = rollback_in-IsStaged limits t.state t v

pub leave-IsStaged :
    (limits : EventSourcingLimits) (t : Transaction)
    → IsStaged limits t
    → IsStaged limits (leave t).1
unfolding leave
leave-IsStaged limits t v = elim (Bool-cases (is_active t.state)) [
  | inl live ↦ simp (live, leave) (rollback-IsStaged limits t v)
  | inr over ↦ simp (over, leave) v
]
