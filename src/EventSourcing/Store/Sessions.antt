-- ===== src/EventSourcing/Store/Sessions.antt =====
-- Transactions of one store, side by side: any interleaving of their calls, with cancellations.
use tori_py.Prelude.Dict
use tori_py.Prelude.{
  ℕ, ◌≡◌, refl, none, some, List, [], ◌∷◌, ◌++◌, Bool, arith, All, All-set, All-append,
  All-get_elem?, get_elem?, set, Option-cases, inl, inr, sym,
}
use mathlib.Core.Path.{subst}
use tori_py.Value.{Value}
use tori_py.EventSourcing.Errors.{StreamId}
use tori_py.EventSourcing.Events.{AppendEvent}
use tori_py.EventSourcing.Limits.{EventSourcingLimits}
use tori_py.EventSourcing.Store.{Store, init, stream_of}
use tori_py.EventSourcing.Store.Valid.{StateIsValid}
use tori_py.EventSourcing.Store.Transaction.{
  Transaction, transaction, enter, rollback, leave, append,
}
use tori_py.EventSourcing.Store.Transaction.Staged.{IsStaged, transaction-IsStaged, append_keeps}
use tori_py.EventSourcing.Store.Transaction.Kept.{enter-IsStaged, rollback-IsStaged, leave-IsStaged}
use tori_py.EventSourcing.Store.Commit.{commit}
use tori_py.EventSourcing.Store.Commit.Atomic.{commit-IsStaged, commit-IsValid}

-- A call on the transaction that was begun as number `i`.
pub data Call : Type 0 where
  begin : Call
  entering : ℕ → Bool → Call
  appending : ℕ → StreamId → Value → List AppendEvent → Call
  committing_with : ℕ → Bool → Call
  rolling_back : ℕ → Call
  leaving : ℕ → Call

pub record System : Type 0 where
  pub store : Store
  pub transactions : List Transaction

-- The call `f` on transaction `i`.
unfoldable pub on_transaction : ℕ → (Transaction → Transaction) → System → System
on_transaction i f s = elim (get_elem? s.transactions i) [
  | none ↦ s
  | some t ↦ record s { transactions = set s.transactions i (f t) }
]

unfoldable pub commit_in : ℕ → Bool → System → System
commit_in i interrupted s = elim (get_elem? s.transactions i) [
  | none ↦ s
  | some t ↦
      let (_, u, store) = commit interrupted t s.store in
      record { store = store; transactions = set s.transactions i u }
]

unfoldable pub call : Call → System → System
call begin s = record s { transactions = s.transactions ++ transaction ∷ [] }
call (entering i interrupted) s = on_transaction i (λ t. (enter interrupted s.store t).1) s
call (appending i stream_id expected_version events) s =
    on_transaction i (λ t. (append stream_id expected_version events s.store t).1) s
call (committing_with i interrupted) s = commit_in i interrupted s
call (rolling_back i) s = on_transaction i (λ t. (rollback t).1) s
call (leaving i) s = on_transaction i (λ t. (leave t).1) s

unfoldable pub call_all : List Call → System → System
call_all [] s = s
call_all (c ∷ calls) s = call_all calls (call c s)

pub record SystemIsValid (s : System) : Type 0 where
  pub state : StateIsValid s.store.state
  pub staged : All (IsStaged s.store.limits) s.transactions

-- A store that was just made, without a transaction.
abbrev pub new_system : EventSourcingLimits → System
new_system limits = record { store = init limits; transactions = [] }

new_system-IsValid : (limits : EventSourcingLimits) → SystemIsValid (new_system limits)
unfolding init stream_of Dict.get
new_system-IsValid limits = record {
  state = record {
    positions = tt;
    streams = λ sid. refl;
    versions = λ sid. tt;
    ids = refl;
    distinct = tt;
  };
  staged = tt;
}

on_transaction-IsValid :
    (i : ℕ) (f : Transaction → Transaction) (s : System)
    → ((t : Transaction) → IsStaged s.store.limits t → IsStaged s.store.limits (f t))
    → SystemIsValid s
    → SystemIsValid (on_transaction i f s)
unfolding on_transaction
on_transaction-IsValid i f s keeps v = elim (Option-cases (get_elem? s.transactions i)) [
  | inl missing ↦ simp (missing, on_transaction) v
  | inr (t, there) ↦
      simp (there, on_transaction)
        (record {
          state = v.state;
          staged =
              All-set (IsStaged s.store.limits) s.transactions i (f t) v.staged (
                keeps t
                  (All-get_elem? (IsStaged s.store.limits) s.transactions i t v.staged there));
        })
]

limits-commit :
    (interrupted : Bool) (t : Transaction) (store : Store)
    → (commit interrupted t store).2.limits ≡ store.limits
unfolding commit
limits-commit interrupted t store = ground arith

commit_in-IsValid :
    (i : ℕ) (interrupted : Bool) (s : System)
    → SystemIsValid s
    → SystemIsValid (commit_in i interrupted s)
unfolding commit_in
commit_in-IsValid i interrupted s v = elim (Option-cases (get_elem? s.transactions i)) [
  | inl missing ↦ simp (missing, commit_in) v
  | inr (t, there) ↦
      let staged = All-get_elem? (IsStaged s.store.limits) s.transactions i t v.staged there in
      simp (there, commit_in)
        (record {
          state = commit-IsValid interrupted t s.store v.state staged;
          staged =
              subst
                (λ limits.
                  All (IsStaged limits) (set s.transactions i (commit interrupted t s.store).1))
                (sym (limits-commit interrupted t s.store))
                (All-set (IsStaged s.store.limits) s.transactions i (commit interrupted t s.store).1
                  v.staged (commit-IsStaged interrupted t s.store staged));
        })
]

call-IsValid : (c : Call) (s : System) → SystemIsValid s → SystemIsValid (call c s)
unfolding call
call-IsValid begin s v = record {
  state = v.state;
  staged =
      All-append (IsStaged s.store.limits) s.transactions (transaction ∷ []) v.staged
        (transaction-IsStaged s.store.limits, tt);
}
call-IsValid (entering i interrupted) s v =
    on_transaction-IsValid i (λ t. (enter interrupted s.store t).1) s
      (enter-IsStaged s.store.limits interrupted s.store) v
call-IsValid (appending i stream_id expected_version events) s v =
    on_transaction-IsValid i (λ t. (append stream_id expected_version events s.store t).1) s
      (append_keeps stream_id expected_version events s.store) v
call-IsValid (committing_with i interrupted) s v = commit_in-IsValid i interrupted s v
call-IsValid (rolling_back i) s v =
    on_transaction-IsValid i (λ t. (rollback t).1) s (rollback-IsStaged s.store.limits) v
call-IsValid (leaving i) s v =
    on_transaction-IsValid i (λ t. (leave t).1) s (leave-IsStaged s.store.limits) v

call_all_keeps :
    (calls : List Call) (s : System) → SystemIsValid s → SystemIsValid (call_all calls s)
unfolding call_all
call_all_keeps [] s v = v
call_all_keeps (c ∷ calls) s v = call_all_keeps calls (call c s) (call-IsValid c s v)

-- After any interleaving of calls of any number of transactions on a new store, with any of them
-- cancelled or failing, the committed state is well formed: positions and versions without gaps,
-- each stream the events of the global order that belong to it, no event id twice; and of every
-- transaction the count of events, the sum of their sizes and the sets of streams and event ids agree
-- with what it has staged, with every staged event, every batch and both totals within the store's
-- limits.
pub call_all-IsValid :
    (limits : EventSourcingLimits) (calls : List Call)
    → SystemIsValid (call_all calls (new_system limits))
call_all-IsValid limits calls = call_all_keeps calls (new_system limits) (new_system-IsValid limits)
