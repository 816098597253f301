-- ===== src/EventSourcing/UnitOfWork/Settled.antt =====
-- What it is for a unit of work to be settled, and the failures that settle it.
use mathlib.Core.Path.{subst}
use mathlib.Core.Option.{none-ne-some}
use tori_py.Prelude.{
  ℕ, ◌≡◌, ◌≢◌, refl, sym, ap, ◌∙◌, Option, none, some, List, Bool, true, false, ok, err, inl, inr,
  ◌⊎◌,
}
use tori_py.EventSourcing.Errors.{
  optimistic_concurrency, duplicate_event_id, cancelled, confirmed_commit_error, Error, Fallible,
}
use tori_py.EventSourcing.Events.{AppendEvent, CommitResult}
use tori_py.EventSourcing.Aggregate.{Aggregate, PreparedCommit}
use tori_py.EventSourcing.Aggregate.Commit.{fault, release}
use tori_py.EventSourcing.UnitOfWork.{
  UnitState, committing, committed, rolled_back, faulted, Outcome, confirmed_commit,
  confirmed_non_commit, indeterminate, CommitPlan, World, attempt, raise, validate_result, each,
  settle, commit_failed,
}
use tori_py.EventSourcing.UnitOfWork.Frame.{Frame, Frame-each}

-- The failures of a transaction's commit after which it is certain that nothing was committed.
abbrev pub is_certain : Error → Bool
is_certain (optimistic_concurrency sid expected actual) = true
is_certain (duplicate_event_id id) = true
is_certain cancelled = true
is_certain confirmed_commit_error = true
is_certain _ = false

some_same : {a b : Outcome} → some a ≡ some b → a ≡ b
some_same h = cc

some_confirmed :
    {p q : CommitResult} → some (confirmed_commit p) ≡ some (confirmed_commit q) → p ≡ q
some_confirmed h = cc

apart : {s : UnitState} → s ≡ committing → s ≢ committed
apart h k = cc

-- `prepared` is what the preparation of the aggregates gave, `answer` what the transaction's commit
-- returned or raised, `plans` what was staged.
module _ {Event : Type 0} {State : Type 0} (append_equal : AppendEvent → AppendEvent → Bool)
    (owner : ℕ) (prepared : Fallible (List (ℕ × PreparedCommit Event State)))
    (answer : Fallible (Option CommitResult)) (plans : List (CommitPlan Event)) where
  abbrev pub IsPrepared : Type 0
  IsPrepared = (l : List (ℕ × PreparedCommit Event State)) × (prepared ≡ ok l)

  -- A confirmed commit has the very result that the transaction returned, and that result passed the
  -- checks; a confirmed non-commit was not tried, or failed in a way that is certain; an indeterminate
  -- commit failed in another way, or returned a result that did not pass.
  abbrev pub Truthful : Outcome → Type 0
  Truthful (confirmed_commit r) =
      IsPrepared × (answer ≡ ok (some r)) × (validate_result append_equal plans (some r) ≡ ok r)
  Truthful (confirmed_non_commit cause) =
      (e : Error) × (cause ≡ some e)
      × ((prepared ≡ err e) ⊎ (IsPrepared × (answer ≡ err e) × (is_certain e ≡ true)))
  Truthful (indeterminate e) =
      IsPrepared
      × (((answer ≡ err e) × (is_certain e ≡ false))
          ⊎ ((a : Option CommitResult) × (answer ≡ ok a)
              × (validate_result append_equal plans a ≡ err e)))

  module _ {Store : Type 0} where
    -- An aggregate refused to be released or faulted.
    abbrev pub Refused : World Event State Store → Error → Type 0
    Refused w e =
        ((each (release owner) w.plans w).0 ≡ err e) ⊎ ((each (fault owner) w.plans w).0 ≡ err e)

    pub record IsSettled (p : Fallible CommitResult × World Event State Store) : Type 0 where
      pub truthful : (o : Outcome) → p.1.outcome ≡ some o → Truthful o
      pub confirmed_result :
          (r : CommitResult) → p.1.outcome ≡ some (confirmed_commit r) → p.1.commit_result ≡ some r
      pub committed_outcome :
          p.1.state ≡ committed
          → (r : CommitResult) × (p.0 ≡ ok r) × (p.1.outcome ≡ some (confirmed_commit r))
      pub returned : (r : CommitResult) → p.0 ≡ ok r → p.1.state ≡ committed
      pub unset :
          p.1.outcome ≡ none
          → (w : World Event State Store) × (e : Error) × (p.0 ≡ err e) × Refused w e

    -- At work on the plans, without an outcome.
    abbrev pub AtWork : World Event State Store → Type 0
    AtWork w = (w.state ≡ committing) × (w.outcome ≡ none) × (w.plans ≡ plans)

    pub Frame-AtWork : (w w' : World Event State Store) → Frame w w' → AtWork w → AtWork w'
    Frame-AtWork w w' (s, o, r, p, t) (working, no_outcome, staged) =
        (s ∙ working, o ∙ no_outcome, p ∙ staged)

    pub attempt-IsSettled :
        {A : Type 0} (q : Fallible A × World Event State Store)
        (caught : Error → World Event State Store → Fallible CommitResult × World Event State Store)
        (next : A → World Event State Store → Fallible CommitResult × World Event State Store)
        → ((e : Error) (w : World Event State Store) → q ≡ (err e, w) → IsSettled (caught e w))
        → ((a : A) (w : World Event State Store) → q ≡ (ok a, w) → IsSettled (next a w))
        → IsSettled (attempt q caught next)
    attempt-IsSettled (err e, w) caught next h k = h e w refl
    attempt-IsSettled (ok a, w) caught next h k = k a w refl

    Refused-IsSettled :
        (e : Error) (w w' : World Event State Store)
        → AtWork w'
        → Refused w e
        → IsSettled (err e, w')
    Refused-IsSettled e w w' (working, no_outcome, staged) refused = record {
      truthful = λ o h. absurd (none-ne-some o (sym no_outcome ∙ h));
      confirmed_result = λ r h. absurd (none-ne-some (confirmed_commit r) (sym no_outcome ∙ h));
      committed_outcome = λ h. cc;
      returned = λ r h. cc;
      unset = λ h. (w, e, refl, refused);
    }

    pub settle-IsSettled :
        (call : Aggregate Event State → Fallible (Unit {0}) × Aggregate Event State)
        (state : UnitState) (outcome : Outcome) (e : Error) (w : World Event State Store)
        → ((f : Error) → (each call w.plans w).0 ≡ err f → Refused w f)
        → state ≢ committed
        → ((r : CommitResult) → outcome ≢ confirmed_commit r)
        → Truthful outcome
        → AtWork w
        → IsSettled (settle call state outcome e w)
    unfolding settle
    settle-IsSettled call state outcome e w refuses other unconfirmed true_outcome working =
        attempt-IsSettled (each call w.plans w) raise
          (λ u w'. (err e, record w' { state = state; outcome = some outcome }))
          (λ f w' h.
            Refused-IsSettled f w w'
              (Frame-AtWork w w' (subst (Frame w) (ap (λ x. x.1) h) (Frame-each call w.plans w))
                working)
              (refuses f (ap (λ x. x.0) h)))
          (λ u w' h. record {
            truthful = λ o k. subst Truthful (some_same k) true_outcome;
            confirmed_result = λ r k. absurd (unconfirmed r cc);
            committed_outcome = λ k. absurd (other k);
            returned = λ r k. cc;
            unset = λ k. cc;
          })

    pub commit_failed-IsSettled :
        (e : Error) (w : World Event State Store)
        → IsPrepared
        → answer ≡ err e
        → AtWork w
        → IsSettled (commit_failed owner e w)
    unfolding commit_failed
    commit_failed-IsSettled (optimistic_concurrency sid n m) w ready failed working =
        settle-IsSettled (fault owner) rolled_back
          (confirmed_non_commit (some (optimistic_concurrency sid n m)))
          (optimistic_concurrency sid n m) w (λ f. inr) (λ k. cc) (λ r k. cc)
          (optimistic_concurrency sid n m, refl, inr (ready, failed, refl)) working
    commit_failed-IsSettled (duplicate_event_id id) w ready failed working =
        settle-IsSettled (fault owner) rolled_back
          (confirmed_non_commit (some (duplicate_event_id id))) (duplicate_event_id id) w (λ f. inr)
          (λ k. cc) (λ r k. cc) (duplicate_event_id id, refl, inr (ready, failed, refl)) working
    commit_failed-IsSettled cancelled w ready failed working =
        settle-IsSettled (release owner) rolled_back (confirmed_non_commit (some cancelled))
          cancelled w (λ f. inl) (λ k. cc) (λ r k. cc) (cancelled, refl, inr (ready, failed, refl))
          working
    commit_failed-IsSettled confirmed_commit_error w ready failed working =
        settle-IsSettled (release owner) rolled_back
          (confirmed_non_commit (some confirmed_commit_error)) confirmed_commit_error w (λ f. inl)
          (λ k. cc) (λ r k. cc) (confirmed_commit_error, refl, inr (ready, failed, refl)) working
    commit_failed-IsSettled e w ready failed working =
        settle-IsSettled (fault owner) faulted (indeterminate e) e w (λ f. inr) (λ k. cc)
          (λ r k. cc) (ready, inl (failed, refl)) working

    -- A world whose result was recorded, and the marks on its aggregates.
    pub confirmed-IsSettled :
        (w : World Event State Store) (result : CommitResult)
        (q : Fallible (Unit {0}) × World Event State Store)
        → Truthful (confirmed_commit result)
        → w.state ≡ committing
        → Frame
            (record w { commit_result = some result; outcome = some (confirmed_commit result) })
            q.1
        → IsSettled (attempt q raise (λ u w'. (ok result, record w' { state = committed })))
    confirmed-IsSettled w result (err e, w') valid working (s, o, r, p, t) = record {
      truthful = λ a h. subst Truthful (some_same (sym o ∙ h)) valid;
      confirmed_result = λ a h. r ∙ ap some (some_confirmed (sym o ∙ h));
      committed_outcome = λ h. absurd (apart working (sym s ∙ h));
      returned = λ a h. cc;
      unset = λ h. cc;
    }
    confirmed-IsSettled w result (ok u, w') valid working (s, o, r, p, t) = record {
      truthful = λ a h. subst Truthful (some_same (sym o ∙ h)) valid;
      confirmed_result = λ a h. r ∙ ap some (some_confirmed (sym o ∙ h));
      committed_outcome = λ h. (result, refl, o);
      returned = λ a h. refl;
      unset = λ h. cc;
    }
