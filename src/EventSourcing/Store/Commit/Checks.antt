-- ===== src/EventSourcing/Store/Commit/Checks.antt =====
-- What `_validate_commit` of store.py looks at.
use tori_py.Prelude.{
  ℕ, ◌+◌, ◌≡◌, refl, List, [], ◌∷◌, ◌++◌, false, ok, arith, length, map, ◌==◌, Fresh, push,
  Fresh-append, contains, nat_eq, Bool-cases, inl, inr, >>=-eq-ok, All, nat_beq_iff, select,
  contains_of_Fresh,
}
use mathlib.Core.Path.{subst}
use mathlib.Core.List.{append-nil}
use tori_py.EventSourcing.Errors.{StreamId, stream_id_eq}
use tori_py.EventSourcing.Events.{AppendEvent, event_id}
use tori_py.EventSourcing.Store.{StoreState, stream_of}
use tori_py.EventSourcing.Store.Transaction.{StagedAppend, check_event_ids}
use tori_py.EventSourcing.Store.Commit.{validate_commit}
use tori_py.EventSourcing.Store.Commit.Batch.{
  batches, select-append, select-batch_self, select-batch_other, batch-Versions,
}
use tori_py.EventSourcing.Store.Valid.{Versions, of_stream}

-- The ids of a batch, and of all batches.
abbrev pub ids_of : List AppendEvent → List ℕ
ids_of = map event_id

abbrev pub staged_ids : List StagedAppend → List ℕ
staged_ids [] = []
staged_ids (s ∷ staged) = ids_of s.events ++ staged_ids staged

abbrev pub staged_streams : List StagedAppend → List StreamId
staged_streams [] = []
staged_streams (s ∷ staged) = s.stream_id ∷ staged_streams staged

-- The staged version of each stream is the committed one.
abbrev pub IsCurrent : StoreState → StagedAppend → Type 0
IsCurrent state s = length (stream_of state.streams s.stream_id) ≡ s.expected_version

pub check_event_ids-Fresh :
    (events : List AppendEvent) (seen ids : List ℕ)
    → check_event_ids events seen ≡ ok ids
    → Fresh seen (ids_of events) × (ids ≡ push (ids_of events) seen)
unfolding check_event_ids
check_event_ids-Fresh [] seen ids h = (tt, ground arith)
check_event_ids-Fresh (e ∷ events) seen ids h = elim (Bool-cases (contains seen (event_id e))) [
  | inl twice ↦ absurd (ground arith)
  | inr once ↦
      let (fresh, all) = check_event_ids-Fresh events (event_id e ∷ seen) ids (ground arith) in
      ((once, fresh), all)
]

pub validate_commit_lem :
    (state : StoreState) (staged : List StagedAppend) (seen ids : List ℕ)
    → validate_commit state staged seen ≡ ok ids
    → All (IsCurrent state) staged × Fresh seen (staged_ids staged)
unfolding validate_commit
validate_commit_lem state [] seen ids h = (tt, tt)
validate_commit_lem state (s ∷ staged) seen ids h =
    elim (Bool-cases (length (stream_of state.streams s.stream_id) == s.expected_version)) [
      | inl current ↦
          let (middle, checked, rest) =
            >>=-eq-ok (check_event_ids s.events seen) (validate_commit state staged)
              (ground arith) in
          let (fresh, all) = check_event_ids-Fresh s.events seen middle checked in
          let (currents, others) = validate_commit_lem state staged middle ids rest in
          (
            (
              (nat_beq_iff (length (stream_of state.streams s.stream_id)) s.expected_version).0
                  current,
              currents,
            ),
            Fresh-append seen (ids_of s.events) (staged_ids staged) fresh
                (subst (λ m. Fresh m (staged_ids staged)) all others),
          )
      | inr stale ↦ absurd (ground arith)
    ]

-- Only the batch of a stream has events of that stream.
select-batches_other :
    (sid : StreamId) (p : ℕ) (staged : List StagedAppend)
    → contains (staged_streams staged) sid ≡ false
    → select (of_stream sid) (batches p staged) ≡ []
unfolding batches contains
select-batches_other sid p [] h = refl
select-batches_other sid p (s ∷ staged) h = rw (
  select-append,
  select-batch_other sid s.stream_id s.expected_version p s.events (ground arith),
  select-batches_other sid (p + length s.events) staged (ground arith),
)

-- The new events of a stream follow its committed ones.
pub batches-Versions :
    (state : StoreState) (sid : StreamId) (p : ℕ) (staged : List StagedAppend)
    (seen : List StreamId)
    → All (IsCurrent state) staged
    → Fresh seen (staged_streams staged)
    → Versions (length (stream_of state.streams sid)) (select (of_stream sid) (batches p staged))
unfolding batches contains
batches-Versions state sid p [] seen currents fresh = tt
batches-Versions state sid p (s ∷ staged) seen currents fresh =
    elim (Bool-cases (s.stream_id == sid)) [
      | inl same ↦
          let absent =
            contains_of_Fresh (s.stream_id ∷ seen) (staged_streams staged) sid fresh.1
              (ground arith) in
          let here = (stream_id_eq.beq_iff s.stream_id sid).0 same in
          rw
            (
              select-append,
              select-batches_other sid (p + length s.events) staged absent,
              ← here,
              select-batch_self,
              append-nil,
              currents.0,
            )
            (batch-Versions s.stream_id s.expected_version p s.events)
      | inr other ↦
          rw (select-append, select-batch_other sid s.stream_id s.expected_version p s.events other)
            (batches-Versions state sid (p + length s.events) staged (s.stream_id ∷ seen) currents.1
              fresh.1)
    ]
