-- ===== src/Streams/Leases/Next.antt =====
-- `next_record` of inmemory.py beside `read`, and the checkpoint after it.
use tori_py.Prelude.{
  ℕ, ◌+◌, ◌≡◌, refl, sym, ap, ◌∙◌, Option, none, some, List, [], ◌∷◌, true, false, arith,
  Bool-cases, inl, inr, take, select,
}
use tori_py.Streams.Errors.{ResumeCursor, initialized, last_successful}
use tori_py.Streams.Models.Records.{StoredRecord}
use tori_py.Prelude.{Result-cases, Option-cases, ok, err, get_elem?, get_elem?-set_self}
use tori_py.Streams.Errors.{Error, lifecycle}
use tori_py.Streams.Log.{Lease, Log, require_open, PartitionState, at_or_after}
use tori_py.Streams.Leases.{set_lease, require_owner_locked}
use tori_py.Streams.Log.Read.{page_of}
use tori_py.Streams.Leases.Deliver.{follows, next_after, delivering, check_next, next_locked}

-- The first offset that a cursor has not processed.
abbrev pub resume_offset : ResumeCursor → ℕ
resume_offset cursor = elim cursor.kind [
  | initialized ↦ cursor.offset
  | last_successful ↦ cursor.offset + 1
]

abbrev pub first : List StoredRecord → Option StoredRecord
first [] = none
first (r ∷ records) = some r

follows-at_or_after :
    (cursor : ResumeCursor) (r : StoredRecord)
    → follows cursor r ≡ at_or_after (resume_offset cursor) r
unfolding follows
follows-at_or_after cursor r = ground arith

next_after-select :
    (cursor : ResumeCursor) (records : List StoredRecord)
    → next_after cursor records
      ≡ first (take 1 (select (at_or_after (resume_offset cursor)) records))
unfolding next_after
next_after-select cursor [] = refl
next_after-select cursor (r ∷ records) =
    let same = follows-at_or_after cursor r in
    elim (Bool-cases (follows cursor r)) [
      | inl later ↦
          let reached : at_or_after (resume_offset cursor) r ≡ true = sym same ∙ later in
          simp (later, reached) refl
      | inr earlier ↦
          let passed : at_or_after (resume_offset cursor) r ≡ false = sym same ∙ earlier in
          simp (earlier, passed) (next_after-select cursor records)
    ]

-- A lease delivers the record that a page of one record, read from the first offset that its cursor has
-- not processed, begins with, and none where that page is empty.
pub next_after-read :
    (cursor : ResumeCursor) (part : PartitionState)
    → next_after cursor part.records ≡ first (page_of part (resume_offset cursor) 1)
unfolding page_of
next_after-read cursor part = next_after-select cursor part.records

next_locked-delivers :
    (cursor : ResumeCursor) (l : ℕ) (lease : Lease) (log : Log) (r : StoredRecord)
    → (next_locked cursor l lease log).0 ≡ ok (some r)
    → ((part : PartitionState) × (check_next cursor lease log ≡ ok part))
      × ((next_locked cursor l lease log).1 ≡ set_lease l (delivering lease r) log)
unfolding next_locked
next_locked-delivers cursor l lease log r h = elim (Result-cases (check_next cursor lease log)) [
  | inl (e, refused) ↦ absurd (ground arith)
  | inr (part, checked) ↦ elim (Option-cases (next_after cursor part.records)) [
    | inl at_end ↦ absurd (ground arith)
    | inr (q, found) ↦
        let same : q ≡ r = ground arith in
        ((part, checked), simp (checked, found, same, next_locked) refl)
  ]
]

check_next-delivering :
    (cursor later : ResumeCursor) (l : ℕ) (lease : Lease) (log : Log) (r : StoredRecord)
    (part : PartitionState)
    → check_next cursor lease log ≡ ok part
    → check_next later (delivering lease r) (set_lease l (delivering lease r) log) ≡ err lifecycle
unfolding check_next set_lease require_owner_locked require_open
check_next-delivering cursor later l lease log r part h = ground arith

set_lease_object :
    (l : ℕ) (lease old : Lease) (log : Log)
    → get_elem? log.objects l ≡ some old
    → get_elem? (set_lease l lease log).objects l ≡ some lease
unfolding set_lease
set_lease_object l lease old log there = get_elem?-set_self log.objects l lease old there

next_locked-refused :
    (cursor : ResumeCursor) (l : ℕ) (lease : Lease) (log : Log) (e : Error)
    → check_next cursor lease log ≡ err e
    → (next_locked cursor l lease log).0 ≡ err e
unfolding next_locked
next_locked-refused cursor l lease log e refused = simp (refused, next_locked) refl

-- A lease has one delivery in flight at a time: after `next_record` has returned a record, the lease
-- object that it left raises a lifecycle error to the next `next_record`, whatever the cursor.
pub next_locked-next_locked :
    (cursor later : ResumeCursor) (l : ℕ) (lease after : Lease) (log : Log) (r : StoredRecord)
    → get_elem? log.objects l ≡ some lease
    → (next_locked cursor l lease log).0 ≡ ok (some r)
    → get_elem? (next_locked cursor l lease log).1.objects l ≡ some after
    → (next_locked later l after (next_locked cursor l lease log).1).0 ≡ err lifecycle
unfolding next_locked
next_locked-next_locked cursor later l lease after log r there delivered left =
    let ((part, checked), moved) = next_locked-delivers cursor l lease log r delivered in
    let log' = set_lease l (delivering lease r) log in
    let held : get_elem? log'.objects l ≡ some (delivering lease r) =
      set_lease_object l (delivering lease r) lease log there in
    let same : some after ≡ some (delivering lease r) =
      sym left ∙ ap (λ k. get_elem? k.objects l) moved ∙ held in
    let now : after ≡ delivering lease r = cc in
    let refused = check_next-delivering cursor later l lease log r part checked in
    rw (moved, now) (next_locked-refused later l (delivering lease r) log' lifecycle refused)
