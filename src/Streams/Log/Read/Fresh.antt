-- ===== src/Streams/Log/Read/Fresh.antt =====
-- `read` of inmemory.py after an `append`.
use mathlib.Core.Path.{subst, subst₂}
use tori_py.Prelude.Dict
use tori_py.Prelude.{
  take-nil, ℕ, zero, suc, ◌+◌, ◌≤◌, ◌<◌, String, ◌≡◌, refl, sym, ap, ◌∙◌, some, List, [], ◌∷◌, ◌++◌,
  arith, ok, take, select, get_elem?, get_elem?-set_self, string_eq,
}
use tori_py.Value.{Value, int}
use tori_py.Streams.Models.Requests.{AppendRequest, PublishReceipt, confirmed}
use tori_py.Streams.Models.Records.{StoredRecord, RecordPage}
use tori_py.Streams.Log.{PartitionState, StreamState, Log, at_or_after}
use tori_py.Streams.Log.Partition.{Chain, Chain-le}
use tori_py.Streams.Log.Append.{append, new_record, confirmed_receipt}
use tori_py.Streams.Log.Append.Outcome.{appended}
use tori_py.Streams.Log.Append.Confirmed.{Confirmed, append-Confirmed}
use tori_py.Streams.Log.Read.{read}
use tori_py.Streams.Log.Read.Pages.{read_lem, bounds_lem}
use tori_py.Streams.Log.Valid.{LogIsValid}
use tori_py.Streams.Log.Valid.Append.{append-LogIsValid}

-- Nothing that a chain holds is at its end or after it.
select-at_or_after_new :
    (lo hi : ℕ) (rs : List StoredRecord) (r : StoredRecord)
    → Chain lo rs hi
    → r.offset ≡ hi
    → select (at_or_after hi) (rs ++ r ∷ []) ≡ r ∷ []
select-at_or_after_new lo hi [] r h e = ground arith
select-at_or_after_new lo hi (s ∷ rs) r h e =
    ground (
      arith,
      select-at_or_after_new (s.offset + 2) hi rs r h.1 e,
      Chain-le (s.offset + 2) hi rs h.1,
    )

abbrev pub IsCopy : String → AppendRequest → PublishReceipt → ℕ → StoredRecord → Type 0
IsCopy stream request receipt offset r =
    (r.record_id ≡ request.record_id)
    × (r.stream ≡ stream)
    × (r.partition_key ≡ request.partition_key)
    × (r.payload ≡ request.payload)
    × (r.headers ≡ request.headers)
    × (r.partition ≡ receipt.partition)
    × (r.offset ≡ offset)

-- The record as `read` finds it in the log after the append.
read-Appended :
    (clock : Value) (stream : String) (request : AppendRequest) (log log' : Log)
    (receipt : PublishReceipt) (k : ℕ)
    → (c : Confirmed clock stream request log receipt log') → LogIsValid log
    → LogIsValid log'
    → 0 < k
    → k ≤ c.state.definition.limits.max_read_records
    → (page : RecordPage) × (read log' stream
          (int c.partition)
          (int c.outcome.part.next_offset)
          (int k)
        ≡ ok page)
      × (page.records ≡ new_record stream request c.partition c.outcome.part c.outcome.now ∷ [])
unfolding appended new_record
read-Appended clock stream request log log' receipt zero c v v' positive fits = absurd (omega arith)
read-Appended clock stream request log log' receipt (suc k) c v v' positive fits =
    let a = c.outcome in
    let r = new_record stream request c.partition a.part a.now in
    let valid = (v.streams stream c.state c.known).partitions c.partition a.part a.present in
    let part' = appended stream request c.partition a.now a.part in
    let present' : get_elem? c.state'.partitions c.partition ≡ some part' =
      ap (λ l. get_elem? l c.partition) a.partitions
      ∙ get_elem?-set_self c.state.partitions c.partition part' a.part a.present in
    let last =
      select-at_or_after_new a.part.earliest_offset a.part.next_offset a.part.records r valid.chain
        refl in
    (
      record { records = r ∷ take k []; bounds = some (bounds_lem part') },
      read_lem log' stream c.state' c.partition a.part.next_offset (suc k) part' v'
            (c.same_closed ∙ c.usable)
            (ap (λ d. Dict.get d stream) c.streams ∙ Dict.get-put_self log.streams stream c.state')
            present' (Chain-le a.part.earliest_offset a.part.next_offset a.part.records valid.chain)
            positive (subst (λ d. suc k ≤ d.limits.max_read_records) (sym a.definition) fits)
          ∙ ap (λ l. ok (record { records = take (suc k) l; bounds = some (bounds_lem part') }))
              last,
      ap (◌∷◌ r) (take-nil k),
    )

-- After an `append` to a well-formed log that was confirmed, a read of the receipt's partition from
-- the offset that was its end before, with a positive limit within the stream's limit, returns
-- exactly one record: the request's id, key, payload and headers, at that offset, in the receipt's
-- partition.
pub append-read :
    (clock : Value) (stream : String) (request : AppendRequest) (log : Log)
    (receipt : PublishReceipt) (state : StreamState) (part : PartitionState) (k : ℕ)
    → LogIsValid log
    → (append clock stream request log).0 ≡ ok receipt
    → receipt.outcome ≡ confirmed
    → Dict.get log.streams stream ≡ some state
    → get_elem? state.partitions receipt.partition ≡ some part
    → 0 < k
    → k ≤ state.definition.limits.max_read_records
    → (page : RecordPage) × (r : StoredRecord) × (read
          (append clock stream request log).1
          stream
          (int receipt.partition)
          (int part.next_offset)
          (int k)
        ≡ ok page)
      × (page.records ≡ r ∷ [])
      × IsCopy stream request receipt part.next_offset r
unfolding new_record
append-read clock stream request log receipt state part k v h outcome known present positive fits =
    let c = append-Confirmed clock stream request log receipt h outcome in
    let same_state : c.state ≡ state = cc (c.known, known) in
    let same_partition : receipt.partition ≡ c.partition =
      unfold confirmed_receipt in ap (λ x. x.partition) c.outcome.confirms in
    let same_part : c.outcome.part ≡ part =
      cc (
        c.outcome.present,
        present,
        same_state,
        same_partition,
        ap (λ s. s.partitions) same_state,
      ) in
    let (page, found, only) =
      read-Appended clock stream request log (append clock stream request log).1 receipt k c v
        (append-LogIsValid clock stream request log v) positive
        (subst (λ s. k ≤ s.definition.limits.max_read_records) (sym same_state) fits) in
    (
      page,
      new_record stream request c.partition c.outcome.part c.outcome.now,
      subst₂
          (λ p q.
            read (append clock stream request log).1 stream (int p) (int q.next_offset) (int k)
            ≡ ok page)
          (sym same_partition) same_part found,
      only,
      (refl, refl, refl, refl, refl, sym same_partition, ap (λ q. q.next_offset) same_part),
    )
