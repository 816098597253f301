-- ===== src/Tests/Logs/Runs.antt =====
-- What the methods of a log do there.
use Prim.Native.Nat.{min}
use tori_py.Prelude.Dict
use tori_py.Prelude.{
  ℕ, ◌≡◌, refl, some, List, [], ◌∷◌, ok, arith, string_eq, ◌++◌, length, set, ◌<◌, ◌≤◌, All,
}
use tori_py.Value.{int, moment}
use tori_py.Streams.Models.Requests.{deduplicated}
use tori_py.Streams.Log.{PartitionState}
use tori_py.Streams.Log.Declare.{empty_partition}
use tori_py.Streams.Log.Append.{append, confirmed_receipt, remembered}
use tori_py.Streams.Log.Append.Retry.{append-append}
use tori_py.Streams.Log.Read.{read}
use tori_py.Streams.Log.Read.Pages.{read_lem}
use tori_py.Streams.Log.Read.Fresh.{append-read, IsCopy}
use tori_py.Streams.Models.Records.{StoredRecord, RecordPage}
use tori_py.Streams.Log.Trim.{trim}
use tori_py.Streams.Log.Trim.Exact.{trim-splits, read-trim}
use tori_py.Streams.Log.Valid.{LogIsValid}
use tori_py.Streams.Log.Valid.Append.{append-LogIsValid}
use tori_py.Streams.Log.Valid.Trim.{trim-LogIsValid}
use tori_py.Streams.Routing.{route}
use tori_py.Streams.Routing.Bounds.{route-in_range}
use tori_py.Streams.Leases.Scheduler.{System, Action, appending, trimming, declaring, act_all}
use tori_py.Streams.Leases.History.{act_all-once}
use tori_py.Tests.Logs.{
  request-routed, second-known, request-seen, second_request, orders, request, orders_log,
  orders_log-IsValid, filled_log, filled_log-IsValid, stored, filled_partition, receipt,
  filled_state, orders_state, orders_log-state, append-receipt, filled_log-state, filled_log-open,
  second_log, second_log-IsValid, second_partition, second_state, second_log-state, second_log-open,
}

append-LogIsValid_example : LogIsValid filled_log
append-LogIsValid_example =
    append-LogIsValid (moment 100) "orders" request orders_log orders_log-IsValid

append-append_example :
    append (moment 50) "orders" request filled_log
    ≡ (ok (record receipt { outcome = deduplicated }), filled_log)
append-append_example =
    append-append (moment 100) (moment 50) "orders" "shop" request orders_log receipt tt refl
      append-receipt

read_lem_example :
    read filled_log "orders" (int 0) (int 0) (int 10)
    ≡ ok (record {
      records = stored ∷ [];
      bounds = some (record { earliest_offset = 0; end_offset = 2 });
    })
read_lem_example =
    read_lem filled_log "orders" filled_state 0 0 10 filled_partition filled_log-IsValid
      filled_log-open filled_log-state refl (omega arith) (omega arith) (omega arith)

append-read_example :
    (page : RecordPage) × (r : StoredRecord) × (read filled_log "orders" (int 0) (int 0) (int 10)
      ≡ ok page)
    × (page.records ≡ r ∷ [])
    × IsCopy "orders" request receipt 0 r
unfolding confirmed_receipt
append-read_example =
    append-read (moment 100) "orders" request orders_log receipt orders_state empty_partition 10
      orders_log-IsValid append-receipt refl orders_log-state refl (omega arith) (omega arith)

trim-LogIsValid_example : LogIsValid (trim "orders" (int 0) (int 2) second_log).1
trim-LogIsValid_example = trim-LogIsValid "orders" (int 0) (int 2) second_log second_log-IsValid

trim-splits_example :
    (dropped : List StoredRecord) × (part : PartitionState) × ((trim "orders"
        (int 0)
        (int 2)
        second_log).0
      ≡ ok (length dropped))
    × (Dict.get (trim "orders" (int 0) (int 2) second_log).1.streams "orders"
        ≡ some (record second_state { partitions = set second_state.partitions 0 part }))
    × (second_partition.records ≡ dropped ++ part.records)
    × All (λ r. r.offset < 2) dropped
    × All (λ r. min 2 4 ≤ r.offset) part.records
    × (part.next_offset ≡ 4)
trim-splits_example =
    trim-splits second_log "orders" second_state 0 2 second_partition second_log-IsValid
      second_log-open second_log-state refl (omega arith)

read-trim_example :
    (before after : RecordPage) × (read second_log "orders" (int 0) (int 2) (int 10) ≡ ok before)
    × (read (trim "orders" (int 0) (int 2) second_log).1 "orders" (int 0) (int 2) (int 10)
        ≡ ok after)
    × (after.records ≡ before.records)
read-trim_example =
    read-trim second_log "orders" second_state 0 2 2 10 second_partition second_log-IsValid
      second_log-open second_log-state refl (omega arith) (omega arith) (omega arith) (omega arith)

route-in_range_example :
    (p : ℕ) × (route (λ key. 255 ∷ 7 ∷ key) (1 ∷ 2 ∷ []) (int 3) ≡ ok p) × (p < 3)
route-in_range_example = route-in_range (λ key. 255 ∷ 7 ∷ key) 1 (2 ∷ []) 3 (omega arith)

-- A log with two records, and calls that trim it, declare its stream again, and append to it.
abbrev system : System
system = record { log = second_log; tasks = [] }

abbrev later : List Action
later =
    trimming "orders" (int 0) (int 2)
    ∷ declaring orders
    ∷ appending (moment 120) "orders" (record request { record_id = 9; publishing_id = some 7 })
    ∷ []

act_all-once_example :
    (append (moment 130) "orders" request (act_all later system).log).1 ≡ (act_all later system).log
act_all-once_example =
    act_all-once later system (moment 130) "orders" "shop" request second_state 0 5
      (remembered second_request 0 6) second_log-state request-routed refl refl second-known
      request-seen
