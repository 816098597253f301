-- ===== src/Streams/Log/Append/Duplicates.antt =====
-- `append` of inmemory.py for a publishing id that the partition has seen last.
use mathlib.Core.Path.{subst}
use tori_py.Prelude.Dict
use tori_py.Prelude.{
  ℕ, String, ◌≡◌, refl, >>=-eq-ok, Option, none, some, true, false, List, [], ◌∷◌, arith, ==_refl,
  ok, Result-cases, inl, inr, length, string_eq, nat_eq, list_eq, option_eq, pair_eq, ap, ◌∙◌,
}
use tori_py.Value.{Value}
use tori_py.Streams.Models.Requests.{
  Headers, AppendRequest, PublishReceipt, deduplicated, includes, headers_equal, request_equal,
}
use tori_py.Streams.Limits.{validate_append_request_limits}
use tori_py.Streams.Log.{StreamState}
use tori_py.Streams.Log.Append.{
  route_partition, check_existing, check_producer, duplicate_receipt, admit, append_stream,
  append_new, confirmed_receipt, remembered,
}
use tori_py.Streams.Log.Append.Outcome.{Appended, append_new-Appended, by_name, by_id}

-- The names of a mapping's entries are distinct.
abbrev pub HasDistinctNames : Headers → Type 0
HasDistinctNames [] = Unit
HasDistinctNames ((n, v) ∷ h) = (Dict.has h n ≡ false) × HasDistinctNames h

-- An entry in front does not hide the entries of a mapping that lacks its name.
includes-cons :
    (n : String) (v : List ℕ) (g h : Headers)
    → Dict.has g n ≡ false
    → includes g h ≡ true
    → includes g ((n, v) ∷ h) ≡ true
unfolding includes Dict.has Dict.get
includes-cons n v [] h fresh inc = refl
includes-cons n v ((m, w) ∷ g) h fresh inc =
    ground (arith, string_eq.beq_iff n m, string_eq.beq_iff m n, includes-cons n v g h)

includes_refl : (h : Headers) → HasDistinctNames h → includes h h ≡ true
unfolding includes Dict.get
includes_refl [] d = refl
includes_refl ((n, v) ∷ h) d =
    ground (arith, ==_refl n, ==_refl v, includes-cons n v h h d.0 (includes_refl h d.1))

pub request_equal_refl :
    (request : AppendRequest)
    → HasDistinctNames request.headers
    → request_equal request request ≡ true
unfolding request_equal headers_equal
request_equal_refl request d =
    rw
      (
        ==_refl request.partition_key,
        ==_refl request.payload,
        includes_refl request.headers d,
        ==_refl request.producer_name,
        ==_refl request.publishing_id,
        ==_refl request.record_id,
        ==_refl (length request.headers),
      )
      refl

pub admit_parts :
    (state : StreamState) (request : AppendRequest) (p : ℕ) (d : Option PublishReceipt)
    → admit state request ≡ ok (p, d)
    → (validate_append_request_limits state.definition request ≡ ok tt)
      × (route_partition state.definition request ≡ ok p)
      × (check_producer state request p ≡ ok d)
unfolding admit
admit_parts state request p d h =
    let (u, limits, rest) =
      >>=-eq-ok (validate_append_request_limits state.definition request) _ h in
    let (q, routed, rest') = >>=-eq-ok (route_partition state.definition request) _ rest in
    let (e, checked, last) = >>=-eq-ok (check_producer state request q) _ rest' in
    (limits, ground arith, ground arith)

admit_again :
    (state state' : StreamState) (request : AppendRequest) (p : ℕ) (d d' : Option PublishReceipt)
    → admit state request ≡ ok (p, d)
    → state'.definition ≡ state.definition
    → check_producer state' request p ≡ ok d'
    → admit state' request ≡ ok (p, d')
unfolding admit
admit_again state state' request p d d' h same checked =
    let (limits, routed, _) = admit_parts state request p d h in
    simp (same, limits, routed, checked)

pub check_producer-deduplicated :
    (state : StreamState) (request : AppendRequest) (p : ℕ) (r : PublishReceipt)
    → check_producer state request p ≡ ok (some r)
    → r ≡ record r { outcome = deduplicated }
unfolding check_producer check_existing duplicate_receipt
check_producer-deduplicated state request p r h = ground arith

-- A producer's entry after its append.
remembered_entry :
    (clock : Value) (stream name : String) (request : AppendRequest) (p id : ℕ)
    (state state' : StreamState) (receipt : PublishReceipt)
    → request.producer_name ≡ some name
    → request.publishing_id ≡ some id
    → Appended clock stream request p state receipt state'
    → Dict.get state'.producers (p, name) ≡ some (remembered request p id)
remembered_entry clock stream name request p id state state' receipt named numbered a =
    ap (λ d. Dict.get d (p, name)) a.producers
    ∙ ap (λ n. Dict.get (by_name state.producers request p n) (p, name)) named
    ∙ ap (λ i. Dict.get (by_id state.producers request p name i) (p, name)) numbered
    ∙ Dict.get-put_self state.producers (p, name) (remembered request p id)

check_existing-again :
    (request : AppendRequest) (p id : ℕ)
    → HasDistinctNames request.headers
    → check_existing request p (some (remembered request p id)) (some id)
      ≡ ok (some (record (confirmed_receipt request p) { outcome = deduplicated }))
unfolding check_existing duplicate_receipt remembered confirmed_receipt
check_existing-again request p id d = simp (==_refl id, request_equal_refl request d)

-- A named producer finds the request that it has just published.
check_producer-again :
    (clock : Value) (stream name : String) (request : AppendRequest) (p : ℕ)
    (state state' : StreamState) (receipt : PublishReceipt)
    → HasDistinctNames request.headers
    → request.producer_name ≡ some name
    → Appended clock stream request p state receipt state'
    → check_producer state' request p ≡ ok (some (record receipt { outcome = deduplicated }))
unfolding check_producer
check_producer-again clock stream name request p state state' receipt d named a =
    let (id, numbered) = a.numbered name named in
    ground (
      arith,
      named,
      numbered,
      a.confirms,
      remembered_entry clock stream name request p id state state' receipt named numbered a,
      check_existing-again request p id d,
    )

-- The same request once more is a duplicate: nothing is written.
pub append_stream-again :
    (clock clock' : Value) (stream name : String) (request : AppendRequest) (state : StreamState)
    (receipt : PublishReceipt)
    → HasDistinctNames request.headers
    → request.producer_name ≡ some name
    → (append_stream clock stream request state).0 ≡ ok receipt
    → append_stream clock' stream request (append_stream clock stream request state).1 ≡ (
      ok (record receipt { outcome = deduplicated }),
      (append_stream clock stream request state).1,
    )
unfolding append_stream
append_stream-again clock clock' stream name request state receipt d named h =
    elim (Result-cases (admit state request)) [
      | inl (e, refused) ↦ absurd (ground arith)
      | inr ((p, some r), duplicate) ↦
          let (_, _, checked) = admit_parts state request p (some r) duplicate in
          let same : r ≡ receipt = ground arith in
          simp (duplicate, append_stream, duplicate, same)
            (ap (λ x. (ok x, state))
              (subst (λ x. x ≡ record x { outcome = deduplicated }) same
                (check_producer-deduplicated state request p r checked)))
      | inr ((p, none), fresh) ↦
          let state' = (append_new clock stream request p state).1 in
          let a =
            append_new-Appended clock stream request p state receipt
              (simp (fresh, append_stream) at h) in
          let again =
            admit_again state state' request p none
              (some (record receipt { outcome = deduplicated })) fresh a.definition
              (check_producer-again clock stream name request p state state' receipt d named a) in
          simp (fresh, append_stream, again)
    ]
