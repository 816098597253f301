-- ===== src/EventSourcing/Aggregate/Apply/Replay.antt =====
-- What `_replay` has done when it returns.
use tori_py.Prelude.{
  ℕ, ◌+◌, ◌≡◌, some, List, [], ◌∷◌, Bool, ok, arith, length, sym, ap, ◌∙◌, Bool-cases, Result-cases,
  inl, inr, ◌==◌, nat_eq,
}
use mathlib.Core.Path.{subst}
use tori_py.EventSourcing.Errors.{StreamId, stream_id_eq}
use tori_py.EventSourcing.Events.{RecordedEvent}
use tori_py.EventSourcing.Aggregate.{Aggregate, require_mutable, is_empty}
use tori_py.EventSourcing.Aggregate.Apply.{
  expected_stream, check_page, apply_page, replay_page, replay,
}

-- The records belong to one stream and have the versions after `version`, without a gap.
abbrev pub IsPage : {Event : Type 0} → StreamId → ℕ → List (RecordedEvent Event) → Type 0
IsPage stream_id version [] = Unit
IsPage stream_id version (r ∷ page) =
    (r.stream_id ≡ stream_id)
    × (r.stream_version ≡ version + 1)
    × IsPage stream_id (version + 1) page

pub check_page-IsPage :
    {Event : Type 0} (stream_id : StreamId) (version : ℕ) (page : List (RecordedEvent Event))
    → check_page stream_id (version + 1) page ≡ ok tt
    → IsPage stream_id version page
unfolding check_page
check_page-IsPage stream_id version [] h = tt
check_page-IsPage stream_id version (r ∷ page) h = elim (Bool-cases (r.stream_id == stream_id)) [
  | inl same ↦ elim (Bool-cases (r.stream_version == version + 1)) [
    | inl next ↦ (
      (stream_id_eq.beq_iff r.stream_id stream_id).0 same,
      ground arith,
      check_page-IsPage stream_id (version + 1) page (ground arith),
    )
    | inr wrong ↦ absurd (ground arith)
  ]
  | inr other ↦ absurd (ground arith)
]

module _ {Event : Type 0} {State : Type 0} (apply : Event → State → Bool × State) where
  -- The state that the events lead to; each is applied to what the one before it left.
  abbrev pub fold_apply : List (RecordedEvent Event) → State → State
  fold_apply [] s = s
  fold_apply (r ∷ page) s = fold_apply page (apply r.event s).1

  pub apply_page_lem :
      (stream_id : StreamId) (page : List (RecordedEvent Event)) (a : Aggregate Event State)
      → IsPage stream_id a.version page
      → (apply_page apply page a).0 ≡ ok tt
      → (apply_page apply page a).1
        ≡ record a { state = fold_apply page a.state; version = a.version + length page }
  unfolding apply_page
  apply_page_lem stream_id [] a p h = ground arith
  apply_page_lem stream_id (r ∷ page) a (same, next, p) h =
      let (raised, s) = apply r.event a.state in
      let b : Aggregate Event State = record a { state = s; version = r.stream_version } in
      elim (Bool-cases (apply r.event a.state).0) [
        | inl failed ↦ absurd (ground arith)
        | inr fine ↦
            let done : (apply_page apply page b).0 ≡ ok tt = ground arith in
            let ih =
              apply_page_lem stream_id page b (subst (λ v. IsPage stream_id v page) (sym next) p)
                done in
            simp (fine, apply_page)
              (ih
                ∙ ap
                    (λ v. record a {
                      state = fold_apply page (apply r.event a.state).1;
                      version = v;
                    })
                    (omega (arith, next)))
      ]

  -- When `_replay` returns on a page that is not empty, the page continues the aggregate's own stream
  -- version by version, its events have been applied in order, and the version is the last record's.
  pub replay_lem :
      (r : RecordedEvent Event) (page : List (RecordedEvent Event)) (a : Aggregate Event State)
      → (replay apply (r ∷ page) a).0 ≡ ok tt
      → IsPage (expected_stream a.stream_id r) a.version (r ∷ page)
        × ((replay apply (r ∷ page) a).1 ≡ record a {
          state = fold_apply (r ∷ page) a.state;
          version = a.version + length (r ∷ page);
          stream_id = some (expected_stream a.stream_id r);
        })
  unfolding replay replay_page
  replay_lem r page a h =
      let sid = expected_stream a.stream_id r in
      let b : Aggregate Event State = record a { stream_id = some sid } in
      elim (Result-cases (require_mutable a)) [
        | inl (e, refused) ↦ absurd (ground arith)
        | inr (_, mutable) ↦ elim (Bool-cases (is_empty a.pending_events)) [
          | inr pending ↦ absurd (ground arith)
          | inl idle ↦ elim (Result-cases (check_page sid (a.version + 1) (r ∷ page))) [
            | inl (e, wrong) ↦ absurd (ground arith)
            | inr (_, checked) ↦
                let p = check_page-IsPage sid a.version (r ∷ page) (ground arith) in
                let done : (apply_page apply (r ∷ page) b).0 ≡ ok tt = ground arith in
                (
                  p,
                  simp (mutable, idle, checked, replay, replay_page)
                      (apply_page_lem sid (r ∷ page) b p done),
                )
          ]
        ]
      ]
