-- ===== src/EventSourcing/Store/Valid.antt =====
-- What makes a committed state well formed.
use tori_py.Prelude.{ℕ, ◌+◌, ◌≡◌, List, [], ◌∷◌, Bool, ◌==◌, select, map, Fresh, nat_eq}
use tori_py.EventSourcing.Errors.{StreamId, stream_id_eq}
use tori_py.EventSourcing.Events.{StoredEvent}
use tori_py.EventSourcing.Store.{StoreState, stream_of}
use tori_py.EventSourcing.Store.Commit.{stored_id}

-- Global positions count on from `n`, without a gap.
abbrev pub Positions : ℕ → List StoredEvent → Type 0
Positions n [] = Unit
Positions n (e ∷ events) = (e.global_position ≡ n + 1) × Positions (n + 1) events

-- Stream versions count on from `n`, without a gap.
abbrev pub Versions : ℕ → List StoredEvent → Type 0
Versions n [] = Unit
Versions n (e ∷ events) = (e.stream_version ≡ n + 1) × Versions (n + 1) events

abbrev pub of_stream : StreamId → StoredEvent → Bool
of_stream sid e = e.stream_id == sid

pub record StateIsValid (state : StoreState) : Type 0 where
  pub positions : Positions 0 state.events
  pub streams : (sid : StreamId) → stream_of state.streams sid ≡ select (of_stream sid) state.events
  pub versions : (sid : StreamId) → Versions 0 (stream_of state.streams sid)
  pub ids : state.event_ids ≡ map stored_id state.events
  pub distinct : Fresh [] state.event_ids
