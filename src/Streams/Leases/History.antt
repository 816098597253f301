-- ===== src/Streams/Leases/History.antt =====
-- What a run of calls on the log of inmemory.py leaves of the log before it.
use mathlib.Core.Path.{subst}
use tori_py.Prelude.Dict
use tori_py.Prelude.{
  ℕ, ◌≤◌, sym, ◌∙◌, inl, inr, arith, ok, String, ◌≡◌, some, List, ap, string_eq, nat_eq, pair_eq,
}
use tori_py.Value.{Value}
use tori_py.Streams.Models.Requests.{AppendRequest}
use tori_py.Streams.Errors.{last_successful}
use tori_py.Streams.Models.Positions.{cursor_at}
use tori_py.Streams.Log.{StreamState, ProducerState}
use tori_py.Streams.Log.Growth.{Advances, Grows, Grows-same, Grows-trans}
use tori_py.Streams.Log.Append.{route_partition, append}
use tori_py.Streams.Log.Append.Seen.{append-seen}
use tori_py.Streams.Log.Append.Grown.{append-Grows}
use tori_py.Streams.Log.Trim.Grown.{trim-Grows, declare_stream-Grows}
use tori_py.Streams.Leases.Acquire.{install, initialize_broker}
use tori_py.Streams.Leases.Deliver.{advance, release_locked, close}
use tori_py.Streams.Leases.Streams.{
  streams-install, streams-initialize_broker, streams-advance, streams-release_locked,
  streams-close,
}
use tori_py.Streams.Leases.Run.{Steps, act_all-steps}
use tori_py.Streams.Leases.Scheduler.{System, Action, act_all}

Grows-Steps : Steps Grows
Grows-Steps = record {
  viewed = λ log log' same. Grows-same log log' (ap (λ v. v.1) same);
  join = Grows-trans;
  install_step = λ a log. Grows-same log (install a log).1 (streams-install a log);
  initialize_broker_step = λ clock lease log.
      Grows-same log (initialize_broker clock lease log).1
        (streams-initialize_broker clock lease log);
  advance_step = λ e n l lease log there.
      Grows-same log (advance e (cursor_at last_successful n) l lease log).1
        (streams-advance e (cursor_at last_successful n) l lease log);
  release_step = λ l lease log there.
      Grows-same log (release_locked l lease log) (streams-release_locked l lease log);
  close_step = λ log. Grows-same log (close log) (streams-close log);
  append_step = append-Grows;
  trim_step = trim-Grows;
  declare_step = declare_stream-Grows;
}

pub act_all-Grows : (actions : List Action) (s : System) → Grows s.log (act_all actions s).log
act_all-Grows actions s = act_all-steps Grows Grows-Steps actions s

Advances-le :
    (j : ℕ) (p p' : ProducerState) → Advances p p' → j ≤ p.publishing_id → j ≤ p'.publishing_id
Advances-le j p p' (inl same) h = subst (λ x. j ≤ x.publishing_id) (sym same) h
Advances-le j p p' (inr above) h = omega (arith, above, h)

-- Where the log has an entry of a producer on the partition that its request is routed to, with the
-- request's publishing id or a higher one, then after any run of calls, and whatever the clock, an
-- append of that request leaves the log exactly as it was, whether it returns or raises.
pub act_all-once :
    (actions : List Action) (s : System) (clock : Value) (stream name : String)
    (request : AppendRequest) (state : StreamState) (p j : ℕ) (existing : ProducerState)
    → Dict.get s.log.streams stream ≡ some state
    → route_partition state.definition request ≡ ok p
    → request.producer_name ≡ some name
    → request.publishing_id ≡ some j
    → Dict.get state.producers (p, name) ≡ some existing
    → j ≤ existing.publishing_id
    → (append clock stream request (act_all actions s).log).1 ≡ (act_all actions s).log
act_all-once actions s clock stream name request state p j existing known routed named numbered
      there seen =
    let (state', known', grows) = act_all-Grows actions s stream state known in
    let (existing', there', later) = grows.producers (p, name) existing there in
    append-seen clock stream name request state' p j existing'
      (ap (λ d. route_partition d request) grows.definition ∙ routed) named numbered there'
      (Advances-le j existing existing' later seen) (act_all actions s).log known'
