-- ===== src/Streams/Leases/View/Claims.antt =====
-- `acquire` of inmemory.py up to the new lease: it leaves leases, cursors and streams as they are.
use tori_py.Prelude.Dict
use tori_py.Prelude.{
  ℕ, ◌+◌, ◌≡◌, refl, ◌∙◌, Option, none, some, Bool, true, false, length, get_elem?, Bool-cases,
  Option-cases, Result-cases, inl, inr, if◌then◌else◌, ◌==◌, nat_eq, option_eq, string_eq, pair_eq,
  leb,
}
use tori_py.Value.{Value}
use tori_py.Streams.Models.Positions.{key_eq, Subscription}
use tori_py.Streams.Log.{Log, StrategyBinding}
use tori_py.Streams.Leases.{
  binding_eq, Scope, check_strategy, release_strategy_reservation, release_pending,
  reserve_strategy,
}
use tori_py.Streams.Leases.Acquire.{
  Strategy, Acquisition, scope, release_claim, set_revocation, request_transfer, claim,
  begin_acquire, cancel_acquire, finish_acquire, still_current, check_acquire, binding_of,
}
use tori_py.Streams.Leases.View.{view, view-set_lease}

view-release_pending :
    (s : Scope) (binding : StrategyBinding) (pending : Option (StrategyBinding × ℕ)) (log : Log)
    → view (release_pending s binding pending log) ≡ view log
unfolding release_pending
view-release_pending s binding none log = refl
view-release_pending s binding (some (current, n)) log = elim (Bool-cases (current == binding)) [
  | inl same ↦ elim (Bool-cases (n == 1)) [
    | inl last ↦ simp (same, last) refl
    | inr more ↦ simp (same, more) refl
  ]
  | inr other ↦ simp other refl
]

pub view-release_claim : (a : Acquisition) (log : Log) → view (release_claim a log) ≡ view log
unfolding release_claim release_strategy_reservation
view-release_claim a log =
    view-release_pending (scope a) a.binding (Dict.get log.pending_group_strategies (scope a)) log

view-set_revocation :
    (requested : Bool) (l : ℕ) (log : Log) → view (set_revocation requested l log) ≡ view log
unfolding set_revocation
view-set_revocation requested l log = elim (Option-cases (get_elem? log.objects l)) [
  | inl missing ↦ simp (missing, set_revocation) refl
  | inr (lease, there) ↦
      simp (there, set_revocation)
        (view-set_lease l lease (record lease { revocation_requested = requested }) log there refl)
]

pub view-claim :
    (transfer : Bool) (a : Acquisition) (log : Log) → view (claim transfer a log).1 ≡ view log
unfolding claim request_transfer set_revocation
view-claim transfer a log = elim (Option-cases (Dict.get log.leases a.key)) [
  | inl unowned ↦ elim (Bool-cases (leb log.max_active_leases (length log.owners))) [
    | inl full ↦ simp (unowned, full, claim) (view-release_claim a log)
    | inr room ↦ simp (unowned, room, claim) refl
  ]
  | inr (l, owned) ↦ elim (Bool-cases transfer) [
    | inr refused ↦ simp (owned, refused, claim) (view-release_claim a log)
    | inl wanted ↦ elim (Bool-cases (Dict.has log.transfers a.key)) [
      | inl busy ↦ simp (owned, wanted, busy, claim) (view-release_claim a log)
      | inr free ↦
          simp (owned, wanted, free, claim, request_transfer)
            (view-set_revocation true l (record log {
              transfers = Dict.put log.transfers a.key log.next_marker;
              next_marker = log.next_marker + 1;
            }))
    ]
  ]
]

pub view-begin_acquire :
    (subscription : Subscription) (partition : Value) (strategy : Strategy) (transfer : Bool)
    (log : Log)
    → view (begin_acquire subscription partition strategy transfer log).1 ≡ view log
unfolding begin_acquire reserve_strategy
view-begin_acquire subscription partition strategy transfer log =
    elim (Result-cases (binding_of strategy)) [
      | inl (e, failed) ↦ simp (failed, begin_acquire) refl
      | inr (binding, bound) ↦ elim (Result-cases (check_acquire subscription partition log)) [
        | inl (e, failed) ↦ simp (bound, failed, begin_acquire) refl
        | inr (key, checked) ↦
            let a : Acquisition = record {
              subscription = subscription;
              key = key;
              binding = binding;
              current = none;
              marker = none;
            } in
            elim (Result-cases (check_strategy (scope a) binding log)) [
              | inl (e, failed) ↦ simp (bound, checked, failed, begin_acquire) refl
              | inr (_, fits) ↦
                  simp (bound, checked, fits, begin_acquire)
                    (view-claim transfer a (reserve_strategy (scope a) binding log))
            ]
      ]
    ]

view-give_back :
    (current : Bool) (asked : Option ℕ) (log : Log)
    → view
        (if current then elim asked [ none ↦ log | some l ↦ set_revocation false l log ] else log)
      ≡ view log
view-give_back true none log = refl
view-give_back true (some l) log = view-set_revocation false l log
view-give_back false asked log = refl

pub view-cancel_acquire : (a : Acquisition) (log : Log) → view (cancel_acquire a log) ≡ view log
unfolding cancel_acquire
view-cancel_acquire a log = elim (Option-cases a.marker) [
  | inl none_asked ↦ simp (none_asked, cancel_acquire) (view-release_claim a log)
  | inr (m, asked) ↦
      let removed = record log { transfers = Dict.remove log.transfers a.key } in
      let current = still_current a removed in
      let kept =
        if current
        then elim a.current [ none ↦ removed | some l ↦ set_revocation false l removed ]
        else removed in
      elim (Bool-cases (Dict.get log.transfers a.key == some m)) [
        | inr other ↦ simp (asked, other, cancel_acquire) (view-release_claim a log)
        | inl mine ↦
            simp (asked, mine, cancel_acquire)
              (view-release_claim a kept ∙ view-give_back current a.current removed)
      ]
]

pub view-finish_acquire : (a : Acquisition) (log : Log) → view (finish_acquire a log) ≡ view log
unfolding finish_acquire
view-finish_acquire a log =
    view-release_claim a
      (record log { group_strategies = Dict.put log.group_strategies (scope a) a.binding })
