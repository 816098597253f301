-- ===== src/Streams/Leases/View/Blocks.antt =====
-- The calls of a lease, and the loop of `close`, of inmemory.py: what they leave as it is.
use tori_py.Prelude.{
  ℕ, ◌≡◌, refl, ◌∙◌, some, List, [], ◌∷◌, true, get_elem?, Option-cases, Result-cases, inl, inr,
  nat_eq, option_eq, string_eq,
}
use tori_py.Streams.Errors.{ResumeCursor}
use tori_py.Streams.Models.Positions.{CheckpointKey, key_eq}
use tori_py.Streams.Log.{Lease, Log}
use tori_py.Streams.Leases.{set_lease, require_owner_locked}
use tori_py.Streams.Leases.Deliver.{
  delivering, check_next, next_after, next_locked, completed, complete_delivery, confirm, stop,
  release_all,
}
use tori_py.Streams.Leases.View.{view, view-set_lease}

pub view-next_locked :
    (cursor : ResumeCursor) (l : ℕ) (lease : Lease) (log : Log)
    → get_elem? log.objects l ≡ some lease
    → view (next_locked cursor l lease log).1 ≡ view log
unfolding next_locked
view-next_locked cursor l lease log there = elim (Result-cases (check_next cursor lease log)) [
  | inl (e, refused) ↦ simp (refused, next_locked) refl
  | inr (part, checked) ↦ elim (Option-cases (next_after cursor part.records)) [
    | inl at_end ↦ simp (checked, at_end, next_locked) refl
    | inr (r, found) ↦
        simp (checked, found, next_locked)
          (view-set_lease l lease (delivering lease r) log there refl)
  ]
]

pub view-confirm :
    (l : ℕ) (lease : Lease) (log : Log)
    → get_elem? log.objects l ≡ some lease
    → view (confirm l lease log).1 ≡ view log
unfolding confirm complete_delivery
view-confirm l lease log there =
    elim (Result-cases (require_owner_locked lease.key lease.owner log)) [
      | inl (e, refused) ↦ simp (refused, confirm) refl
      | inr (_, owned) ↦
          simp (owned, confirm) (view-set_lease l lease (completed lease) log there refl)
    ]

pub view-stop :
    (l : ℕ) (lease : Lease) (log : Log)
    → get_elem? log.objects l ≡ some lease
    → view (stop l lease log) ≡ view log
unfolding stop
view-stop l lease log there =
    view-set_lease l lease (completed (record lease { stopped = true })) log there refl

pub view-release_all :
    (leases : List (CheckpointKey × ℕ)) (log : Log) → view (release_all leases log) ≡ view log
unfolding release_all
view-release_all [] log = refl
view-release_all ((key, l) ∷ leases) log = elim (Option-cases (get_elem? log.objects l)) [
  | inl missing ↦ simp (missing, release_all) (view-release_all leases log)
  | inr (lease, there) ↦
      let freed = completed (record lease { released = true }) in
      simp (there, release_all)
        (view-release_all leases (set_lease l freed log)
          ∙ view-set_lease l lease freed log there refl)
]
