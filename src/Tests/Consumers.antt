-- ===== src/Tests/Consumers.antt =====
-- A lease with two records left.
use tori_py.Prelude.{ℕ, zero, suc, ◌≤◌, ◌≡◌, refl, Option, some, none, ok, ◌⊎◌}
use tori_py.Value.{int}
use tori_py.Streams.Errors.{Fallible}
use tori_py.Streams.Models.Records.{StoredRecord}
use tori_py.Streams.Consumers.{
  PartitionLease, positive_limit, save, handle, serve_next, turn, run_turns, run_once,
}
use tori_py.Streams.Consumers.Served.{Served, run_once-Served}
use tori_py.Tests.Logs.{stored}

-- The state is how many records are left.
abbrev next : ℕ → Fallible (Option StoredRecord) × ℕ
next zero = (ok none, zero)
next (suc n) = (ok (some stored), suc n)

abbrev saved : StoredRecord → ℕ → Fallible (Unit {0}) × ℕ
saved r zero = (ok tt, zero)
saved r (suc n) = (ok tt, n)

abbrev unchanged : ℕ → Fallible (Unit {0}) × ℕ
unchanged n = (ok tt, n)

abbrev lease : PartitionLease ℕ
lease = record {
  key = record { stream = "orders"; group = "billing"; partition = 0 };
  next_record = next;
  checkpoint = saved;
  stop = unchanged;
  release = unchanged;
}

abbrev handler : StoredRecord → ℕ → Fallible (Unit {0}) × ℕ
handler r n = (ok tt, n)

two-served : run_once lease handler (int 3) 2 ≡ (ok 2, 0)
unfolding run_once positive_limit run_turns turn serve_next handle save
two-served = refl

run_once-Served_example :
    (u : ℕ) × (2 ≤ 3)
    × Served lease handler 2 2 u
    × ((◌≡◌ {A = ℕ} 2 3) × (u ≡ 0) ⊎ (next u ≡ (ok none, 0)))
run_once-Served_example = run_once-Served lease handler 3 2 2 0 two-served
