-- ===== src/Shm/Snapshot.antt =====
-- crates/open-ot-shm/src/lib.rs: what `read_control_snapshot` returns.
use open_ot_experiments.Prelude.{ℕ, ◌+◌, ◌≤◌, ◌≡◌, List, take, ok}
use open_ot_experiments.Control.{ControlBlockSnapshot, decode_with_locks, control_block_len}
use open_ot_experiments.Shm.Seqlock.{lock}

-- The control block of the mapping at load number `at`, which the next 97 loads found unchanged.
pub record Instant (region : ℕ → List ℕ) (s : ControlBlockSnapshot) (at : ℕ) : Type 0 where
  pub still : (k : ℕ) → k ≤ 97 → region (at + k) ≡ region at
  pub decoded :
      decode_with_locks (take control_block_len (region at)) (lock (region at)) (lock (region at))
      ≡ ok s
