-- ===== src/Cleanup/Sweep.antt =====
-- The loop of batches: it ends, it leaves no orphan, and it counts what it deleted.
use pyadcs_connector.Prelude.{
  ℕ, ltb, Bool-cases, count, zero, suc, ◌+◌, ◌≤◌, ◌<◌, ◌≡◌, inl, inr, true, some, arith,
}
use pyadcs_connector.Db.{Db}
use pyadcs_connector.Cleanup.{Planner, delete_orphan_batch, sweep}
use pyadcs_connector.Cleanup.Batch.{
  orphans, under, batch-deleted, orphans-batch, under-batch, all-batch,
}

-- What other transactions may do between two batches: anything, as long as they add no
-- certificate whose identifier is within the bound.
abbrev pub IsBounded : ℕ → (ℕ → Db → Db) → Type 0
IsBounded bound between =
    (k : ℕ) (db : Db)
    → count (under bound) (between k db).certificates ≤ count (under bound) db.certificates

module _ (planner : Planner) (between : ℕ → Db → Db) (batch bound : ℕ) where
  -- With positive batches and interference of that kind, fuel for one round more than there are
  -- certificates within the bound is enough: the sweep ends with a count and a database.
  pub sweep_ends :
      (fuel k deleted : ℕ) (db : Db)
      → 0 < batch
      → IsBounded bound between
      → count (under bound) db.certificates < fuel
      → (r : ℕ × Db) × (sweep planner fuel between k batch bound deleted db ≡ some r)
  unfolding sweep
  sweep_ends zero k deleted db hb hi hf = absurd (omega arith)
  sweep_ends (suc fuel) k deleted db hb hi hf =
      let (n, db') = delete_orphan_batch planner batch bound db in
      elim (Bool-cases (ltb n batch)) [
        | inl short ↦ ((deleted + n, db'), rw short)
        | inr full ↦ rw full (
            sweep_ends fuel (suc k) (deleted + n) (between k db') hb hi (
              ground (
                arith,
                hi k (delete_orphan_batch planner batch bound db).1,
                under-batch planner batch bound db,
              )))
      ]

  -- Whatever happens between the batches, when the sweep ends there is no orphan within its
  -- bound.
  pub sweep_leaves_none :
      (fuel k deleted : ℕ) (db : Db) (total : ℕ) (after : Db)
      → sweep planner fuel between k batch bound deleted db ≡ some (total, after)
      → orphans bound after ≡ 0
  unfolding sweep
  sweep_leaves_none zero k deleted db total after e = cc
  sweep_leaves_none (suc fuel) k deleted db total after e = ground (
    arith,
    batch-deleted planner batch bound db,
    orphans-batch planner batch bound db,
    sweep_leaves_none fuel (suc k) (deleted + (delete_orphan_batch planner batch bound db).0)
        (between k (delete_orphan_batch planner batch bound db).1) total after,
  )

-- With no interference the returned number is the number of rows that are gone.
pub sweep_counts :
    (planner : Planner) (batch bound fuel k deleted : ℕ) (db : Db) (total : ℕ) (after : Db)
    → sweep planner fuel (λ _ x. x) k batch bound deleted db ≡ some (total, after)
    → total + count (λ _. true) after.certificates ≡ deleted + count (λ _. true) db.certificates
unfolding sweep
sweep_counts planner batch bound zero k deleted db total after e = cc
sweep_counts planner batch bound (suc fuel) k deleted db total after e = ground (
  arith,
  all-batch planner batch bound db,
  sweep_counts planner batch bound fuel (suc k)
      (deleted + (delete_orphan_batch planner batch bound db).0)
      (delete_orphan_batch planner batch bound db).1 total after,
)
