-- ===== src/Cleanup/Lease.antt =====
-- The lease of the interval, and the sweep that it admits.
use pyadcs_connector.Prelude.{
  ℕ, ℤ, length, count, ◌+◌, ◌<◌, ◌≡◌, Bool, true, none, some, List, pos, Option-cases, ◌≤◌, refl,
  inl, inr, Option, [], ◌∷◌, arith, negsuc, sym,
}
use mathlib.Core.Path.{subst}
use pyadcs_connector.Db.{Db, Certificate}
use pyadcs_connector.Cleanup.{
  Settings, Planner, max_id, claim_lease, effective_batch, sweep, run_cleanup_once,
}
use pyadcs_connector.Cleanup.Batch.{orphans, under}
use pyadcs_connector.Cleanup.Sweep.{IsBounded, sweep_ends, sweep_leaves_none}

-- Once a process has claimed the lease at `now`, nobody else can before the interval is over,
-- whether the lock is free or not, and a refused claim changes nothing.
pub claim_once :
    (settings : Settings) (n now later : ℕ) (lock_free : Bool) (db : Db) {bound : ℕ}
    → settings.interval_seconds ≡ pos n
    → (claim_lease settings true now db).0 ≡ some bound
    → later < now + n
    → let claimed = (claim_lease settings true now db).1 in
      claim_lease settings lock_free later claimed ≡ (none, claimed)
unfolding claim_lease
claim_once settings n now later lock_free db e h before = ground arith

max_id-count : (cs : List Certificate) (m : ℕ) → max_id cs ≤ m → count (under m) cs ≡ length cs
unfolding max_id
max_id-count [] m h = refl
max_id-count (c ∷ cs) m h = ground (arith, max_id-count cs m)

-- A process that must not sweep changes nothing.
refused_unchanged :
    (settings : Settings) (lock_free : Bool) (now : ℕ) (db : Db)
    → (claim_lease settings lock_free now db).0 ≡ none
    → (claim_lease settings lock_free now db).1 ≡ db
unfolding claim_lease
refused_unchanged settings lock_free now db h = ground arith

claimed_bound :
    (settings : Settings) (lock_free : Bool) (now : ℕ) (db : Db) (bound : ℕ)
    → (claim_lease settings lock_free now db).0 ≡ some bound
    → (bound ≡ max_id db.certificates)
      × ((claim_lease settings lock_free now db).1.certificates ≡ db.certificates)
      × ((claim_lease settings lock_free now db).1.links ≡ db.links)
unfolding claim_lease
claimed_bound settings lock_free now db bound h = ground arith

effective_batch-pos : (setting : ℤ) → 0 < effective_batch setting
unfolding effective_batch
effective_batch-pos (pos n) = omega arith
effective_batch-pos (negsuc n) = omega arith

-- What a run of the cleanup comes to: nothing at all, or a count and no orphan left.
abbrev pub CleanedUp : Db → Option ℕ × Db → Type 0
CleanedUp db (none, after) = after ≡ db
CleanedUp db (some deleted, after) = orphans (max_id db.certificates) after ≡ 0

module _ (planner : Planner) (between : ℕ → Db → Db) (settings : Settings) where
  run_refused :
      (fuel : ℕ) (lock_free : Bool) (now : ℕ) (db : Db)
      → (claim_lease settings lock_free now db).0 ≡ none
      → run_cleanup_once planner fuel between settings lock_free now db
        ≡ some (none, (claim_lease settings lock_free now db).1)
  unfolding run_cleanup_once
  run_refused fuel lock_free now db e = ground arith

  run_swept :
      (fuel : ℕ) (lock_free : Bool) (now : ℕ) (db : Db) (bound total : ℕ) (after : Db)
      → (claim_lease settings lock_free now db).0 ≡ some bound
      → sweep planner fuel between 0
          (effective_batch settings.batch_size)
          bound
          0
          (claim_lease settings lock_free now db).1
        ≡ some (total, after)
      → run_cleanup_once planner fuel between settings lock_free now db ≡ some (some total, after)
  unfolding run_cleanup_once
  run_swept fuel lock_free now db bound total after e h = ground arith

  abbrev pub Ends : ℕ → Bool → ℕ → Db → Type 0
  Ends fuel lock_free now db =
      (r : Option ℕ × Db) × (run_cleanup_once planner fuel between settings lock_free now db
        ≡ some r)
      × CleanedUp db r

  swept-Ends :
      (fuel : ℕ) (lock_free : Bool) (now : ℕ) (db : Db) (bound : ℕ)
      → (claim_lease settings lock_free now db).0 ≡ some bound
      → bound ≡ max_id db.certificates
      → (r : ℕ × Db) × (sweep planner fuel between 0
            (effective_batch settings.batch_size)
            bound
            0
            (claim_lease settings lock_free now db).1
          ≡ some r)
      → Ends fuel lock_free now db
  swept-Ends fuel lock_free now db bound e same ((total, after), h) = (
    (some total, after),
    run_swept fuel lock_free now db bound total after e h,
    subst (λ b. orphans b after ≡ 0) same
        (sweep_leaves_none planner between (effective_batch settings.batch_size) bound fuel 0 0
          (claim_lease settings lock_free now db).1 total after h),
  )

  -- A run ends, whatever the batch size is set to, if other transactions add no certificate whose
  -- identifier is as low as those that are there at the start; fuel for one round more than there
  -- are certificates is enough. It has then changed nothing, where this process must not sweep, or
  -- it has left no orphan among the identifiers that were there at the start.
  pub run_cleanup_once-Ends :
      (fuel : ℕ) (lock_free : Bool) (now : ℕ) (db : Db)
      → IsBounded (max_id db.certificates) between
      → length db.certificates < fuel
      → Ends fuel lock_free now db
  run_cleanup_once-Ends fuel lock_free now db hi hf =
      elim (Option-cases (claim_lease settings lock_free now db).0) [
        | inl e ↦ (
          (none, (claim_lease settings lock_free now db).1),
          run_refused fuel lock_free now db e,
          refused_unchanged settings lock_free now db e,
        )
        | inr (bound, e) ↦
            let (same, rows, _) = claimed_bound settings lock_free now db bound e in
            swept-Ends fuel lock_free now db bound e same (
              sweep_ends planner between (effective_batch settings.batch_size) bound fuel 0 0
                (claim_lease settings lock_free now db).1 (effective_batch-pos settings.batch_size)
                (subst (λ b. IsBounded b between) (sym same) hi)
                (rw (rows, same)
                  (omega (arith, max_id-count db.certificates (max_id db.certificates), hf))))
      ]
