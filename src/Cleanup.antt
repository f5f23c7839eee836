-- ===== src/Cleanup.antt =====
-- services/certificate_cleanup.py: the sweep that deletes certificates no discovery links.
pub mod Batch
pub mod Sweep
pub mod Lease
pub mod Scheduler
use pyadcs_connector.Prelude.{
  ℤ, ltb, leb, if◌then◌else◌, count, any, ℕ, zero, suc, ◌+◌, max, ◌≡◌, Bool, true, not, ◌&&◌,
  Option, none, some, List, [], ◌∷◌, pos, negsuc,
}
use pyadcs_connector.Db.{Db, Certificate, DiscoveryCertificate, CertificateCleanupState, links_to}
use pyadcs_connector.Db.Rows.{delete_limit}

-- The settings of the sweep, as `env.int` reads them.
pub record Settings : Type 0 where
  pub interval_seconds : ℤ
  pub batch_size : ℤ

-- `SELECT coalesce(max(id), 0)`
unfoldable pub max_id : List Certificate → ℕ
max_id [] = 0
max_id (c ∷ cs) = max c.id (max_id cs)

-- `(now - last_run_at) < interval`
unfoldable pub within_interval : ℕ → ℕ → ℤ → Bool
within_interval now last (pos n) = ltb now (last + n)
within_interval now last (negsuc n) = ltb (now + suc n) last

abbrev is_due : ℕ → ℤ → Option CertificateCleanupState → Bool
is_due now interval none = true
is_due now interval (some state) = elim state.last_run_at [
  | none ↦ true
  | some last ↦ not (within_interval now last interval)
]

-- `lock_free` is what `pg_try_advisory_xact_lock` answers, and `now` what the database's clock
-- shows. The result is the highest identifier, or `none` where this process must not sweep.
unfoldable pub claim_lease : Settings → Bool → ℕ → Db → Option ℕ × Db
unfolding within_interval max_id
claim_lease settings lock_free now db =
    if not lock_free
    then (none, db)
    else if not (is_due now settings.interval_seconds db.cleanup_state)
    then (none, db)
    else (
      some (max_id db.certificates),
      record db { cleanup_state = some (record { last_run_at = some now }) },
    )

-- The condition of the DELETE statement.
unfoldable pub is_orphan : ℕ → List DiscoveryCertificate → Certificate → Bool
is_orphan max_certificate_id links c =
    leb c.id max_certificate_id && not (any (links_to c.id) links)

-- The order in which the database comes upon the rows of a table, which SQL leaves open: all rows
-- come up, each as often as it is there.
pub record Planner : Type 0 where
  pub order : List Certificate → List Certificate
  pub same_rows :
      (p : Certificate → Bool) (rows : List Certificate) → count p (order rows) ≡ count p rows

-- `batch_size = max(1, …)`
unfoldable pub effective_batch : ℤ → ℕ
effective_batch (pos n) = max 1 n
effective_batch (negsuc n) = 1

module _ (planner : Planner) where
  -- One transaction; the result is `cur.rowcount`.
  unfoldable pub delete_orphan_batch : ℕ → ℕ → Db → ℕ × Db
  delete_orphan_batch batch_size max_certificate_id db =
      let (left, deleted) =
        delete_limit batch_size (is_orphan max_certificate_id db.links)
          (planner.order db.certificates) in
      (deleted, record db { certificates = left })

  -- The loop of `run_cleanup_once`. `between k` is what other transactions do after batch `k`;
  -- `none` means that the fuel ran out.
  unfoldable pub sweep : ℕ → (ℕ → Db → Db) → ℕ → ℕ → ℕ → ℕ → Db → Option (ℕ × Db)
  sweep zero between k batch_size max_certificate_id deleted db = none
  sweep (suc fuel) between k batch_size max_certificate_id deleted db =
      let (in_batch, db') = delete_orphan_batch batch_size max_certificate_id db in
      let more =
        sweep fuel between (suc k) batch_size max_certificate_id (deleted + in_batch)
          (between k db') in
      if ltb in_batch batch_size then some (deleted + in_batch, db') else more

  -- Out of fuel is `none`; a process that must not sweep returns `none` in the pair.
  unfoldable pub run_cleanup_once :
      ℕ → (ℕ → Db → Db) → Settings → Bool → ℕ → Db → Option (Option ℕ × Db)
  run_cleanup_once fuel between settings lock_free now db =
      let (claimed, db') = claim_lease settings lock_free now db in
      elim claimed [
        | none ↦ some (none, db')
        | some max_certificate_id ↦
            elim (sweep fuel between 0 (effective_batch settings.batch_size) max_certificate_id 0
              db') [ none ↦ none | some (deleted, db'') ↦ some (some deleted, db'') ]
      ]
