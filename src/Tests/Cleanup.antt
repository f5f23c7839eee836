-- ===== src/Tests/Cleanup.antt =====
-- Sweeps and the start of the scheduler on a concrete database.
use pyadcs_connector.Prelude.{
  ℕ, count, ◌+◌, ◌≡◌, refl, inl, true, none, some, List, [], ◌∷◌, arith, pos, false,
}
use pyadcs_connector.Db.{Db, has_certificate_id}
use pyadcs_connector.Db.Rows.{delete_limit}
use pyadcs_connector.Prelude.{any, pos, if◌then◌else◌}
use pyadcs_connector.Cleanup.Scheduler.{
  SchedulerSettings, start_all, fresh, is_scheduled, start_all_threads,
}
use pyadcs_connector.Cleanup.{Settings, max_id, claim_lease, delete_orphan_batch, sweep, is_orphan}
use pyadcs_connector.Cleanup.Batch.{orphans, batch_safety}
use pyadcs_connector.Cleanup.Sweep.{sweep_leaves_none, sweep_counts}
use pyadcs_connector.Cleanup.Lease.{Ends, claim_once, run_cleanup_once-Ends}
use pyadcs_connector.Tests.Database.{in_table, database, certificate}

abbrev daily : Settings
daily = record { interval_seconds = pos 86400; batch_size = pos 1 }

abbrev idle : ℕ → Db → Db
idle k db = db

run_cleanup_once-Ends_example : Ends in_table idle daily 4 true 1000 database
unfolding max_id
run_cleanup_once-Ends_example =
    run_cleanup_once-Ends in_table idle daily 4 true 1000 database (λ k db. omega arith)
      (omega arith)

abbrev swept : Db
swept = record database { certificates = certificate 1 "AA" ∷ [] }

sweep_run : sweep in_table 4 idle 0 1 3 0 database ≡ some (2, swept)
unfolding sweep delete_orphan_batch delete_limit is_orphan
sweep_run = refl

sweep_leaves_none_example : orphans 3 swept ≡ 0
sweep_leaves_none_example = sweep_leaves_none in_table idle 1 3 4 0 0 database 2 swept sweep_run

sweep_counts_example :
    2 + count (λ _. true) swept.certificates ≡ 0 + count (λ _. true) database.certificates
sweep_counts_example = sweep_counts in_table 1 3 4 0 0 database 2 swept sweep_run

batch_safety_example :
    count (has_certificate_id 1) (delete_orphan_batch in_table 5 3 database).1.certificates
    ≡ count (has_certificate_id 1) database.certificates
batch_safety_example = batch_safety in_table 5 3 database 1 (inl (omega arith))

claim_once_example :
    let claimed = (claim_lease daily true 1000 database).1 in
    claim_lease daily true 2000 claimed ≡ (none, claimed)
unfolding claim_lease
claim_once_example = claim_once daily 86400 1000 2000 true database refl refl (omega arith)

abbrev calls : List SchedulerSettings
calls =
    record { enabled = false; interval_seconds = pos 60 }
    ∷ record { enabled = true; interval_seconds = pos 60 }
    ∷ record { enabled = true; interval_seconds = pos 30 }
    ∷ []

start_all_threads_example :
    (start_all calls fresh).threads ≡ (if any is_scheduled calls then 1 else 0)
start_all_threads_example = start_all_threads calls
