-- ===== src/Cleanup/Scheduler.antt =====
-- The start of the sweep's thread.
use pyadcs_connector.Prelude.{
  ℕ, ℤ, pos, negsuc, List, [], ◌∷◌, Bool, true, false, not, ◌&&◌, any, ltb, if◌then◌else◌, ◌+◌, ◌≡◌,
  refl, ap, Bool-cases, inl, inr, ◌∙◌,
}

-- `_started`, and the number of threads that run `_loop`.
pub record Scheduler : Type 0 where
  pub started : Bool
  pub threads : ℕ

-- CERTIFICATE_CLEANUP_ENABLED and CERTIFICATE_CLEANUP_INTERVAL_SECONDS
pub record SchedulerSettings : Type 0 where
  pub enabled : Bool
  pub interval_seconds : ℤ

abbrev pub is_positive : ℤ → Bool
is_positive (pos n) = ltb 0 n
is_positive (negsuc n) = false

-- The lock makes the look at `_started` and its change one step.
unfoldable pub start_cleanup_scheduler : SchedulerSettings → Scheduler → Scheduler
start_cleanup_scheduler settings s =
    if not settings.enabled
    then s
    else if not (is_positive settings.interval_seconds)
    then s
    else if s.started
    then s
    else record { started = true; threads = s.threads + 1 }

-- One call after the other, each with the settings of its time.
unfoldable pub start_all : List SchedulerSettings → Scheduler → Scheduler
start_all [] s = s
start_all (settings ∷ calls) s = start_all calls (start_cleanup_scheduler settings s)

abbrev pub is_scheduled : SchedulerSettings → Bool
is_scheduled settings = settings.enabled && is_positive settings.interval_seconds

abbrev pub fresh : Scheduler
fresh = record { started = false; threads = 0 }

abbrev running : Scheduler
running = record { started = true; threads = 1 }

start-fresh :
    (enabled : Bool) (interval : ℤ)
    → start_cleanup_scheduler (record { enabled = enabled; interval_seconds = interval }) fresh
      ≡ (if enabled && is_positive interval then running else fresh)
unfolding start_cleanup_scheduler
start-fresh true interval = elim (Bool-cases (is_positive interval)) [
  | inl e ↦ rw e refl
  | inr e ↦ rw e refl
]
start-fresh false interval = refl

start-running :
    (enabled : Bool) (interval : ℤ)
    → start_cleanup_scheduler (record { enabled = enabled; interval_seconds = interval }) running
      ≡ running
unfolding start_cleanup_scheduler
start-running true interval = elim (Bool-cases (is_positive interval)) [
  | inl e ↦ rw e refl
  | inr e ↦ rw e refl
]
start-running false interval = refl

start_all-running : (calls : List SchedulerSettings) → start_all calls running ≡ running
unfolding start_all
start_all-running [] = refl
start_all-running (settings ∷ calls) =
    ap (start_all calls) (start-running settings.enabled settings.interval_seconds)
    ∙ start_all-running calls

-- However often the scheduler is started, there is one thread where one of the calls found it enabled
-- with a positive interval, and none otherwise.
pub start_all_threads :
    (calls : List SchedulerSettings)
    → (start_all calls fresh).threads ≡ (if any is_scheduled calls then 1 else 0)
unfolding start_all
start_all_threads [] = refl
start_all_threads (settings ∷ calls) =
    let first = start-fresh settings.enabled settings.interval_seconds in
    ap (λ s. (start_all calls s).threads) first ∙ elim (Bool-cases (is_scheduled settings)) [
      | inl e ↦ rw e (ap (λ (s : Scheduler). s.threads) (start_all-running calls))
      | inr e ↦ rw e (start_all_threads calls)
    ]
