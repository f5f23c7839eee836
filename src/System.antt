-- ===== src/System.antt =====
-- The transactions of the connector's processes and threads on one database, in any order: the
-- requests of views/discovery_history.py, the threads of `run_discovery` and the cleanup sweep.
pub mod Changes
pub mod Threads
pub mod Start
pub mod Steps
pub mod Reachable
pub mod Shown
use pyadcs_connector.Prelude.{ℕ, Bool, none, count, ◌≡◌, List, [], ◌∷◌, ◌++◌, Exception, ok}
use pyadcs_connector.Text.{Text}
use pyadcs_connector.Text.Utf8.{Bytes}
use pyadcs_connector.Db.{Db, DiscoveryHistory, has_history_uuid}
use pyadcs_connector.Cleanup.{Settings, Planner, claim_lease, delete_orphan_batch}
use pyadcs_connector.Discovery.{
  DiscoveryForm, create_discovery_history, delete_discovery, Collected, finish_discovery,
}

-- The database, and the discoveries whose threads have not ended.
pub record System : Type 0 where
  pub db : Db
  pub running : List DiscoveryHistory

abbrev pub empty_db : Db
empty_db = record {
  histories = [];
  certificates = [];
  links = [];
  cleanup_state = none;
  history_seq = 0;
  certificate_seq = 0;
  link_seq = 0;
}

abbrev pub initial : System
initial = record { db = empty_db; running = [] }

module _ (planner : Planner) (sha256_hexdigest : Bytes → Text) (link_uuid : ℕ → Text)
    (str_of : Exception → Text) where
  -- One transaction. A UUID that `uuid4` gives is not in use. A thread ends with what it
  -- collected, or is lost with its process. A deletion is of a UUID as the column reads it; a text
  -- that is none changes nothing.
  pub data Step (s : System) : System → Type 0 where
    start :
        (uuid : Text) (form : DiscoveryForm) (h : DiscoveryHistory) (db' : Db)
        → count (has_history_uuid uuid) s.db.histories ≡ 0
        → count (has_history_uuid uuid) s.running ≡ 0
        → create_discovery_history uuid form s.db ≡ ok (h, db')
        → Step s (record { db = db'; running = h ∷ s.running })
    finish :
        (before : List DiscoveryHistory) (h : DiscoveryHistory) (after : List DiscoveryHistory)
        (collected : Collected)
        → s.running ≡ before ++ h ∷ after
        → Step s (record {
          db = finish_discovery sha256_hexdigest link_uuid str_of h collected s.db;
          running = before ++ after;
        })
    lose :
        (before : List DiscoveryHistory) (h : DiscoveryHistory) (after : List DiscoveryHistory)
        → s.running ≡ before ++ h ∷ after
        → Step s (record { db = s.db; running = before ++ after })
    delete :
        (uuid : Text) → Step s (record { db = (delete_discovery uuid s.db).1; running = s.running })
    claim :
        (settings : Settings) (lock_free : Bool) (now : ℕ)
        → Step s (record { db = (claim_lease settings lock_free now s.db).1; running = s.running })
    batch :
        (batch_size max_certificate_id : ℕ)
        → Step s (record {
          db = (delete_orphan_batch planner batch_size max_certificate_id s.db).1;
          running = s.running;
        })

  pub data Reach : System → Type 0 where
    begin : Reach initial
    later : {s t : System} → Reach s → Step s t → Reach t
