-- ===== src/Tests/Stores.antt =====
-- The abstract store along a run, and a small migration.
use pyadcs_connector.Prelude.{ℕ, [], ◌∷◌, some, any, ◌≡◌, refl, ok, arith, if◌then◌else◌}
use pyadcs_connector.Text.{Text, codes, text_eq}
use pyadcs_connector.Text.Utf8.{Bytes}
use pyadcs_connector.Json.{null}
use pyadcs_connector.Db.{Db, IsConsistent, has_history_id}
use pyadcs_connector.Discovery.{create_discovery_history}
use pyadcs_connector.Discovery.Persist.{status_value}
use pyadcs_connector.Attribute.Discovery.{validate_discovery_kind}
use pyadcs_connector.System.{System, Step, Reach, begin, later, start, finish}
use pyadcs_connector.Store.{store_of, Change, Offered, Deleted}
use pyadcs_connector.Store.Refinement.{Reach-refines}
use pyadcs_connector.Migration.{OldLink, OldDb, Order, migrate}
use pyadcs_connector.Migration.Laws.{IsKeyed, old_store}
use pyadcs_connector.Migration.Backfill.{migrate_keeps}
use pyadcs_connector.Tests.Database.{digest, uuid_of, message, in_table, ca, collected, history}
use pyadcs_connector.Tests.Interleaving.{form, first, second, one_started, two_started, one_left}

digest_apart : (b c : Bytes) → digest b ≡ digest c → b ≡ c
digest_apart b c e = e

abbrev two_running : System
two_running = record { db = two_started; running = second ∷ first ∷ [] }

run_two : Reach in_table digest uuid_of message two_running
unfolding create_discovery_history text_eq validate_discovery_kind status_value
run_two =
    later (later begin (start (codes "u1") (form (codes "first")) first one_started refl refl refl))
      (start (codes "u2") (form (codes "second")) second two_started refl refl refl)

abbrev the_step : Step in_table digest uuid_of message two_running one_left
the_step = finish [] second (first ∷ []) (ok (ca ∷ [], collected)) refl

Reach-refines_example :
    Change (Offered the_step) (Deleted the_step) (store_of two_running.db) (store_of one_left.db)
Reach-refines_example =
    Reach-refines digest uuid_of message digest_apart in_table two_running one_left run_two the_step

abbrev old_link : ℕ → Text → ℕ → OldLink
old_link i content d = record {
  id = i;
  uuid = i ∷ [];
  base64content = content;
  discovery_id = d;
  meta = null;
}

-- The third row is of a discovery that is gone.
abbrev before : OldDb
before = record {
  histories = history 1 "u1" "first" "completed" ∷ [];
  links = old_link 1 (codes "AA") 1 ∷ old_link 2 (codes "AA") 1 ∷ old_link 3 (codes "BB") 9 ∷ [];
  history_seq = 1;
  link_seq = 3;
}

before-IsKeyed : IsKeyed before
before-IsKeyed = grind arith

abbrev as_selected : Order
as_selected = record { order = λ rows. rows; same_rows = λ p rows. refl }

migrate_keeps_example :
    (db : Db) × (migrate digest as_selected before ≡ some db)
    × IsConsistent db
    × ((i : ℕ)
        → store_of db i
          ≡ (if any (has_history_id i) before.histories then old_store before i else []))
migrate_keeps_example = migrate_keeps digest digest_apart as_selected before before-IsKeyed
