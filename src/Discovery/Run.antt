-- ===== src/Discovery/Run.antt =====
-- `run_discovery` from the request to the database.
use pyadcs_connector.Prelude.{
  ℕ, List, ◌∷◌, All, Option, none, some, Exception, Result, ok, ◌≡◌, refl,
}
use pyadcs_connector.Text.{Text}
use pyadcs_connector.Text.Utf8.{Bytes}
use pyadcs_connector.Json.{Value}
use pyadcs_connector.Dump.{Response, AuthorityData, TemplateData, ParseResult}
use pyadcs_connector.Dump.Dicts.{from_dicts}
use pyadcs_connector.Db.{Db, DiscoveryHistory, has_history_id}
use pyadcs_connector.Db.Rows.{find}
use pyadcs_connector.Attribute.Access.{get_attribute_value, get_attribute_value_list}
use pyadcs_connector.Attribute.Discovery.{
  discovery_template_name_attribute_name, discovery_issued_after_attribute_name,
}
use pyadcs_connector.Discovery.{finish_discovery, Collected}
use pyadcs_connector.Discovery.Persist.Laws.{Persisted, persist_completes}
use pyadcs_connector.Discovery.Collect.{chosen_cas, rounds, cas_or_all, collect}
use pyadcs_connector.Discovery.Collect.Laws.{Serves, rows_of, collect_complete}

abbrev ended : (Collected → Db) → Option Collected → Option Db
ended finish none = none
ended finish (some collected) = some (finish collected)

module _ (powershell : Text → Result Response) (eval : Text → Result Value)
    (formatted : Value → Text) (sha256_hexdigest : Bytes → Text) (link_uuid : ℕ → Text)
    (str_of : Exception → Text) where
  -- `db` is the database at the time of the last transaction; `none` is a collection that has run
  -- out of fuel.
  unfoldable pub run_discovery :
      ℕ
      → Result (Unit {0})
      → Result (Unit {0})
      → Result (Unit {0})
      → ℕ
      → DiscoveryHistory
      → Value
      → Db
      → Option Db
  run_discovery fuel located connected disconnected page_size dh attributes db =
      ended (λ collected. finish_discovery sha256_hexdigest link_uuid str_of dh collected db)
        (collect powershell eval formatted fuel located connected disconnected page_size attributes)

  module _ (rows : AuthorityData → Option TemplateData → List ParseResult) (fuel n : ℕ)
      (attributes issued_after : Value) (ca : AuthorityData) (cas : List AuthorityData)
      (values : List Value) (templates : List TemplateData)
      (chosen : chosen_cas (ok tt) attributes ≡ ok (ca ∷ cas))
      (named : get_attribute_value_list discovery_template_name_attribute_name attributes
        ≡ ok values)
      (read : from_dicts values ≡ ok templates)
      (dated : get_attribute_value discovery_issued_after_attribute_name attributes
        ≡ ok issued_after)
      (served : All
        (λ c. All (Serves powershell eval formatted rows issued_after fuel n c) (rounds templates))
        (ca ∷ cas)) where
    collect_all :
        collect powershell eval formatted fuel (ok tt) (ok tt) (ok tt) n attributes
        ≡ some (ok (ca ∷ cas, rows_of rows (rounds templates) (ca ∷ cas)))
    unfolding collect cas_or_all
    collect_all =
        rw
          (
            chosen,
            named,
            read,
            dated,
            collect_complete powershell eval formatted rows issued_after fuel n (rounds templates)
                (ca ∷ cas) served,
          )
          refl

    -- Where the attributes of the request can be read and choose at least one CA, the authority is
    -- found, the session opens and closes, the server answers every page that is asked for, the fuel
    -- is above the number of pages, and the discovery is there at the end, the run ends: the discovery is
    -- completed, and each certificate of every CA and template has one link, in order.
    pub run_discovery_completes :
        (dh : DiscoveryHistory) (db : Db)
        → find (has_history_id dh.id) db.histories ≡ some dh
        → (db' : Db) × (run_discovery fuel (ok tt) (ok tt) (ok tt) n dh attributes db ≡ some db')
          × Persisted sha256_hexdigest link_uuid ca dh.id
              (rows_of rows (rounds templates) (ca ∷ cas))
              db
              db'
    unfolding run_discovery finish_discovery
    run_discovery_completes dh db found =
        let (db', made, good) =
          persist_completes sha256_hexdigest link_uuid ca cas dh.id
            (rows_of rows (rounds templates) (ca ∷ cas)) db dh found in
        (db', rw (collect_all, made, finish_discovery) refl, good)
