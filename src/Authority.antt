-- ===== src/Authority.antt =====
-- services/authority_instance.py and views/authority_instance.py: the authority instances, and the
-- sessions that are opened for them.
pub mod Laws
pub mod Names
pub mod Usable
pub mod Table
pub mod Requested
pub mod Sessions
use pyadcs_connector.Prelude.{
  ℕ, suc, List, map, [], ◌∷◌, ◌++◌, none, some, any, Result, ok, err, if◌then◌else◌,
  authority_exception, remoting_exception, false,
}
use pyadcs_connector.Text.{Text, codes}
use pyadcs_connector.Json.{Value, null, bool, str, is_text}
use pyadcs_connector.Dump.{Response, AuthorityData}
use pyadcs_connector.Dump.Dicts.{authority_to_dict}
use pyadcs_connector.Dump.Template.{parse_template_data}
use pyadcs_connector.Dump.Authority.{parse_authority_data}
use pyadcs_connector.Attribute.Build.{dict}
use pyadcs_connector.Attribute.Raprofile.{template_content}
use pyadcs_connector.Remoting.Scripts.{get_cas_script}
use pyadcs_connector.Db.Rows.{find, update_where, delete_where}
use pyadcs_connector.Db.Authorities.{
  AuthorityInstance, Authorities, has_name, has_uuid, has_id, get_by_uuid,
}
use pyadcs_connector.Authority.Sessions.{SessionConfig, create_session_from_authority_instance}
use pyadcs_connector.Authority.Requested.{AuthorityForm, requested}
use pyadcs_connector.Remoting.Session.{
  Protocol, World, Remote, ◌>>=◌, ◌>>◌, local_step, with_session,
}
use pyadcs_connector.Remoting.Scripts.Listing.{verify_connection_script, get_templates_script}

-- A new instance has the defaults of its columns; `uuid` is the one that `uuid4` gives.
abbrev pub new_instance : ℕ → Text → AuthorityForm → AuthorityInstance
new_instance i uuid form = record {
  id = i;
  uuid = uuid;
  name = form.name;
  address = str [];
  https = bool false;
  port = null;
  attributes = null;
  credential = null;
  kind = form.kind;
  transport = str (codes "credssp");
}

abbrev pub authority_content : AuthorityData → Value
authority_content ca =
    dict ((codes "reference", ca.display_name) ∷ (codes "data", authority_to_dict ca) ∷ [])

-- The protocol object of the WinRM library for a session's arguments.
module _ (winrm : SessionConfig → Protocol) where
  -- A session for the instance that runs one script.
  abbrev pub run_for : AuthorityInstance → Text → Remote Response
  run_for a script = do
    config ← local_step (create_session_from_authority_instance a)
    with_session (winrm config) script

  -- A session for the instance with this UUID that runs one script.
  abbrev pub run_by_uuid : Authorities → Text → Text → Remote Response
  run_by_uuid table uuid script = do a ← local_step (get_by_uuid uuid table); run_for a script

  unfoldable pub get_templates : Authorities → Text → Remote (List Value)
  get_templates table uuid = do
    result ← run_by_uuid table uuid get_templates_script
    templates ← local_step (parse_template_data result)
    local_step (ok (map template_content templates))

  -- `eval` is Python's, on the words for the truth values.
  unfoldable pub get_cas : (Text → Result Value) → Authorities → Text → Remote (List Value)
  get_cas eval table uuid = do
    result ← run_by_uuid table uuid get_cas_script
    cas ← local_step (parse_authority_data eval result)
    local_step (ok (map authority_content cas))

  unfoldable pub verify_connection : AuthorityInstance → Remote (Unit {0})
  verify_connection a =
      let verified : Remote (Unit {0}) = (do
        response ← run_for a verify_connection_script
        local_step (ok tt)) in
      if is_text a.transport (codes "credssp")
      then verified
      else local_step (err remoting_exception)

-- `saved_by` is whether the columns of the table take the values of an instance when it is saved.
module _ (winrm : SessionConfig → Protocol) (saved_by : AuthorityInstance → Result (Unit {0})) where
  -- `update_authority_instance`, up to the row that `save` writes.
  unfoldable pub update_authority_instance :
      AuthorityForm → AuthorityInstance → Remote AuthorityInstance
  update_authority_instance form a = do
    a' ← local_step (requested form a)
    verify_connection winrm a'
    local_step (saved_by a')
    local_step (ok a')

  -- `create_authority_instance`, and the table with the row that it saves.
  unfoldable pub create_authority_instance :
      Text → AuthorityForm → Authorities → Remote (AuthorityInstance × Authorities)
  create_authority_instance uuid form table =
      let i = suc table.seq in
      let created : Remote (AuthorityInstance × Authorities) = (do
        a ← update_authority_instance form (new_instance i uuid form)
        local_step (ok (a, record { rows = table.rows ++ a ∷ []; seq = i }))) in
      if any (has_name form.name) table.rows then local_step (err authority_exception) else created

  -- The POST branch of `authority_instance_operations`; a missing instance is a status of 404.
  unfoldable pub update_operation : Text → AuthorityForm → Authorities → Remote (ℕ × Authorities)
  update_operation uuid form table = elim (find (has_uuid uuid) table.rows) [
    | none ↦ local_step (ok (404, table))
    | some a ↦ do
      a' ← update_authority_instance form a
      local_step (ok (200, record table { rows = update_where (has_id a.id) (λ _. a') table.rows }))
  ]

-- The DELETE branch.
unfoldable pub delete_operation : Text → Authorities → ℕ × Authorities
delete_operation uuid table = elim (find (has_uuid uuid) table.rows) [
  | none ↦ (404, table)
  | some a ↦ (204, record table { rows = delete_where (has_id a.id) table.rows })
]

-- The requests that change the table; a UUID is given as the column reads it.
pub data Request : Type 0 where
  create : Text → AuthorityForm → Request
  update : Text → AuthorityForm → Request
  delete : Text → Request

-- `@transaction.atomic`: an exception takes the table's changes back.
abbrev pub committed : Authorities → Result Authorities × World → Authorities × World
committed table (ok table', w) = (table', w)
committed table (err _, w) = (table, w)

module _ (winrm : SessionConfig → Protocol) (saved_by : AuthorityInstance → Result (Unit {0})) where
  unfoldable pub handle : Request → Authorities → Remote Authorities
  handle (create uuid form) table = do
    saved ← create_authority_instance winrm saved_by uuid form table
    local_step (ok saved.1)
  handle (update uuid form) table = do
    answer ← update_operation winrm saved_by uuid form table
    local_step (ok answer.1)
  handle (delete uuid) table = local_step (ok (delete_operation uuid table).1)

  abbrev pub serve : Request → Authorities × World → Authorities × World
  serve request (table, w) = committed table (handle request table w)

  abbrev pub serve_all : List Request → Authorities × World → Authorities × World
  serve_all [] s = s
  serve_all (request ∷ requests) s = serve_all requests (serve request s)
