-- ===== src/Tests/Sessions.antt =====
-- Sessions on a server of one shell's number, and the authority instances and certificates that use
-- them.
use pyadcs_connector.Prelude.{
  ℕ, String, List, [], ◌∷◌, Result, ok, err, count, ◌==◌, ◌≡◌, refl, winrm_execution_exception,
  ok-injective,
}
use mathlib.Core.Path.{subst}
use pyadcs_connector.Text.{codes}
use pyadcs_connector.Json.{Value, str, arr, obj, end, field, of_list}
use pyadcs_connector.Dump.{Response}
use pyadcs_connector.Text.Utf8.{decode}
use pyadcs_connector.Json.{int, bool}
use pyadcs_connector.Prelude.{pos, false}
use pyadcs_connector.Db.Authorities.{AuthorityInstance}
use pyadcs_connector.Authority.{new_instance, Request, create, update, delete, serve_all}
use pyadcs_connector.Authority.Requested.{AuthorityForm, requested}
use pyadcs_connector.Authority.Sessions.{SessionConfig}
use pyadcs_connector.Authority.Table.{IsTable}
use pyadcs_connector.Authority.Names.{serve_all-IsTable}
use pyadcs_connector.Remoting
use pyadcs_connector.Remoting.Session.{Protocol, idle, with_session}
use pyadcs_connector.Remoting.Session.Laws.{with_session_leaks}
use pyadcs_connector.Remoting.Session.Closed.{IsFresh}

abbrev pub answer : ℕ → String → Response
answer status text = record { status_code = status; std_out = codes text; std_err = [] }

-- Every shell is the seventh, and every command is answered in the same way.
abbrev server : Response → Protocol
server response = record {
  open_shell = λ _. ok 7;
  run_command = λ _ _. ok response;
  close_shell = λ _. ok tt;
}

abbrev pub others : List ℕ
others = 3 ∷ []

pub seventh-IsFresh : (r : Response) → IsFresh others (server r)
seventh-IsFresh r i e = subst (λ j. count (λ k. k == j) others ≡ 0) (ok-injective e) refl

with_session_leaks_example :
    let (result, after) = with_session (server (answer 1 "")) (codes "script") (idle others) in
    (result ≡ err (winrm_execution_exception 1)) × (after.shells ≡ 7 ∷ others)
unfolding Remoting.run_ps Remoting.check_result decode
with_session_leaks_example =
    with_session_leaks (server (answer 1 "")) (codes "script") others 7
      (winrm_execution_exception 1) refl refl

abbrev pub attribute : String → Value → Value
attribute name value = obj (
    field (codes "name") (str (codes name))
      (field (codes "content") (arr (of_list (obj (field (codes "data") value end) ∷ []))) end))

abbrev credential : Value
credential = obj (
    field (codes "attributes")
      (arr (
        of_list
          (attribute "username" (str (codes "u")) ∷ attribute "password" (str (codes "p")) ∷ [])))
      end)

abbrev form : AuthorityForm
form = record {
  name = codes "ca";
  kind = codes "PyADCS-WinRM";
  attributes = arr (
      of_list (
        attribute "authority_winrm_transport" (str (codes "credssp"))
        ∷ attribute "authority_server_address" (str (codes "host"))
        ∷ attribute "authority_use_https" (bool false)
        ∷ attribute "authority_winrm_port" (int (pos 5985))
        ∷ attribute "authority_credential" credential
        ∷ []));
}

abbrev before : AuthorityInstance
before = new_instance 1 (codes "u1") form

abbrev or_before : Result AuthorityInstance → AuthorityInstance
or_before (ok a) = a
or_before (err _) = before

abbrev pub after : AuthorityInstance
after = or_before (requested form before)

abbrev pub quiet : SessionConfig → Protocol
quiet _ = server (answer 0 "")

abbrev requests : List Request
requests =
    create (codes "u1") form
    ∷ create (codes "u2") form
    ∷ update (codes "u1") form
    ∷ delete (codes "u1")
    ∷ []

serve_all-IsTable_example :
    IsTable (serve_all quiet (λ _. ok tt) requests (record { rows = []; seq = 0 }, idle others)).0
serve_all-IsTable_example = serve_all-IsTable quiet (λ _. ok tt) requests (idle others)

-- The second is refused, since its name is taken.
abbrev kept_requests : List Request
kept_requests = create (codes "u1") form ∷ create (codes "u2") form ∷ update (codes "u1") form ∷ []
