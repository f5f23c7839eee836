-- ===== src/Remoting.antt =====
-- remoting/winrm_remoting.py: running a script, over what the WinRM library answers.
pub mod Scripts
pub mod Session
use pyadcs_connector.Prelude.{
  Result, ok, err, ◌>>=◌, ◌>>◌, if◌then◌else◌, ◌==◌, winrm_execution_exception,
}
use pyadcs_connector.Text.{Text}
use pyadcs_connector.Text.Utf8.{decode}
use pyadcs_connector.Dump.{Response}

unfoldable pub check_result : Response → Result (Unit {0})
check_result result =
    let raised : Result (Unit {0}) = (do
      message ← decode result.std_err
      err (winrm_execution_exception result.status_code)) in
    if result.status_code == 0 then ok tt else raised

-- `powershell` is the library's round of commands for an encoded script.
unfoldable pub run_ps : (Text → Result Response) → Text → Result Response
run_ps powershell script = do result ← powershell script; check_result result; ok result
