-- ===== src/Remoting/Session/Laws.antt =====
-- Which shells a session leaves open.
use pyadcs_connector.Prelude.{
  ℕ, List, [], ◌∷◌, ok, err, count, ◌==◌, ==_refl, ◌≡◌, refl, arith, Exception,
}
use pyadcs_connector.Text.{Text}
use pyadcs_connector.Db.Rows.{delete_where}
use pyadcs_connector.Remoting
use pyadcs_connector.Remoting.Session.{Protocol, idle, connect, run_ps, with_session}

delete_absent :
    (i : ℕ) (shells : List ℕ)
    → count (λ j. j == i) shells ≡ 0
    → delete_where (λ j. j == i) shells ≡ shells
unfolding delete_where
delete_absent i [] h = refl
delete_absent i (j ∷ shells) h = ground (arith, delete_absent i shells)

pub delete_opened :
    (i : ℕ) (shells : List ℕ)
    → count (λ j. j == i) shells ≡ 0
    → delete_where (λ j. j == i) (i ∷ shells) ≡ shells
unfolding delete_where
delete_opened i shells h = rw (==_refl i) (delete_absent i shells h)

-- Where the script fails on the server, or its exit status is not zero, the exception goes up past
-- the disconnection, and the shell that was opened stays open.
pub with_session_leaks :
    (winrm : Protocol) (script : Text) (shells : List ℕ) (i : ℕ) (x : Exception)
    → winrm.open_shell shells ≡ ok i
    → Remoting.run_ps (winrm.run_command i) script ≡ err x
    → let (result, after) = with_session winrm script (idle shells) in
      (result ≡ err x) × (after.shells ≡ i ∷ shells)
unfolding with_session connect run_ps
with_session_leaks winrm script shells i x e f = rw (e, f) (refl, refl)
