-- ===== src/Remoting/Session/Closed.antt =====
-- Computations that leave no shell open, from their steps.
use pyadcs_connector.Prelude.{
  ℕ, List, length, ◌≤◌, ◌+◌, arith, Result-cases, inl, inr, refl, count, ◌==◌, Result, ok, err, ◌≡◌,
  sym, ap,
}
use mathlib.Core.Path.{subst}
use pyadcs_connector.Text.{Text}
use pyadcs_connector.Remoting
use pyadcs_connector.Remoting.Session.{
  continue, connect, run_ps, disconnect, Protocol, World, idle, Remote, ◌>>=◌, local_step,
  with_session,
}
use pyadcs_connector.Remoting.Session.Laws.{delete_opened}

-- Started without a connection: where it returns, there is none afterwards and the server's shells
-- are the same; where it raises, there is at most one shell more.
abbrev pub Settled {ℓ} : {A : Type ℓ} → List ℕ → Result A × World → Type 0
Settled shells (ok a, w) = w ≡ idle shells
Settled shells (err e, w) = length w.shells ≤ length shells + 1

abbrev pub Closes {ℓ} : {A : Type ℓ} → List ℕ → Remote A → Type 0
Closes shells m = Settled shells (m (idle shells))

pub local_step-Closes {ℓ} :
    {A : Type ℓ} (shells : List ℕ) (r : Result A) → Closes shells (local_step r)
local_step-Closes shells (ok a) = refl
local_step-Closes shells (err e) = omega arith

continue-Settled {ℓ κ} :
    {A : Type ℓ} {B : Type κ} (shells : List ℕ) (o : Result A × World) (k : A → Remote B)
    → Settled shells o
    → ((a : A) → Closes shells (k a))
    → Settled shells (continue o k)
continue-Settled shells (ok a, w) k same later =
    subst (λ u. Settled shells (k a u)) (sym same) (later a)
continue-Settled shells (err e, w) k more later = more

pub >>=-Closes {ℓ κ} :
    {A : Type ℓ} {B : Type κ} (shells : List ℕ) (m : Remote A) (k : A → Remote B)
    → Closes shells m
    → ((a : A) → Closes shells (k a))
    → Closes shells (m >>= k)
>>=-Closes shells m k = continue-Settled shells (m (idle shells)) k

-- A session's number is not one that the server has open.
abbrev pub IsFresh : List ℕ → Protocol → Type 0
IsFresh shells winrm = (i : ℕ) → winrm.open_shell shells ≡ ok i → count (λ j. j == i) shells ≡ 0

pub with_session-Closes :
    (shells : List ℕ) (winrm : Protocol) (script : Text)
    → IsFresh shells winrm
    → Closes shells (with_session winrm script)
unfolding with_session connect run_ps disconnect
with_session-Closes shells winrm script fresh = elim (Result-cases (winrm.open_shell shells)) [
  | inr (x, e) ↦ rw e (omega arith)
  | inl (i, e) ↦ elim (Result-cases (Remoting.run_ps (winrm.run_command i) script)) [
    | inr (x, f) ↦ rw (e, f) (omega arith)
    | inl (r, f) ↦ elim (Result-cases (winrm.close_shell i)) [
      | inr (x, g) ↦ rw (e, f, g) (omega arith)
      | inl (u, g) ↦ rw (e, f, g) (ap idle (delete_opened i shells (fresh i e)))
    ]
  ]
]
