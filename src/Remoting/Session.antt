-- ===== src/Remoting/Session.antt =====
-- `WinRmRemoting`: a session as state, over the operations of the WinRM library.
pub mod Laws
pub mod Closed
use pyadcs_connector.Prelude.{
  ℕ, List, ◌∷◌, Option, none, some, Bool, true, false, ◌==◌, Result, ok, err, attribute_error,
  if◌then◌else◌, ◌≡◌, refl,
}
use pyadcs_connector.Text.{Text}
use pyadcs_connector.Db.Rows.{delete_where}
use pyadcs_connector.Dump.{Response}
use pyadcs_connector.Remoting

-- `winrm.Protocol`: a shell is opened under a number that no open shell has, a command runs in a
-- shell, and a shell is closed. The server's answers do not depend on the order of the commands.
pub record Protocol : Type 0 where
  pub open_shell : List ℕ → Result ℕ
  pub run_command : ℕ → Text → Result Response
  pub close_shell : ℕ → Result (Unit {0})

-- The fields of the session object that change, and the shells that are open on the server.
pub record World : Type 0 where
  pub protocol : Bool
  pub shell_id : Option ℕ
  pub shells : List ℕ

abbrev pub idle : List ℕ → World
idle shells = record { protocol = false; shell_id = none; shells = shells }

-- A computation that talks to the server; an exception keeps what was done before it.
abbrev pub Remote {ℓ} : Type ℓ → Type ℓ
Remote A = World → Result A × World

infixl 5 ◌>>=◌ ◌>>◌
abbrev pub continue {ℓ κ} :
    {A : Type ℓ} {B : Type κ} → Result A × World → (A → Remote B) → Result B × World
continue (ok a, w) k = k a w
continue (err e, w) k = (err e, w)

abbrev pub ◌>>=◌ {ℓ κ} : {A : Type ℓ} {B : Type κ} → Remote A → (A → Remote B) → Remote B
m >>= k = λ w. continue (m w) k

abbrev pub ◌>>◌ {ℓ} : {B : Type ℓ} → Remote (Unit {0}) → Remote B → Remote B
m >> k = m >>= λ _. k

-- A step that does not talk to the server.
abbrev pub local_step {ℓ} : {A : Type ℓ} → Result A → Remote A
local_step r = λ w. (r, w)

continue-ok {ℓ κ} :
    {A : Type ℓ} {B : Type κ} (o : Result A × World) (k : A → Remote B) (w' : World) {b : B}
    → continue o k ≡ (ok b, w')
    → (a : A) × (u : World) × (o ≡ (ok a, u)) × (k a u ≡ (ok b, w'))
continue-ok (ok a, u) k w' h = (a, u, refl, h)
continue-ok (err x, u) k w' h = absurd (cc h)

-- A computation that returns has returned at each of its steps.
pub remote-ok {ℓ κ} :
    {A : Type ℓ} {B : Type κ} (m : Remote A) (k : A → Remote B) (w w' : World) {b : B}
    → (m >>= k) w ≡ (ok b, w')
    → (a : A) × (u : World) × (m w ≡ (ok a, u)) × (k a u ≡ (ok b, w'))
remote-ok m k w w' h = continue-ok (m w) k w' h

-- A step that does not talk to the server returns in the state it started in.
pub local-ok {ℓ κ} :
    {A : Type ℓ} {B : Type κ} (r : Result A) (k : A → Remote B) (w w' : World) {b : B}
    → (local_step r >>= k) w ≡ (ok b, w')
    → (a : A) × (r ≡ ok a) × (k a w ≡ (ok b, w'))
local-ok (ok a) k w w' h = (a, refl, h)
local-ok (err x) k w w' h = absurd (cc h)

-- The object of `winrm` refuses a missing shell.
abbrev pub in_shell {ℓ} : {A : Type ℓ} → Option ℕ → (ℕ → Result A) → Result A
in_shell none f = err attribute_error
in_shell (some i) f = f i

module _ (winrm : Protocol) where
  abbrev pub opened : Result ℕ → Remote (Unit {0})
  opened (err e) w = (err e, record w { protocol = true })
  opened (ok i) w = (ok tt, record { protocol = true; shell_id = some i; shells = i ∷ w.shells })

  -- The name of the host is a text, so that the endpoint can be put together.
  unfoldable pub connect : Remote (Unit {0})
  connect w = opened (winrm.open_shell w.shells) w

  -- `run_ps` and `run`: without a connection `self.protocol` is `None`.
  unfoldable pub run_ps : Text → Remote Response
  run_ps script w =
      if w.protocol
      then (Remoting.run_ps (λ s. in_shell w.shell_id (λ i. winrm.run_command i s)) script, w)
      else (err attribute_error, w)

  abbrev pub closed : Option ℕ → Result (Unit {0}) → Remote (Unit {0})
  closed shell (err e) w = (err e, w)
  closed none (ok _) w = (ok tt, idle w.shells)
  closed (some i) (ok _) w = (ok tt, idle (delete_where (λ j. j == i) w.shells))

  unfoldable pub disconnect : Remote (Unit {0})
  disconnect w =
      if w.protocol
      then closed w.shell_id (in_shell w.shell_id winrm.close_shell) w
      else (err attribute_error, w)

  -- What every service does with a session: one script between connecting and disconnecting.
  unfoldable pub with_session : Text → Remote Response
  with_session script = do connect; result ← run_ps script; disconnect; λ w. (ok result, w)
