-- ===== src/System/Threads.antt =====
-- What the threads of `run_discovery` rely on, and how each change of the tables keeps it.
use pyadcs_connector.Prelude.{
  ℕ, count, ◌≡◌, ◌≢◌, ◌<◌, ◌≤◌, ◌+◌, refl, Bool, false, not, ◌&&◌, List, [], ◌∷◌, ◌++◌, All, arith,
  ◌==◌, ==_iff,
}
use pyadcs_connector.Text.{Text, text_eq}
use pyadcs_connector.Text.Laws.{text_eq_refl}
use pyadcs_connector.Db.{Db, DiscoveryHistory, has_history_id, has_history_uuid, is_of}
use pyadcs_connector.Db.Rows.{update_where}
use pyadcs_connector.Discovery.Persist.{completed, status_value, complete}
use pyadcs_connector.Discovery.{mark_failed}

-- A row of the identifier that is not completed.
abbrev pub is_unfinished : ℕ → DiscoveryHistory → Bool
is_unfinished i h = (h.id == i) && not (text_eq h.status (status_value completed))

abbrev pub is_completed : ℕ → DiscoveryHistory → Bool
is_completed i h = (h.id == i) && text_eq h.status (status_value completed)

-- A row that has the UUID of another discovery.
abbrev pub is_foreign : Text → ℕ → DiscoveryHistory → Bool
is_foreign uuid i h = has_history_uuid uuid h && not (h.id == i)

-- A thread's discovery has no links yet, and its UUID names no other row.
pub record IsThread (db : Db) (h : DiscoveryHistory) : Type 0 where
  pub no_links : count (is_of h.id) db.links ≡ 0
  pub own_uuid : count (is_foreign h.uuid h.id) db.histories ≡ 0
  pub old_id : h.id ≤ db.history_seq

-- Every row of a discovery that has a link is completed.
abbrev pub IsFinished : Db → Type 0
IsFinished db = (i : ℕ) → 0 < count (is_of i) db.links → count (is_unfinished i) db.histories ≡ 0

-- The discoveries of one database, whatever becomes of the shared certificates.
pub record IsSettled (db : Db) (running : List DiscoveryHistory) : Type 0 where
  pub finished : IsFinished db
  pub threads : All (IsThread db) running
  pub one_thread : (i : ℕ) → count (has_history_id i) running ≤ 1

pub count-completed :
    (i : ℕ) (hs : List DiscoveryHistory)
    → count (is_completed i) hs + count (is_unfinished i) hs ≡ count (has_history_id i) hs
count-completed i [] = refl
count-completed i (h ∷ hs) = ground (arith, count-completed i hs)

module _ {ℓ κ μ} {A : Type ℓ} {P : A → Type κ} {Q : A → Type μ} where
  pub All-map_except :
      (q : A → Bool) (xs : List A)
      → ((x : A) → q x ≡ false → P x → Q x)
      → count q xs ≡ 0
      → All P xs
      → All Q xs
  All-map_except q [] f h k = tt
  All-map_except q (x ∷ xs) f h k =
      (f x (ground arith) k.0, All-map_except q xs f (ground arith) k.1)

module _ {ℓ κ} {A : Type ℓ} (P : A → Type κ) where
  pub All-remove :
      (xs : List A) (x : A) (ys : List A) → All P (xs ++ x ∷ ys) → P x × All P (xs ++ ys)
  All-remove [] x ys h = h
  All-remove (z ∷ xs) x ys h = let (p, rest) = All-remove xs x ys h.1 in (p, (h.0, rest))

-- A failure leaves the rows of every other discovery as finished as they were.
pub unfinished-fail :
    (uuid reason : Text) (j i : ℕ) (hs : List DiscoveryHistory)
    → j ≢ i
    → count (is_unfinished i) (update_where (has_history_uuid uuid) (mark_failed reason) hs)
      ≤ count (is_unfinished i) hs + count (is_foreign uuid j) hs
unfolding update_where
unfinished-fail uuid reason j i [] ne = omega arith
unfinished-fail uuid reason j i (h ∷ hs) ne =
    ground (arith, unfinished-fail uuid reason j i hs ne, ==_iff h.id j, ==_iff h.id i)

pub unfinished-complete-le :
    (i j : ℕ) (hs : List DiscoveryHistory)
    → count (is_unfinished i) (update_where (has_history_id j) complete hs)
      ≤ count (is_unfinished i) hs
unfolding update_where
unfinished-complete-le i j [] = omega arith
unfinished-complete-le i j (h ∷ hs) =
    ground (arith, unfinished-complete-le i j hs, text_eq_refl (status_value completed))

pub unfinished-complete-none :
    (j : ℕ) (hs : List DiscoveryHistory)
    → count (is_unfinished j) (update_where (has_history_id j) complete hs) ≡ 0
unfolding update_where
unfinished-complete-none j [] = refl
unfinished-complete-none j (h ∷ hs) =
    ground (arith, unfinished-complete-none j hs, text_eq_refl (status_value completed))
