-- ===== src/System/Steps.antt =====
-- How each transaction on running discoveries keeps them settled.
use pyadcs_connector.Prelude.{
  ℕ, count, ◌≡◌, ◌≢◌, ◌<◌, ◌≤◌, refl, sym, ap, ◌∙◌, false, List, ◌∷◌, ◌++◌, arith, ◌==◌, ==_iff,
  count-append, Bool-cases, inl, inr, Exception, ok, err, Result-cases, ◌⊎◌, count-false,
}
use mathlib.Core.Path.{subst}
use pyadcs_connector.Text.{Text}
use pyadcs_connector.Text.Utf8.{Bytes}
use pyadcs_connector.Db.{Db, DiscoveryHistory, has_history_id, has_history_uuid, is_of}
use pyadcs_connector.Db.Rows.{update_where, count-update_where, count-delete_where-le}
use pyadcs_connector.Discovery.Persist.{complete, persist}
use pyadcs_connector.Discovery.Life.{delete_cases}
use pyadcs_connector.Discovery.{
  mark_failed, delete_discovery, fail_discovery, Collected, finish_discovery,
}
use pyadcs_connector.System.Changes.{Added, persist_adds}
use pyadcs_connector.System.Threads.{
  is_unfinished, is_foreign, IsThread, IsFinished, IsSettled, All-map_except, All-remove,
  unfinished-fail, unfinished-complete-le, unfinished-complete-none,
}

-- A thread that fails changes only the row of its own discovery.
fail-IsFinished :
    (reason : Text) (db : Db) (h : DiscoveryHistory)
    → IsThread db h
    → IsFinished db
    → IsFinished (fail_discovery h.uuid reason db)
unfolding fail_discovery
fail-IsFinished reason db h t f i n =
    let ne : h.id ≢ i =
      λ same. ground (arith, t.no_links, ap (λ j. count (is_of j) db.links) same) in
    omega (arith, unfinished-fail h.uuid reason h.id i db.histories ne, t.own_uuid, f i n)

fail-IsThread :
    (uuid reason : Text) (db : Db) (g : DiscoveryHistory)
    → IsThread db g
    → IsThread (fail_discovery uuid reason db) g
unfolding fail_discovery
fail-IsThread uuid reason db g t = record {
  no_links = t.no_links;
  own_uuid =
      count-update_where (is_foreign g.uuid g.id) (has_history_uuid uuid) (mark_failed reason)
        db.histories (λ x. refl)
      ∙ t.own_uuid;
  old_id = t.old_id;
}

Added-IsFinished :
    (discovery : ℕ) (db db' : Db) → Added discovery db db' → IsFinished db → IsFinished db'
Added-IsFinished discovery db db' a f i n = elim (Bool-cases (discovery == i)) [
  | inl e ↦
      let same = (==_iff discovery i).0 e in
      ap (count (is_unfinished i)) a.histories_completed
      ∙ subst
          (λ j.
            count (is_unfinished j) (update_where (has_history_id discovery) complete db.histories)
            ≡ 0)
          same (unfinished-complete-none discovery db.histories)
  | inr e ↦ ground (
    arith,
    ap (count (is_unfinished i)) a.histories_completed,
    unfinished-complete-le i discovery db.histories,
    f i,
    ap (count (is_of i)) a.links_added,
    count-append (is_of i) db.links a.new_links,
    a.of_discovery i,
    ==_iff discovery i,
  )
]

Added-IsThread :
    (discovery : ℕ) (db db' : Db) (g : DiscoveryHistory)
    → Added discovery db db'
    → has_history_id discovery g ≡ false
    → IsThread db g
    → IsThread db' g
Added-IsThread discovery db db' g a ne t = record {
  no_links = ground (
    arith,
    ap (count (is_of g.id)) a.links_added,
    count-append (is_of g.id) db.links a.new_links,
    a.of_discovery g.id,
    t.no_links,
    ==_iff g.id discovery,
  );
  own_uuid =
      ap (count (is_foreign g.uuid g.id)) a.histories_completed
      ∙ count-update_where (is_foreign g.uuid g.id) (has_history_id discovery) complete db.histories
          (λ x. refl)
      ∙ t.own_uuid;
  old_id = rw a.same_history_seq t.old_id;
}

pub delete-IsFinished :
    (uuid : Text) (db : Db) → IsFinished db → IsFinished (delete_discovery uuid db).1
delete-IsFinished uuid db f = elim (delete_cases uuid db) [
  | inl e ↦ rw e f
  | inr (h, found, e) ↦ rw e (λ i n. omega (
    arith,
    count-delete_where-le (is_unfinished i) (has_history_id h.id) db.histories,
    f i (omega (arith, n, count-delete_where-le (is_of i) (is_of h.id) db.links)),
  ))
]

pub delete-IsThread :
    (uuid : Text) (db : Db) (g : DiscoveryHistory)
    → IsThread db g
    → IsThread (delete_discovery uuid db).1 g
delete-IsThread uuid db g t = elim (delete_cases uuid db) [
  | inl e ↦ rw e t
  | inr (h, found, e) ↦ rw e (record {
    no_links = omega (arith, count-delete_where-le (is_of g.id) (is_of h.id) db.links, t.no_links);
    own_uuid = omega (
      arith,
      count-delete_where-le (is_foreign g.uuid g.id) (has_history_id h.id) db.histories,
      t.own_uuid,
    );
    old_id = t.old_id;
  })
]

-- What a transaction that does not touch discoveries keeps.
pub same-IsSettled :
    (db db' : Db) (running : List DiscoveryHistory)
    → db'.histories ≡ db.histories
    → db'.links ≡ db.links
    → db'.history_seq ≡ db.history_seq
    → IsSettled db running
    → IsSettled db' running
same-IsSettled db db' running histories links seq s = record {
  finished = λ i n. rw histories (s.finished i (subst (λ l. 0 < count (is_of i) l) links n));
  threads =
      All-map_except (λ _. false) running
        (λ g _ t. record {
          no_links = rw links t.no_links;
          own_uuid = rw histories t.own_uuid;
          old_id = rw seq t.old_id;
        })
        (count-false running) s.threads;
  one_thread = s.one_thread;
}

-- A thread that ends leaves the others, which are of other discoveries.
pub others :
    (before : List DiscoveryHistory) (h : DiscoveryHistory) (after : List DiscoveryHistory) (i : ℕ)
    → count (has_history_id i) (before ++ h ∷ after) ≤ 1
    → (count (has_history_id i) (before ++ after) ≤ 1)
      × (h.id ≡ i → count (has_history_id i) (before ++ after) ≡ 0)
others before h after i n = (
  ground (
    arith,
    count-append (has_history_id i) before (h ∷ after),
    count-append (has_history_id i) before after,
  ),
  λ e. ground (
    arith,
    count-append (has_history_id i) before (h ∷ after),
    count-append (has_history_id i) before after,
    ==_iff h.id i,
  ),
)

module _ (sha256_hexdigest : Bytes → Text) (link_uuid : ℕ → Text) (str_of : Exception → Text) where
  -- What the end of a thread makes of the database: its own discovery fails, or is persisted, or
  -- is gone.
  finish_cases :
      (h : DiscoveryHistory) (collected : Collected) (db : Db)
      → let db' = finish_discovery sha256_hexdigest link_uuid str_of h collected db in
        ((reason : Text) × (db' ≡ fail_discovery h.uuid reason db))
        ⊎ ((db ≡ db') ⊎ Added h.id db db')
  unfolding finish_discovery
  finish_cases h (err e) db = inl (str_of e, refl)
  finish_cases h (ok (cas, certificates)) db =
      elim (Result-cases (persist sha256_hexdigest link_uuid cas h.id certificates db)) [
        | inl (db', e) ↦
            rw (e, finish_discovery)
              (inr (persist_adds sha256_hexdigest link_uuid cas h.id certificates db db' e))
        | inr (x, e) ↦ rw (e, finish_discovery) (inl (str_of x, refl))
      ]

  pub finish-IsSettled :
      (before : List DiscoveryHistory) (h : DiscoveryHistory) (after : List DiscoveryHistory)
      (collected : Collected) (db : Db)
      → IsSettled db (before ++ h ∷ after)
      → IsSettled
          (finish_discovery sha256_hexdigest link_uuid str_of h collected db)
          (before ++ after)
  finish-IsSettled before h after collected db s =
      let db' = finish_discovery sha256_hexdigest link_uuid str_of h collected db in
      let (own, rest) = All-remove (IsThread db) before h after s.threads in
      let one : (i : ℕ) → count (has_history_id i) (before ++ after) ≤ 1 =
        λ i. (others before h after i (s.one_thread i)).0 in
      elim (finish_cases h collected db) [
        | inl (reason, e) ↦
            subst (λ d. IsSettled d (before ++ after)) (sym e)
              (record {
                finished = fail-IsFinished reason db h own s.finished;
                threads =
                    All-map_except (λ _. false) (before ++ after)
                      (λ g _ t. fail-IsThread h.uuid reason db g t) (count-false (before ++ after))
                      rest;
                one_thread = one;
              })
        | inr (inl e) ↦
            subst (λ d. IsSettled d (before ++ after)) e
              (record { finished = s.finished; threads = rest; one_thread = one })
        | inr (inr a) ↦ record {
          finished = Added-IsFinished h.id db db' a s.finished;
          threads =
              All-map_except (has_history_id h.id) (before ++ after)
                (λ g ne t. Added-IsThread h.id db db' g a ne t)
                ((others before h after h.id (s.one_thread h.id)).1 refl) rest;
          one_thread = one;
        }
      ]
