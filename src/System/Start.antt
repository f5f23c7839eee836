-- ===== src/System/Start.antt =====
-- A discovery that starts while others run.
use pyadcs_connector.Prelude.{
  ℕ, count, ◌≡◌, ◌<◌, List, [], ◌∷◌, All, ==_iff, ==_refl, count-append, count_mono, refl, ap, ◌∙◌,
  false, arith,
}
use mathlib.Core.Path.{subst}
use pyadcs_connector.Text.{Text}
use pyadcs_connector.Text.Laws.{text_eq_iff}
use pyadcs_connector.Db.{
  Db, DiscoveryHistory, IsConsistent, has_history_id, has_history_uuid, is_of,
}
use pyadcs_connector.System.Changes.{Started}
use pyadcs_connector.System.Threads.{
  is_unfinished, is_foreign, IsThread, IsFinished, All-map_except, IsSettled,
}

fresh_thread :
    (db : Db) (i : ℕ) (running : List DiscoveryHistory)
    → db.history_seq < i
    → All (IsThread db) running
    → count (has_history_id i) running ≡ 0
fresh_thread db i [] lt t = refl
fresh_thread db i (h ∷ running) lt t =
    let own = t.0 in ground (arith, fresh_thread db i running lt t.1, own.old_id, ==_iff h.id i)

fresh_links :
    (db : Db) (i : ℕ) → IsConsistent db → db.history_seq < i → count (is_of i) db.links ≡ 0
fresh_links db i c lt = ground (arith, c.linked_history i, c.fresh_history i lt)

module _ (uuid : Text) (db db' : Db) (h : DiscoveryHistory) (c : IsConsistent db)
    (made : Started uuid db h db') where
  start-IsFinished : IsFinished db → IsFinished db'
  start-IsFinished f i n =
      let n' = subst (λ l. 0 < count (is_of i) l) made.same_links n in
      ground (
        arith,
        ap (count (is_unfinished i)) made.row_added,
        count-append (is_unfinished i) db.histories (h ∷ []),
        f i n',
        fresh_links db i c,
        made.next_id,
        ==_iff h.id i,
      )

  start-IsThread_other :
      (g : DiscoveryHistory) → has_history_uuid uuid g ≡ false → IsThread db g → IsThread db' g
  start-IsThread_other g ne t = record {
    no_links = ap (count (is_of g.id)) made.same_links ∙ t.no_links;
    own_uuid = ground (
      arith,
      ap (count (is_foreign g.uuid g.id)) made.row_added,
      count-append (is_foreign g.uuid g.id) db.histories (h ∷ []),
      t.own_uuid,
      made.its_uuid,
      text_eq_iff h.uuid g.uuid,
      text_eq_iff g.uuid uuid,
    );
    old_id = ground (arith, t.old_id, made.next_seq);
  }

  start-IsThread_own : count (has_history_uuid uuid) db.histories ≡ 0 → IsThread db' h
  start-IsThread_own unused = record {
    no_links =
        ap (count (is_of h.id)) made.same_links
        ∙ fresh_links db h.id c (ground (arith, made.next_id));
    own_uuid = ground (
      arith,
      ap (count (is_foreign h.uuid h.id)) made.row_added,
      count-append (is_foreign h.uuid h.id) db.histories (h ∷ []),
      ==_refl h.id,
      ap (λ u. count (is_foreign u h.id) db.histories) made.its_uuid,
      count_mono (is_foreign uuid h.id) (has_history_uuid uuid) db.histories (λ x e. ground arith),
      unused,
    );
    old_id = omega (arith, made.next_id, made.next_seq);
  }

  pub start-IsSettled :
      (running : List DiscoveryHistory)
      → count (has_history_uuid uuid) db.histories ≡ 0
      → count (has_history_uuid uuid) running ≡ 0
      → IsSettled db running
      → IsSettled db' (h ∷ running)
  start-IsSettled running unused unused' s = record {
    finished = start-IsFinished s.finished;
    threads = (
      start-IsThread_own unused,
      All-map_except (has_history_uuid uuid) running start-IsThread_other unused' s.threads,
    );
    one_thread = λ i.
        ground (
          arith,
          s.one_thread i,
          fresh_thread db i running,
          s.threads,
          made.next_id,
          ==_iff h.id i,
        );
  }
