-- ===== src/System/Reachable.antt =====
-- What holds in every state that the interleaved transactions reach.
use pyadcs_connector.Prelude.{ℕ, count, ◌≡◌, ◌<◌, refl, Bool, false, Exception, arith, count-false}
use mathlib.Core.Path.{subst}
use pyadcs_connector.Text.{Text}
use pyadcs_connector.Text.Utf8.{Bytes}
use pyadcs_connector.Db.{Db, IsConsistent, links_to, is_of}
use pyadcs_connector.Discovery.Creation.{create-IsConsistent}
use pyadcs_connector.Discovery.Life.{finish-IsConsistent, delete-IsConsistent}
use pyadcs_connector.Cleanup.{Settings, Planner, claim_lease}
use pyadcs_connector.System.{
  System, initial, Step, start, finish, lose, delete, claim, batch, Reach, begin, later,
}
use pyadcs_connector.System.Changes.{create_adds, batch-IsConsistent, batch_others, claim_others}
use pyadcs_connector.System.Threads.{
  IsThread, IsSettled, is_completed, count-completed, All-map_except, All-remove,
}
use pyadcs_connector.System.Start.{start-IsSettled}
use pyadcs_connector.System.Steps.{
  delete-IsFinished, delete-IsThread, same-IsSettled, others, finish-IsSettled,
}

-- What every transaction keeps.
pub record IsSound (s : System) : Type 0 where
  pub consistent : IsConsistent s.db
  pub settled : IsSettled s.db s.running

pub initial-IsSound : IsSound initial
initial-IsSound = record {
  consistent = record {
    unique_fingerprint = λ fp. omega arith;
    unique_certificate = λ i. omega arith;
    fresh_certificate = λ i lt. refl;
    fresh_history = λ i lt. refl;
    unique_history = λ i. omega arith;
    linked_certificate = λ i n. absurd (omega (arith, n));
    linked_history = λ i n. absurd (omega (arith, n));
  };
  settled = record { finished = λ i n. refl; threads = tt; one_thread = λ i. omega arith };
}

claim-IsConsistent :
    (settings : Settings) (lock_free : Bool) (now : ℕ) (db : Db)
    → IsConsistent db
    → IsConsistent (claim_lease settings lock_free now db).1
claim-IsConsistent settings lock_free now db c =
    let (histories, links, seq, certificates, certificate_seq) =
      claim_others settings lock_free now db in
    record {
      unique_fingerprint = λ fp. rw certificates (c.unique_fingerprint fp);
      unique_certificate = λ i. rw certificates (c.unique_certificate i);
      fresh_certificate =
          λ i lt. rw certificates (c.fresh_certificate i (subst (λ n. n < i) certificate_seq lt));
      fresh_history = λ i lt. rw histories (c.fresh_history i (subst (λ n. n < i) seq lt));
      unique_history = λ i. rw histories (c.unique_history i);
      linked_certificate = λ i n.
          rw certificates (c.linked_certificate i (subst (λ l. 0 < count (links_to i) l) links n));
      linked_history =
          λ i n. rw histories (c.linked_history i (subst (λ l. 0 < count (is_of i) l) links n));
    }

module _ (planner : Planner) (sha256_hexdigest : Bytes → Text) (link_uuid : ℕ → Text)
    (str_of : Exception → Text) where
  -- Every transaction keeps the database consistent and the running discoveries without links.
  pub step-IsSound :
      (s t : System) → Step planner sha256_hexdigest link_uuid str_of s t → IsSound s → IsSound t
  step-IsSound s t (start uuid form h db' unused unused' e) i =
      let made = create_adds uuid form s.db db' h e in
      record {
        consistent = create-IsConsistent uuid form s.db db' h i.consistent e;
        settled =
            start-IsSettled uuid s.db db' h i.consistent made s.running unused unused' i.settled;
      }
  step-IsSound s t (finish before h after collected e) i = record {
    consistent =
        finish-IsConsistent sha256_hexdigest link_uuid str_of h collected s.db i.consistent;
    settled =
        finish-IsSettled sha256_hexdigest link_uuid str_of before h after collected s.db
          (subst (IsSettled s.db) e i.settled);
  }
  step-IsSound s t (lose before h after e) i =
      let j = subst (IsSettled s.db) e i.settled in
      record {
        consistent = i.consistent;
        settled = record {
          finished = j.finished;
          threads = (All-remove (IsThread s.db) before h after j.threads).1;
          one_thread = λ k. (others before h after k (j.one_thread k)).0;
        };
      }
  step-IsSound s t (delete uuid) i = record {
    consistent = delete-IsConsistent uuid s.db i.consistent;
    settled = record {
      finished = delete-IsFinished uuid s.db i.settled.finished;
      threads =
          All-map_except (λ _. false) s.running (λ g _ u. delete-IsThread uuid s.db g u)
            (count-false s.running) i.settled.threads;
      one_thread = i.settled.one_thread;
    };
  }
  step-IsSound s t (claim settings lock_free now) i =
      let (histories, links, seq, _, _) = claim_others settings lock_free now s.db in
      record {
        consistent = claim-IsConsistent settings lock_free now s.db i.consistent;
        settled = same-IsSettled s.db _ s.running histories links seq i.settled;
      }
  step-IsSound s t (batch n bound) i =
      let (histories, links, seq) = batch_others planner n bound s.db in
      record {
        consistent = batch-IsConsistent planner n bound s.db i.consistent;
        settled = same-IsSettled s.db _ s.running histories links seq i.settled;
      }

  -- Whatever the order of the transactions, the database stays consistent, a discovery whose
  -- thread still runs has no links, and the row of every discovery with a link is completed.
  pub Reach-IsSound : (s : System) → Reach planner sha256_hexdigest link_uuid str_of s → IsSound s
  Reach-IsSound s begin = initial-IsSound
  Reach-IsSound s (later r step) = step-IsSound _ s step (Reach-IsSound _ r)

  -- Whatever the order of the transactions, a discovery with a link has exactly one row, and that
  -- row is completed: no discovery in progress or failed shows certificates.
  pub Reach-completed :
      (s : System) (i : ℕ)
      → Reach planner sha256_hexdigest link_uuid str_of s
      → 0 < count (is_of i) s.db.links
      → count (is_completed i) s.db.histories ≡ 1
  Reach-completed s i r n =
      let sound = Reach-IsSound s r in
      omega (
        arith,
        count-completed i s.db.histories,
        sound.settled.finished i n,
        sound.consistent.unique_history i,
        sound.consistent.linked_history i n,
      )
