-- ===== src/Authority/Names.antt =====
-- The names and the identifiers of the authority instances stay apart, whatever is requested.
use pyadcs_connector.Prelude.{
  ℕ, suc, List, [], ◌∷◌, count, any, Bool, Bool-cases, Option-cases, inl, inr, Result, ok, err, ◌≡◌,
  ◌≤◌, refl, ap, ◌∙◌, ok-injective, arith,
}
use mathlib.Core.Path.{subst}
use pyadcs_connector.Text.{Text}
use pyadcs_connector.Db.Rows.{find, delete_where, count-delete_where-le}
use pyadcs_connector.Db.Authorities.{AuthorityInstance, Authorities, has_name, has_uuid, has_id}
use pyadcs_connector.Authority.Requested.{AuthorityForm}
use pyadcs_connector.Remoting.Session.{Protocol, World, remote-ok}
use pyadcs_connector.Authority.Sessions.{SessionConfig}
use pyadcs_connector.Authority.{
  Request, create, update, delete, update_authority_instance, create_authority_instance,
  update_operation, delete_operation, new_instance, handle, serve, serve_all, committed,
}
use pyadcs_connector.Authority.Laws.{update_saves}
use pyadcs_connector.Authority.Table.{
  IsTable, Same, created-IsTable, empty-IsTable, updated-IsTable,
}

module _ (winrm : SessionConfig → Protocol) (saved_by : AuthorityInstance → Result (Unit {0})) where
  saved-Same :
      (form : AuthorityForm) (a a' : AuthorityInstance) (w w' : World)
      → update_authority_instance winrm saved_by form a w ≡ (ok a', w')
      → Same a a'
  saved-Same form a a' w w' h =
      let (_, _, _, _, _, _, _, _, _, _, same_id, _, same_name, _) =
        (update_saves winrm saved_by form a a' w w' h).0 in
      (same_id, same_name)

  create-IsTable :
      (uuid : Text) (form : AuthorityForm) (table table' : Authorities) (a : AuthorityInstance)
      (w w' : World)
      → IsTable table
      → create_authority_instance winrm saved_by uuid form table w ≡ (ok (a, table'), w')
      → IsTable table'
  unfolding create_authority_instance
  create-IsTable uuid form table table' a w w' t h =
      elim (Bool-cases (any (has_name form.name) table.rows)) [
        | inl e ↦ absurd (cc (rw e at h))
        | inr e ↦
            let (saved, u, updated, h1) =
              remote-ok
                (update_authority_instance winrm saved_by form
                  (new_instance (suc table.seq) uuid form))
                _ w w' (rw e at h) in
            let same : Same (new_instance (suc table.seq) uuid form) saved =
              saved-Same _ _ saved w u updated in
            subst IsTable (ap (λ p. p.1) (ok-injective (ap (λ p. p.0) h1))) (
              created-IsTable table saved t (ap (λ n. any (has_name n) table.rows) same.1 ∙ e)
                same.0)
      ]

  update-IsTable :
      (uuid : Text) (form : AuthorityForm) (table table' : Authorities) (status : ℕ) (w w' : World)
      → IsTable table
      → update_operation winrm saved_by uuid form table w ≡ (ok (status, table'), w')
      → IsTable table'
  unfolding update_operation
  update-IsTable uuid form table table' status w w' t h =
      elim (Option-cases (find (has_uuid uuid) table.rows)) [
        | inl e ↦
            subst IsTable
              (ap (λ p. p.1) (ok-injective (ap (λ p. p.0) (rw (e, update_operation) at h)))) t
        | inr (a, e) ↦
            let (saved, u, updated, h1) =
              remote-ok (update_authority_instance winrm saved_by form a) _ w w'
                (rw (e, update_operation) at h) in
            let same = saved-Same form a saved w u updated in
            subst IsTable (ap (λ p. p.1) (ok-injective (ap (λ p. p.0) h1)))
              (updated-IsTable table uuid a saved t e same.0 same.1)
      ]

delete-IsTable :
    (uuid : Text) (table : Authorities) → IsTable table → IsTable (delete_operation uuid table).1
unfolding delete_operation
delete-IsTable uuid table t = elim (Option-cases (find (has_uuid uuid) table.rows)) [
  | inl e ↦ rw (e, delete_operation) t
  | inr (a, e) ↦
      let fewer : (q : AuthorityInstance → Bool)
          → count q (delete_where (has_id a.id) table.rows) ≤ count q table.rows =
        λ q. count-delete_where-le q (has_id a.id) table.rows in
      rw (e, delete_operation)
        (record {
          unique_name = λ name. omega (arith, fewer (has_name name), t.unique_name name);
          unique_id = λ i. omega (arith, fewer (has_id i), t.unique_id i);
          fresh_id = λ i h. omega (arith, fewer (has_id i), t.fresh_id i h);
        })
]

committed-IsTable :
    (table : Authorities) (o : Result Authorities × World)
    → IsTable table
    → ((table' : Authorities) (w' : World) → o ≡ (ok table', w') → IsTable table')
    → IsTable (committed table o).0
committed-IsTable table (ok table', w) t h = h table' w refl
committed-IsTable table (err x, w) t h = t

module _ (winrm : SessionConfig → Protocol) (saved_by : AuthorityInstance → Result (Unit {0})) where
  serve-IsTable :
      (request : Request) (table : Authorities) (w : World)
      → IsTable table
      → IsTable (serve winrm saved_by request (table, w)).0
  unfolding handle
  serve-IsTable (create uuid form) table w t =
      committed-IsTable table (handle winrm saved_by (create uuid form) table w) t (λ table' w' h.
        let (saved, u, made, h1) =
          remote-ok (create_authority_instance winrm saved_by uuid form table) _ w w' h in
        subst IsTable (ok-injective (ap (λ p. p.0) h1))
          (create-IsTable winrm saved_by uuid form table saved.1 saved.0 w u t made))
  serve-IsTable (update uuid form) table w t =
      committed-IsTable table (handle winrm saved_by (update uuid form) table w) t (λ table' w' h.
        let (answer, u, made, h1) =
          remote-ok (update_operation winrm saved_by uuid form table) _ w w' h in
        subst IsTable (ok-injective (ap (λ p. p.0) h1))
          (update-IsTable winrm saved_by uuid form table answer.1 answer.0 w u t made))
  serve-IsTable (delete uuid) table w t = delete-IsTable uuid table t

  serve_all_from-IsTable :
      (requests : List Request) (table : Authorities) (w : World)
      → IsTable table
      → IsTable (serve_all winrm saved_by requests (table, w)).0
  serve_all_from-IsTable [] table w t = t
  serve_all_from-IsTable (request ∷ requests) table w t =
      let (table', w') = serve winrm saved_by request (table, w) in
      serve_all_from-IsTable requests table' w' (serve-IsTable request table w t)

  -- After any requests to create, update and delete authority instances, served one after the
  -- other from an empty table, no two instances share a name or an identifier, and no identifier
  -- is above the sequence, whatever the server answers.
  pub serve_all-IsTable :
      (requests : List Request) (w : World)
      → IsTable (serve_all winrm saved_by requests (record { rows = []; seq = 0 }, w)).0
  serve_all-IsTable requests w = serve_all_from-IsTable requests _ w empty-IsTable
