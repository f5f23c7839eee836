-- ===== src/Authority/Laws.antt =====
-- What `update_authority_instance` saves.
use pyadcs_connector.Prelude.{
  Result, ◌>>=◌, List, Bool-cases, true, inl, inr, ok, ◌≡◌, refl, ap, ok-injective, >>=-eq-ok,
}
use mathlib.Core.Path.{subst}
use pyadcs_connector.Text.{codes}
use pyadcs_connector.Json.{Value, arr, of_list, is_text}
use pyadcs_connector.Attribute.Access.{get_attribute_value, merge_attributes}
use pyadcs_connector.Attribute.Authority.{
  validate_authority_kind, get_all_authority_attributes_list,
  authority_winrm_transport_attribute_name, authority_server_address_attribute_name,
  authority_use_https_attribute_name, authority_winrm_port_attribute_name,
  authority_credential_attribute_name,
}
use pyadcs_connector.Remoting.Session.{Protocol, World, remote-ok, local-ok}
use pyadcs_connector.Db.Authorities.{AuthorityInstance}
use pyadcs_connector.Authority.Requested.{AuthorityForm, requested}
use pyadcs_connector.Authority.Sessions.{SessionConfig}
use pyadcs_connector.Authority.{verify_connection, update_authority_instance}

-- The instance after a request: its name, kind and identifiers are kept, its attributes are those
-- offered for its kind with the request's contents, and the connection's settings are read there.
abbrev pub Saved : AuthorityForm → AuthorityInstance → AuthorityInstance → Type 0
Saved form a a' =
    (original : List Value) × (merged : List Value) × (get_attribute_value
        authority_winrm_transport_attribute_name form.attributes
      ≡ ok a'.transport)
    × (get_all_authority_attributes_list a.kind a'.transport ≡ ok original)
    × (merge_attributes form.attributes original ≡ ok merged)
    × (a'.attributes ≡ arr (of_list merged))
    × (get_attribute_value authority_server_address_attribute_name a'.attributes ≡ ok a'.address)
    × (get_attribute_value authority_use_https_attribute_name a'.attributes ≡ ok a'.https)
    × (get_attribute_value authority_winrm_port_attribute_name a'.attributes ≡ ok a'.port)
    × (get_attribute_value authority_credential_attribute_name a'.attributes ≡ ok a'.credential)
    × (a'.id ≡ a.id)
    × (a'.uuid ≡ a.uuid)
    × (a'.name ≡ a.name)
    × (a'.kind ≡ a.kind)

-- What follows from the rest of a computation that returned, follows from all of it.
pub step {ℓ κ μ} :
    {A : Type ℓ} {B : Type κ} {P : Type μ} (call : Result A) (next : A → Result B) {b : B}
    → (call >>= next) ≡ ok b
    → ((v : A) → call ≡ ok v → next v ≡ ok b → P)
    → P
step call next h then = let (v, e, h') = >>=-eq-ok call next h in then v e h'

requested-Saved :
    (form : AuthorityForm) (a a' : AuthorityInstance) → requested form a ≡ ok a' → Saved form a a'
unfolding requested
requested-Saved form a a' h = step (validate_authority_kind a.kind) _ h (λ _ _ h1.
    step (get_attribute_value _ form.attributes) _ h1 (λ transport read h2.
      step (get_all_authority_attributes_list a.kind transport) _ h2 (λ original offered h3.
        step (merge_attributes form.attributes original) _ h3 (λ merged given h4.
          let attributes = arr (of_list merged) in
          step (get_attribute_value _ attributes) _ h4 (λ address at1 h5.
            step (get_attribute_value _ attributes) _ h5 (λ https at2 h6.
              step (get_attribute_value _ attributes) _ h6 (λ port at3 h7.
                step (get_attribute_value _ attributes) _ h7 (λ credential at4 h8.
                  subst (Saved form a) (ok-injective h8) (
                    original, merged, read, offered, given, refl, at1, at2, at3, at4, refl, refl,
                    refl, refl,
                  )))))))))

module _ (winrm : SessionConfig → Protocol) (saved_by : AuthorityInstance → Result (Unit {0})) where
  verify_connection-credssp :
      (a : AuthorityInstance) (w w' : World) {u : Unit {0}}
      → verify_connection winrm a w ≡ (ok u, w')
      → is_text a.transport (codes "credssp") ≡ true
  unfolding verify_connection
  verify_connection-credssp a w w' h = elim (Bool-cases (is_text a.transport (codes "credssp"))) [
    | inl e ↦ e
    | inr e ↦ absurd (cc (rw e at h))
  ]

  -- An instance that `update_authority_instance` returns is `Saved` from the request and the
  -- instance it was given, and its transport is CredSSP.
  pub update_saves :
      (form : AuthorityForm) (a a' : AuthorityInstance) (w w' : World)
      → update_authority_instance winrm saved_by form a w ≡ (ok a', w')
      → Saved form a a' × (is_text a'.transport (codes "credssp") ≡ true)
  unfolding update_authority_instance
  update_saves form a a' w w' h =
      let (saved, read, h1) = local-ok (requested form a) _ w w' h in
      let (_, u, verified, h2) = remote-ok (verify_connection winrm saved) _ w w' h1 in
      let (_, _, h3) = local-ok (saved_by saved) _ u w' h2 in
      subst (λ s. Saved form a s × (is_text s.transport (codes "credssp") ≡ true))
        (ok-injective (ap (λ p. p.0) h3))
        (requested-Saved form a saved read, verify_connection-credssp saved w u verified)
