-- ===== src/AuthProtocol/Decorated.antt =====
-- auth_token/__init__.py: what the end of AuthProtocol's `process_request` does to the headers.
use keystonemiddleware.Base.{
  ◌≡◌, refl, sym, ap, ◌∙◌, inl, inr, String, Bool, true, false, Option, none, some, List, ◌∷◌, map,
  ◌==◌, ◌&&◌, Bool-cases, arith, lookup, lookup-insert, lookup-erase, contains,
}
use keystonemiddleware.Exec.{Result, Exec, ok, raise, continue-eq-ok, read-eq-ok}
use keystonemiddleware.Json.{Json}
use keystonemiddleware.Access.{AccessInfo}
use keystonemiddleware.Request.AuthHeaders.{
  Headers, service_catalog_header, insert_all, auth_entries, service_prefix, roles_header,
  system_scope_header, with_prefix, header_template,
}
use keystonemiddleware.Request.Written.{
  last_of, user_entries, set_user_headers-insert_all, lookup-insert_all, lookup-set_service_headers,
  last_of_absent,
}
use keystonemiddleware.Request.{
  Request, user_token_valid, set_service_catalog_headers, store_catalog,
}
use keystonemiddleware.AuthProtocol.{
  Services, Options, Library, plugin_user, plugin_service, with_ref, add_user_headers,
  add_catalog_header, attach_session, service_accepted, add_service_headers, decorate,
}

module _ (dumps : Json → String) (j : String) (other : (service_catalog_header == j) ≡ false) where
  lookup-store :
      (c : Result Json) (h h' : Headers)
      → store_catalog dumps c h ≡ (ok tt, h')
      → lookup j h' ≡ lookup j h
  lookup-store (raise e) h h' stored = absurd (ground arith)
  lookup-store (ok c) h h' stored =
      ap (lookup j) (sym (ap (λ x. x.1) stored)) ∙ rw (lookup-insert, other) refl

  lookup-set_service_catalog_headers :
      (ref : AccessInfo) (h h' : Headers)
      → set_service_catalog_headers dumps ref h ≡ (ok tt, h')
      → lookup j h' ≡ lookup j h
  unfolding set_service_catalog_headers
  lookup-set_service_catalog_headers ref h h' e = elim (Bool-cases ref.has_service_catalog) [
    | inr none_there ↦
        ap (lookup j) (sym (ap (λ x. x.1) (rw (none_there) at e))) ∙ rw (lookup-erase, other) refl
    | inl some_there ↦ lookup-store _ h h' (rw (some_there) at e)
  ]

-- Every name that `set_service_headers` assigns.
abbrev pub service_header_names : List String
service_header_names =
    roles_header service_prefix
    ∷ system_scope_header
    ∷ map (λ e. with_prefix service_prefix e.0) header_template

module _ {R : Type 0} (o : Options) (lib : Library) (services : Services R) where
  -- The steps of a decoration that does not raise.
  pub record IsDecorated (r r' : Request) : Type 0 where
    pub valid : Bool
    pub valid_is : user_token_valid r ≡ ok valid
    pub named : Request
    pub user_added : add_user_headers o lib services valid r ≡ (ok tt, named)
    pub listed : Request
    pub catalog_added : add_catalog_header o lib services valid named ≡ (ok tt, listed)
    pub accepted : Bool
    pub accepted_is :
        service_accepted o lib services (attach_session o lib services listed) ≡ ok accepted
    pub service_added :
        add_service_headers o lib services accepted (attach_session o lib services listed)
        ≡ (ok tt, r')

  pub decorate-IsDecorated :
      (r r' : Request) → decorate o lib services r ≡ (ok tt, r') → IsDecorated r r'
  unfolding decorate
  decorate-IsDecorated r r' e =
      let (valid, valid_is, e₁) = read-eq-ok (user_token_valid r) r _ e in
      let (_, named, user_added, e₂) =
        continue-eq-ok (add_user_headers o lib services valid r) _ e₁ in
      let (_, listed, catalog_added, e₃) =
        continue-eq-ok (add_catalog_header o lib services valid named) _ e₂ in
      let (accepted, accepted_is, service_added) =
        read-eq-ok (service_accepted o lib services (attach_session o lib services listed))
          (attach_session o lib services listed) _ e₃ in
      record {
        valid = valid;
        valid_is = valid_is;
        named = named;
        user_added = user_added;
        listed = listed;
        catalog_added = catalog_added;
        accepted = accepted;
        accepted_is = accepted_is;
        service_added = service_added;
      }

  add_user_headers-insert_all :
      (r : Request) (ref : AccessInfo)
      → plugin_user o lib services r.token_auth ≡ some ref
      → add_user_headers o lib services true r
        ≡ (ok tt, record r { headers = insert_all (user_entries ref) r.headers })
  unfolding add_user_headers
  add_user_headers-insert_all r ref user = rw (user, set_user_headers-insert_all ref r.headers) refl

  with_ref-ok :
      (u : Option AccessInfo) (f : AccessInfo → Exec Request (Unit {0})) (r : Request)
      {r' : Request}
      → with_ref o lib services u f r ≡ (ok tt, r')
      → (ref : AccessInfo) × (u ≡ some ref) × (f ref r ≡ (ok tt, r'))
  with_ref-ok none f r e = absurd (ground arith)
  with_ref-ok (some ref) f r e = (ref, refl, e)

  module _ (j : String) where
    lookup-add_catalog_header :
        (valid : Bool) (r r' : Request)
        → (service_catalog_header == j) ≡ false
        → add_catalog_header o lib services valid r ≡ (ok tt, r')
        → (lookup j r'.headers ≡ lookup j r.headers) × (r'.token_auth ≡ r.token_auth)
    unfolding add_catalog_header
    lookup-add_catalog_header valid r r' other e =
        elim (Bool-cases (valid && o.include_service_catalog)) [
          | inr off ↦ ground arith
          | inl on ↦
              let (ref, _, added) =
                with_ref-ok (plugin_user o lib services r.token_auth) _ r (rw (on) at e) in
              (
                lookup-set_service_catalog_headers lib.dumps j other ref r.headers r'.headers
                    (ap (λ x. (x.0, x.1.headers)) added),
                sym (ap (λ x. x.1.token_auth) added),
              )
        ]

    lookup-add_service_headers :
        (r r' : Request) (accepted : Bool)
        → contains service_header_names j ≡ false
        → add_service_headers o lib services accepted r ≡ (ok tt, r')
        → lookup j r'.headers ≡ lookup j r.headers
    unfolding add_service_headers auth_entries
    lookup-add_service_headers r r' false other e = ground arith
    lookup-add_service_headers r r' true other e =
        let (ref, _, added) = with_ref-ok (plugin_service o lib services r.token_auth) _ r e in
        ap (λ x. lookup j x.1.headers) (sym added)
        ∙ lookup-set_service_headers j ref r.headers
        ∙ last_of_absent j (auth_entries ref service_prefix) (lookup j r.headers) other

    -- What a request with a valid user token shows, but for the catalog's header and the service's.
    pub lookup-decorated :
        (r r' : Request) (d : IsDecorated r r') (ref : AccessInfo)
        → d.valid ≡ true
        → plugin_user o lib services r.token_auth ≡ some ref
        → (service_catalog_header == j) ≡ false
        → contains service_header_names j ≡ false
        → lookup j r'.headers ≡ last_of j (user_entries ref) (lookup j r.headers)
    unfolding attach_session
    lookup-decorated r r' d ref valid user not_catalog not_service =
        let added = sym (rw (valid) at d.user_added) ∙ add_user_headers-insert_all r ref user in
        lookup-add_service_headers _ r' d.accepted not_service d.service_added
        ∙ (lookup-add_catalog_header d.valid d.named d.listed not_catalog d.catalog_added).0
        ∙ ap (λ x. lookup j x.1.headers) added
        ∙ lookup-insert_all j (user_entries ref) r.headers

    -- Without a valid user token nothing but the service's headers changes.
    pub lookup-unnamed :
        (r r' : Request) (d : IsDecorated r r')
        → d.valid ≡ false
        → contains service_header_names j ≡ false
        → lookup j r'.headers ≡ lookup j r.headers
    unfolding add_user_headers add_catalog_header attach_session
    lookup-unnamed r r' d invalid not_service =
        lookup-add_service_headers _ r' d.accepted not_service d.service_added
        ∙ ap (λ x. lookup j x.1.headers) (sym (rw (invalid) at d.catalog_added))
        ∙ ap (λ x. lookup j x.1.headers) (sym (rw (invalid) at d.user_added))

    -- Without a valid user token and an accepted service token the headers stay as they are.
    pub lookup-undecorated :
        (r r' : Request) (d : IsDecorated r r')
        → d.valid ≡ false
        → d.accepted ≡ false
        → lookup j r'.headers ≡ lookup j r.headers
    unfolding add_user_headers add_catalog_header attach_session add_service_headers
    lookup-undecorated r r' d invalid refused =
        ap (λ x. lookup j x.1.headers) (sym (rw (refused) at d.service_added))
        ∙ ap (λ x. lookup j x.1.headers) (sym (rw (invalid) at d.catalog_added))
        ∙ ap (λ x. lookup j x.1.headers) (sym (rw (invalid) at d.user_added))
