-- ===== src/AuthProtocol/Forwarded.antt =====
-- auth_token/__init__.py: the headers of a request that AuthProtocol's `process_request` lets through.
use keystonemiddleware.Base.{
  ◌≡◌, refl, sym, ap, ◌∙◌, String, Bool, true, false, some, ◌==◌, Bool-cases, arith, lookup,
  contains, join, All, ◌&◌, inl, inr,
}
use keystonemiddleware.Exec.{ok}
use keystonemiddleware.Access.{AccessInfo}
use keystonemiddleware.Request.AuthHeaders.{
  Headers, service_catalog_header, user_status_header, header_template, with_prefix, user_prefix,
  roles_header, admin_project_header, deprecated_header_map, is_admin_project, auth_entries,
}
use keystonemiddleware.Request.Written.{last_of, user_entries}
use keystonemiddleware.Request.{Request, user_token, is_given, user_token_valid}
use keystonemiddleware.Protocol.Process.{State}
use keystonemiddleware.Protocol.Process.Confirmed.{IsAuthenticated, user_token_valid-set_self}
use keystonemiddleware.AuthProtocol.{
  Services, Options, Library, methods, prepare, mark_missing, user_status, plugin_user,
  process_request,
}
use keystonemiddleware.AuthProtocol.Outcome.{IsPassed, process_request-IsPassed}
use keystonemiddleware.AuthProtocol.Enforcement.{
  user_token-set_user_token_valid, user_status-true, IsPassed-IsAuthenticated,
}
use keystonemiddleware.AuthProtocol.Decorated.{
  IsDecorated, decorate-IsDecorated, lookup-decorated, lookup-unnamed, service_header_names,
}

module _ {R : Type 0} (o : Options) (lib : Library) (services : Services R) where
  -- The test of process_request and the header agree.
  user_status-valid :
      (t : State R) (user valid : Bool)
      → user_status o lib services (mark_missing o lib services t).request ≡ ok user
      → user_token_valid (mark_missing o lib services t).request ≡ ok valid
      → user ≡ valid
  unfolding user_status mark_missing
  user_status-valid t user valid e h = elim (Bool-cases (is_given (user_token t.request))) [
    | inl given ↦ ground arith
    | inr missing ↦ ground (
      arith,
      user_token-set_user_token_valid false t.request,
      user_token_valid-set_self false t.request,
    )
  ]

  user_token_valid-eq :
      (r r' : Request)
      → lookup user_status_header r'.headers ≡ lookup user_status_header r.headers
      → user_token_valid r' ≡ user_token_valid r
  unfolding user_token_valid
  user_token_valid-eq r r' same = rw (same) refl

  forwarded_ref :
      (s s' : State R) (passed : IsPassed o lib services s s')
      (d : IsDecorated o lib services (mark_missing o lib services passed.after).request s'.request)
      → d.valid ≡ true
      → (auth : IsAuthenticated o.policy
          (methods o lib services)
          (prepare o lib services s)
          passed.after)
        × (plugin_user o lib services (mark_missing o lib services passed.after).request.token_auth
            ≡ some auth.ref)
  forwarded_ref s s' passed d valid =
      let user : passed.user ≡ true =
        user_status-valid passed.after passed.user true passed.user_is (d.valid_is ∙ ap ok valid) in
      let auth = IsPassed-IsAuthenticated o lib services s s' passed user in
      let (_, _, same) =
        user_status-true o lib services passed.after (passed.user_is ∙ ap ok user) in
      (
        auth,
        ap (λ t. plugin_user o lib services t.request.token_auth) same
            ∙ ap (plugin_user o lib services) auth.plugin,
      )

  -- What the status header says behind process_request is what the user's token turned out to be.
  pub valid-forwarded :
      (s s' : State R) (passed : IsPassed o lib services s s')
      (d : IsDecorated o lib services (mark_missing o lib services passed.after).request s'.request)
      → user_token_valid s'.request ≡ ok d.valid
  unfolding auth_entries
  valid-forwarded s s' passed d =
      user_token_valid-eq marked s'.request (elim (Bool-cases d.valid) [
        | inr invalid ↦
            lookup-unnamed o lib services user_status_header marked s'.request d invalid refl
        | inl valid ↦
            let (auth, user) = forwarded_ref s s' passed d valid in
            lookup-decorated o lib services user_status_header marked s'.request d auth.ref valid
              user refl refl
      ])
      ∙ d.valid_is
    where
      marked : Request
      marked = (mark_missing o lib services passed.after).request

  -- The headers that describe the user whose token was accepted.
  pub record Describes (ref : AccessInfo) (h : Headers) : Type 0 where
    pub attributes :
        All (λ e. lookup (with_prefix user_prefix e.0) h ≡ some (e.1 ref)) header_template
    pub roles : lookup (roles_header user_prefix) h ≡ some (some (join "," ref.role_names))
    pub admin : lookup admin_project_header h ≡ some (some (is_admin_project ref))
    pub repeated : All (λ d. lookup d.0 h ≡ lookup d.1 h) deprecated_header_map

  described :
      (r r' : Request) (d : IsDecorated o lib services r r') (ref : AccessInfo)
      → d.valid ≡ true
      → plugin_user o lib services r.token_auth ≡ some ref
      → Describes ref r'.headers
  unfolding auth_entries
  described r r' d ref valid user = record {
    attributes =
        at _ refl refl
        & at _ refl refl
        & at _ refl refl
        & at _ refl refl
        & at _ refl refl
        & at _ refl refl
        & at _ refl refl
        & at _ refl refl
        & at _ refl refl
        & at _ refl refl
        & tt;
    roles = at _ refl refl;
    admin = at _ refl refl;
    repeated =
        at "X-Role" refl refl ∙ sym (at "X-Roles" refl refl)
        & at "X-User" refl refl ∙ sym (at "X-User-Name" refl refl)
        & at "X-Tenant-Id" refl refl ∙ sym (at "X-Project-Id" refl refl)
        & at "X-Tenant-Name" refl refl ∙ sym (at "X-Project-Name" refl refl)
        & at "X-Tenant" refl refl ∙ sym (at "X-Project-Name" refl refl)
        & tt;
  }
    where
      at :
          (j : String)
          → (service_catalog_header == j) ≡ false
          → contains service_header_names j ≡ false
          → lookup j r'.headers ≡ last_of j (user_entries ref) (lookup j r.headers)
      at j not_catalog not_service =
          lookup-decorated o lib services j r r' d ref valid user not_catalog not_service

  -- A request that goes on with X-Identity-Status Confirmed is authenticated, and its user headers
  -- describe the AccessInfo of the token that was accepted: each header of _HEADER_TEMPLATE, X-Roles,
  -- X-Is-Admin-Project and the deprecated headers, whatever the client sent under these names.
  pub process_request-Describes :
      (s s' : State R)
      → process_request o lib services s ≡ (ok tt, s')
      → user_token_valid s'.request ≡ ok true
      → (after : State R) × (auth : IsAuthenticated o.policy
          (methods o lib services)
          (prepare o lib services s)
          after)
        × Describes auth.ref s'.request.headers
  process_request-Describes s s' e confirmed =
      let passed = process_request-IsPassed o lib services s s' e in
      let marked = (mark_missing o lib services passed.after).request in
      let d = decorate-IsDecorated o lib services marked s'.request passed.decorated in
      let valid : d.valid ≡ true = ground (arith, valid-forwarded s s' passed d) in
      let (auth, user) = forwarded_ref s s' passed d valid in
      (passed.after, auth, described marked s'.request d auth.ref valid user)
