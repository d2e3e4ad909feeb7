-- ===== src/AuthProtocol/Forged.antt =====
-- auth_token/__init__.py: what a client's own headers come to in a request that goes on as Invalid.
use keystonemiddleware.Base.{
  ◌≡◌, refl, sym, List, [], ◌∷◌, eq_iff, ap, ◌∙◌, String, true, false, none, ◌==◌, Bool-cases,
  arith, lookup, contains, All, inl, inr, if◌then◌else◌,
}
use keystonemiddleware.Exec.{ok}
use keystonemiddleware.Request.AuthHeaders.{
  user_status_header, service_status_header, all_auth_headers, system_scope_header,
}
use keystonemiddleware.Request.Removal.{
  lookup-remove_auth_headers, identity_headers, removed_headers, same_names,
}
use keystonemiddleware.Request.{Request, user_token, service_token, is_given, user_token_valid}
use keystonemiddleware.Protocol.Process.{State}
use keystonemiddleware.Protocol.Process.Frame.{lookup-process_request, lookup-set_user_token_valid}
use keystonemiddleware.AuthProtocol.{
  Services, Options, Library, methods, prepare, mark_missing, service_accepted, add_user_headers,
  add_catalog_header, attach_session, process_request,
}
use keystonemiddleware.AuthProtocol.Outcome.{IsPassed, process_request-IsPassed}
use keystonemiddleware.AuthProtocol.Decorated.{
  IsDecorated, decorate-IsDecorated, lookup-undecorated,
}
use keystonemiddleware.AuthProtocol.Forwarded.{valid-forwarded}

All-contains :
    {P : String → Type 0} (names : List String)
    → ((j : String) → contains names j ≡ true → P j)
    → All P names
All-contains [] holds = tt
All-contains (k ∷ names) holds =
    (holds k (ground (arith, eq_iff k k)), All-contains names (λ j listed. holds j (ground arith)))

-- A name that is not on the list is none of those that are.
not_among :
    (k j : String)
    → contains identity_headers k ≡ false
    → contains identity_headers j ≡ true
    → (k == j) ≡ false
not_among k j absent listed = elim (Bool-cases (k == j)) [
  | inr other ↦ other
  | inl same ↦ absurd (ground (arith, ap (contains identity_headers) ((eq_iff k j).0 same)))
]

contains_removed :
    (j : String) → contains identity_headers j ≡ true → contains removed_headers j ≡ true
contains_removed j listed = ground arith

module _ {R : Type 0} (o : Options) (lib : Library) (services : Services R) where
  lookup-mark_missing :
      (j : String) (t : State R)
      → (user_status_header == j) ≡ false
      → lookup j (mark_missing o lib services t).request.headers ≡ lookup j t.request.headers
  unfolding mark_missing
  lookup-mark_missing j t other = elim (Bool-cases (is_given (user_token t.request))) [
    | inl given ↦ rw (given) refl
    | inr missing ↦ rw (missing) (lookup-set_user_token_valid j false t.request other)
  ]

  -- What is looked up before the headers are added is what the preparation left.
  lookup-marked :
      (s s' : State R) (passed : IsPassed o lib services s s') (j : String)
      → (user_status_header == j) ≡ false
      → (service_status_header == j) ≡ false
      → lookup j (mark_missing o lib services passed.after).request.headers
        ≡ (if contains all_auth_headers j then none else lookup j s.request.headers)
  unfolding prepare
  lookup-marked s s' passed j not_user not_service =
      lookup-mark_missing j passed.after not_user
      ∙ lookup-process_request o.policy (methods o lib services) j not_user not_service
          (prepare o lib services s) passed.after passed.based
      ∙ lookup-remove_auth_headers j s.request.headers

  service_token-eq :
      (r r' : Request)
      → lookup "X-Service-Token" r'.headers ≡ lookup "X-Service-Token" r.headers
      → service_token r' ≡ service_token r
  unfolding service_token
  service_token-eq r r' same = rw (same) refl

  no_service_accepted :
      (r r' : Request) (d : IsDecorated o lib services r r')
      → d.valid ≡ false
      → is_given (service_token r) ≡ false
      → d.accepted ≡ false
  unfolding add_user_headers add_catalog_header attach_session service_accepted
  no_service_accepted r r' d invalid missing =
      let same : lookup "X-Service-Token" d.listed.headers ≡ lookup "X-Service-Token" r.headers =
        ap (λ x. lookup "X-Service-Token" x.1.headers) (sym (rw (invalid) at d.catalog_added))
        ∙ ap (λ x. lookup "X-Service-Token" x.1.headers) (sym (rw (invalid) at d.user_added)) in
      ground
        (arith, d.accepted_is, service_token-eq r (attach_session o lib services d.listed) same)

  -- Without a service token, a request that goes on as Invalid has of its own headers those that
  -- _all_auth_headers does not list, but for the two status headers.
  lookup-invalid :
      (s s' : State R) (j : String)
      → process_request o lib services s ≡ (ok tt, s')
      → is_given (service_token s.request) ≡ false
      → user_token_valid s'.request ≡ ok false
      → (user_status_header == j) ≡ false
      → (service_status_header == j) ≡ false
      → lookup j s'.request.headers
        ≡ (if contains all_auth_headers j then none else lookup j s.request.headers)
  lookup-invalid s s' j e no_service invalid not_user not_service =
      let passed = process_request-IsPassed o lib services s s' e in
      let marked = (mark_missing o lib services passed.after).request in
      let d = decorate-IsDecorated o lib services marked s'.request passed.decorated in
      let unmarked : d.valid ≡ false =
        ground (arith, valid-forwarded o lib services s s' passed d) in
      let missing : is_given (service_token marked) ≡ false =
        ap is_given (
          service_token-eq s.request marked (lookup-marked s s' passed "X-Service-Token" refl refl))
        ∙ no_service in
      lookup-undecorated o lib services j marked s'.request d unmarked
        (no_service_accepted marked s'.request d unmarked missing)
      ∙ lookup-marked s s' passed j not_user not_service

  -- Where no service token came along and the request goes on with X-Identity-Status Invalid, every header
  -- by which auth_token tells an application about its user or about the service is absent, whatever the
  -- client sent. OpenStack-System-Scope is none of these here: the client's own goes on.
  pub process_request-unforgeable :
      (s s' : State R)
      → process_request o lib services s ≡ (ok tt, s')
      → is_given (service_token s.request) ≡ false
      → user_token_valid s'.request ≡ ok false
      → All (λ j. lookup j s'.request.headers ≡ none) identity_headers
        × (lookup system_scope_header s'.request.headers
            ≡ lookup system_scope_header s.request.headers)
  process_request-unforgeable s s' e no_service invalid = (
    All-contains {P = λ j. lookup j s'.request.headers ≡ none} identity_headers (λ j listed.
        rw
          (
            lookup-invalid s s' j e no_service invalid (not_among user_status_header j refl listed)
                (not_among service_status_header j refl listed),
            same_names j,
            contains_removed j listed,
          )
          refl),
    lookup-invalid s s' system_scope_header e no_service invalid refl refl,
  )
