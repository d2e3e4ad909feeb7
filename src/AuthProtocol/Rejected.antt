-- ===== src/AuthProtocol/Rejected.antt =====
-- auth_token/__init__.py: the 401 of AuthProtocol.
use keystonemiddleware.Base.{◌≡◌, refl, ap, ◌∙◌, ◌<>◌, Bool, false, none, [], ◌∷◌, arith}
use keystonemiddleware.Exec.{ok, raise, http_unauthorized}
use keystonemiddleware.Request.{Request, user_token, service_token, is_given}
use keystonemiddleware.Request.Removal.{lookup-remove_auth_headers}
use keystonemiddleware.AuthProtocol.Enforcement.{user_token-set_user_token_valid}
use keystonemiddleware.Protocol.Process
use keystonemiddleware.Protocol.Process.{
  Policy, Methods, State, process_service_token, process_user_token, attach_plugin,
}
use keystonemiddleware.AuthProtocol.{
  Services, Options, Library, methods, prepare, mark_missing, user_status, reject, decide,
  process_request, reject_auth_headers,
}

module _ {R : Type 0} (p : Policy) (m : Methods R) where
  process_service_token-missing :
      (s : State R)
      → is_given (service_token s.request) ≡ false
      → process_service_token p m s ≡ (ok (none, false), s)
  unfolding process_service_token
  process_service_token-missing s missing = ground arith

  process_user_token-missing :
      (s : State R) (allow_expired : Bool)
      → is_given (user_token s.request) ≡ false
      → process_user_token p m allow_expired s ≡ (ok none, s)
  unfolding process_user_token
  process_user_token-missing s allow_expired missing = ground arith

  process_request-missing :
      (s : State R)
      → is_given (service_token s.request) ≡ false
      → is_given (user_token s.request) ≡ false
      → Process.process_request p m s ≡ attach_plugin p m none none s
  unfolding Process.process_request
  process_request-missing s no_service no_user =
      rw (process_service_token-missing s no_service, process_user_token-missing s false no_user)
        refl

module _ {R : Type 0} (o : Options) (lib : Library) (services : Services R) where
  user_token-plugin :
      (t : State R) (a : State R)
      → a.request.headers ≡ t.request.headers
      → user_token a.request ≡ user_token t.request
  unfolding user_token
  user_token-plugin t a same = rw (same) refl

  user_token-prepare :
      (s : State R) → user_token (prepare o lib services s).request ≡ user_token s.request
  unfolding user_token prepare
  user_token-prepare s = simp lookup-remove_auth_headers

  service_token-prepare :
      (s : State R) → service_token (prepare o lib services s).request ≡ service_token s.request
  unfolding service_token prepare
  service_token-prepare s = simp lookup-remove_auth_headers

  missing_user_status :
      (t : State R)
      → is_given (user_token t.request) ≡ false
      → user_status o lib services (mark_missing o lib services t).request ≡ ok false
  unfolding user_status mark_missing
  missing_user_status t missing = ground (arith, user_token-set_user_token_valid false t.request)

  decide-rejected :
      (r : Request)
      → o.delay_auth_decision ≡ false
      → user_status o lib services r ≡ ok false
      → decide o lib services r ≡ (raise (http_unauthorized (reject_auth_headers o)), r)
  unfolding decide reject
  decide-rejected r now status = rw (status, now) refl

  -- Without any token and without a delayed decision process_request raises HTTPUnauthorized, with the
  -- challenge that names the identity service.
  pub process_request-unauthorized :
      (s : State R)
      → o.delay_auth_decision ≡ false
      → is_given (user_token s.request) ≡ false
      → is_given (service_token s.request) ≡ false
      → (process_request o lib services s).0
        ≡ raise (
            http_unauthorized
              (("WWW-Authenticate", "Keystone uri=\"" <> (o.www_authenticate_uri <> "\"")) ∷ []))
  unfolding process_request reject_auth_headers
  process_request-unauthorized s now no_user no_service =
      let ready = prepare o lib services s in
      let after : State R = (attach_plugin o.policy (methods o lib services) none none ready).1 in
      let missing : is_given (user_token after.request) ≡ false =
        ap is_given (user_token-plugin ready after refl ∙ user_token-prepare s) ∙ no_user in
      rw
        (
          process_request-missing o.policy (methods o lib services) ready
              (ap is_given (service_token-prepare s) ∙ no_service)
              (ap is_given (user_token-prepare s) ∙ no_user),
          decide-rejected (mark_missing o lib services after).request now
              (missing_user_status after missing),
        )
        refl
