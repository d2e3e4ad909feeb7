-- ===== src/Protocol/Process/Frame.antt =====
-- auth_token/__init__.py: the headers that BaseAuthProtocol's `process_request` leaves alone.
use keystonemiddleware.Base.{
  ◌≡◌, refl, ap, ◌∙◌, String, Bool, false, Option, ◌==◌, lookup, lookup-insert,
}
use keystonemiddleware.Exec.{ok}
use keystonemiddleware.Access.{AccessInfo}
use keystonemiddleware.Request.AuthHeaders.{user_status_header, service_status_header}
use keystonemiddleware.Request.{Request, user_token, set_user_token_valid, set_service_token_valid}
use keystonemiddleware.Protocol.Process.{Policy, Methods, State, accept_user, process_request}
use keystonemiddleware.Protocol.Process.Service.{ServiceEnd}
use keystonemiddleware.Protocol.Process.User.{UserEnd}
use keystonemiddleware.Protocol.Process.Confirmed.{process_request-IsRun}

pub lookup-set_user_token_valid :
    (j : String) (b : Bool) (r : Request)
    → (user_status_header == j) ≡ false
    → lookup j (set_user_token_valid b r).headers ≡ lookup j r.headers
unfolding set_user_token_valid
lookup-set_user_token_valid j b r other = rw (lookup-insert, other) refl

lookup-set_service_token_valid :
    (j : String) (b : Bool) (r : Request)
    → (service_status_header == j) ≡ false
    → lookup j (set_service_token_valid b r).headers ≡ lookup j r.headers
unfolding set_service_token_valid
lookup-set_service_token_valid j b r other = rw (lookup-insert, other) refl

module _ {R : Type 0} (p : Policy) (m : Methods R) (j : String)
    (not_user : (user_status_header == j) ≡ false)
    (not_service : (service_status_header == j) ≡ false) where
  lookup-ServiceEnd :
      (s s' : State R) {found : Option AccessInfo} {allow_expired : Bool}
      → ServiceEnd p m s s' found allow_expired
      → lookup j s'.request.headers ≡ lookup j s.request.headers
  lookup-ServiceEnd s s' (ServiceEnd.skipped _ same _) = ap (λ t. lookup j t.request.headers) same
  lookup-ServiceEnd s s' (ServiceEnd.refused _ same _) =
      ap (λ r. lookup j r.headers) same ∙ lookup-set_service_token_valid j _ s.request not_service
  lookup-ServiceEnd s s' (ServiceEnd.accepted _ _ same _ _) =
      ap (λ r. lookup j r.headers) same ∙ lookup-set_service_token_valid j _ s.request not_service

  lookup-UserEnd :
      (s s' : State R) (allow_expired : Bool) {found : Option AccessInfo}
      → UserEnd p m s s' allow_expired found
      → lookup j s'.request.headers ≡ lookup j s.request.headers
  unfolding accept_user
  lookup-UserEnd s s' allow_expired (UserEnd.skipped _ same _) =
      ap (λ t. lookup j t.request.headers) same
  lookup-UserEnd s s' allow_expired (UserEnd.refused _ same) =
      ap (λ r. lookup j r.headers) same ∙ lookup-set_user_token_valid j _ s.request not_user
  lookup-UserEnd s s' allow_expired (UserEnd.accepted _ same _) =
      ap (λ r. lookup j r.headers) same ∙ lookup-set_user_token_valid j _ s.request not_user

  -- process_request changes no header but the two status headers.
  pub lookup-process_request :
      (s s' : State R)
      → process_request p m s ≡ (ok tt, s')
      → lookup j s'.request.headers ≡ lookup j s.request.headers
  lookup-process_request s s' e =
      let run = process_request-IsRun p m s s' e in
      ap (λ t. lookup j t.request.headers) run.result
      ∙ lookup-UserEnd run.between run.behind run.allow_expired run.user_end
      ∙ lookup-ServiceEnd s run.between run.service_end

pub user_token-process_request :
    {R : Type 0} (p : Policy) (m : Methods R) (s s' : State R)
    → process_request p m s ≡ (ok tt, s')
    → user_token s'.request ≡ user_token s.request
unfolding user_token
user_token-process_request p m s s' e =
    rw
      (
        lookup-process_request p m "X-Auth-Token" refl refl s s' e,
        lookup-process_request p m "X-Storage-Token" refl refl s s' e,
      )
      refl
