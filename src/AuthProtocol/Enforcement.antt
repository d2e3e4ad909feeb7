-- ===== src/AuthProtocol/Enforcement.antt =====
-- auth_token/__init__.py: whom AuthProtocol's `process_request` lets through.
use keystonemiddleware.Base.{
  ◌≡◌, sym, ap, ◌∙◌, inl, inr, Bool, true, false, Bool-cases, arith, lookup-insert,
}
use keystonemiddleware.Exec.{ok}
use keystonemiddleware.Request.{
  Request, user_token, is_given, user_token_valid, set_user_token_valid,
}
use keystonemiddleware.Protocol.Process.{State}
use keystonemiddleware.Protocol.Process.Confirmed.{IsAuthenticated, process_request-IsAuthenticated}
use keystonemiddleware.Protocol.Process.Frame.{user_token-process_request}
use keystonemiddleware.AuthProtocol.{
  Services, Options, Library, methods, prepare, mark_missing, user_status, service_status,
  process_request,
}
use keystonemiddleware.AuthProtocol.Outcome.{IsPassed, process_request-IsPassed}

pub user_token-set_user_token_valid :
    (b : Bool) (r : Request) → user_token (set_user_token_valid b r) ≡ user_token r
unfolding user_token set_user_token_valid
user_token-set_user_token_valid b r = simp lookup-insert

module _ {R : Type 0} (o : Options) (lib : Library) (services : Services R) where
  pub user_status-true :
      (t : State R)
      → user_status o lib services (mark_missing o lib services t).request ≡ ok true
      → (is_given (user_token t.request) ≡ true)
        × (user_token_valid t.request ≡ ok true)
        × (mark_missing o lib services t ≡ t)
  unfolding user_status mark_missing
  user_status-true t e = elim (Bool-cases (is_given (user_token t.request))) [
    | inl given ↦ (given, ground arith, ground arith)
    | inr missing ↦ absurd (ground (arith, user_token-set_user_token_valid false t.request))
  ]

  -- A request whose user token counts as valid after process_request is authenticated.
  pub IsPassed-IsAuthenticated :
      (s s' : State R) (passed : IsPassed o lib services s s')
      → passed.user ≡ true
      → IsAuthenticated o.policy (methods o lib services) (prepare o lib services s) passed.after
  IsPassed-IsAuthenticated s s' passed valid =
      let (given, confirmed, _) = user_status-true passed.after (passed.user_is ∙ ap ok valid) in
      process_request-IsAuthenticated o.policy (methods o lib services) (prepare o lib services s)
        passed.after passed.based
        (ap is_given (
            sym (
              user_token-process_request o.policy (methods o lib services)
                (prepare o lib services s) passed.after passed.based))
          ∙ given)
        confirmed

  -- Where the decision is not delayed, process_request lets only authenticated requests through: the
  -- user token was fetched and passed every check, and X-Service-Identity-Status is Confirmed or absent.
  pub process_request-enforced :
      (s s' : State R)
      → o.delay_auth_decision ≡ false
      → process_request o lib services s ≡ (ok tt, s')
      → (passed : IsPassed o lib services s s') × IsAuthenticated o.policy
          (methods o lib services)
          (prepare o lib services s)
          passed.after
        × (service_status o lib services passed.after.request ≡ true)
  process_request-enforced s s' now e =
      let passed = process_request-IsPassed o lib services s s' e in
      let marked = mark_missing o lib services passed.after in
      let valid : passed.user ≡ true = ground (arith, passed.let_through) in
      let service : service_status o lib services marked.request ≡ true =
        ground (arith, passed.let_through) in
      let (_, _, same) = user_status-true passed.after (passed.user_is ∙ ap ok valid) in
      (passed, IsPassed-IsAuthenticated s s' passed valid, rw (same) at service)
