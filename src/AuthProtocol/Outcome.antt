-- ===== src/AuthProtocol/Outcome.antt =====
-- auth_token/__init__.py: the steps of AuthProtocol's `process_request`, and whom it lets through.
use keystonemiddleware.Base.{◌≡◌, ap, ◌⊎◌, Bool, true, ◌&&◌, arith}
use keystonemiddleware.Exec.{ok, continue-eq-ok}
use keystonemiddleware.Request.{Request}
use keystonemiddleware.Protocol.Process
use keystonemiddleware.Protocol.Process.{State}
use keystonemiddleware.AuthProtocol.{
  Services, Options, Library, methods, prepare, mark_missing, user_status, service_status, reject,
  decide, decorate, process_request,
}

module _ {R : Type 0} (o : Options) (lib : Library) (services : Services R) where
  -- A run that does not raise: the base class's work, the decision and the headers.
  pub record IsPassed (s s' : State R) : Type 0 where
    pub after : State R
    pub based :
        Process.process_request o.policy (methods o lib services) (prepare o lib services s)
        ≡ (ok tt, after)
    pub user : Bool
    pub user_is : user_status o lib services (mark_missing o lib services after).request ≡ ok user
    pub let_through :
        ((user && service_status o lib services (mark_missing o lib services after).request) ≡ true)
        ⊎ (o.delay_auth_decision ≡ true)
    pub decorated :
        decorate o lib services (mark_missing o lib services after).request ≡ (ok tt, s'.request)

  decide-passed :
      (r : Request) {r' : Request}
      → decide o lib services r ≡ (ok tt, r')
      → (user : Bool) × (user_status o lib services r ≡ ok user)
        × (((user && service_status o lib services r) ≡ true) ⊎ (o.delay_auth_decision ≡ true))
        × (r' ≡ r)
  unfolding decide reject
  decide-passed r e =
      let (user, t, user_is, e') = continue-eq-ok (user_status o lib services r, r) _ e in
      (user, ap (λ x. x.0) user_is, ground arith, ground arith)

  pub process_request-IsPassed :
      (s s' : State R) → process_request o lib services s ≡ (ok tt, s') → IsPassed s s'
  unfolding process_request
  process_request-IsPassed s s' e =
      let (_, marked, first, e') = continue-eq-ok _ _ e in
      let (_, after, based, mark) =
        continue-eq-ok
          (Process.process_request o.policy (methods o lib services) (prepare o lib services s)) _
          first in
      let same : mark_missing o lib services after ≡ marked = ap (λ x. x.1) mark in
      let (_, decided, chosen, decorated) =
        continue-eq-ok (decide o lib services marked.request) _ (ap (λ x. (x.0, x.1.request)) e') in
      let (user, user_is, let_through, kept) = decide-passed marked.request chosen in
      record {
        after = after;
        based = based;
        user = user;
        user_is = rw (same) user_is;
        let_through = rw (same) let_through;
        decorated = rw (same, ← kept) decorated;
      }
