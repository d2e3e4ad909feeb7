-- ===== src/AuthProtocol/Call.antt =====
-- auth_token/__init__.py: `__call__` of BaseAuthProtocol on an AuthProtocol, with the application
-- below it, whose world is its own. The exceptions go to webob's decorator.
use keystonemiddleware.Base.{◌≡◌, refl, sym, ap, ◌∙◌, ◌⊎◌, inl, inr, true, false}
use keystonemiddleware.Exec.{Exception, Result, Exec, ok, raise, then_result}
use keystonemiddleware.Request.{Request}
use keystonemiddleware.Protocol.Process.{State}
use keystonemiddleware.Protocol.Process.Confirmed.{IsAuthenticated}
use keystonemiddleware.AuthProtocol.{
  Services, Options, Library, Response, methods, prepare, service_status, process_request,
  process_response,
}
use keystonemiddleware.AuthProtocol.Outcome.{IsPassed}
use keystonemiddleware.AuthProtocol.Enforcement.{process_request-enforced}

module _ {R W : Type 0} (o : Options) (lib : Library) (services : Services R)
    (application : Request → Exec W Response) where
  -- `self.process_response(req.get_response(self._app))`
  abbrev pub respond : Result Response → Result Response
  respond r = then_result r (λ response. ok (process_response o response))

  unfoldable pub run_application : W → Result (Unit {0}) × State R → Result Response × (State R × W)
  run_application w (ok _, s) = let (r, w') = application s.request w in (respond r, (s, w'))
  run_application w (raise e, s) = (raise e, (s, w))

  unfoldable pub call : Exec (State R × W) Response
  unfolding run_application
  call (s, w) = run_application w (process_request o lib services s)

  -- The application ran on the request that is left, which carries a confirmed user token.
  pub record IsServed (s : State R) (w : W) (out : Result Response) (s' : State R) (w' : W)
      : Type 0 where
    pub passed : IsPassed o lib services s s'
    pub authenticated :
        IsAuthenticated o.policy (methods o lib services) (prepare o lib services s) passed.after
    pub service : service_status o lib services passed.after.request ≡ true
    pub answer : out ≡ respond (application s'.request w).0
    pub world : w' ≡ (application s'.request w).1

  run_application-cases :
      (w : W) (x : Result (Unit {0}) × State R)
      → ((e : Exception) × (run_application w x ≡ (raise e, (x.1, w))))
        ⊎ ((x.0 ≡ ok tt)
            × (run_application w x
                ≡ (respond (application x.1.request w).0, (x.1, (application x.1.request w).1))))
  unfolding run_application
  run_application-cases w (ok _, s) = inr (refl, refl)
  run_application-cases w (raise e, s) = inl (e, refl)

  -- Where the decision is not delayed, the application below runs only on an authenticated request,
  -- and otherwise the middleware raises and the application's world stays as it is.
  pub call-IsServed :
      (s s' : State R) (w w' : W) (out : Result Response)
      → o.delay_auth_decision ≡ false
      → call (s, w) ≡ (out, (s', w'))
      → IsServed s w out s' w' ⊎ (((e : Exception) × (out ≡ raise e)) × (w' ≡ w))
  unfolding call
  call-IsServed s s' w w' out now e =
      elim (run_application-cases w (process_request o lib services s)) [
        | inl (x, raised) ↦
            let same = sym raised ∙ e in
            inr ((x, sym (ap (λ r. r.0) same)), sym (ap (λ r. r.1.1) same))
        | inr (fine, served) ↦
            let same = sym served ∙ e in
            let state : (process_request o lib services s).1 ≡ s' = ap (λ r. r.1.0) same in
            let there : process_request o lib services s ≡ (ok tt, s') =
              ap (λ r. (r, (process_request o lib services s).1)) fine
              ∙ ap (λ t. (ok tt, t)) state in
            let (passed, authenticated, service) =
              process_request-enforced o lib services s s' now there in
            inl (record {
              passed = passed;
              authenticated = authenticated;
              service = service;
              answer =
                  sym (ap (λ r. r.0) same) ∙ ap (λ t. respond (application t.request w).0) state;
              world = sym (ap (λ r. r.1.1) same) ∙ ap (λ t. (application t.request w).1) state;
            })
      ]
