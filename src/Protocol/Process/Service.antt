-- ===== src/Protocol/Process/Service.antt =====
-- auth_token/__init__.py: how `process_request` ends with the service token.
use keystonemiddleware.Base.{
  ◌≡◌, refl, sym, ◌∙◌, ap, String, Bool, true, false, Option, none, some, strip, ◌==◌,
  if◌then◌else◌, arith, Bool-cases, Option-cases, inl, inr,
}
use keystonemiddleware.Exec.{Result, ok, raise, continue, then_result-eq-ok}
use keystonemiddleware.Json.{Json}
use keystonemiddleware.Access.{AccessInfo}
use keystonemiddleware.Request.{Request, service_token, is_given, set_service_token_valid}
use keystonemiddleware.Protocol.Bind.{confirm_token_bind}
use keystonemiddleware.Protocol.Process.{
  Policy, Methods, State, Attempt, not_fetched, fetched, created, checked, do_fetch_token, attempt,
  role_check_passed, check_service, fail_service, accept_service, end_service,
  process_service_token,
}

module _ {R : Type 0} (m : Methods R) where
  -- The token's data was fetched, and describes this AccessInfo.
  pub record IsFetched (token : String) (allow_expired : Bool) (store store' : R) (body : Json)
      (ref : AccessInfo) : Type 0 where
    pub fetched_body : m.fetch_token (strip token) allow_expired store ≡ (ok body, store')
    pub described : m.create body (strip token) ≡ some ref

  checked-fetched :
      (check : Json → AccessInfo → Result (Unit {0})) (x : Result (Json × AccessInfo) × R)
      {body : Json} {ref : AccessInfo} {out : Result (Unit {0})} {store' : R}
      → checked m check x ≡ (fetched body ref out, store')
      → (x ≡ (ok (body, ref), store')) × (check body ref ≡ out)
  checked-fetched check (ok (b, r), store) e = ground arith
  checked-fetched check (raise x, store) e = ground arith

  created-ok :
      (found : Option AccessInfo) (b : Json) (store : R) {body : Json} {ref : AccessInfo}
      {store' : R}
      → created m b found store ≡ (ok (body, ref), store')
      → (store ≡ store') × (found ≡ some ref) × (b ≡ body)
  created-ok none b store e = ground arith
  created-ok (some r) b store e = ground arith

  continue-created :
      (token : String) (y : Result Json × R) {body : Json} {ref : AccessInfo} {store' : R}
      → continue y (λ b. created m b (m.create b token)) ≡ (ok (body, ref), store')
      → (y ≡ (ok body, store')) × (m.create body token ≡ some ref)
  continue-created token (ok b, store) e =
      let (same, found, eq) = created-ok (m.create b token) b store e in
      (ground arith, ap (λ x. m.create x token) (sym eq) ∙ found)
  continue-created token (raise x, store) e = ground arith

  -- The `try` block fetched the token, and passed its checks or raised.
  pub attempt-fetched :
      (token : String) (allow_expired : Bool) (check : Json → AccessInfo → Result (Unit {0}))
      (store : R) {body : Json} {ref : AccessInfo} {out : Result (Unit {0})} {store' : R}
      → attempt m token allow_expired check store ≡ (fetched body ref out, store')
      → IsFetched token allow_expired store store' body ref × (check body ref ≡ out)
  unfolding attempt do_fetch_token
  attempt-fetched token allow_expired check store e =
      let (fetch, checks) = checked-fetched check _ e in
      let (body_there, described) = continue-created (strip token) _ fetch in
      (record { fetched_body = body_there; described = described }, checks)

module _ {R : Type 0} (p : Policy) (m : Methods R) where
  -- The request's service token was fetched and passed every check.
  pub record IsService (s : State R) (ref : AccessInfo) : Type 0 where
    pub token : String
    pub given : service_token s.request ≡ some token
    pub body : Json
    pub store' : R
    pub is_fetched : IsFetched m token false s.store store' body ref
    pub valid : m.validate_token ref false ≡ ok tt
    pub bound : confirm_token_bind p.enforce_token_bind ref.bind s.request ≡ ok tt

  -- How the service token's block ends if it does not raise.
  pub data ServiceEnd (s s' : State R) (found : Option AccessInfo) (allow_expired : Bool)
      : Type 0 where
    skipped :
        is_given (service_token s.request) ≡ false
        → s' ≡ s
        → allow_expired ≡ false
        → ServiceEnd s s' found allow_expired
    refused :
        is_given (service_token s.request) ≡ true
        → s'.request ≡ set_service_token_valid false s.request
        → allow_expired ≡ false
        → ServiceEnd s s' found allow_expired
    accepted :
        {ref : AccessInfo}
        → IsService s ref
        → is_given (service_token s.request) ≡ true
        → s'.request
          ≡ set_service_token_valid
              (if p.service_token_roles_required then role_check_passed p m ref else true)
              s.request
        → found ≡ some ref
        → allow_expired ≡ role_check_passed p m ref
        → ServiceEnd s s' found allow_expired

  check_service-ok :
      (req : Request) (body : Json) (ref : AccessInfo) {u : Unit {0}}
      → check_service p m req body ref ≡ ok u
      → (m.validate_token ref false ≡ ok tt)
        × (confirm_token_bind p.enforce_token_bind ref.bind req ≡ ok tt)
  unfolding check_service
  check_service-ok req body ref e =
      let (_, valid, bound) = then_result-eq-ok (m.validate_token ref false) _ e in (valid, bound)

  end_service-ServiceEnd :
      (s s' : State R) (token : String) (a : Attempt) (store' : R) {found : Option AccessInfo}
      {allow_expired : Bool}
      → service_token s.request ≡ some token
      → (token == "") ≡ false
      → attempt m token false (check_service p m s.request) s.store ≡ (a, store')
      → end_service p m (record s { store = store' }) a ≡ (ok (found, allow_expired), s')
      → ServiceEnd s s' found allow_expired
  unfolding end_service fail_service accept_service
  end_service-ServiceEnd s s' token (not_fetched x) store' given nonempty e h =
      refused (ground arith) (ground arith) (ground arith)
  end_service-ServiceEnd s s' token (fetched body ref (raise x)) store' given nonempty e h =
      refused (ground arith) (ground arith) (ground arith)
  end_service-ServiceEnd s s' token (fetched body ref (ok u)) store' given nonempty e h =
      let (is_fetched, checks) = attempt-fetched m token false _ s.store e in
      let (valid, bound) = check_service-ok s.request body ref checks in
      accepted
        (record {
          token = token;
          given = given;
          body = body;
          store' = store';
          is_fetched = is_fetched;
          valid = valid;
          bound = bound;
        })
        (ground arith) (ground arith) (ground arith) (ground arith)

  pub process_service_token-ServiceEnd :
      (s s' : State R) {found : Option AccessInfo} {allow_expired : Bool}
      → process_service_token p m s ≡ (ok (found, allow_expired), s')
      → ServiceEnd s s' found allow_expired
  unfolding process_service_token
  process_service_token-ServiceEnd s s' h = elim (Option-cases (service_token s.request)) [
    | inl no_token ↦ skipped (ground arith) (ground arith) (ground arith)
    | inr (token, given) ↦ elim (Bool-cases (token == "")) [
      | inl empty ↦ skipped (ground arith) (ground arith) (ground arith)
      | inr nonempty ↦
          end_service-ServiceEnd s s' token _ _ given nonempty refl
            (rw (nonempty) at (rw (given, process_service_token) at h))
    ]
  ]
