-- ===== src/AuthProtocol/Expired.antt =====
-- auth_token/__init__.py: `allow_expired`, which lets a service finish a long-running request of a user
-- whose token has run out meanwhile.
use keystonemiddleware.Base.{
  ◌≡◌, ◌∙◌, sym, ap, String, List, [], ◌∷◌, ◌==◌, eq_iff, Bool, true, false, Option, some, arith,
  any, contains, Any, here, there, Bool-cases, inl, inr,
}
use keystonemiddleware.Exec.{ok}
use keystonemiddleware.Access.{AccessInfo}
use keystonemiddleware.Request.{user_token, is_given, user_token_valid}
use keystonemiddleware.Protocol.Process
use keystonemiddleware.Protocol.Process.{State, role_check_passed}
use keystonemiddleware.Protocol.Process.Service.{IsService, ServiceEnd}
use keystonemiddleware.Protocol.Process.Confirmed.{IsAuthenticated, process_request-IsAuthenticated}
use keystonemiddleware.AuthProtocol.{
  Services, Options, Library, methods, plugin_user, validate_token,
}

validate_token-expired :
    (ref : AccessInfo) (allow_expired : Bool)
    → ref.will_expire_soon ≡ true
    → validate_token ref allow_expired ≡ ok tt
    → allow_expired ≡ true
unfolding validate_token
validate_token-expired ref allow_expired expired valid = ground arith

contains-Any : (names : List String) (j : String) → contains names j ≡ true → Any (λ k. k ≡ j) names
contains-Any [] j e = absurd (ground arith)
contains-Any (k ∷ names) j e = elim (Bool-cases (k == j)) [
  | inl same ↦ here ((eq_iff k j).0 same)
  | inr other ↦ there (contains-Any names j (rw (other) at e))
]

any-contains-Any :
    (names roles : List String)
    → any (contains names) roles ≡ true
    → Any (λ role. Any (λ name. name ≡ role) names) roles
any-contains-Any names [] e = absurd (ground arith)
any-contains-Any names (role ∷ roles) e = elim (Bool-cases (contains names role)) [
  | inl held ↦ here (contains-Any names role held)
  | inr other ↦ there (any-contains-Any names roles (rw (other) at e))
]

module _ {R : Type 0} (o : Options) (lib : Library) (services : Services R) where
  -- A service token was fetched, is not expired, and a role that the settings name is one of its own.
  pub record IsTrusted (s : State R) : Type 0 where
    pub ref : AccessInfo
    pub is_service : IsService o.policy (methods o lib services) s ref
    pub current : ref.will_expire_soon ≡ false
    pub role : Any (λ role. Any (λ name. name ≡ role) ref.role_names) o.policy.service_token_roles

  valid_in_methods :
      (ref : AccessInfo) (allow_expired : Bool)
      → (methods o lib services).validate_token ref allow_expired ≡ ok tt
      → validate_token ref allow_expired ≡ ok tt
  unfolding methods
  valid_in_methods ref allow_expired valid = valid

  validate_token-current :
      (ref : AccessInfo) → validate_token ref false ≡ ok tt → ref.will_expire_soon ≡ false
  unfolding validate_token
  validate_token-current ref valid = ground arith

  role_of :
      (ref : AccessInfo)
      → role_check_passed o.policy (methods o lib services) ref ≡ true
      → Any (λ role. Any (λ name. name ≡ role) ref.role_names) o.policy.service_token_roles
  unfolding role_check_passed
  role_of ref passed = any-contains-Any ref.role_names o.policy.service_token_roles passed

  trusted :
      (s between : State R) {found : Option AccessInfo} {allow_expired : Bool}
      → ServiceEnd o.policy (methods o lib services) s between found allow_expired
      → allow_expired ≡ true
      → IsTrusted s
  trusted s between (ServiceEnd.skipped _ _ no_role) allowed = absurd (ground arith)
  trusted s between (ServiceEnd.refused _ _ no_role) allowed = absurd (ground arith)
  trusted s between (ServiceEnd.accepted {ref} is_service _ _ _ role) allowed = record {
    ref = ref;
    is_service = is_service;
    current = validate_token-current ref (valid_in_methods ref false is_service.valid);
    role = role_of ref (sym role ∙ allowed);
  }

  expired-IsTrusted :
      (s s' : State R) (auth : IsAuthenticated o.policy (methods o lib services) s s')
      → auth.ref.will_expire_soon ≡ true
      → IsTrusted s
  expired-IsTrusted s s' auth expired = trusted s auth.between auth.service_end (
      validate_token-expired auth.ref auth.allow_expired expired
        (valid_in_methods auth.ref auth.allow_expired auth.is_user.valid))

  -- When process_request leaves a user token Confirmed whose AccessInfo has expired, a service token came
  -- along that was fetched, is bound as it should be, has not expired itself and has, among the names of
  -- its roles, one of the configured service roles.
  pub process_request-IsTrusted :
      (s s' : State R) {ref : AccessInfo}
      → Process.process_request o.policy (methods o lib services) s ≡ (ok tt, s')
      → is_given (user_token s.request) ≡ true
      → user_token_valid s'.request ≡ ok true
      → plugin_user o lib services s'.request.token_auth ≡ some ref
      → ref.will_expire_soon ≡ true
      → IsTrusted s
  process_request-IsTrusted s s' {ref} e given confirmed user expired =
      let auth =
        process_request-IsAuthenticated o.policy (methods o lib services) s s' e given confirmed in
      let same : some auth.ref ≡ some ref =
        sym (ap (plugin_user o lib services) auth.plugin) ∙ user in
      expired-IsTrusted s s' auth (ground arith)
