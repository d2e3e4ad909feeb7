-- ===== src/Protocol/Process.antt =====
-- auth_token/__init__.py: BaseAuthProtocol's `process_request`, with `_do_fetch_token` and
-- `_validate_token`. The methods that a subclass overrides come as an argument.
pub mod Service
pub mod User
pub mod Confirmed
pub mod Frame
use keystonemiddleware.Base.{
  String, Bool, true, false, not, Option, none, some, List, ◌==◌, ◌&&◌, any, contains, strip,
  if◌then◌else◌,
}
use keystonemiddleware.Exec.{
  Exception, Result, Exec, ok, raise, invalid_token, then_result, pure, ◌>>=◌,
}
use keystonemiddleware.Json.{Json, index}
use keystonemiddleware.Access.{AccessInfo}
use keystonemiddleware.UserPlugin.{UserAuthPlugin}
use keystonemiddleware.Request.{
  Request, user_token, service_token, is_given, set_user_token_valid, set_service_token_valid,
}
use keystonemiddleware.Protocol.Bind.{confirm_token_bind}
use keystonemiddleware.Protocol.Rules.{validate_allowed_request}

-- The attributes that `__init__` sets and nothing changes.
pub record Policy : Type 0 where
  pub enforce_token_bind : String
  pub service_token_roles : List String
  pub service_token_roles_required : Bool
  -- what `validate_allowed_request` reads for `my_service_type`, where it needs it
  pub service_type : Result (Option String)

-- The methods that a subclass overrides (`fetch_token` changes a store of its own), keystoneauth1's
-- `access.create` (none where it raises) and the interpreter's `re.match`.
pub record Methods (R : Type 0) : Type 0 where
  pub fetch_token : String → Bool → Exec R Json
  pub validate_token : AccessInfo → Bool → Result (Unit {0})
  pub create : Json → String → Option AccessInfo
  pub re_match : String → String → Result Bool

-- The state during a request.
pub record State (R : Type 0) : Type 0 where
  pub request : Request
  pub warning_emitted : Bool
  pub store : R

-- BaseAuthProtocol's own `_validate_token`
unfoldable pub base_validate_token : AccessInfo → Bool → Result (Unit {0})
base_validate_token ref allow_expired =
    if not allow_expired && ref.will_expire_soon then raise invalid_token else ok tt

-- `except InvalidToken` takes the exception.
unfoldable pub is_invalid : Exception → Bool
is_invalid invalid_token = true
is_invalid _ = false

-- How the `try` block around a token ends: the token could not be fetched, or it was, and the checks
-- behind it passed or raised.
pub data Attempt : Type 0 where
  not_fetched : Exception → Attempt
  fetched : Json → AccessInfo → Result (Unit {0}) → Attempt

module _ {R : Type 0} (m : Methods R) where
  abbrev pub created : Json → Option AccessInfo → Exec R (Json × AccessInfo)
  created body none s = (raise invalid_token, s)
  created body (some ref) s = (ok (body, ref), s)

  unfoldable pub do_fetch_token : String → Bool → Exec R (Json × AccessInfo)
  do_fetch_token token allow_expired = m.fetch_token (strip token) allow_expired >>= λ body.
      created body (m.create body (strip token))

  abbrev pub checked :
      (Json → AccessInfo → Result (Unit {0})) → Result (Json × AccessInfo) × R → Attempt × R
  checked check (raise e, store) = (not_fetched e, store)
  checked check (ok (body, ref), store) = (fetched body ref (check body ref), store)

  unfoldable pub attempt : String → Bool → (Json → AccessInfo → Result (Unit {0})) → R → Attempt × R
  attempt token allow_expired check store = checked check (do_fetch_token token allow_expired store)

-- What `process_request` has at hand behind a token's block: the token's AccessInfo, and the flag
-- `allow_expired`.
abbrev pub Found : Type 0
Found = Option AccessInfo × Bool

module _ {R : Type 0} (p : Policy) (m : Methods R) where
  -- `bool(self._service_token_roles.intersection(role_names))`
  unfoldable pub role_check_passed : AccessInfo → Bool
  role_check_passed ref = any (contains ref.role_names) p.service_token_roles

  -- The checks of the service token's `try` block.
  unfoldable pub check_service : Request → Json → AccessInfo → Result (Unit {0})
  check_service req body ref =
      then_result (m.validate_token ref false)
        (λ _. confirm_token_bind p.enforce_token_bind ref.bind req)

  -- The handler behind the service token's block.
  unfoldable pub fail_service : State R → Option AccessInfo → Exception → Result Found × State R
  unfolding is_invalid
  fail_service s ref e =
      if is_invalid e
      then (ok (ref, false), record s { request = set_service_token_valid false s.request })
      else (raise e, s)

  -- The `else` branch of the service token's block.
  unfoldable pub accept_service : State R → AccessInfo → State R
  unfolding role_check_passed
  accept_service s ref = record s {
    request =
        set_service_token_valid
          (if p.service_token_roles_required then role_check_passed ref else true) s.request;
    warning_emitted = (if p.service_token_roles_required then s.warning_emitted else true);
  }

  unfoldable pub end_service : State R → Attempt → Result Found × State R
  unfolding fail_service accept_service
  end_service s (not_fetched e) = fail_service s none e
  end_service s (fetched body ref (raise e)) = fail_service s (some ref) e
  end_service s (fetched body ref (ok _)) =
      (ok (some ref, role_check_passed ref), accept_service s ref)

  -- `if request.service_token:`
  unfoldable pub process_service_token : Exec (State R) Found
  unfolding end_service attempt check_service
  process_service_token s = elim (service_token s.request) [
    | none ↦ (ok (none, false), s)
    | some token ↦
        let (a, store') = attempt m token false (check_service s.request) s.store in
        if token == "" then (ok (none, false), s) else end_service (record s { store = store' }) a
  ]

  abbrev pub check_rules : Request → Json → AccessInfo → Result (Unit {0})
  check_rules req body ref =
      if ref.version == "v2.0"
      then ok tt
      else then_result (index body "token") (validate_allowed_request m.re_match p.service_type req)

  -- The checks of the user token's `try` block.
  unfoldable pub check_user : Bool → Request → Json → AccessInfo → Result (Unit {0})
  check_user allow_expired req body ref = then_result (m.validate_token ref allow_expired) λ _.
      then_result (check_rules req body ref) λ _.
        if is_given (service_token req)
        then ok tt
        else confirm_token_bind p.enforce_token_bind ref.bind req

  unfoldable pub fail_user :
      State R → Option AccessInfo → Exception → Result (Option AccessInfo) × State R
  unfolding is_invalid
  fail_user s ref e =
      if is_invalid e
      then (ok ref, record s { request = set_user_token_valid false s.request })
      else (raise e, s)

  unfoldable pub accept_user : State R → Json → State R
  accept_user s body =
      let valid = set_user_token_valid true s.request in
      record s { request = record valid { token_info = some body } }

  unfoldable pub end_user : State R → Attempt → Result (Option AccessInfo) × State R
  unfolding fail_user accept_user
  end_user s (not_fetched e) = fail_user s none e
  end_user s (fetched body ref (raise e)) = fail_user s (some ref) e
  end_user s (fetched body ref (ok _)) = (ok (some ref), accept_user s body)

  -- `if request.user_token:`
  unfoldable pub process_user_token : Bool → Exec (State R) (Option AccessInfo)
  unfolding end_user attempt check_user
  process_user_token allow_expired s = elim (user_token s.request) [
    | none ↦ (ok none, s)
    | some token ↦
        let (a, store') =
          attempt m token allow_expired (check_user allow_expired s.request) s.store in
        if token == "" then (ok none, s) else end_user (record s { store = store' }) a
  ]

  abbrev pub attach_plugin : Option AccessInfo → Option AccessInfo → Exec (State R) (Unit {0})
  attach_plugin user service s = (
    ok tt,
    record s {
      request = record s.request {
        token_auth = some (record { user = user; service = service; has_session = false });
      };
    },
  )

  unfoldable pub process_request : Exec (State R) (Unit {0})
  unfolding process_service_token process_user_token
  process_request = do
    (service, allow_expired) ← process_service_token
    user ← process_user_token allow_expired
    attach_plugin user service
