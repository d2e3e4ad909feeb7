-- ===== src/AuthProtocol.antt =====
-- auth_token/__init__.py: AuthProtocol, the middleware that a service puts in front of its application.
pub mod Retrieval
pub mod Fetch
pub mod Outcome
pub mod Enforcement
pub mod Decorated
pub mod Forwarded
pub mod Forged
pub mod Rejected
pub mod Expired
pub mod Call
pub mod Setup
pub mod Filter
pub mod Assembled
unfoldable pub use Retrieval.*
use keystonemiddleware.Base.{
  ℕ, String, ◌<>◌, Bool, true, false, not, Option, none, some, List, [], ◌∷◌, ◌++◌, ◌==◌, ◌&&◌,
  ◌||◌, nat_eq, if◌then◌else◌,
}
use keystonemiddleware.Exec.{
  Result, Exec, ok, raise, invalid_token, http_unauthorized, attribute_error, then_result, ◌>>=◌,
}
use keystonemiddleware.Json.{Json}
use keystonemiddleware.Access.{AccessInfo}
use keystonemiddleware.UserPlugin.{UserAuthPlugin}
use keystonemiddleware.Request.AuthHeaders.{
  remove_auth_headers, set_user_headers, set_service_headers, confirmed, service_status_header,
}
use keystonemiddleware.Request.{
  Request, user_token, service_token, is_given, text_is, user_token_valid, set_user_token_valid,
  service_token_valid, set_service_catalog_headers, on_headers,
}
use keystonemiddleware.Base.{lookup}
use keystonemiddleware.Protocol.Process
use keystonemiddleware.Protocol.Process.{Policy, Methods, State, base_validate_token}

pub record Options : Type 0 where
  pub policy : Policy
  pub delay_auth_decision : Bool
  pub include_service_catalog : Bool
  pub www_authenticate_uri : String

-- keystoneauth1's `access.create`, the interpreter's `re.match` and jsonutils.dumps
pub record Library : Type 0 where
  pub create : Json → String → Option AccessInfo
  pub re_match : String → String → Result Bool
  pub dumps : Json → String

-- `_validate_token`: the base class's checks, and a project for a v2.0 token
unfoldable pub validate_token : AccessInfo → Bool → Result (Unit {0})
unfolding base_validate_token
validate_token ref allow_expired = then_result (base_validate_token ref allow_expired) λ _.
    if ref.version == "v2.0" && not (is_given ref.project_id) then raise invalid_token else ok tt

-- `_reject_auth_headers`
unfoldable pub reject_auth_headers : Options → List (String × String)
reject_auth_headers o =
    ("WWW-Authenticate", "Keystone uri=\"" <> (o.www_authenticate_uri <> "\"")) ∷ []

pub record Response : Type 0 where
  pub status_int : ℕ
  pub response_headers : List (String × String)

unfoldable pub process_response : Options → Response → Response
unfolding reject_auth_headers
process_response o response =
    if nat_eq response.status_int 401
    then record response { response_headers = response.response_headers ++ reject_auth_headers o }
    else response

module _ {R : Type 0} (o : Options) (lib : Library) (services : Services R) where
  -- AuthProtocol as the base class sees it.
  unfoldable pub methods : Methods R
  methods = record {
    fetch_token = fetch_token services o.delay_auth_decision;
    validate_token = validate_token;
    create = lib.create;
    re_match = lib.re_match;
  }

  abbrev pub on_request : Exec Request (Unit {0}) → Exec (State R) (Unit {0})
  on_request m s = let (out, r) = m s.request in (out, record s { request = r })

  -- `remove_auth_headers`, and the cache's initialisation
  unfoldable pub prepare : State R → State R
  unfolding remove_auth_headers
  prepare s = record s {
    request = record s.request { headers = remove_auth_headers s.request.headers };
    store = services.initialize s.request.environ_caches s.store;
  }

  -- A request without a user token is marked as invalid.
  unfoldable pub mark_missing : State R → State R
  mark_missing s =
      if is_given (user_token s.request)
      then s
      else record s { request = set_user_token_valid false s.request }

  -- `request.user_token and request.user_token_valid`
  unfoldable pub user_status : Request → Result Bool
  user_status r = if is_given (user_token r) then user_token_valid r else ok false

  abbrev status_or_confirmed : Option (Option String) → Bool
  status_or_confirmed none = true
  status_or_confirmed (some v) = text_is v confirmed

  -- `request.headers.get('X-Service-Identity-Status', 'Confirmed') == 'Confirmed'`
  unfoldable pub service_status : Request → Bool
  service_status r = status_or_confirmed (lookup service_status_header r.headers)

  unfoldable pub reject : Bool → Result (Unit {0})
  unfolding reject_auth_headers
  reject accepted =
      if accepted || o.delay_auth_decision
      then ok tt
      else raise (http_unauthorized (reject_auth_headers o))

  abbrev pub plugin_user : Option UserAuthPlugin → Option AccessInfo
  plugin_user none = none
  plugin_user (some p) = p.user

  abbrev pub plugin_service : Option UserAuthPlugin → Option AccessInfo
  plugin_service none = none
  plugin_service (some p) = p.service

  -- A method of the request that reads the AccessInfo it is given.
  abbrev pub with_ref :
      Option AccessInfo → (AccessInfo → Exec Request (Unit {0})) → Exec Request (Unit {0})
  with_ref none f r = (raise attribute_error, r)
  with_ref (some ref) f r = f ref r

  -- `if request.user_token_valid:`
  unfoldable pub add_user_headers : Bool → Exec Request (Unit {0})
  unfolding set_user_headers
  add_user_headers valid r =
      if valid
      then with_ref (plugin_user r.token_auth) (λ ref. on_headers (set_user_headers ref)) r
      else (ok tt, r)

  -- `if self._include_service_catalog:`, under the same test
  unfoldable pub add_catalog_header : Bool → Exec Request (Unit {0})
  unfolding set_service_catalog_headers
  add_catalog_header valid r =
      if valid && o.include_service_catalog
      then with_ref (plugin_user r.token_auth)
          (λ ref. on_headers (set_service_catalog_headers lib.dumps ref)) r
      else (ok tt, r)

  abbrev with_session : Option UserAuthPlugin → Option UserAuthPlugin
  with_session none = none
  with_session (some p) = some (record p { has_session = true })

  -- `if request.token_auth:`
  unfoldable pub attach_session : Request → Request
  attach_session r = record r { token_auth = with_session r.token_auth }

  -- `request.service_token and request.service_token_valid`
  unfoldable pub service_accepted : Request → Result Bool
  service_accepted r = if is_given (service_token r) then service_token_valid r else ok false

  unfoldable pub add_service_headers : Bool → Exec Request (Unit {0})
  unfolding set_service_headers
  add_service_headers valid r =
      if valid
      then with_ref (plugin_service r.token_auth)
          (λ ref. on_headers (λ h. (ok tt, set_service_headers ref h))) r
      else (ok tt, r)

  -- The headers and the plugin of a request that goes on.
  unfoldable pub decorate : Exec Request (Unit {0})
  unfolding add_user_headers add_catalog_header attach_session add_service_headers service_accepted
  decorate = do
    valid ← (λ r. (user_token_valid r, r))
    _ ← add_user_headers valid
    _ ← add_catalog_header valid
    _ ← (λ r. (ok tt, attach_session r))
    accepted ← (λ r. (service_accepted r, r))
    add_service_headers accepted

  -- The decision on a request whose tokens were looked at.
  unfoldable pub decide : Exec Request (Unit {0})
  unfolding user_status service_status reject
  decide = do user ← (λ r. (user_status r, r)); (λ r. (reject (user && service_status r), r))

  unfoldable pub process_request : Exec (State R) (Unit {0})
  unfolding methods prepare mark_missing decide decorate
  process_request s =
      ((Process.process_request o.policy methods >>= λ _. (λ t. (ok tt, mark_missing t))) >>= λ _.
      on_request (decide >>= λ _. decorate))
        (prepare s)
