-- ===== src/Tests/Fixtures.antt =====
-- A user, a request, a toy identity service and a toy cache: test data for the modules beside this one.
use keystonemiddleware.Base.{
  ◌≡◌, refl, ◌≢◌, Bool, String, true, false, none, some, [], ◌∷◌, Dict, ◌==◌, ◌||◌, lookup, insert,
  lookup-insert_self, if◌then◌else◌,
}
use keystonemiddleware.Exec.{Result, ok, raise, invalid_token, connect_failure, value_error}
use keystonemiddleware.Json.{Json, null, str, obj, end, field, or_null}
use keystonemiddleware.Access.{AccessInfo}
use keystonemiddleware.Request.{Request}
use keystonemiddleware.Protocol.PathRules.Regex.{ReMatch, parse_regex, match_atoms}
use keystonemiddleware.Protocol.Process.{Policy, State}
use keystonemiddleware.AuthProtocol.{Services, Options, Library}
use keystonemiddleware.AuthProtocol.Fetch.{CacheLaws}

abbrev pub alice : AccessInfo
alice = record {
  version = "v3";
  role_names = "member" ∷ "reader" ∷ [];
  will_expire_soon = false;
  bind = [];
  domain_id = none;
  domain_name = none;
  project_id = some "p1";
  project_name = some "demo";
  project_domain_id = some "d1";
  project_domain_name = some "Default";
  user_id = some "u1";
  username = some "alice";
  user_domain_id = some "d1";
  user_domain_name = some "Default";
  is_admin_project = true;
  system_scoped = false;
  system = end;
  has_service_catalog = false;
  catalog = null;
}

-- A service user with the system scope.
abbrev pub nova : AccessInfo
nova = record alice {
  role_names = "service" ∷ [];
  user_id = some "s1";
  username = some "nova";
  system_scoped = true;
  system = field "all" (str "x") end;
}

abbrev pub token_body : Json
token_body = obj (field "token" (obj (field "user" (str "u1") end)) end)

abbrev pub bare_request : Request
bare_request = record {
  headers = [];
  method = "GET";
  path = "/v2/servers";
  environ_auth_type = none;
  remote_user = none;
  environ_caches = [];
  token_auth = none;
  token_info = none;
}

-- A client with a good token that also claims to be somebody else.
abbrev pub honest : Request
honest = record bare_request {
  headers =
      ("X-Auth-Token", some " good ") ∷ ("X-User-Id", some "root") ∷ ("X-Role", some "admin") ∷ [];
}

-- A client without a good token that claims to be somebody.
abbrev pub forger : Request
forger = record bare_request {
  headers = ("X-Auth-Token", some "bad") ∷ ("X-User-Id", some "root") ∷ [];
}

abbrev pub policy : Policy
policy = record {
  enforce_token_bind = "permissive";
  service_token_roles = "service" ∷ [];
  service_token_roles_required = true;
  service_type = ok (some "compute");
}

abbrev pub strict_options : Options
strict_options = record {
  policy = policy;
  delay_auth_decision = false;
  include_service_catalog = false;
  www_authenticate_uri = "https://keystone";
}

abbrev pub delayed_options : Options
delayed_options = record strict_options { delay_auth_decision = true }

-- A long-running request: the user's token has run out, and a service token comes with it.
abbrev pub chained : Request
chained = record bare_request {
  headers = ("X-Auth-Token", some "good") ∷ ("X-Service-Token", some "service") ∷ [];
}

abbrev pub stale : AccessInfo
stale = record alice { will_expire_soon = true }

-- re.match, on the expressions of `_path_matches` alone.
abbrev pub reference_match : String → String → Result Bool
reference_match r s = elim (parse_regex r) [
  | none ↦ raise value_error
  | some atoms ↦ ok (match_atoms atoms s)
]

pub reference_match-ReMatch : ReMatch reference_match
reference_match-ReMatch r s atoms e = rw (reference_match, e) refl

abbrev pub library : Library
library = record {
  create = λ body token. some (if token == "service" then nova else alice);
  re_match = reference_match;
  dumps = λ v. "[]";
}

abbrev pub answer : String → Result Json
answer token =
    if token == "good" || token == "service"
    then ok token_body
    else if token == "down"
    then raise connect_failure
    else raise invalid_token

abbrev pub stale_library : Library
stale_library = record library {
  create = λ body token. some (if token == "service" then nova else stale);
}

-- The cache is a dictionary, and the identity service answers by `answer`.
abbrev pub services : Services (Dict Json)
services = record {
  initialize = λ caches d. d;
  cache_get = λ token d. (ok (or_null (lookup token d)), d);
  cache_set = λ token v d. (ok tt, insert token v d);
  verify_token = λ token allow_expired d. (answer token, d);
  invalidate = λ d. d;
}

pub toy_get-set :
    (token : String) (v : Json) (d : Dict Json)
    → token ≢ ""
    → (services.cache_get token (services.cache_set token v d).1).0 ≡ ok v
toy_get-set token v d given = rw (lookup-insert_self token v d) refl

abbrev pub services_laws : (v : Json) → CacheLaws services v
services_laws v = record { set_returns = λ token d. refl; get-set = λ token. toy_get-set token v }

abbrev pub state_of : Request → State (Dict Json)
state_of r = record { request = r; warning_emitted = false; store = [] }
