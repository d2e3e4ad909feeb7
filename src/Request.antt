-- ===== src/Request.antt =====
-- auth_token/_request.py: the request that the middleware works on, with the properties and setters
-- of _AuthTokenRequest.
pub mod AuthHeaders
pub mod Removal
pub mod Written
pub mod Catalog
use keystonemiddleware.Base.{
  String, Bool, Option, none, some, List, ◌==◌, lookup, insert, erase, lower, not, false,
  if◌then◌else◌,
}
use keystonemiddleware.Exec.{Result, Exec, ok, raise, key_error}
use keystonemiddleware.Json.{Json}
use keystonemiddleware.Access.{AccessInfo}
use keystonemiddleware.UserPlugin.{UserAuthPlugin}
use AuthHeaders.{
  Headers, user_status_header, service_status_header, service_catalog_header, confirmed,
  status_value, set_user_headers, set_service_headers, remove_auth_headers,
}
use Catalog.{normalize_catalog}

pub record Request : Type 0 where
  pub headers : Headers
  pub method : String
  pub path : String
  -- `environ['AUTH_TYPE']` and REMOTE_USER
  pub environ_auth_type : Option String
  pub remote_user : Option String
  -- The names under which the environment holds a cache object.
  pub environ_caches : List String
  pub token_auth : Option UserAuthPlugin
  pub token_info : Option Json

-- `headers.get(k)`: None for a missing name
abbrev pub value_or_none : Option (Option String) → Option String
value_or_none none = none
value_or_none (some v) = v

-- `bool(v)` for a text or None
abbrev pub is_given : Option String → Bool
is_given none = false
is_given (some s) = not (s == "")

abbrev pub text_is : Option String → String → Bool
text_is none s = false
text_is (some t) s = t == s

abbrev get_default : Option (Option String) → Option String → Option String
get_default none default = default
get_default (some v) default = v

unfoldable pub user_token : Request → Option String
user_token r =
    get_default (lookup "X-Auth-Token" r.headers)
      (value_or_none (lookup "X-Storage-Token" r.headers))

unfoldable pub service_token : Request → Option String
service_token r = value_or_none (lookup "X-Service-Token" r.headers)

abbrev is_confirmed : Option (Option String) → Result Bool
is_confirmed none = raise key_error
is_confirmed (some v) = ok (text_is v confirmed)

unfoldable pub user_token_valid : Request → Result Bool
user_token_valid r = is_confirmed (lookup user_status_header r.headers)

unfoldable pub set_user_token_valid : Bool → Request → Request
set_user_token_valid b r = record r {
  headers = insert user_status_header (some (status_value b)) r.headers;
}

unfoldable pub service_token_valid : Request → Result Bool
service_token_valid r = is_confirmed (lookup service_status_header r.headers)

unfoldable pub set_service_token_valid : Bool → Request → Request
set_service_token_valid b r = record r {
  headers = insert service_status_header (some (status_value b)) r.headers;
}

-- `auth_type`: None, or in lower case
unfoldable pub auth_type : Request → Option String
auth_type r = elim r.environ_auth_type [ none ↦ none | some t ↦ some (lower t) ]

-- A method that changes the headers, as one of the request.
abbrev pub on_headers : Exec Headers (Unit {0}) → Exec Request (Unit {0})
on_headers m r = let (out, h) = m r.headers in (out, record r { headers = h })

-- `set_service_catalog_headers`, with jsonutils.dumps a parameter
module _ (dumps : Json → String) where
  abbrev pub store_catalog : Result Json → Exec Headers (Unit {0})
  store_catalog (raise e) h = (raise e, h)
  store_catalog (ok catalog) h = (ok tt, insert service_catalog_header (some (dumps catalog)) h)

  unfoldable pub set_service_catalog_headers : AccessInfo → Exec Headers (Unit {0})
  set_service_catalog_headers ref h =
      if not ref.has_service_catalog
      then (ok tt, erase service_catalog_header h)
      else store_catalog
          (if ref.version == "v3" then normalize_catalog ref.catalog else ok ref.catalog) h
