-- ===== src/S3.antt =====
-- s3_token.py: S3Token, which changes an S3 signature for a token of the identity server. A raised
-- exception ends the request, so that what became of its environment before is left out.
pub mod Laws
pub mod Setup
use keystonemiddleware.Base.{
  ℕ, String, ◌<>◌, Bool, true, false, not, Option, none, some, List, [], ◌∷◌, Dict, ◌==◌, ◌&&◌,
  ◌||◌, ltb, leb, lookup, insert, split, last, rsplit, has_char, replace, if◌then◌else◌,
}
use keystonemiddleware.Exec.{
  Exception, Result, ok, raise, value_error, key_error, type_error, then_result,
}
use keystonemiddleware.Json.{Json, str, obj, Fields, end, field, index}

infixl 5 ◌>>=◌
abbrev ◌>>=◌ {ℓ κ} : {A : Type ℓ} {B : Type κ} → Result A → (A → Result B) → Result B
r >>= f = then_result r f

pub record S3Request : Type 0 where
  pub path : String
  -- `environ['PATH_INFO']`
  pub path_info : String
  pub headers : Dict String

-- The codes of `error_table` in `_deny_request`.
pub data Denial : Type 0 where
  access_denied invalid_uri : Denial

-- What the middleware does with a request: the application gets it, or it is answered here.
pub data Reply : Type 0 where
  forwarded : S3Request → Reply
  denied : Denial → Reply

pub record HttpResponse : Type 0 where
  pub status_code : ℕ
  -- `response.json()`
  pub json : Result Json

-- `requests.post`: none where it raises RequestException; oslo's `split_path(path, 1, 4, True)`, of which
-- the second part is used; and `str` of a value that is no text.
pub record S3Library : Type 0 where
  pub post : String → Json → Option HttpResponse
  pub split_path : String → Result (Option String)
  pub repr : Json → String

pub record S3Options : Type 0 where
  pub request_uri : String
  pub reseller_prefix : String

abbrev status_line : Denial → ℕ × String
status_line access_denied = (401, "Access denied")
status_line invalid_uri = (400, "Could not parse the specified URI")

abbrev code_name : Denial → String
code_name access_denied = "AccessDenied"
code_name invalid_uri = "InvalidURI"

-- `_deny_request`: the status and the body
unfoldable pub deny_request : Denial → ℕ × String
deny_request denial = (
  (status_line denial).0,
  "<?xml version=\"1.0\" encoding=\"UTF-8\"?>\r\n<Error>\r\n  <Code>"
      <> (code_name denial
          <> ("</Code>\r\n  <Message>"
              <> ((status_line denial).1 <> "</Message>\r\n</Error>\r\n"))),
)

-- `headers.get('X-Auth-Token', headers.get('X-Storage-Token'))`, and None or an empty text as none
abbrev pub nonempty : Option String → Option String
nonempty none = none
nonempty (some s) = if s == "" then none else some s

abbrev first_of : Option String → Option String → Option String
first_of none b = b
first_of (some a) b = some a

unfoldable pub request_token : Dict String → Option String
request_token headers =
    nonempty (first_of (lookup "X-Auth-Token" headers) (lookup "X-Storage-Token" headers))

-- The access id and the signature of an Authorization header; none where they cannot be told apart.
unfoldable pub read_authorization : String → Option (String × String)
read_authorization auth_header = rsplit b':' (last (split b' ' auth_header))

abbrev two_parts : List String → Result (String × Option String)
two_parts (a ∷ b ∷ []) = ok (a, some b)
two_parts _ = raise value_error

-- `access.split(':')`: a tenant that is asked for may follow the access id.
unfoldable pub force_tenant : String → Result (String × Option String)
force_tenant access =
    if has_char b':' access then two_parts (split b':' access) else ok (access, none)

unfoldable pub credentials : String → String → String → Json
credentials access token signature = obj (
    field "credentials"
      (obj (
        field "access" (str access)
          (field "token" (str token) (field "signature" (str signature) end))))
      end)

module _ (lib : S3Library) (o : S3Options) where
  abbrev pub to_text : Json → String
  to_text (str s) = s
  to_text v = lib.repr v

  -- `_json_request`: a response, or the denial in the ServiceError that it raises
  pub data Answer : Type 0 where
    answered : HttpResponse → Answer
    service_error : Denial → Answer

  abbrev by_status : Option HttpResponse → Answer
  by_status none = service_error invalid_uri
  by_status (some response) =
      if ltb response.status_code 200 || leb 300 response.status_code
      then service_error access_denied
      else answered response

  unfoldable pub json_request : Json → Answer
  json_request creds = by_status (lib.post (o.request_uri <> "/v2.0/s3tokens") creds)

  -- The token's id and the tenant in the identity server's answer.
  unfoldable pub identity_info : HttpResponse → Result (String × Json)
  identity_info response = do
    info ← response.json
    access ← index info "access"
    token ← index access "token"
    id ← index token "id"
    tenant ← index token "tenant"
    ok (to_text id, tenant)

  -- `force_tenant or tenant['id']`
  abbrev pub tenant_to_connect : Option String → Json → Result String
  tenant_to_connect forced tenant = elim (nonempty forced) [
    | some name ↦ ok name
    | none ↦ index tenant "id" >>= λ id. ok (to_text id)
  ]

  abbrev pub replace_account : Option String → String → String → Result String
  replace_account none name path_info = raise type_error
  replace_account (some account) name path_info = ok (replace account name path_info)

  -- The request that goes on for a token and a tenant.
  unfoldable pub connect : S3Request → Option String → Option String → String × Json → Result Reply
  connect req account forced (token_id, tenant) = do
    name ← tenant_to_connect forced tenant
    path_info ← replace_account account (o.reseller_prefix <> name) req.path_info
    ok (
        forwarded (record req {
          path_info = path_info;
          headers = insert "X-Auth-Token" token_id req.headers;
        }))

  -- `except (ValueError, KeyError)` around the reading of the answer
  abbrev pub or_denied : Result (String × Json) → (String × Json → Result Reply) → Result Reply
  or_denied (ok info) f = f info
  or_denied (raise value_error) f = ok (denied invalid_uri)
  or_denied (raise key_error) f = ok (denied invalid_uri)
  or_denied (raise e) f = raise e

  abbrev pub on_answer : Answer → (HttpResponse → Result Reply) → Result Reply
  on_answer (service_error denial) f = ok (denied denial)
  on_answer (answered response) f = f response

  -- A request with an account, a token and an Authorization header.
  unfoldable pub authenticate : S3Request → Option String → String → String × String → Result Reply
  unfolding json_request identity_info connect force_tenant credentials
  authenticate req account token (access, signature) = force_tenant access >>= λ parts.
      on_answer (json_request (credentials parts.0 token signature))
        λ response. or_denied (identity_info response) (connect req account parts.1)

  unfoldable pub with_authorization :
      S3Request → Option String → String → Option String → Result Reply
  unfolding authenticate read_authorization
  with_authorization req account auth_header none = ok (forwarded req)
  with_authorization req account auth_header (some token) = elim (read_authorization auth_header) [
    | none ↦ ok (denied invalid_uri)
    | some parts ↦ authenticate req account token parts
  ]

  unfoldable pub with_account : S3Request → Result (Option String) → Result Reply
  unfolding with_authorization request_token
  with_account req (raise value_error) = ok (forwarded req)
  with_account req (raise e) = raise e
  with_account req (ok account) = elim (lookup "Authorization" req.headers) [
    | none ↦ ok (forwarded req)
    | some auth_header ↦ with_authorization req account auth_header (request_token req.headers)
  ]

  -- `__call__`
  unfoldable pub call : S3Request → Result Reply
  unfolding with_account
  call req = with_account req (lib.split_path req.path)
