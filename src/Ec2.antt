-- ===== src/Ec2.antt =====
-- ec2_token.py: EC2Token, which changes a signed EC2 request for a token of the identity server.
pub mod Laws
use keystonemiddleware.Base.{
  ℕ, String, ◌<>◌, Bool, true, false, not, Option, none, some, List, [], ◌∷◌, Dict, ◌==◌, ◌&&◌,
  ◌||◌, nat_eq, lookup, insert, erase, split, head, after, contains_text, if◌then◌else◌,
}
use keystonemiddleware.Exec.{Result, ok, then_result}
use keystonemiddleware.Json.{Json, str, obj, Fields, end, field}

pub record Ec2Request : Type 0 where
  pub params : Dict String
  pub headers : Dict String
  pub host : String
  pub method : String
  pub path : String
  pub body : String

-- What the application gets, or the EC2 error that is answered with status 400.
pub data Reply : Type 0 where
  forwarded : Ec2Request → Reply
  ec2_error : String → String → Reply

-- The certificates that a request to the identity server names: `verify` and `cert`.
pub data Verify : Type 0 where
  verified : Bool → Verify
  cafile : String → Verify

pub data Cert : Type 0 where
  no_cert : Cert
  certfile : String → Cert
  cert_and_key : String → String → Cert

pub record Ec2Response : Type 0 where
  pub status_code : ℕ
  pub reason : String
  pub headers : Dict String

-- The group `keystone_ec2_token`, and what `CONF.keystone_ec2_certfile`, which is no option of the group,
-- gives or raises.
pub record Ec2Options : Type 0 where
  pub url : String
  pub insecure : Bool
  pub cafile : Option String
  pub certfile : Option String
  pub keyfile : Option String
  pub keystone_ec2_certfile : Result String

-- `hashlib.sha256(…).hexdigest()` and `requests.request`
pub record Ec2Library : Type 0 where
  pub sha256 : String → String
  -- may raise what requests raises
  pub post : String → Json → Verify → Cert → Result Ec2Response

-- `_ec2_error_response`: the body of the answer, whose status is 400
unfoldable pub ec2_error_response : String → String → ℕ × String
ec2_error_response code message = (
  400,
  "<?xml version=\"1.0\"?>\n<Response><Errors><Error><Code>"
      <> (code <> ("</Code><Message>" <> (message <> "</Message></Error></Errors></Response>"))),
)

-- `a or b`
abbrev pub or_else : Option String → Option String → Option String
or_else none b = b
or_else (some a) b = if a == "" then b else some a

-- The text between a name and the next comma.
unfoldable pub field_of : String → String → String
field_of name auth_str = head (split b',' (after name auth_str))

abbrev signature_field : Option String → Option String
signature_field none = none
signature_field (some auth_str) = some (field_of "Signature=" auth_str)

abbrev if_none : Option String → Option String → Option String
if_none none b = b
if_none (some a) b = some a

unfoldable pub get_signature : Ec2Request → Option String
unfolding field_of
get_signature req =
    if_none (or_else (lookup "Signature" req.params) (lookup "X-Amz-Signature" req.params))
      (signature_field (lookup "Authorization" req.headers))

abbrev credential_param : Option String → Option String
credential_param none = none
credential_param (some cred_param) =
    if cred_param == "" then none else some (head (split b'/' cred_param))

abbrev credential_field : Option String → Option String
credential_field none = none
credential_field (some auth_str) = some (head (split b'/' (field_of "Credential=" auth_str)))

unfoldable pub get_access : Ec2Request → Option String
unfolding field_of
get_access req =
    if_none
      (if_none (lookup "AWSAccessKeyId" req.params)
        (credential_param (lookup "X-Amz-Credential" req.params)))
      (credential_field (lookup "Authorization" req.headers))

abbrev is_there : Option String → Bool
is_there none = false
is_there (some _) = true

abbrev pub is_given : Option String → Bool
is_given none = false
is_given (some s) = not (s == "")

-- The parameters that the signature covers: none for version 4.
unfoldable pub auth_params : Ec2Request → Dict String
auth_params req =
    if is_there (lookup "X-Amz-Signature" req.params)
      || is_there (lookup "Authorization" req.headers)
    then []
    else erase "Signature" req.params

unfoldable pub dict_of : Dict String → Fields
dict_of [] = end
dict_of ((k, v) ∷ d) = field k (str v) (dict_of d)

module _ (lib : Ec2Library) (o : Ec2Options) where
  unfoldable pub cred_dict : Ec2Request → String → String → Json
  unfolding auth_params dict_of
  cred_dict req access signature = obj (
      field "access" (str access) (
        field "signature" (str signature) (
          field "host" (str req.host) (
            field "verb" (str req.method) (
              field "path" (str req.path) (
                field "params" (obj (dict_of (auth_params req))) (
                  field "headers" (obj (dict_of req.headers))
                    (field "body_hash" (str (lib.sha256 req.body)) end))))))))

  unfoldable pub creds : Json → Json
  creds cred =
      if contains_text "ec2" o.url
      then obj (field "ec2Credentials" cred end)
      else obj (field "auth" (obj (field "OS-KSEC2:ec2Credentials" cred end)) end)

  abbrev with_cafile : Option String → Verify
  with_cafile none = verified true
  with_cafile (some file) = if file == "" then verified true else cafile file

  unfoldable pub verify : Verify
  verify = if o.insecure then verified false else with_cafile o.cafile

  abbrev text_of : Option String → String
  text_of none = ""
  text_of (some s) = s

  -- The certificate that goes with a key comes from outside the group.
  unfoldable pub cert : Result Cert
  cert =
      if is_given o.certfile && is_given o.keyfile
      then then_result o.keystone_ec2_certfile (λ file. ok (cert_and_key file (text_of o.keyfile)))
      else if is_given o.certfile
      then ok (certfile (text_of o.certfile))
      else ok no_cert

  abbrev with_token : Ec2Request → Option String → Reply
  with_token req none = ec2_error "AuthFailure" "Failure parsing response from keystone"
  with_token req (some token_id) =
      forwarded (record req { headers = insert "X-Auth-Token" token_id req.headers })

  -- What becomes of a request by the identity server's response.
  unfoldable pub on_response : Ec2Request → Ec2Response → Reply
  on_response req response =
      if not (nat_eq response.status_code 200)
      then ec2_error "AuthFailure" ("Error response from keystone: " <> response.reason)
      else with_token req (lookup "x-subject-token" response.headers)

  unfoldable pub ask : Ec2Request → String → String → Result Ec2Response
  unfolding creds cred_dict verify cert
  ask req access signature =
      then_result cert (λ c. lib.post o.url (creds (cred_dict req access signature)) verify c)

  unfoldable pub with_access : Ec2Request → String → Option String → Result Reply
  unfolding on_response ask
  with_access req signature none = ok (ec2_error "AuthFailure" "Access key not provided")
  with_access req signature (some access) =
      if access == ""
      then ok (ec2_error "AuthFailure" "Access key not provided")
      else then_result (ask req access signature) (λ response. ok (on_response req response))

  unfoldable pub with_signature : Ec2Request → Option String → Result Reply
  unfolding with_access get_access
  with_signature req none = ok (ec2_error "AuthFailure" "Signature not provided")
  with_signature req (some signature) =
      if signature == ""
      then ok (ec2_error "AuthFailure" "Signature not provided")
      else with_access req signature (get_access req)

  -- `__call__`
  unfoldable pub call : Ec2Request → Result Reply
  unfolding with_signature get_signature
  call req = with_signature req (get_signature req)
