-- ===== src/Tests/Signatures.antt =====
-- s3_token.py and ec2_token.py: signed requests, and a toy identity service.
use Prim.Native.Char.{Char}
use keystonemiddleware.Base.{
  ◌≡◌, refl, ◌<>◌, false, none, some, [], ◌∷◌, ◌==◌, lookup, insert, split, last, head, rsplit,
  has_char, after, replace, starts_with, drop_text, cons, if◌then◌else◌,
}
use keystonemiddleware.Exec.{ok, raise, value_error, attribute_error}
use keystonemiddleware.Json.{Json, str, obj, end, field, index, find}
use keystonemiddleware.S3
use keystonemiddleware.S3.{
  S3Request, S3Library, S3Options, HttpResponse, denied, access_denied, invalid_uri,
  read_authorization, force_tenant, request_token, with_account, with_authorization, authenticate,
  json_request, identity_info, connect,
}
use keystonemiddleware.S3.Laws.{IsForwarded, call-IsForwarded}
use keystonemiddleware.Ec2
use keystonemiddleware.Ec2.{
  Ec2Request, Ec2Response, Ec2Options, Ec2Library, get_signature, get_access, field_of,
  with_signature, with_access, ask, cert, on_response, creds, cred_dict, verify,
}
use keystonemiddleware.Ec2.Laws.{IsConfirmed, call-IsConfirmed}

abbrev s3_answer : Json
s3_answer = obj (
    field "access"
      (obj (
        field "token"
          (obj (field "id" (str "t1") (field "tenant" (obj (field "id" (str "acme") end)) end)))
          end))
      end)

abbrev s3_library : S3Library
s3_library = record {
  post = λ uri creds. some (record { status_code = 200; json = ok s3_answer });
  split_path = λ path. if path == "/" then raise value_error else ok (some "user");
  repr = λ v. "";
}

abbrev s3_options : S3Options
s3_options = record { request_uri = "https://keystone"; reseller_prefix = "AUTH_" }

abbrev s3_request : S3Request
s3_request = record {
  path = "/v1/user/box";
  path_info = "/v1/user/box";
  headers = ("Authorization", "AWS user:other:sig") ∷ ("X-Auth-Token", "abc") ∷ [];
}

abbrev s3_connected : S3Request
s3_connected = record {
  path = "/v1/user/box";
  path_info = "/v1/AUTH_other/box";
  headers = ("Authorization", "AWS user:other:sig") ∷ ("X-Auth-Token", "t1") ∷ [];
}

-- The last of these requests has an access id with two colons.
s3_calls :
    (S3.call s3_library s3_options s3_request ≡ ok (S3.forwarded s3_connected))
    × (S3.call s3_library s3_options (record s3_request { path = "/" })
        ≡ ok (S3.forwarded (record s3_request { path = "/" })))
    × (S3.call s3_library s3_options (record s3_request {
      headers = ("Authorization", "AWS nobody") ∷ ("X-Auth-Token", "abc") ∷ [];
    })
        ≡ ok (denied invalid_uri))
    × (S3.call s3_library s3_options (record s3_request {
      headers = ("Authorization", "AWS a:b:c:sig") ∷ ("X-Auth-Token", "abc") ∷ [];
    })
        ≡ raise value_error)
unfolding S3.call with_account with_authorization authenticate read_authorization force_tenant
    request_token json_request identity_info connect lookup insert split last rsplit has_char
    replace starts_with index find
s3_calls = (refl, refl, refl, refl)

call-IsForwarded_example : IsForwarded s3_library s3_options s3_request s3_connected
call-IsForwarded_example = call-IsForwarded s3_library s3_options s3_request s3_connected s3_calls.0

abbrev colon : Char
colon = ":"

last_word : last (split b' ' "AWS user:other:sig") ≡ "user:other" <> cons colon "sig"
unfolding last split
last_word = refl

no_colon : has_char b':' "sig" ≡ false
unfolding has_char
no_colon = refl

abbrev ec2_library : Ec2Library
ec2_library = record {
  sha256 = λ s. s;
  post = λ url creds v c.
      ok (record { status_code = 200; reason = "OK"; headers = ("x-subject-token", "t1") ∷ [] });
}

abbrev ec2_options : Ec2Options
ec2_options = record {
  url = "https://keystone/ec2tokens";
  insecure = false;
  cafile = none;
  certfile = none;
  keyfile = none;
  keystone_ec2_certfile = raise attribute_error;
}

abbrev ec2_request : Ec2Request
ec2_request = record {
  params = [];
  headers = ("Authorization", "AWS4 Credential=key/20, Signature=abc,X=1") ∷ [];
  host = "nova";
  method = "GET";
  path = "/";
  body = "";
}

abbrev ec2_confirmed : Ec2Request
ec2_confirmed = record ec2_request { headers = insert "X-Auth-Token" "t1" ec2_request.headers }

ec2_calls :
    (get_signature ec2_request ≡ some "abc")
    × (get_access ec2_request ≡ some "key")
    × (Ec2.call ec2_library ec2_options ec2_request ≡ ok (Ec2.forwarded ec2_confirmed))
    × (Ec2.call ec2_library ec2_options (record ec2_request { headers = [] })
        ≡ ok (Ec2.ec2_error "AuthFailure" "Signature not provided"))
unfolding Ec2.call with_signature with_access ask cert on_response get_signature get_access field_of
    lookup insert split head after starts_with drop_text
ec2_calls = (refl, refl, refl, refl)

call-IsConfirmed_example : IsConfirmed ec2_library ec2_options ec2_request ec2_confirmed
call-IsConfirmed_example =
    call-IsConfirmed ec2_library ec2_options ec2_request ec2_confirmed ec2_calls.2

abbrev ec2_options_tls : Ec2Options
ec2_options_tls = record ec2_options { certfile = some "cert.pem"; keyfile = some "key.pem" }

tls_raises : Ec2.call ec2_library ec2_options_tls ec2_request ≡ raise attribute_error
unfolding Ec2.call lookup head split after
tls_raises = refl
