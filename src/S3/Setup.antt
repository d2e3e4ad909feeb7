-- ===== src/S3/Setup.antt =====
-- s3_token.py: S3Token's `__init__`, on the settings of the paste file. oslo's bool_from_string is a
-- parameter. A text in place of the port is a row of digits, or ValueError.
use Prim.Native.Char.{code}
use keystonemiddleware.Base.{
  ℕ, ◌+◌, ◌-◌, ◌*◌, String, ◌<>◌, Bool, false, Option, none, some, Dict, ◌==◌, ◌&&◌, lookup, update,
  strip, leb, if◌then◌else◌,
}
use keystonemiddleware.Exec.{Result, ok, raise, then_result, value_error, type_error}
use keystonemiddleware.Cache.Memory.{ℤ, pos}
use keystonemiddleware.Config.{Value, no_value, text, bool, int, is_true}
use keystonemiddleware.AuthPlugin.{decimal}
use keystonemiddleware.S3.{S3Options}

-- What `requests.post` is told about the server's certificate.
pub data CertCheck : Type 0 where
  unverified unset : CertCheck
  cert_and_key : Value → Value → CertCheck
  cert_only : Value → CertCheck

read_digits : ℕ → String → Option ℕ
read_digits n String.[] = some n
read_digits n (String.◌∷◌ c s) =
    let d = code c in
    let further = read_digits (n * 10 + (d - 48)) s in
    if leb 48 d && leb d 57 then further else none

abbrev or_value_error : Option ℕ → Result ℤ
or_value_error none = raise value_error
or_value_error (some n) = ok (pos n)

-- `int(v)`
unfoldable pub int_of : Value → Result ℤ
unfolding read_digits
int_of (int n) = ok n
int_of (text s) =
    let stripped = strip s in
    let read = or_value_error (read_digits 0 stripped) in
    if stripped == "" then raise value_error else read
int_of _ = raise type_error

-- `conf.get(k)` and `conf.get(k, default)`
abbrev setting : String → Value → Dict Value → Value
setting k default conf = elim (lookup k conf) [ none ↦ default | some v ↦ v ]

abbrev setting_or_none : String → Dict Value → Value
setting_or_none k conf = setting k no_value conf

-- `'%s' % v` of a text or None
abbrev shown : Value → Result String
shown (text s) = ok s
shown no_value = ok "None"
shown _ = raise type_error

-- The URI of the deprecated fragments.
unfoldable pub fragments_uri : Dict Value → Result String
unfolding int_of
fragments_uri conf = then_result (int_of (setting "auth_port" (int (pos 35357)) conf)) λ port.
    then_result (shown (setting "auth_protocol" (text "https") conf)) λ protocol.
      then_result (shown (setting_or_none "auth_host" conf))
        λ host. ok (protocol <> ("://" <> (host <> (":" <> decimal port))))

-- `self._request_uri`
unfoldable pub request_uri : Dict Value → Result String
unfolding fragments_uri is_true
request_uri conf =
    let uri = setting_or_none "www_authenticate_uri" conf in
    let auth_uri = setting_or_none "auth_uri" conf in
    let built = fragments_uri conf in
    if is_true uri then shown uri else if is_true auth_uri then shown auth_uri else built

-- `self._verify`
unfoldable pub verify_of : (Value → Bool) → Dict Value → CertCheck
unfolding is_true
verify_of bool_from_string conf =
    let cert_file = setting_or_none "certfile" conf in
    let key_file = setting_or_none "keyfile" conf in
    if bool_from_string (setting "insecure" (bool false) conf)
    then unverified
    else if is_true cert_file && is_true key_file
    then cert_and_key cert_file key_file
    else if is_true cert_file
    then cert_only cert_file
    else unset

-- `__init__`
unfoldable pub s3_token : (Value → Bool) → Dict Value → Result (S3Options × CertCheck)
unfolding request_uri verify_of
s3_token bool_from_string conf =
    then_result (shown (setting "reseller_prefix" (text "AUTH_") conf)) λ prefix.
      then_result (request_uri conf) λ uri.
        ok (record { request_uri = uri; reseller_prefix = prefix }, verify_of bool_from_string conf)

-- What `auth_filter` makes of a paste file, whose own settings count before the global ones.
unfoldable pub s3_filter_factory :
    (Value → Bool) → Dict Value → Dict Value → Result (S3Options × CertCheck)
unfolding s3_token
s3_filter_factory bool_from_string global_conf local_conf =
    s3_token bool_from_string (update global_conf local_conf)
