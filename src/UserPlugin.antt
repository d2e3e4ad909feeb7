-- ===== src/UserPlugin.antt =====
-- auth_token/_user_plugin.py: the plugin that hands the request's credentials to the application.
use keystonemiddleware.Base.{
  String, ◌<>◌, Bool, true, false, Option, none, some, List, [], ◌∷◌, ◌++◌, Dict, insert, join,
  ◌==◌, if◌then◌else◌,
}
use keystonemiddleware.Access.{AccessInfo}

pub record UserAuthPlugin : Type 0 where
  pub user : Option AccessInfo
  pub service : Option AccessInfo
  -- The middleware's own session and auth plugin are attached.
  pub has_session : Bool

abbrev pub is_some {ℓ} : {A : Type ℓ} → Option A → Bool
is_some none = false
is_some (some _) = true

unfoldable pub has_user_token : UserAuthPlugin → Bool
has_user_token p = is_some p.user

unfoldable pub has_service_token : UserAuthPlugin → Bool
has_service_token p = is_some p.service

-- `'%s' % v`
abbrev text_or_none : Option String → String
text_or_none none = "None"
text_or_none (some s) = s

unfoldable pub log_format : AccessInfo → String
log_format ref =
    "user_id "
    <> (text_or_none ref.user_id
        <> (", project_id "
            <> (text_or_none ref.project_id <> (", roles " <> join "," ref.role_names))))

abbrev part : String → Option AccessInfo → List String
part name none = []
part name (some ref) = (name <> log_format ref) ∷ []

-- The `_log_format` property.
unfoldable pub plugin_log_format : UserAuthPlugin → String
plugin_log_format p = join " " (part "user: " p.user ++ part "service: " p.service)

unfoldable pub get_auth_ref : UserAuthPlugin → Option AccessInfo
get_auth_ref p = p.user

abbrev with_service_token : Option String → Dict String → Dict String
with_service_token none headers = headers
with_service_token (some token) headers =
    if token == "" then headers else insert "X-Service-Token" token headers

-- `get_headers`: the base class's answer, and the token that the session has for `_auth`.
unfoldable pub get_headers :
    UserAuthPlugin → Option (Dict String) → Option String → Option (Dict String)
get_headers p none session_token = none
get_headers p (some headers) session_token =
    if p.has_session then some (with_service_token session_token headers) else some headers
