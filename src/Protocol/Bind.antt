-- ===== src/Protocol/Bind.antt =====
-- auth_token/__init__.py: `_confirm_token_bind`, which checks a token's binding to its user.
pub mod Laws
use keystonemiddleware.Base.{
  String, Bool, true, false, not, Option, none, some, List, [], ◌∷◌, Dict, ◌==◌, ◌&&◌, ◌||◌,
  if◌then◌else◌,
}
use keystonemiddleware.Exec.{Result, ok, raise, invalid_token, then_result}
use keystonemiddleware.Request.{Request, auth_type, text_is}

-- `_BIND_MODE`; any other text names a binding type that must be present.
abbrev pub disabled : String
disabled = "disabled"

abbrev pub permissive : String
permissive = "permissive"

abbrev pub strict : String
strict = "strict"

abbrev pub required : String
required = "required"

abbrev pub kerberos : String
kerberos = "kerberos"

-- `name in auth_ref.bind`
unfoldable pub has_bind : String → Dict String → Bool
has_bind name [] = false
has_bind name ((k, _) ∷ bind) = k == name || has_bind name bind

-- One round of the loop over the token's bindings.
unfoldable pub check_bind : String → Request → String → String → Result (Unit {0})
unfolding auth_type
check_bind mode req bind_type identifier =
    if bind_type == kerberos
    then (if not (text_is (auth_type req) "negotiate")
        then raise invalid_token
        else if not (text_is req.remote_user identifier)
        then raise invalid_token
        else ok tt)
    else if mode == permissive
    then ok tt
    else raise invalid_token

unfoldable pub check_binds : String → Request → Dict String → Result (Unit {0})
unfolding check_bind
check_binds mode req [] = ok tt
check_binds mode req ((bind_type, identifier) ∷ bind) =
    then_result (check_bind mode req bind_type identifier) (λ _. check_binds mode req bind)

-- permissive and strict modes don't require there to be a bind
abbrev pub is_lenient : String → Bool
is_lenient mode = mode == permissive || mode == strict

-- `name and name not in auth_ref.bind`, where `name` is the mode unless it is a predefined one
abbrev lacks_named : String → Dict String → Bool
lacks_named mode bind =
    if is_lenient mode || mode == required
    then false
    else not (mode == "") && not (has_bind mode bind)

abbrev is_empty : Dict String → Bool
is_empty [] = true
is_empty (_ ∷ _) = false

unfoldable pub confirm_token_bind : String → Dict String → Request → Result (Unit {0})
unfolding check_binds has_bind
confirm_token_bind mode bind req =
    if mode == disabled
    then ok tt
    else if is_empty bind
    then (if is_lenient mode then ok tt else raise invalid_token)
    else if lacks_named mode bind
    then raise invalid_token
    else check_binds mode req bind
