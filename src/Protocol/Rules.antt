-- ===== src/Protocol/Rules.antt =====
-- auth_token/__init__.py: `validate_allowed_request`, which holds a request against the access rules of
-- the application credential behind its token.
pub mod Laws
use keystonemiddleware.Base.{
  String, Bool, true, false, not, Option, none, some, List, [], ◌∷◌, ◌==◌, ◌&&◌, ends_with,
  if◌then◌else◌,
}
use keystonemiddleware.Exec.{Result, ok, raise, invalid_token, type_error, then_result}
use keystonemiddleware.Json.{Json, null, str, truthy, get, index, iterate, is_text}
use keystonemiddleware.Request.{Request, service_token, is_given}
use keystonemiddleware.Protocol.PathRules.{path_matches}

infixl 5 ◌>>=◌
abbrev ◌>>=◌ {ℓ κ} : {A : Type ℓ} {B : Type κ} → Result A → (A → Result B) → Result B
r >>= f = then_result r f

-- `len([s for s in catalog if s['type'] == my_service_type]) == 0` is the negation.
unfoldable pub offers : String → List Json → Result Bool
offers my_service_type [] = ok false
offers my_service_type (s ∷ services) = do
  type ← index s "type"
  more ← offers my_service_type services
  ok (if is_text type my_service_type then true else more)

abbrev pub is_null : Json → Bool
is_null null = true
is_null _ = false

-- What `validate_token` always lets through, whatever the rules.
unfoldable pub validates_token : String → Request → Bool
validates_token my_service_type req =
    my_service_type == "identity" && (req.method == "GET" && ends_with req.path "/v3/auth/tokens")

module _ (re_match : String → String → Result Bool) where
  -- `_path_matches(request.path, path)` for a path that comes out of the token
  unfoldable pub path_rule : Request → Json → Result Bool
  path_rule req (str path) = path_matches re_match req.path path
  path_rule req _ = raise type_error

  unfoldable pub rule_matches : String → Request → Json → Result Bool
  unfolding path_rule
  rule_matches my_service_type req access_rule = do
    method ← index access_rule "method"
    path ← index access_rule "path"
    service ← index access_rule "service"
    if is_text method req.method && is_text service my_service_type
        then path_rule req path
        else ok false

  -- The loop over the access rules, and the raise behind it.
  unfoldable pub match_rules : String → Request → List Json → Result (Unit {0})
  match_rules my_service_type req [] = raise invalid_token
  match_rules my_service_type req (access_rule ∷ rules) =
      rule_matches my_service_type req access_rule >>= λ found. elim found [
        | true ↦ ok tt
        | false ↦ match_rules my_service_type req rules
      ]

  -- The checks once the token turns out to be restricted and the service knows its type.
  unfoldable pub check_restricted : String → Request → Json → Json → Result (Unit {0})
  unfolding offers match_rules
  check_restricted my_service_type req token access_rules = do
    catalog ← index token "catalog"
    services ← iterate catalog
    listed ← offers my_service_type services
    let rules_checked = iterate access_rules >>= match_rules my_service_type req
    if not listed
        then raise invalid_token
        else if is_given (service_token req)
        then ok tt
        else rules_checked

  unfoldable pub check_service_type : Option String → Request → Json → Json → Result (Unit {0})
  unfolding check_restricted validates_token
  check_service_type none req token access_rules = raise invalid_token
  check_service_type (some my_service_type) req token access_rules =
      if my_service_type == ""
      then raise invalid_token
      else if validates_token my_service_type req
      then ok tt
      else check_restricted my_service_type req token access_rules

  -- The setting `service_type` is read once the token turns out to have access rules.
  unfoldable pub validate_allowed_request :
      Result (Option String) → Request → Json → Result (Unit {0})
  unfolding check_service_type
  validate_allowed_request service_type req token = do
    app_cred ← get token "application_credential"
    if not (truthy app_cred)
        then ok tt
        else (get app_cred "access_rules" >>= λ access_rules.
            if is_null access_rules
            then ok tt
            else (service_type >>= λ my_service_type.
                check_service_type my_service_type req token access_rules))
