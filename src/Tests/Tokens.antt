-- ===== src/Tests/Tokens.antt =====
-- auth_token/__init__.py and _identity.py: a token's checks, on concrete tokens.
use keystonemiddleware.Protocol.PathRules.Regex.{
  parse_regex, atoms_of, match_atoms, step, at_end, plus, star,
}
use keystonemiddleware.Base.{
  ◌≤◌, ◌+◌, ◌≡◌, refl, ◌≢◌, ◌↔◌, ◌⊎◌, lookup, lower, ends_with, String, Bool, true, false, none,
  some, List, [], ◌∷◌, Dict, ◌==◌, All, if◌then◌else◌, has_char,
}
use keystonemiddleware.Exec.{
  Result, ok, raise, invalid_token, not_found, unauthorized, service_error,
}
use keystonemiddleware.Json.{
  Json, str, obj, arr, item, nil, end, field, get, index, iterate, truthy, is_text,
}
use keystonemiddleware.Request.{Request, auth_type, service_token}
use keystonemiddleware.Protocol.PathRules.{path_regex, path_matches, tokens}
use keystonemiddleware.Protocol.PathRules.Matches.{Matches, path_matches_iff}
use keystonemiddleware.Protocol.Bind.{confirm_token_bind, permissive, strict}
use keystonemiddleware.Protocol.Bind.Laws.{NamesMissing, BindHolds, confirm_token_bind_iff}
use keystonemiddleware.Protocol.Rules.{
  validate_allowed_request, check_restricted, offers, match_rules, rule_matches, path_rule,
  validates_token,
}
use keystonemiddleware.Protocol.Rules.Laws.{IsAllowed, validate_allowed_request-IsAllowed}
use keystonemiddleware.Identity.{
  Remote, IdentityOptions, IdentityServer, verify_token, verify_token_once,
}
use keystonemiddleware.Identity.Asked.{counted, verify_token-count}
use keystonemiddleware.Identity.Laws.{verify_token_lem}
use keystonemiddleware.Tests.Fixtures.{
  bare_request, library, reference_match, reference_match-ReMatch,
}

regexes :
    (path_regex "/v2.1/{project}/servers/*" ≡ "^/v2.1/[^\\/]+/servers/[^\\/]+$")
    × (path_regex "/v2/**" ≡ "^/v2/.*$")
    × (path_regex "/v2/***}" ≡ "^/v2/.*[^\\/]+$")
unfolding path_regex
regexes = (refl, refl, refl)

abbrev kerberos_request : Request
kerberos_request = record bare_request {
  environ_auth_type = some "Negotiate";
  remote_user = some "alice";
}

binds :
    (confirm_token_bind "strict" (("kerberos", "alice") ∷ []) kerberos_request ≡ ok tt)
    × (confirm_token_bind "strict" (("kerberos", "bob") ∷ []) kerberos_request
        ≡ raise invalid_token)
    × (confirm_token_bind "permissive" (("x509", "a") ∷ []) bare_request ≡ ok tt)
    × (confirm_token_bind "strict" (("x509", "a") ∷ []) bare_request ≡ raise invalid_token)
    × (confirm_token_bind "required" [] bare_request ≡ raise invalid_token)
unfolding confirm_token_bind auth_type lower
binds = (refl, refl, refl, refl, refl)

abbrev mode : String
mode = "strict"

abbrev alice_bind : Dict String
alice_bind = ("kerberos", "alice") ∷ []

confirm_token_bind_iff_example : (confirm_token_bind mode alice_bind kerberos_request ≡ ok tt) ↔ (
    (mode ≡ "disabled")
    ⊎ ((alice_bind ≡ []) × ((mode ≡ permissive) ⊎ (mode ≡ strict)))
    ⊎ ((alice_bind ≢ [])
        × (¬ NamesMissing mode alice_bind)
        × All (BindHolds mode kerberos_request) alice_bind))
confirm_token_bind_iff_example = confirm_token_bind_iff mode alice_bind kerberos_request

abbrev rule : Json
rule = obj (
    field "method" (str "GET")
      (field "path" (str "/v2/servers") (field "service" (str "compute") end)))

abbrev restricted : Json
restricted = obj (
    field "application_credential" (obj (field "access_rules" (arr (item rule nil)) end))
      (field "catalog" (arr (item (obj (field "type" (str "compute") end)) nil)) end))

allowed :
    (validate_allowed_request library.re_match (ok (some "compute")) bare_request restricted
      ≡ ok tt)
    × (validate_allowed_request library.re_match (ok (some "image")) bare_request restricted
        ≡ raise invalid_token)
    × (validate_allowed_request library.re_match
          (ok (some "compute"))
          (record bare_request { method = "POST" })
          restricted
        ≡ raise invalid_token)
    × (validate_allowed_request library.re_match
          (ok (some "compute"))
          (record bare_request {
            method = "POST";
            headers = ("X-Service-Token", some "anything") ∷ [];
          })
          restricted
        ≡ ok tt)
unfolding validate_allowed_request check_restricted offers match_rules rule_matches path_rule
    path_matches path_regex get index iterate truthy is_text service_token lookup validates_token
    ends_with parse_regex atoms_of has_char match_atoms step at_end
allowed = (refl, refl, refl, refl)

-- A star stays within a name, two stars do not, and a brace that belongs to no tag is passed over.
pattern_runs :
    (path_matches reference_match "/v2/a/ip" "/v2/*/ip" ≡ ok true)
    × (path_matches reference_match "/v2/a/b/ip" "/v2/*/ip" ≡ ok false)
    × (path_matches reference_match "/v2/a/b/ip" "/v2/**/ip" ≡ ok true)
    × (path_matches reference_match "/v2/7" "/v2/{id}" ≡ ok true)
    × (path_matches reference_match "/v2//" "/v2/{id}/" ≡ ok false)
    × (path_matches reference_match "/v2" "}/v2{" ≡ ok true)
unfolding path_matches parse_regex atoms_of has_char match_atoms step plus star at_end
pattern_runs = (refl, refl, refl, refl, refl, refl)

path_matches_iff_example :
    (path_matches reference_match "/a/7" "/a/*" ≡ ok true) ↔ Matches (tokens false "/a/*") "/a/7"
unfolding tokens has_char
path_matches_iff_example =
    path_matches_iff reference_match "/a/7" "/a/*" reference_match-ReMatch
      (refl, (refl, (refl, tt)))

validate_allowed_request-IsAllowed_example :
    IsAllowed library.re_match (ok (some "compute")) bare_request restricted
validate_allowed_request-IsAllowed_example =
    validate_allowed_request-IsAllowed library.re_match (ok (some "compute")) bare_request
      restricted allowed.0

-- A server that knows one token, never answers about another and refuses the rest.
abbrev replies : String → Result Json
replies token =
    if token == "good"
    then ok (obj (field "user" (str "u1") end))
    else if token == "locked"
    then raise unauthorized
    else raise not_found

abbrev pub remote : Remote (List Bool)
remote = record {
  validate = λ token allow_expired log. (replies token, allow_expired ∷ log);
  has_endpoint = λ version log. (ok true, log);
  invalidate_auth = λ log. log;
  version_match = λ version interface. ok true;
}

abbrev pub identity_options : IdentityOptions
identity_options = record { requested_auth_version = none; requested_auth_interface = some "admin" }

abbrev server : IdentityServer (List Bool)
server = record { adapter_version = some (3, 0); strategy_built = true; world = [] }

-- The second question about a token never allows an expired one.
asked_twice :
    verify_token remote identity_options "locked" true server
    ≡ (raise service_error, record server { world = false ∷ true ∷ [] })
unfolding verify_token verify_token_once
asked_twice = refl

verify_token_lem_example :
    verify_token remote identity_options "locked" true server
    ≡ (raise service_error, record server { world = false ∷ true ∷ [] })
verify_token_lem_example = verify_token_lem remote identity_options "locked" true server refl

verify_token-count_example :
    (verify_token
      (counted remote)
      identity_options
      "locked"
      true
      (record { adapter_version = some (3, 0); strategy_built = true; world = ([], 0) })).1.world.1
    ≤ 0 + 2
verify_token-count_example =
    verify_token-count remote identity_options "locked" true
      (record { adapter_version = some (3, 0); strategy_built = true; world = ([], 0) })
