-- ===== src/Tests/Middleware.antt =====
-- auth_token/__init__.py: requests that pass the whole middleware, over the toy services.
use keystonemiddleware.Base.{
  All, ◌≡◌, eq_iff, refl, true, false, none, some, [], ◌∷◌, Dict, lookup, insert, erase, erase_all,
  strip, arith, inl, join,
}
use keystonemiddleware.Exec.{
  ok, raise, invalid_token, connect_failure, http_unauthorized, http_service_unavailable,
}
use keystonemiddleware.Json.{Json, str, obj, end, field, index, get, truthy}
use keystonemiddleware.Request.{
  is_given, user_token, service_token, user_token_valid, service_token_valid, set_user_token_valid,
  set_service_token_valid,
}
use keystonemiddleware.Request.AuthHeaders.{copy_deprecated}
use keystonemiddleware.Protocol.Process
use keystonemiddleware.Protocol.Process.{
  Policy, State, process_service_token, process_user_token, attempt, do_fetch_token, end_service,
  end_user, accept_user, accept_service, fail_user, fail_service, is_invalid, role_check_passed,
  check_service, check_user, base_validate_token,
}
use keystonemiddleware.Protocol.Process.Confirmed.{IsAuthenticated, process_request-IsAuthenticated}
use keystonemiddleware.Protocol.Bind.{confirm_token_bind}
use keystonemiddleware.Protocol.Rules.{validate_allowed_request}
use keystonemiddleware.AuthProtocol.{
  plugin_user, methods, prepare, service_status, process_request, fetch_token, validate_token,
}
use keystonemiddleware.AuthProtocol.Outcome.{IsPassed}
use keystonemiddleware.AuthProtocol.Fetch.{
  fetch_token-cached, fetch_token-negative, fetch_token-outage,
}
use keystonemiddleware.AuthProtocol.Enforcement.{process_request-enforced}
use keystonemiddleware.AuthProtocol.Forwarded.{Describes, process_request-Describes}
use keystonemiddleware.AuthProtocol.Forged.{process_request-unforgeable}
use keystonemiddleware.Request.Removal.{identity_headers}
use keystonemiddleware.Request.AuthHeaders.{system_scope_header}
use keystonemiddleware.AuthProtocol.Rejected.{process_request-unauthorized}
use keystonemiddleware.AuthProtocol.Expired.{IsTrusted, process_request-IsTrusted}
use keystonemiddleware.Tests.Fixtures.{
  stale, token_body, bare_request, honest, forger, chained, policy, strict_options, delayed_options,
  library, stale_library, services, services_laws, state_of,
}

-- A good token, and what becomes of the headers that the client sent under the middleware's names.
unfoldable pub behind : State (Dict Json)
unfolding process_request
behind = (process_request strict_options library services (state_of honest)).1

pub passes :
    (process_request strict_options library services (state_of honest) ≡ (ok tt, behind))
    × (user_token_valid behind.request ≡ ok true)
    × (lookup "X-User-Id" behind.request.headers ≡ some (some "u1"))
    × (lookup "X-Role" behind.request.headers ≡ some (some "member,reader"))
unfolding behind process_request Process.process_request process_service_token process_user_token
    attempt do_fetch_token end_service end_user service_token lookup erase_all erase user_token
    fetch_token truthy strip validate_token index validate_allowed_request get confirm_token_bind
    set_user_token_valid set_service_token_valid insert user_token_valid service_token_valid
    copy_deprecated join
passes = (refl, refl, refl, refl)

process_request-enforced_example :
    (passed : IsPassed strict_options library services (state_of honest) behind) × IsAuthenticated
      policy
      (methods strict_options library services)
      (prepare strict_options library services (state_of honest))
      passed.after
    × (service_status strict_options library services passed.after.request ≡ true)
process_request-enforced_example =
    process_request-enforced strict_options library services (state_of honest) behind refl passes.0

process_request-Describes_example :
    (after : State (Dict Json)) × (auth : IsAuthenticated policy
      (methods strict_options library services)
      (prepare strict_options library services (state_of honest))
      after)
    × Describes strict_options library services auth.ref behind.request.headers
process_request-Describes_example =
    process_request-Describes strict_options library services (state_of honest) behind passes.0
      passes.1

-- A bad token, where the decision is left to the application.
unfoldable behind_forged : State (Dict Json)
unfolding process_request
behind_forged = (process_request delayed_options library services (state_of forger)).1

forged_passes :
    (process_request delayed_options library services (state_of forger) ≡ (ok tt, behind_forged))
    × (user_token_valid behind_forged.request ≡ ok false)
unfolding behind_forged process_request Process.process_request process_service_token
    process_user_token attempt do_fetch_token end_service end_user service_token lookup erase_all
    erase user_token fetch_token truthy strip validate_token index validate_allowed_request get
    confirm_token_bind set_user_token_valid set_service_token_valid insert user_token_valid
    service_token_valid copy_deprecated
forged_passes = (refl, refl)

no_service_token : is_given (service_token forger) ≡ false
unfolding service_token lookup
no_service_token = refl

process_request-unforgeable_example :
    All (λ j. lookup j behind_forged.request.headers ≡ none) identity_headers
    × (lookup system_scope_header behind_forged.request.headers
        ≡ lookup system_scope_header forger.headers)
process_request-unforgeable_example =
    process_request-unforgeable delayed_options library services (state_of forger) behind_forged
      forged_passes.0 no_service_token forged_passes.1

bad_token_refused :
    (process_request strict_options library services (state_of forger)).0
    ≡ raise (http_unauthorized (("WWW-Authenticate", "Keystone uri=\"https://keystone\"") ∷ []))
unfolding process_request Process.process_request process_service_token process_user_token attempt
    do_fetch_token end_service end_user service_token lookup erase_all erase user_token fetch_token
    truthy strip validate_token index validate_allowed_request get confirm_token_bind
    set_user_token_valid set_service_token_valid insert user_token_valid service_token_valid
    copy_deprecated
bad_token_refused = refl

no_tokens :
    (is_given (user_token bare_request) ≡ false) × (is_given (service_token bare_request) ≡ false)
unfolding user_token service_token lookup
no_tokens = (refl, refl)

process_request-unauthorized_example :
    (process_request strict_options library services (state_of bare_request)).0
    ≡ raise (http_unauthorized (("WWW-Authenticate", "Keystone uri=\"https://keystone\"") ∷ []))
process_request-unauthorized_example =
    process_request-unauthorized strict_options library services (state_of bare_request) refl
      no_tokens.0 no_tokens.1

-- An expired token of a user, with a service token beside it.
unfoldable behind_chained : State (Dict Json)
unfolding Process.process_request
behind_chained =
    (Process.process_request policy (methods strict_options stale_library services)
      (state_of chained)).1

chained_passes :
    (Process.process_request policy
        (methods strict_options stale_library services)
        (state_of chained)
      ≡ (ok tt, behind_chained))
    × (is_given (user_token chained) ≡ true)
    × (user_token_valid behind_chained.request ≡ ok true)
unfolding behind_chained process_request Process.process_request process_service_token
    process_user_token attempt do_fetch_token end_service end_user service_token lookup erase_all
    erase user_token fetch_token truthy strip validate_token index validate_allowed_request get
    confirm_token_bind set_user_token_valid set_service_token_valid insert user_token_valid
    service_token_valid copy_deprecated
chained_passes = (refl, refl, refl)

stale_user :
    plugin_user strict_options stale_library services behind_chained.request.token_auth ≡ some stale
unfolding behind_chained process_request Process.process_request process_service_token
    process_user_token attempt do_fetch_token end_service end_user service_token lookup erase_all
    erase user_token fetch_token truthy strip validate_token index validate_allowed_request get
    confirm_token_bind set_user_token_valid set_service_token_valid insert user_token_valid
    service_token_valid copy_deprecated
stale_user = refl

process_request-IsAuthenticated_example :
    IsAuthenticated policy
      (methods strict_options stale_library services)
      (state_of chained)
      behind_chained
process_request-IsAuthenticated_example =
    process_request-IsAuthenticated policy (methods strict_options stale_library services)
      (state_of chained) behind_chained chained_passes.0 chained_passes.1 chained_passes.2

process_request-IsTrusted_example :
    IsTrusted strict_options stale_library services (state_of chained)
process_request-IsTrusted_example =
    process_request-IsTrusted strict_options stale_library services (state_of chained)
      behind_chained chained_passes.0 chained_passes.1 chained_passes.2 stale_user refl

fetch_token-cached_example :
    ((fetch_token services false "good" false []).0 ≡ ok token_body)
    × (fetch_token services false "good" true (fetch_token services false "good" false []).1 ≡ (
      ok token_body,
      (services.cache_get "good" (fetch_token services false "good" false []).1).1,
    ))
unfolding lookup
fetch_token-cached_example =
    fetch_token-cached services false "good" (ground (arith, eq_iff "good" ""))
      (obj (field "user" (str "u1") end)) (services_laws token_body) false true [] [] [] refl refl

fetch_token-negative_example :
    let first = fetch_token services true "bad" false [] in
    (first.0 ≡ raise invalid_token)
    × (fetch_token services true "bad" true first.1 ≡ (
      raise invalid_token,
      (services.cache_set "bad" (str "invalid") (services.cache_get "bad" first.1).1).1,
    ))
unfolding lookup
fetch_token-negative_example =
    fetch_token-negative services true "bad" (ground (arith, eq_iff "bad" ""))
      (services_laws (str "invalid")) false true [] [] [] refl refl

fetch_token-outage_example :
    fetch_token services false "down" false [] ≡ (raise http_service_unavailable, [])
unfolding lookup
fetch_token-outage_example =
    fetch_token-outage services false "down" false connect_failure [] [] [] refl refl (inl refl)
