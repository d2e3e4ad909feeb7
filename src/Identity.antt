-- ===== src/Identity.antt =====
-- auth_token/_identity.py: IdentityServer, which asks the identity server about tokens. What it calls,
-- keystoneauth1's adapter and keystoneclient's tokens.validate, works on a world of its own.
pub mod Laws
pub mod Asked
use keystonemiddleware.Base.{ℕ, String, Bool, true, false, Option, none, some, if◌then◌else◌}
use keystonemiddleware.Exec.{
  Exception, Result, Exec, then_result, continue, ok, raise, invalid_token, service_error,
  not_found, unauthorized, http_error, throw, ◌>>=◌,
}
use keystonemiddleware.Urls.{root, rstrip_slashes}
use keystonemiddleware.Json.{Json, obj, end, field, truthy}

abbrev pub Version : Type 0
Version = ℕ × ℕ

-- `_V3RequestStrategy.AUTH_VERSION`
abbrev pub v3 : Version
v3 = (3, 0)

-- The calls that leave the middleware.
pub record Remote (W : Type 0) : Type 0 where
  -- keystoneclient's `tokens.validate`, and what it raises: with the token and `allow_expired`
  pub validate : String → Bool → Exec W Json
  -- the adapter's `get_endpoint(version=…)`: whether there is one
  pub has_endpoint : Version → Exec W Bool
  -- the adapter's `invalidate`
  pub invalidate_auth : W → W
  -- keystoneauth1's `discover.version_match`, on whatever it is given
  pub version_match : Version → Option String → Result Bool

-- The attributes that nothing changes.
pub record IdentityOptions : Type 0 where
  pub requested_auth_version : Option Version
  pub requested_auth_interface : Option String

pub record IdentityServer (W : Type 0) : Type 0 where
  -- the version that the adapter asks for
  pub adapter_version : Option Version
  -- `_request_strategy_obj` is built
  pub strategy_built : Bool
  pub world : W

-- The handlers of `verify_token`; `again` is what follows on an Unauthorized.
unfoldable pub handled :
    {W : Type 0}
    → Exec (IdentityServer W) Json
    → Result Json × IdentityServer W
    → Result Json × IdentityServer W
handled again (ok body, s) = (ok body, s)
handled again (raise not_found, s) = (raise invalid_token, s)
handled again (raise unauthorized, s) = again s
handled again (raise http_error, s) = (raise service_error, s)
handled again (raise e, s) = (raise e, s)

-- The `isinstance` test of `www_authenticate_uri`: an AuthTokenPlugin's URI is cut to its root.
abbrev root_of : Option String → Result (Option String)
root_of none = ok (some "")
root_of (some uri) = then_result (root uri) (λ base. ok (some (rstrip_slashes base)))

-- `www_authenticate_uri`, on the adapter's `get_endpoint(interface=AUTH_INTERFACE)`
unfoldable pub www_authenticate_uri :
    {W : Type 0} → Bool → Exec W (Option String) → Exec W (Option String)
www_authenticate_uri legacy auth_endpoint w =
    continue (auth_endpoint w) (λ uri t. (if legacy then root_of uri else ok uri, t))

module _ {W : Type 0} (remote : Remote W) (options : IdentityOptions) where
  abbrev pub in_world : {A : Type 0} → Exec W A → Exec (IdentityServer W) A
  in_world m s = let (r, w) = m s.world in (r, record s { world = w })

  abbrev logged_match : Result Bool → Result Version
  logged_match (ok _) = ok v3
  logged_match (raise e) = raise e

  abbrev discovered : Bool → Exec (IdentityServer W) Version
  discovered true s = (ok v3, s)
  discovered false s = (raise service_error, s)

  -- The interface stands where the requested version is meant.
  unfoldable pub get_strategy_class : Exec (IdentityServer W) Version
  get_strategy_class s = elim options.requested_auth_version [
    | some _ ↦ (logged_match (remote.version_match v3 options.requested_auth_interface), s)
    | none ↦ (in_world (remote.has_endpoint v3) >>= discovered) s
  ]

  abbrev build_strategy : Version → Exec (IdentityServer W) (Unit {0})
  build_strategy version s =
      (ok tt, record s { adapter_version = some version; strategy_built = true })

  -- the `_request_strategy` property
  unfoldable pub request_strategy : Exec (IdentityServer W) (Unit {0})
  unfolding get_strategy_class
  request_strategy s =
      if s.strategy_built then (ok tt, s) else (get_strategy_class >>= build_strategy) s

  abbrev wrap_token : Json → Exec (IdentityServer W) Json
  wrap_token auth_ref s =
      if truthy auth_ref
      then (ok (obj (field "token" auth_ref end)), s)
      else (raise invalid_token, s)

  -- `_V3RequestStrategy.verify_token`
  unfoldable pub strategy_verify_token : String → Bool → Exec (IdentityServer W) Json
  strategy_verify_token token allow_expired =
      in_world (remote.validate token allow_expired) >>= wrap_token

  abbrev pub ask : String → Bool → Exec (IdentityServer W) Json
  ask token allow_expired = request_strategy >>= λ _. strategy_verify_token token allow_expired

  -- `verify_token` with `retry=False`
  unfoldable pub verify_token_once : String → Bool → Exec (IdentityServer W) Json
  unfolding handled request_strategy strategy_verify_token
  verify_token_once token allow_expired s =
      handled (throw service_error) (ask token allow_expired s)

  -- `verify_token`, whose retry is `self.verify_token(user_token, False)`
  unfoldable pub verify_token : String → Bool → Exec (IdentityServer W) Json
  unfolding handled request_strategy strategy_verify_token
  verify_token token allow_expired s =
      handled (verify_token_once token false) (ask token allow_expired s)

  unfoldable pub invalidate : IdentityServer W → IdentityServer W
  invalidate s = record s { world = remote.invalidate_auth s.world }
