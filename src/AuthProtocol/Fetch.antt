-- ===== src/AuthProtocol/Fetch.antt =====
-- auth_token/__init__.py: what `fetch_token` answers from the cache and from the identity server.
use keystonemiddleware.Base.{◌≡◌, refl, ap, ◌≢◌, ◌⊎◌, String, Bool, true, arith, if◌then◌else◌}
use keystonemiddleware.Exec.{
  Exception, Result, ok, raise, invalid_token, service_error, connect_failure, discovery_failure,
  request_timeout, http_service_unavailable, continue,
}
use keystonemiddleware.Json.{Json, null, obj, field, end, truthy, is_text}
use keystonemiddleware.AuthProtocol.{
  Services, invalid_indicator, len, read_cached, look_up, recover, fetch_token,
}

-- What the middleware relies on in its token cache: the value is there once it was stored.
pub record CacheLaws {R : Type 0} (services : Services R) (v : Json) : Type 0 where
  pub set_returns : (token : String) (s : R) → (services.cache_set token v s).0 ≡ ok tt
  pub get-set :
      (token : String) (s : R)
      → token ≢ ""
      → (services.cache_get token (services.cache_set token v s).1).0 ≡ ok v

-- The identity server, or the way to it, failed.
abbrev pub IsOutage : Exception → Type 0
IsOutage e =
    (e ≡ connect_failure) ⊎ (e ≡ discovery_failure) ⊎ (e ≡ request_timeout) ⊎ (e ≡ service_error)

module _ {R : Type 0} (services : Services R) (delay : Bool) where
  module _ (token : String) (allow_expired : Bool) where
    look_up-miss :
        (r : Result Json) (s t u : R)
        → services.cache_get token s ≡ (ok null, t)
        → services.verify_token token allow_expired t ≡ (r, u)
        → look_up services token allow_expired s
          ≡ continue
              (r, u)
              (λ body v. continue (services.cache_set token body v) (λ _ w. (ok body, w)))
    unfolding look_up truthy
    look_up-miss (ok body) s t u miss asked = ground arith
    look_up-miss (raise e) s t u miss asked = ground arith

    look_up-hit :
        (cached : Json) (s t : R)
        → services.cache_get token s ≡ (ok cached, t)
        → truthy cached ≡ true
        → look_up services token allow_expired s ≡ (read_cached cached, t)
    unfolding look_up
    look_up-hit cached s t hit there = ground arith

    -- When the token is not cached and the identity server, or the way to it, fails, fetch_token
    -- raises HTTPServiceUnavailable, or InvalidToken where the decision is delayed, and stores nothing:
    -- an outage marks no token as invalid.
    pub fetch_token-outage :
        (e : Exception) (s t u : R)
        → services.cache_get token s ≡ (ok null, t)
        → services.verify_token token allow_expired t ≡ (raise e, u)
        → IsOutage e
        → fetch_token services delay token allow_expired s
          ≡ (raise (if delay then invalid_token else http_service_unavailable), u)
    unfolding fetch_token recover
    fetch_token-outage e s t u miss asked outage =
        rw (look_up-miss (raise e) s t u miss asked) (by_class e outage)
      where
        by_class :
            (x : Exception)
            → IsOutage x
            → recover services delay token (raise x, u)
              ≡ (raise (if delay then invalid_token else http_service_unavailable), u)
        by_class connect_failure o = refl
        by_class discovery_failure o = refl
        by_class request_timeout o = refl
        by_class service_error o = refl
        by_class _ o = absurd (ground arith)

    -- A cached token that is marked as invalid is refused, and the server is not asked.
    fetch_token-marked :
        (s t : R)
        → services.cache_get token s ≡ (ok invalid_indicator, t)
        → (services.cache_set token invalid_indicator t).0 ≡ ok tt
        → fetch_token services delay token allow_expired s
          ≡ (raise invalid_token, (services.cache_set token invalid_indicator t).1)
    unfolding fetch_token recover read_cached is_text truthy
    fetch_token-marked s t hit stored =
        rw (look_up-hit invalid_indicator s t hit refl) (ground arith)

    fetch_token-stored :
        (ref : Json) (s t : R)
        → services.cache_get token s ≡ (ok (obj (field "token" ref end)), t)
        → fetch_token services delay token allow_expired s ≡ (ok (obj (field "token" ref end)), t)
    unfolding fetch_token recover read_cached is_text truthy len
    fetch_token-stored ref s t hit =
        rw (look_up-hit (obj (field "token" ref end)) s t hit refl) refl

  module _ (token : String) (given : token ≢ "") where
    got :
        (v : Json) (laws : CacheLaws services v) (s : R)
        → services.cache_get token (services.cache_set token v s).1
          ≡ (ok v, (services.cache_get token (services.cache_set token v s).1).1)
    got v laws s = ground (arith, laws.get-set token s given)

    pub answered :
        (ref : Json) (laws : CacheLaws services (obj (field "token" ref end)))
        (allow_expired : Bool) (s t u : R)
        → services.cache_get token s ≡ (ok null, t)
        → services.verify_token token allow_expired t ≡ (ok (obj (field "token" ref end)), u)
        → fetch_token services delay token allow_expired s ≡ (
          ok (obj (field "token" ref end)),
          (services.cache_set token (obj (field "token" ref end)) u).1,
        )
    unfolding fetch_token recover
    answered ref laws allow_expired s t u miss asked =
        let body = obj (field "token" ref end) in
        rw (look_up-miss token allow_expired (ok body) s t u miss asked)
          (ground (arith, laws.set_returns token u))

    refused :
        (laws : CacheLaws services invalid_indicator) (allow_expired : Bool) (s t u : R)
        → services.cache_get token s ≡ (ok null, t)
        → services.verify_token token allow_expired t ≡ (raise invalid_token, u)
        → fetch_token services delay token allow_expired s
          ≡ (raise invalid_token, (services.cache_set token invalid_indicator u).1)
    unfolding fetch_token recover
    refused laws allow_expired s t u miss asked =
        rw (look_up-miss token allow_expired (raise invalid_token) s t u miss asked)
          (ground (arith, laws.set_returns token u))

    -- A token that the identity server confirms is stored: if the cache keeps what the server said, later
    -- calls answer the same data from the cache, and neither ask the server nor look at allow_expired.
    pub fetch_token-cached :
        (ref : Json) (laws : CacheLaws services (obj (field "token" ref end)))
        (allow_expired allow_later : Bool) (s t u : R)
        → services.cache_get token s ≡ (ok null, t)
        → services.verify_token token allow_expired t ≡ (ok (obj (field "token" ref end)), u)
        → ((fetch_token services delay token allow_expired s).0 ≡ ok (obj (field "token" ref end)))
          × (fetch_token services delay token allow_later
                (fetch_token services delay token allow_expired s).1
              ≡ (
                ok (obj (field "token" ref end)),
                (services.cache_get token (fetch_token services delay token allow_expired s).1).1,
              ))
    fetch_token-cached ref laws allow_expired allow_later s t u miss asked =
        let first = answered ref laws allow_expired s t u miss asked in
        (
          ap (λ r. r.0) first,
          rw (first) (
              fetch_token-stored token allow_later ref _ _
                (got (obj (field "token" ref end)) laws u)),
        )

    -- A token that the identity server refuses is marked: if the cache keeps the mark, later calls refuse
    -- it, also where they would allow an expired token, and do not ask the server: all that they do is
    -- to look the mark up and to store it again.
    pub fetch_token-negative :
        (laws : CacheLaws services invalid_indicator) (allow_expired allow_later : Bool) (s t u : R)
        → services.cache_get token s ≡ (ok null, t)
        → services.verify_token token allow_expired t ≡ (raise invalid_token, u)
        → let first = fetch_token services delay token allow_expired s in
          (first.0 ≡ raise invalid_token)
          × (fetch_token services delay token allow_later first.1 ≡ (
            raise invalid_token,
            (services.cache_set token invalid_indicator (services.cache_get token first.1).1).1,
          ))
    fetch_token-negative laws allow_expired allow_later s t u miss asked =
        let first = refused laws allow_expired s t u miss asked in
        (
          ap (λ r. r.0) first,
          rw (first) (
              fetch_token-marked token allow_later _ _ (got invalid_indicator laws u)
                (laws.set_returns token _)),
        )
