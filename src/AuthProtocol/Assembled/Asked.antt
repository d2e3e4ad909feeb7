-- ===== src/AuthProtocol/Assembled/Asked.antt =====
-- auth_token: how often AuthProtocol with its own cache asks the identity server about a token.
use keystonemiddleware.Base.{
  ◌≡◌, refl, sym, subst, ap, ◌∙◌, ◌≢◌, ℕ, ◌+◌, ◌≤◌, String, Bool, AreBytes, arith,
}
use keystonemiddleware.Exec.{ok}
use keystonemiddleware.Json.{Json, obj, field, end, null}
use keystonemiddleware.Identity.{Remote, IdentityOptions, IdentityServer}
use keystonemiddleware.Identity.Asked.{counted, verify_token-count}
use keystonemiddleware.Cache.Tokens.{CacheOptions, JsonCodec}
use keystonemiddleware.Cache.Tokens.Pools.{Pool, Client}
use keystonemiddleware.Cache.Tokens.Codecs.{Codec}
use keystonemiddleware.Cache.Tokens.Stored.{ClientLaws, RoundTrips}
use keystonemiddleware.AuthProtocol.{Services, fetch_token}
use keystonemiddleware.AuthProtocol.Fetch.{answered, fetch_token-cached}
use keystonemiddleware.AuthProtocol.Assembled.{assembled, assembled-CacheLaws}

module _ {C W : Type 0} (client : Client C) (o : CacheOptions) (codec : Codec) (json : JsonCodec)
    (remote : Remote W) (options : IdentityOptions) where
  abbrev protocol : Services (Pool C × IdentityServer (W × ℕ))
  protocol = assembled client o codec json (counted remote) options

  -- The questions so far.
  abbrev pub asked : Pool C × IdentityServer (W × ℕ) → ℕ
  asked s = s.1.world.1

  cache_get-server :
      (token : String) (s : Pool C × IdentityServer (W × ℕ))
      → (protocol.cache_get token s).1.1 ≡ s.1
  unfolding assembled
  cache_get-server token (pool, server) = refl

  cache_set-server :
      (token : String) (v : Json) (s : Pool C × IdentityServer (W × ℕ))
      → (protocol.cache_set token v s).1.1 ≡ s.1
  unfolding assembled
  cache_set-server token v (pool, server) = refl

  verify_token-asked :
      (token : String) (allow_expired : Bool) (s : Pool C × IdentityServer (W × ℕ))
      → asked (protocol.verify_token token allow_expired s).1 ≤ asked s + 2
  unfolding assembled
  verify_token-asked token allow_expired (pool, server) =
      verify_token-count remote options token allow_expired server

  module _ (laws : ClientLaws client o.cache_time) (round : RoundTrips codec) (ref : Json)
      (bytes : AreBytes (json.dumps (obj (field "token" ref end))))
      (loaded : json.loads (json.dumps (obj (field "token" ref end)))
        ≡ ok (obj (field "token" ref end))) where
    -- A token that is not cached and that the identity server confirms costs its two questions at most,
    -- also where it comes again: a later fetch answers the same and leaves the server alone, if the cache's
    -- client keeps values, the codec undoes what it does, and the token's JSON is bytes and read as it was written.
    pub fetch_token-asked :
        (delay : Bool) (token : String) (allow_expired allow_later : Bool)
        (s t u : Pool C × IdentityServer (W × ℕ))
        → token ≢ ""
        → protocol.cache_get token s ≡ (ok null, t)
        → protocol.verify_token token allow_expired t ≡ (ok (obj (field "token" ref end)), u)
        → let (answer, after) = fetch_token protocol delay token allow_expired s in
          let (later, after_later) = fetch_token protocol delay token allow_later after in
          (answer ≡ ok (obj (field "token" ref end)))
          × (later ≡ answer)
          × (after_later.1 ≡ after.1)
          × (asked after_later ≤ asked s + 2)
    fetch_token-asked delay token allow_expired allow_later s t u given miss confirmed =
        let body = obj (field "token" ref end) in
        let cache =
          assembled-CacheLaws client o codec json (counted remote) options laws round body bytes
            loaded in
        let first =
          answered protocol delay token given ref cache allow_expired s t u miss confirmed in
        let (fetched, again) =
          fetch_token-cached protocol delay token given ref cache allow_expired allow_later s t u
            miss confirmed in
        let after = (fetch_token protocol delay token allow_expired s).1 in
        let alone : (fetch_token protocol delay token allow_later after).1.1 ≡ after.1 =
          ap (λ r. r.1.1) again ∙ cache_get-server token after in
        let stored : after.1 ≡ u.1 = ap (λ r. r.1.1) first ∙ cache_set-server token body u in
        let before : t.1 ≡ s.1 = ap (λ r. r.1.1) (sym miss) ∙ cache_get-server token s in
        let counts : asked u ≤ asked t + 2 =
          subst (λ r. asked r.1 ≤ asked t + 2) confirmed
            (verify_token-asked token allow_expired t) in
        (
          fetched,
          ap (λ r. r.0) again ∙ sym fetched,
          alone,
          omega (
            arith,
            counts,
            ap (λ r. r.world.1) alone,
            ap (λ r. r.world.1) stored,
            ap (λ r. r.world.1) before,
          ),
        )
