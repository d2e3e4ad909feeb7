-- ===== src/AuthProtocol/Assembled.antt =====
-- auth_token/__init__.py: AuthProtocol with its own TokenCache and IdentityServer, as `__init__` puts them
-- together, from the first request on.
pub mod Asked
use keystonemiddleware.Base.{◌≡◌, ◌≢◌, String, AreBytes, Option, none, some}
use keystonemiddleware.Exec.{Exec, ok}
use keystonemiddleware.Json.{Json}
use keystonemiddleware.Identity
use keystonemiddleware.Identity.{Remote, IdentityOptions, IdentityServer}
use keystonemiddleware.Cache.Tokens
use keystonemiddleware.Cache.Tokens.{CacheOptions, JsonCodec}
use keystonemiddleware.Cache.Tokens.Pools.{Pool, Client}
use keystonemiddleware.Cache.Tokens.Codecs.{Codec}
use keystonemiddleware.Cache.Tokens.Stored.{ClientLaws, RoundTrips, reserve-set, get-set_stored}
use keystonemiddleware.AuthProtocol.{Services}
use keystonemiddleware.AuthProtocol.Fetch.{CacheLaws}

module _ {C W : Type 0} (client : Client C) (o : CacheOptions) (codec : Codec) (json : JsonCodec)
    (remote : Remote W) (options : IdentityOptions) where
  abbrev pool_of : Pool C → Option (Pool C) → Pool C
  pool_of pool none = pool
  pool_of _ (some pool) = pool

  -- A method of the cache or of the server, over both objects.
  abbrev on_cache : {A : Type 0} → Exec (Option (Pool C)) A → Exec (Pool C × IdentityServer W) A
  on_cache m (pool, server) = let (r, after) = m (some pool) in (r, (pool_of pool after, server))

  abbrev on_server : {A : Type 0} → Exec (IdentityServer W) A → Exec (Pool C × IdentityServer W) A
  on_server m (pool, server) = let (r, after) = m server in (r, (pool, after))

  -- The cache is initialised, so that `initialize` does nothing any more.
  unfoldable pub assembled : Services (Pool C × IdentityServer W)
  assembled = record {
    initialize = λ caches s. s;
    cache_get = λ token. on_cache (Tokens.get client o codec json token);
    cache_set = λ token v. on_cache (Tokens.set client o codec json token v);
    verify_token =
        λ token allow_expired. on_server (Identity.verify_token remote options token allow_expired);
    invalidate = λ s. (s.0, Identity.invalidate remote options s.1);
  }

  module _ (laws : ClientLaws client o.cache_time) (round : RoundTrips codec) (v : Json)
      (bytes : AreBytes (json.dumps v)) (loaded : json.loads (json.dumps v) ≡ ok v) where
    set_returns :
        (token : String) (s : Pool C × IdentityServer W) → (assembled.cache_set token v s).0 ≡ ok tt
    unfolding assembled Tokens.set Tokens.with_cache
    set_returns token (pool, server) =
        let (stored, serialized, _) = round token (json.dumps v) bytes in
        rw (serialized) (reserve-set client o laws (codec.get_cache_key token) stored pool)

    get-set :
        (token : String) (s : Pool C × IdentityServer W)
        → token ≢ ""
        → (assembled.cache_get token (assembled.cache_set token v s).1).0 ≡ ok v
    unfolding assembled Tokens.set Tokens.with_cache
    get-set token (pool, server) given =
        let (stored, serialized, _) = round token (json.dumps v) bytes in
        rw (serialized) (
          rw (serialized) at
            (get-set_stored client o laws codec json token v pool round bytes loaded given).1)

    -- TokenCache is what AuthProtocol relies on.
    pub assembled-CacheLaws : CacheLaws assembled v
    assembled-CacheLaws = record { set_returns = set_returns; get-set = get-set }
