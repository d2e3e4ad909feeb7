-- ===== src/Cache/Tokens.antt =====
-- auth_token/_cache.py: TokenCache and SecureTokenCache, over the clients of a pool.
pub mod Pools
pub mod Lending
pub mod Codecs
pub mod Stored
pub mod Secure
use keystonemiddleware.Base.{
  String, ◌<>◌, Bool, true, false, not, Option, none, some, [], Dict, ◌==◌, ◌&&◌, Bytes, lookup,
  if◌then◌else◌,
}
use keystonemiddleware.Exec.{
  Result, Exec, ok, raise, attribute_error, then_result, lift, pure, throw, ◌>>=◌,
}
use keystonemiddleware.Json.{Json, null}
use keystonemiddleware.Cache.Memory.{ℤ}
use Pools.{Pool, Client, env_cache_pool, memcache_client_pool, cache_pool, reserve}
use Codecs.{Codec}

-- The attributes that `__init__` sets and nothing changes.
pub record CacheOptions : Type 0 where
  pub cache_time : ℤ
  pub env_cache_name : String
  -- `memcached_servers` and `use_advanced_pool`
  pub has_servers : Bool
  pub use_advanced_pool : Bool

-- `jsonutils.dumps` and `loads`, with the text encoded in UTF-8
pub record JsonCodec : Type 0 where
  pub dumps : Json → Bytes
  pub loads : Bytes → Result Json

module _ {C : Type 0} (client : Client C) (o : CacheOptions) where
  -- `_get_cache_pool`, on what the environment holds under the cache's name
  unfoldable pub get_cache_pool : Option C → Pool C
  get_cache_pool (some cache) = env_cache_pool cache
  get_cache_pool none =
      if o.use_advanced_pool && o.has_servers
      then memcache_client_pool client.acquired
      else cache_pool []

  -- The pool is none before `initialize`.
  unfoldable pub initialize : Dict C → Option (Pool C) → Option (Pool C)
  unfolding get_cache_pool
  initialize env (some pool) = some pool
  initialize env none = some (get_cache_pool (lookup o.env_cache_name env))

  module _ (codec : Codec) (json : JsonCodec) where
    -- `with self._cache_pool.reserve() as cache`
    unfoldable pub with_cache : {A : Type 0} → Exec C A → Exec (Option (Pool C)) A
    unfolding reserve
    with_cache m none = (raise attribute_error, none)
    with_cache m (some pool) =
        let (r, pool') = reserve client o.has_servers m pool in (r, some pool')

    abbrev decoded : Option Bytes → Result Json
    decoded none = raise attribute_error
    decoded (some message) = json.loads message

    -- What `get` makes of the client's answer; `None.decode` raises AttributeError.
    unfoldable pub read : String → Option Bytes → Result Json
    read token_id none = ok null
    read token_id (some serialized) = decoded (codec.deserialize token_id serialized)

    unfoldable pub get : String → Exec (Option (Pool C)) Json
    unfolding with_cache read
    get token_id s =
        if token_id == ""
        then (ok null, s)
        else (with_cache (client.get (codec.get_cache_key token_id)) >>= λ serialized.
              lift (read token_id serialized))
            s

    unfoldable pub set : String → Json → Exec (Option (Pool C)) (Unit {0})
    unfolding with_cache
    set token_id v = lift (codec.serialize token_id (json.dumps v)) >>= λ stored.
        with_cache (client.set (codec.get_cache_key token_id) stored o.cache_time)
