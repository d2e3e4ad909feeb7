-- ===== src/Cache/Tokens/Pools.antt =====
-- auth_token/_cache.py: the pools that lend a client for one operation.
use keystonemiddleware.Base.{String, Bool, Option, List, [], ◌∷◌, Bytes, if◌then◌else◌}
use keystonemiddleware.Exec.{Result, Exec}
use keystonemiddleware.Cache.Memory.{ℤ}

-- The clients: memcached's, _FakeClient, or one that the environment holds.
pub record Client (C : Type 0) : Type 0 where
  pub get : String → Exec C (Option Bytes)
  pub set : String → Bytes → ℤ → Exec C (Unit {0})
  -- `memcache.Client(self._memcached_servers, debug=0)`
  pub new_memcache : C
  -- `_FakeClient()`
  pub new_fake : C
  -- what oslo.cache's pool lends
  pub acquired : C

pub data Pool (C : Type 0) : Type 0 where
  env_cache_pool : C → Pool C
  memcache_client_pool : C → Pool C
  -- The list's end, where clients are taken and put back, stands first.
  cache_pool : List C → Pool C

module _ {C : Type 0} (client : Client C) (has_servers : Bool) where
  abbrev pub new_client : C
  new_client = if has_servers then client.new_memcache else client.new_fake

  abbrev returned : {A : Type 0} → (C → Pool C) → Result A × C → Result A × Pool C
  returned f (r, c) = (r, f c)

  -- A pool's `reserve`, around one operation: the client goes back whatever the operation raises.
  unfoldable pub reserve : {A : Type 0} → Exec C A → Exec (Pool C) A
  reserve m (env_cache_pool c) = returned env_cache_pool (m c)
  reserve m (memcache_client_pool c) = returned memcache_client_pool (m c)
  reserve m (cache_pool []) = returned (λ c. cache_pool (c ∷ [])) (m new_client)
  reserve m (cache_pool (c ∷ cs)) = returned (λ c'. cache_pool (c' ∷ cs)) (m c)
