-- ===== src/Cache/Tokens/Stored.antt =====
-- auth_token/_cache.py: `get` after `set` in TokenCache, and _FakeClient as its client.
use keystonemiddleware.Base.{
  ◌≡◌, refl, ◌≢◌, ap, ◌∙◌, ℕ, String, false, Option, some, [], ◌∷◌, ◌==◌, eq_iff, Bytes, AreBytes,
  arith, Bool-cases, inl, inr, lookup, lookup-insert_self,
}
use keystonemiddleware.Exec.{ok}
use keystonemiddleware.Json.{Json}
use keystonemiddleware.Cache.Memory
use keystonemiddleware.Cache.Memory.{ℤ, pos, Entries, is_expired, expunge, timeout_at}
use keystonemiddleware.Cache.Memory.Promise.{is_expired-timeout_at}
use keystonemiddleware.Cache.Tokens.{CacheOptions, JsonCodec, with_cache, read, get, set}
use keystonemiddleware.Cache.Tokens.Pools.{
  Pool, Client, env_cache_pool, memcache_client_pool, cache_pool, reserve,
}
use keystonemiddleware.Cache.Tokens.Codecs.{Codec, plain_codec}

-- A client that keeps what it is given for at least a moment.
pub record ClientLaws {C : Type 0} (client : Client C) (time : ℤ) : Type 0 where
  pub set_returns : (key : String) (v : Bytes) (c : C) → (client.set key v time c).0 ≡ ok tt
  pub get-set :
      (key : String) (v : Bytes) (c : C)
      → (client.get key (client.set key v time c).1).0 ≡ ok (some v)

-- A codec whose keys and values are its own.
abbrev pub RoundTrips : Codec → Type 0
RoundTrips codec =
    (token_id : String) (message : Bytes)
    → AreBytes message
    → (stored : Bytes) × (codec.serialize token_id message ≡ ok stored)
      × (codec.deserialize token_id stored ≡ some message)

module _ {C : Type 0} (client : Client C) (o : CacheOptions)
    (laws : ClientLaws client o.cache_time) where
  pub reserve-set :
      (key : String) (v : Bytes) (pool : Pool C)
      → (reserve client o.has_servers (client.set key v o.cache_time) pool).0 ≡ ok tt
  unfolding reserve
  reserve-set key v (env_cache_pool c) = laws.set_returns key v c
  reserve-set key v (memcache_client_pool c) = laws.set_returns key v c
  reserve-set key v (cache_pool []) = laws.set_returns key v _
  reserve-set key v (cache_pool (c ∷ cs)) = laws.set_returns key v c

  reserve-get-set :
      (key : String) (v : Bytes) (pool : Pool C)
      → (reserve client o.has_servers
          (client.get key)
          (reserve client o.has_servers (client.set key v o.cache_time) pool).1).0
        ≡ ok (some v)
  unfolding reserve
  reserve-get-set key v (env_cache_pool c) = laws.get-set key v c
  reserve-get-set key v (memcache_client_pool c) = laws.get-set key v c
  reserve-get-set key v (cache_pool []) = laws.get-set key v _
  reserve-get-set key v (cache_pool (c ∷ cs)) = laws.get-set key v c

  -- What set stores under a token, get answers, through every kind of pool, if the client keeps values,
  -- the codec undoes what it does, the value's JSON is bytes and read as it was written, and the token
  -- is not empty.
  pub get-set_stored :
      (codec : Codec) (json : JsonCodec) (token_id : String) (v : Json) (pool : Pool C)
      → RoundTrips codec
      → AreBytes (json.dumps v)
      → json.loads (json.dumps v) ≡ ok v
      → token_id ≢ ""
      → ((set client o codec json token_id v (some pool)).0 ≡ ok tt)
        × ((get client o codec json token_id (set client o codec json token_id v (some pool)).1).0
            ≡ ok v)
  unfolding get set with_cache read
  get-set_stored codec json token_id v pool round bytes loaded given =
      let (stored, serialized, deserialized) = round token_id (json.dumps v) bytes in
      let key = codec.get_cache_key token_id in
      let there : (token_id == "") ≡ false = ground (arith, eq_iff token_id "") in
      rw
        (
          serialized,
          there,
          reserve-set key stored pool,
          reserve-get-set key stored pool,
          deserialized,
          loaded,
        )
        (refl, refl)

-- _FakeClient as a client, at one time.
abbrev pub memory_client : ℕ → Client (Entries Bytes)
memory_client now = record {
  get = λ key c. let (v, c') = Memory.get now key c in (ok v, c');
  set = λ key v time c. (ok tt, Memory.set now key v time c);
  new_memcache = [];
  new_fake = [];
  acquired = [];
}

lookup-expunge_alive :
    (now : ℕ) (key : String) (cache : Entries Bytes) (timeout : ℤ) (v : Bytes)
    → lookup key cache ≡ some (timeout, v)
    → is_expired now timeout ≡ false
    → lookup key (expunge now cache) ≡ some (timeout, v)
unfolding lookup expunge
lookup-expunge_alive now key [] timeout v there alive = there
lookup-expunge_alive now key ((k, (t, w)) ∷ cache) timeout v there alive =
    elim (Bool-cases (k == key)) [
      | inl here ↦
          let same : ◌≡◌ {A = Option (ℤ × Bytes)} (some (t, w)) (some (timeout, v)) =
            rw (here) at there in
          let alive' : is_expired now t ≡ false = ground (arith, same) in rw (alive', here) same
      | inr other ↦ elim (Bool-cases (is_expired now t)) [
        | inl gone ↦
            rw (gone) (lookup-expunge_alive now key cache timeout v (rw (other) at there) alive)
        | inr kept ↦
            rw (kept, other)
              (lookup-expunge_alive now key cache timeout v (rw (other) at there) alive)
      ]
    ]

get-set_now :
    (now time : ℕ) (key : String) (v : Bytes) (c : Entries Bytes)
    → (Memory.get now key (Memory.set now key v (pos time) c)).0 ≡ some v
unfolding Memory.get Memory.set
get-set_now now time key v c =
    rw
      (lookup-expunge_alive now key (Memory.set now key v (pos time) c) (timeout_at now (pos time))
        v (lookup-insert_self key _ c) (is_expired-timeout_at now now time ∙ ground arith))
      refl

pub memory_client-ClientLaws : (now time : ℕ) → ClientLaws (memory_client now) (pos time)
unfolding Memory.get Memory.set
memory_client-ClientLaws now time = record {
  set_returns = λ key v c. refl;
  get-set = λ key v c. ap ok (get-set_now now time key v c);
}

pub plain_codec-RoundTrips : (hash_key : String → String) → RoundTrips (plain_codec hash_key)
unfolding plain_codec
plain_codec-RoundTrips hash_key token_id message bytes = (message, refl, refl)
