-- ===== src/AuthProtocol/Setup/Protected.antt =====
-- auth_token/__init__.py: when the token cache of an AuthProtocol is a SecureTokenCache.
use keystonemiddleware.Base.{
  ◌≡◌, subst, ap, ◌∙◌, String, ◌==◌, true, false, none, arith, lower, Bool-cases, inl, inr,
  if◌then◌else◌,
}
use keystonemiddleware.Exec.{
  ok, ok-injective, then_result, continue-eq-ok, read-eq-ok, then_result-eq-ok,
}
use keystonemiddleware.Cache.Tokens.{CacheOptions}
use keystonemiddleware.Config.{
  Value, no_value, text, bool, int, texts, is_true, Config, ConfigLibrary, get,
}
use keystonemiddleware.AuthProtocol.Setup.{
  SetupLibrary, AuthProtocol, TokenCacheOf, token_cache, secure_token_cache,
  make_secure_token_cache, token_cache_factory, cache_options, auth_protocol, strategy_of,
  prepare_protocol, challenge_uri,
}

-- A plain TokenCache is asked for by the strategy none, in any case of its letters, and a
-- SecureTokenCache has the strategy and the secret of the settings, which is not empty.
abbrev pub IsAsConfigured : Config → TokenCacheOf → Type 0
IsAsConfigured conf (token_cache o) =
    (strategy : String) × (get conf "memcache_security_strategy" none ≡ ok (text strategy))
    × (lower strategy == "none" ≡ true)
IsAsConfigured conf (secure_token_cache strategy secret o) =
    (get conf "memcache_security_strategy" none ≡ ok (text strategy))
    × (lower strategy == "none" ≡ false)
    × (get conf "memcache_secret_key" none ≡ ok (text secret))
    × (secret == "" ≡ false)

strategy_of-text : (v : Value) (s : String) → strategy_of v ≡ ok s → v ≡ text s
strategy_of-text v s e = ground arith

make_secure :
    (conf : Config) (strategy : String) (v : Value) (o : CacheOptions) (cache : TokenCacheOf)
    → get conf "memcache_security_strategy" none ≡ ok (text strategy)
    → (lower strategy == "none") ≡ false
    → get conf "memcache_secret_key" none ≡ ok v
    → make_secure_token_cache strategy v o ≡ ok cache
    → IsAsConfigured conf cache
unfolding make_secure_token_cache is_true
make_secure conf strategy no_value o cache named clear secret e = absurd (ground arith)
make_secure conf strategy (text s) o cache named clear secret e = elim (Bool-cases (s == "")) [
  | inl empty ↦ absurd (ground (arith, rw (make_secure_token_cache, empty) at e))
  | inr given ↦
      subst (IsAsConfigured conf) (ok-injective (rw (make_secure_token_cache, given) at e))
        (named, clear, secret, given)
]
make_secure conf strategy (bool b) o cache named clear secret e = absurd (ground arith)
make_secure conf strategy (int n) o cache named clear secret e = absurd (ground arith)
make_secure conf strategy (texts ss) o cache named clear secret e = absurd (ground arith)

by_strategy :
    (conf : Config) (strategy : String) (o : CacheOptions) (cache : TokenCacheOf)
    → get conf "memcache_security_strategy" none ≡ ok (text strategy)
    → (if lower strategy == "none"
        then ok (token_cache o)
        else then_result
            (get conf "memcache_secret_key" none)
            (λ secret. make_secure_token_cache strategy secret o))
      ≡ ok cache
    → IsAsConfigured conf cache
by_strategy conf strategy o cache named e = elim (Bool-cases (lower strategy == "none")) [
  | inl clear ↦
      subst (IsAsConfigured conf) (ok-injective (rw (clear) at e)) (strategy, named, clear)
  | inr secure ↦
      let (v, secret, made) =
        then_result-eq-ok (get conf "memcache_secret_key" none) _ (rw (secure) at e) in
      make_secure conf strategy v o cache named secure secret made
]

pub token_cache_factory-IsAsConfigured :
    (conf : Config) (cache : TokenCacheOf)
    → token_cache_factory conf ≡ ok cache
    → IsAsConfigured conf cache
unfolding token_cache_factory
token_cache_factory-IsAsConfigured conf cache e =
    let (v, read, rest) = then_result-eq-ok (get conf "memcache_security_strategy" none) _ e in
    let (o, _, rest') = then_result-eq-ok (cache_options conf) _ rest in
    let (strategy, texted, made) = then_result-eq-ok (strategy_of v) _ rest' in
    by_strategy conf strategy o cache (read ∙ ap ok (strategy_of-text v strategy texted)) made

module _ {A W : Type 0} (config_library : ConfigLibrary) (lib : SetupLibrary A W) where
  -- An AuthProtocol that could be made has the cache class that its settings ask for.
  pub auth_protocol-IsAsConfigured :
      (conf : Config) (w v : W) (self : AuthProtocol A)
      → auth_protocol config_library lib conf w ≡ (ok self, v)
      → IsAsConfigured self.conf self.cache
  unfolding auth_protocol
  auth_protocol-IsAsConfigured conf w v self e =
      let (p, prepared, rest) = read-eq-ok (prepare_protocol config_library lib conf) w _ e in
      let (uri, t, asked, made) =
        continue-eq-ok (challenge_uri config_library lib p.1.0 p.3 w) _ rest in
      let (cache, factory, same) =
        then_result-eq-ok (token_cache_factory p.1.1) _ (ap (λ r. r.0) made) in
      subst (λ (a : AuthProtocol A). IsAsConfigured a.conf a.cache) (ok-injective same)
        (token_cache_factory-IsAsConfigured p.1.1 cache factory)
