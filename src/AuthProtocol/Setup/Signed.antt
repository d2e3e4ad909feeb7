-- ===== src/AuthProtocol/Setup/Signed.antt =====
-- auth_token/__init__.py and auth_token/_cache.py: what the token cache of an AuthProtocol believes of
-- the data in the cache.
use keystonemiddleware.Base.{
  ◌≡◌, subst, ◌∙◌, sym, ◌⊎◌, String, ◌==◌, false, Option, none, inl, inr, Bytes, arith, lower,
}
use keystonemiddleware.Exec.{ok}
use keystonemiddleware.Json.{Json, null}
use keystonemiddleware.Crypt.{Primitives}
use keystonemiddleware.Crypt.Laws.{PrimitivesLaws}
use keystonemiddleware.Cache.Tokens.{CacheOptions, JsonCodec, get as cached}
use keystonemiddleware.Cache.Tokens.Pools.{Pool, Client}
use keystonemiddleware.Cache.Tokens.Codecs.{Codec, plain_codec, secure_codec}
use keystonemiddleware.Cache.Tokens.Secure.{IsSigned, get-IsSigned}
use keystonemiddleware.Config.{Config, ConfigLibrary, get, text}
use keystonemiddleware.AuthProtocol.Setup.{
  SetupLibrary, AuthProtocol, TokenCacheOf, token_cache, secure_token_cache, auth_protocol,
}
use keystonemiddleware.AuthProtocol.Setup.Protected.{IsAsConfigured, auth_protocol-IsAsConfigured}

text-injective : (a b : String) → ok (text a) ≡ ok (text b) → a ≡ b
text-injective a b e = ground arith

abbrev pub options_of : TokenCacheOf → CacheOptions
options_of (token_cache o) = o
options_of (secure_token_cache _ _ o) = o

-- The methods of the two cache classes; SecureTokenCache encodes its settings.
unfoldable pub codec_of :
    Primitives
    → (String → Bytes)
    → (Bytes → String)
    → (String → Bytes → Bytes)
    → (String → String)
    → TokenCacheOf
    → Codec
codec_of prim utf8 text_of urandom hash_key (token_cache _) = plain_codec hash_key
codec_of prim utf8 text_of urandom hash_key (secure_token_cache strategy secret _) =
    secure_codec prim utf8 text_of urandom (utf8 strategy) (utf8 secret)

module _ (prim : Primitives) (laws : PrimitivesLaws prim) (utf8 : String → Bytes)
    (text_of : Bytes → String) (urandom : String → Bytes → Bytes) (hash_key : String → String) where
  abbrev codec : TokenCacheOf → Codec
  codec = codec_of prim utf8 text_of urandom hash_key

  module _ {C : Type 0} (client : Client C) (json : JsonCodec) where
    -- The value is behind the signature of the key that the configured secret gives the token.
    abbrev pub IsSignedBySecret :
        Config → CacheOptions → String → String → Json → Option (Pool C) → Type 0
    IsSignedBySecret conf o strategy token v s =
        (secret : String) × (get conf "memcache_secret_key" none ≡ ok (text secret))
        × (secret == "" ≡ false)
        × IsSigned prim laws utf8 text_of urandom (utf8 strategy) (utf8 secret) client o json token
            v s

    cached-IsSigned :
        (conf : Config) (cache : TokenCacheOf) (strategy token : String) (v : Json)
        (s s' : Option (Pool C))
        → IsAsConfigured conf cache
        → get conf "memcache_security_strategy" none ≡ ok (text strategy)
        → (lower strategy == "none") ≡ false
        → cached client (options_of cache) (codec cache) json token s ≡ (ok v, s')
        → (v ≡ null) ⊎ IsSignedBySecret conf (options_of cache) strategy token v s
    unfolding codec_of
    cached-IsSigned conf (token_cache o) strategy token v s s' (named, is_named, clear) is_set other
          e =
        let same = text-injective named strategy (sym is_named ∙ is_set) in
        absurd (ground (arith, rw (same) at clear))
    cached-IsSigned conf (secure_token_cache named secret o) strategy token v s s'
          (is_named, _, has_secret, given) is_set other e =
        let same = text-injective named strategy (sym is_named ∙ is_set) in
        elim (get-IsSigned prim laws utf8 text_of urandom (utf8 named) (utf8 secret) client o json
          token v s s' e) [
            | inl nothing ↦ inl nothing
            | inr signed ↦ inr (
              secret,
              has_secret,
              given,
              subst
                  (λ n.
                    IsSigned prim laws utf8 text_of urandom (utf8 n) (utf8 secret) client o json
                      token v s)
                  same signed,
            )
          ]

    module _ {A W : Type 0} (config_library : ConfigLibrary) (lib : SetupLibrary A W) where
      -- Where the settings of an AuthProtocol that could be made name a strategy that is not none, in any
      -- case of its letters, its token cache answers None or what stands in the data that the client gave,
      -- which is behind the signature of the MAC key that the strategy and the configured secret, which is
      -- not empty, give the token.
      pub auth_protocol-IsSigned :
          (conf : Config) (w w' : W) (self : AuthProtocol A) (strategy token : String) (v : Json)
          (s s' : Option (Pool C))
          → auth_protocol config_library lib conf w ≡ (ok self, w')
          → get self.conf "memcache_security_strategy" none ≡ ok (text strategy)
          → (lower strategy == "none") ≡ false
          → cached client (options_of self.cache) (codec self.cache) json token s ≡ (ok v, s')
          → (v ≡ null) ⊎ IsSignedBySecret self.conf (options_of self.cache) strategy token v s
      auth_protocol-IsSigned conf w w' self strategy token v s s' made =
          cached-IsSigned self.conf self.cache strategy token v s s'
            (auth_protocol-IsAsConfigured config_library lib conf w w' self made)
