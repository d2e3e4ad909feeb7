-- ===== src/Cache/Tokens/Secure.antt =====
-- auth_token/_cache.py: SecureTokenCache, with _memcache_crypt.py behind it.
use keystonemiddleware.Base.{
  ◌≡◌, refl, ◌≢◌, ap, ◌⊎◌, inl, inr, String, true, false, Option, none, some, ◌==◌, ◌++◌, eq_iff,
  Bytes, AreBytes, same_bytes, arith, drop, Bool-cases, length,
}
use keystonemiddleware.Exec.{Exception, ok, raise, attribute_error, Result-cases, continue-eq-ok}
use keystonemiddleware.Json.{Json, null}
use keystonemiddleware.Base64.{b64encode}
use keystonemiddleware.Crypt.{
  Primitives, Keys, sign_data, protect_data, encrypt_data, unprotect_data, encrypt_strategy,
  digest_length_b64,
}
use keystonemiddleware.Crypt.Laws.{
  PrimitivesLaws, unprotect_data-protect_data, unprotect_data-signed, derive_keys_lem,
}
use keystonemiddleware.Cache.Tokens.{CacheOptions, JsonCodec, with_cache, read, get}
use keystonemiddleware.Cache.Tokens.Pools.{Pool, Client}
use keystonemiddleware.Cache.Tokens.Codecs.{Codec, secure_codec, keys_of, or_none}
use keystonemiddleware.Cache.Tokens.Stored.{RoundTrips}

module _ (prim : Primitives) (laws : PrimitivesLaws prim) (utf8 : String → Bytes)
    (text_of : Bytes → String) (urandom : String → Bytes → Bytes)
    (security_strategy secret_key : Bytes) where
  abbrev pub codec : Codec
  codec = secure_codec prim utf8 text_of urandom security_strategy secret_key

  abbrev keys : String → Keys
  keys = keys_of prim utf8 text_of urandom security_strategy secret_key

  protect_data-returns :
      (iv : Bytes) (k : Keys) (message : Bytes)
      → prim.available ≡ true
      → prim.cipher k.encryption iv ≡ ok tt
      → (stored : Bytes) × (protect_data prim iv k message ≡ ok stored)
  unfolding protect_data encrypt_data
  protect_data-returns iv k message there made =
      let enc = b64encode (iv ++ prim.aes_encrypt k.encryption iv (prim.pad message)) in
      elim (Bool-cases (same_bytes k.strategy encrypt_strategy)) [
        | inl encrypted ↦ (sign_data prim k.mac enc ++ enc, rw (encrypted, there, made) refl)
        | inr signed ↦
            (sign_data prim k.mac (b64encode message) ++ b64encode message, rw (signed) refl)
      ]

  -- Where the package `cryptography` is there and takes keys and vectors of 16 bytes, and the vectors
  -- are 16 bytes, SecureTokenCache finds again the texts of bytes that it stored, if the primitives do
  -- what is documented of them.
  pub secure_codec-RoundTrips :
      prim.available ≡ true
      → ((key iv : Bytes) → length key ≡ 16 → length iv ≡ 16 → prim.cipher key iv ≡ ok tt)
      → ((token_id : String) (message : Bytes) → length (urandom token_id message) ≡ 16)
      → ((token_id : String) (message : Bytes) → AreBytes (urandom token_id message))
      → RoundTrips codec
  unfolding secure_codec keys_of
  secure_codec-RoundTrips there accepts size vector token_id message bytes =
      let iv = urandom token_id message in
      let (_, _, key_size, _) =
        derive_keys_lem prim laws (utf8 token_id) secret_key security_strategy in
      let (stored, made) =
        protect_data-returns iv (keys token_id) message there
          (accepts (keys token_id).encryption iv key_size (size token_id message)) in
      (
        stored,
        made,
        ap or_none (
            unprotect_data-protect_data prim laws iv (keys token_id) message stored
              (size token_id message) (vector token_id message) bytes made),
      )

  module _ {C : Type 0} (client : Client C) (o : CacheOptions) (json : JsonCodec) where
    read-signed :
        (token_id : String) (stored : Bytes) (v : Json)
        → read client o codec json token_id (some stored) ≡ ok v
        → (message : Bytes) × (unprotect_data prim (keys token_id) (some stored)
            ≡ ok (some message))
          × (json.loads message ≡ ok v)
    unfolding read secure_codec
    read-signed token_id stored v e =
        elim (Result-cases (unprotect_data prim (keys token_id) (some stored))) [
          | inr (x, tampered) ↦ absurd (ground (arith, rw (tampered) at e))
          | inl (none, nothing) ↦ absurd (ground (arith, rw (nothing) at e))
          | inl (some message, verified) ↦ (message, verified, rw (verified) at e)
        ]

    -- The value stands for data that the client gave and that is behind the signature of the token's MAC
    -- key.
    pub record IsSigned (token_id : String) (v : Json) (s : Option (Pool C)) : Type 0 where
      pub stored : Bytes
      pub message : Bytes
      pub given :
          (with_cache client o codec json (client.get (codec.get_cache_key token_id)) s).0
          ≡ ok (some stored)
      pub signed :
          stored
          ≡ sign_data prim (keys token_id).mac (drop digest_length_b64 stored)
            ++ drop digest_length_b64 stored
      pub verified : unprotect_data prim (keys token_id) (some stored) ≡ ok (some message)
      pub loaded : json.loads message ≡ ok v

    read-IsSigned :
        (token_id : String) (v : Json) (s t : Option (Pool C)) (answer : Option Bytes)
        → with_cache client o codec json (client.get (codec.get_cache_key token_id)) s
          ≡ (ok answer, t)
        → read client o codec json token_id answer ≡ ok v
        → (v ≡ null) ⊎ IsSigned token_id v s
    unfolding read
    read-IsSigned token_id v s t none asked rest = inl (ground arith)
    read-IsSigned token_id v s t (some stored) asked rest =
        let (message, verified, loaded) = read-signed token_id stored v rest in
        inr (record {
          stored = stored;
          message = message;
          given = ap (λ r. r.0) asked;
          signed = unprotect_data-signed prim laws (keys token_id) stored message verified;
          verified = verified;
          loaded = loaded;
        })

    -- What SecureTokenCache's get answers is None, or it stands for data that the client gave and that is
    -- behind the signature of the token's MAC key.
    pub get-IsSigned :
        (token_id : String) (v : Json) (s s' : Option (Pool C))
        → get client o codec json token_id s ≡ (ok v, s')
        → (v ≡ null) ⊎ IsSigned token_id v s
    unfolding get
    get-IsSigned token_id v s s' e = elim (Bool-cases (token_id == "")) [
      | inl empty ↦ inl (ground arith)
      | inr given ↦
          let (answer, t, asked, rest) =
            continue-eq-ok
              (with_cache client o codec json (client.get (codec.get_cache_key token_id)) s)
              (λ a t. (read client o codec json token_id a, t)) (rw (given) at e) in
          read-IsSigned token_id v s t answer asked (ap (λ r. r.0) rest)
    ]

    -- Data that does not verify makes SecureTokenCache's get raise AttributeError, where a missing entry
    -- gives None.
    pub get-tampered :
        (token_id : String) (s s' : Option (Pool C)) (stored : Bytes) (x : Exception)
        → token_id ≢ ""
        → with_cache client o codec json (client.get (codec.get_cache_key token_id)) s
          ≡ (ok (some stored), s')
        → unprotect_data prim (keys token_id) (some stored) ≡ raise x
        → get client o codec json token_id s ≡ (raise attribute_error, s')
    unfolding get read secure_codec
    get-tampered token_id s s' stored x given asked tampered =
        let there : (token_id == "") ≡ false = ground (arith, eq_iff token_id "") in
        rw (there, asked, tampered) refl
