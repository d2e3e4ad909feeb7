-- ===== src/Cache/Tokens/Codecs.antt =====
-- auth_token/_cache.py: the keys and the values that a cache stores, plain or protected.
use keystonemiddleware.Base.{String, ◌<>◌, Option, none, some, Bytes}
use keystonemiddleware.Exec.{Result, ok, raise}
use keystonemiddleware.Crypt.{
  Primitives, Keys, derive_keys, protect_data, unprotect_data, get_cache_key as crypt_cache_key,
}

-- The methods that SecureTokenCache overrides. The context is what the token determines, so that the
-- token stands for it.
pub record Codec : Type 0 where
  pub get_cache_key : String → String
  pub serialize : String → Bytes → Result Bytes
  pub deserialize : String → Bytes → Option Bytes

-- `_CACHE_KEY_TEMPLATE`
abbrev pub cache_key_template : String → String
cache_key_template key = "tokens/" <> key

-- TokenCache's own methods; `hash_key` is `_hash_key`, SHA-256 in hexadecimal.
unfoldable pub plain_codec : (String → String) → Codec
plain_codec hash_key = record {
  get_cache_key = λ token_id. cache_key_template (hash_key token_id);
  serialize = λ token_id message. ok message;
  deserialize = λ token_id message. some message;
}

-- What becomes of an exception in `_deserialize`.
abbrev pub or_none : Result (Option Bytes) → Option Bytes
or_none (ok message) = message
or_none (raise _) = none

-- SecureTokenCache's: a token's UTF-8, and a byte string's text in a template, are given, and so is the
-- vector for an encryption.
module _ (prim : Primitives) (utf8 : String → Bytes) (text_of : Bytes → String)
    (urandom : String → Bytes → Bytes) (security_strategy secret_key : Bytes) where
  unfoldable pub keys_of : String → Keys
  keys_of token_id = derive_keys prim (utf8 token_id) secret_key security_strategy

  unfoldable pub secure_codec : Codec
  unfolding keys_of
  secure_codec = record {
    get_cache_key =
        λ token_id. cache_key_template (text_of (crypt_cache_key prim (keys_of token_id)));
    serialize =
        λ token_id message. protect_data prim (urandom token_id message) (keys_of token_id) message;
    deserialize =
        λ token_id serialized. or_none (unprotect_data prim (keys_of token_id) (some serialized));
  }
