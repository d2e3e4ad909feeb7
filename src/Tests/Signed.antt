-- ===== src/Tests/Signed.antt =====
-- auth_token/__init__.py and auth_token/_cache.py: a SecureTokenCache that is made from settings.
use keystonemiddleware.Base.{
  ◌≡◌, refl, ◌⊎◌, String, Option, some, [], ◌∷◌, Bytes, lower, lookup, insert, same_bytes, take,
  drop, if◌then◌else◌, ◌==◌,
}
use keystonemiddleware.Exec.{ok}
use keystonemiddleware.Json.{null, num}
use keystonemiddleware.Base64.{b64encode, b64decode, letter, decode_from, sextet}
use keystonemiddleware.Crypt.{
  derive_keys, sign_data, encrypt_data, decrypt_data, protect_data, unprotect_data,
  get_cache_key as crypt_cache_key,
}
use keystonemiddleware.Cache.Memory
use keystonemiddleware.Cache.Memory.{Entries, is_expired, timeout_at, expunge}
use keystonemiddleware.Cache.Tokens.{CacheOptions, with_cache, get, set, read}
use keystonemiddleware.Cache.Tokens.Pools.{Pool, reserve}
use keystonemiddleware.Cache.Tokens.Codecs.{Codec, secure_codec, keys_of}
use keystonemiddleware.Cache.Tokens.Stored.{memory_client}
use keystonemiddleware.Config.{get as config_get}
use keystonemiddleware.AuthProtocol.Setup.Signed.{
  codec_of, options_of, IsSignedBySecret, auth_protocol-IsSigned,
}
use keystonemiddleware.Tests.Configured.{library as config_library}
use keystonemiddleware.Tests.Setups.{setup_library, secured, made, makes}
use keystonemiddleware.Tests.Storage.{zeros, prim, prim_laws, json, empty_pool}

abbrev utf8 : String → Bytes
utf8 s = if s == "abc" then 1 ∷ [] else 2 ∷ []

abbrev text_of : Bytes → String
text_of b = "key"

abbrev urandom : String → Bytes → Bytes
urandom t b = zeros

abbrev hash_key : String → String
hash_key t = t

abbrev made_codec : Codec
made_codec = codec_of prim utf8 text_of urandom hash_key made.cache

abbrev options : CacheOptions
options = options_of made.cache

unfoldable filled : Option (Pool (Entries Bytes))
unfolding set
filled = (set (memory_client 9) options made_codec json "abc" (num 4) (some empty_pool)).1

reads : get (memory_client 9) options made_codec json "abc" filled ≡ (ok (num 4), filled)
unfolding filled codec_of get set with_cache read reserve secure_codec keys_of derive_keys
    protect_data unprotect_data encrypt_data decrypt_data sign_data crypt_cache_key same_bytes take
    drop Memory.get Memory.set expunge lookup insert is_expired timeout_at b64encode letter
    b64decode decode_from sextet
reads = refl

auth_protocol-IsSigned_example :
    (num 4 ≡ null)
    ⊎ IsSignedBySecret prim prim_laws utf8 text_of urandom hash_key
        (memory_client 9)
        json
        made.conf
        options
        "encrypt"
        "abc"
        (num 4)
        filled
unfolding config_get lookup lower
auth_protocol-IsSigned_example =
    auth_protocol-IsSigned prim prim_laws utf8 text_of urandom hash_key (memory_client 9) json
      config_library setup_library secured 0 0 made "encrypt" "abc" (num 4) filled filled makes refl
      refl reads
