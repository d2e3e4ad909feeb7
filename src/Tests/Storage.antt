-- ===== src/Tests/Storage.antt =====
-- auth_token/_cache.py and _memcache_crypt.py: a cache with toy primitives.
use keystonemiddleware.Base.{
  ◌≡◌, refl, ◌⊎◌, ℕ, ◌+◌, true, false, Option, some, [], ◌∷◌, ◌++◌, eq_iff, Bytes, arith,
  same_bytes, same_bytes_iff, take, drop, AreBytes, lookup, insert,
}
use keystonemiddleware.Exec.{Result, ok, raise, invalid_mac, attribute_error, value_error}
use keystonemiddleware.Json.{Json, null, num}
use keystonemiddleware.Base64.{b64encode, b64decode, letter, decode_from, sextet}
use keystonemiddleware.Crypt.{
  Primitives, Keys, derive_keys, sign_data, encrypt_data, decrypt_data, protect_data,
  unprotect_data, encrypt_strategy, digest_length_b64, get_cache_key as crypt_cache_key,
}
use keystonemiddleware.Crypt.Laws.{
  PrimitivesLaws, unprotect_data-protect_data, protect_data-readable,
}
use keystonemiddleware.Cache.Memory
use keystonemiddleware.Cache.Memory.{ℤ, pos, negsuc, Entries, is_expired, timeout_at, expunge}
use keystonemiddleware.Cache.Tokens.{CacheOptions, JsonCodec, with_cache, get, set, read}
use keystonemiddleware.Cache.Tokens.Pools.{Pool, cache_pool, reserve}
use keystonemiddleware.Cache.Tokens.Codecs.{Codec, plain_codec, secure_codec, keys_of}
use keystonemiddleware.Cache.Tokens.Stored.{
  RoundTrips, memory_client, memory_client-ClientLaws, plain_codec-RoundTrips, get-set_stored,
}
use keystonemiddleware.Cache.Tokens.Secure.{
  codec, IsSigned, secure_codec-RoundTrips, get-IsSigned, get-tampered,
}

-- Toy primitives: a checksum for a signature, and a cipher that changes nothing.
abbrev pub zeros : Bytes
zeros = 0 ∷ 0 ∷ 0 ∷ 0 ∷ 0 ∷ 0 ∷ 0 ∷ 0 ∷ 0 ∷ 0 ∷ 0 ∷ 0 ∷ 0 ∷ 0 ∷ 0 ∷ 0 ∷ []

zeros-AreBytes : AreBytes zeros
zeros-AreBytes = ground arith

seven-AreBytes : AreBytes (7 ∷ [])
seven-AreBytes = ground arith

abbrev sum : Bytes → ℕ
sum [] = 0
sum (b ∷ s) = b + sum s

abbrev pub prim : Primitives
prim = record {
  hmac = λ key s.
      zeros
      ++ (zeros
          ++ (sum key + sum s) ∷ 0 ∷ 0 ∷ 0 ∷ 0 ∷ 0 ∷ 0 ∷ 0 ∷ 0 ∷ 0 ∷ 0 ∷ 0 ∷ 0 ∷ 0 ∷ 0 ∷ 0 ∷ []);
  constant_time_compare = same_bytes;
  available = true;
  cipher = λ key iv. ok tt;
  aes_encrypt = λ key iv s. s;
  aes_decrypt = λ key iv s. ok s;
  pad = λ s. s;
  unpad = ok;
}

pub prim_laws : PrimitivesLaws prim
prim_laws = record {
  constant_time_compare_iff = same_bytes_iff;
  length-hmac = λ key s. refl;
  aes_decrypt-aes_encrypt = λ key iv s. refl;
  unpad-pad = λ s. refl;
  aes_encrypt-AreBytes = λ key iv s bytes. bytes;
}

abbrev keys : Keys
keys = record { cache_key = zeros; mac = 1 ∷ []; encryption = zeros; strategy = encrypt_strategy }

unfoldable protected : Bytes
unfolding sign_data
protected = sign_data prim (1 ∷ []) (b64encode (zeros ++ 7 ∷ [])) ++ b64encode (zeros ++ 7 ∷ [])

protects : protect_data prim zeros keys (7 ∷ []) ≡ ok protected
unfolding protected protect_data encrypt_data sign_data same_bytes
protects = refl

unprotect_data-protect_data_example : unprotect_data prim keys (some protected) ≡ ok (some (7 ∷ []))
unprotect_data-protect_data_example =
    unprotect_data-protect_data prim prim_laws zeros keys (7 ∷ []) protected refl zeros-AreBytes
      seven-AreBytes protects

verifies : unprotect_data prim keys (some protected) ≡ ok (some (7 ∷ []))
unfolding protected unprotect_data decrypt_data sign_data same_bytes take drop b64encode letter
    b64decode decode_from sextet
verifies = refl

abbrev lower_case : Bytes
lower_case = 101 ∷ 110 ∷ 99 ∷ 114 ∷ 121 ∷ 112 ∷ 116 ∷ []

other_case : same_bytes lower_case encrypt_strategy ≡ false
unfolding same_bytes
other_case = refl

unfoldable clear : Bytes
unfolding sign_data
clear =
    sign_data prim (derive_keys prim (1 ∷ []) (2 ∷ []) lower_case).mac (b64encode (7 ∷ []))
    ++ b64encode (7 ∷ [])

stores_clear :
    protect_data prim zeros (derive_keys prim (1 ∷ []) (2 ∷ []) lower_case) (7 ∷ []) ≡ ok clear
unfolding protect_data same_bytes derive_keys clear
stores_clear = refl

protect_data-readable_example : b64decode (drop digest_length_b64 clear) ≡ ok (7 ∷ [])
protect_data-readable_example =
    protect_data-readable prim prim_laws zeros (1 ∷ []) (2 ∷ []) lower_case (7 ∷ []) clear
      seven-AreBytes other_case stores_clear

abbrev load : Bytes → Result Json
load (n ∷ []) = ok (num n)
load _ = raise value_error

abbrev dump : Json → Bytes
dump (num n) = n ∷ []
dump _ = []

abbrev pub json : JsonCodec
json = record { dumps = dump; loads = load }

abbrev pub options : CacheOptions
options = record {
  cache_time = pos 300;
  env_cache_name = "swift.cache";
  has_servers = false;
  use_advanced_pool = false;
}

abbrev pub empty_pool : Pool (Entries Bytes)
empty_pool = cache_pool []

four-AreBytes : AreBytes (dump (num 4))
four-AreBytes = ground arith

get-set_stored_example :
    ((set (memory_client 9) options (plain_codec (λ s. s)) json "abc" (num 4) (some empty_pool)).0
      ≡ ok tt)
    × ((get
          (memory_client 9)
          options
          (plain_codec (λ s. s))
          json
          "abc"
          (set
            (memory_client 9)
            options
            (plain_codec (λ s. s))
            json
            "abc"
            (num 4)
            (some empty_pool)).1).0
        ≡ ok (num 4))
get-set_stored_example =
    get-set_stored (memory_client 9) options (memory_client-ClientLaws 9 300) (plain_codec (λ s. s))
      json "abc" (num 4) empty_pool (plain_codec-RoundTrips (λ s. s)) four-AreBytes refl
      (ground (arith, eq_iff "abc" ""))

-- The toy UTF-8 and text of bytes keep nothing of what they are given.
abbrev secure : Codec
secure = codec prim prim_laws (λ s. 1 ∷ []) (λ s. "key") (λ t m. zeros) encrypt_strategy (5 ∷ [])

secure_codec-RoundTrips_example : RoundTrips secure
secure_codec-RoundTrips_example =
    secure_codec-RoundTrips prim prim_laws (λ s. 1 ∷ []) (λ s. "key") (λ t m. zeros)
      encrypt_strategy (5 ∷ []) refl (λ key iv h k. refl) (λ t m. refl) (λ t m. zeros-AreBytes)

unfoldable filled : Option (Pool (Entries Bytes))
unfolding set
filled = (set (memory_client 9) options secure json "abc" (num 4) (some empty_pool)).1

reads : get (memory_client 9) options secure json "abc" filled ≡ (ok (num 4), filled)
unfolding filled get set with_cache read reserve secure_codec keys_of derive_keys protect_data
    unprotect_data encrypt_data decrypt_data sign_data crypt_cache_key same_bytes take drop
    Memory.get Memory.set expunge lookup insert is_expired timeout_at b64encode letter b64decode
    decode_from sextet
reads = refl

get-IsSigned_example :
    (num 4 ≡ null)
    ⊎ IsSigned prim prim_laws
        (λ s. 1 ∷ [])
        (λ s. "key")
        (λ t m. zeros)
        encrypt_strategy
        (5 ∷ [])
        (memory_client 9)
        options
        json
        "abc"
        (num 4)
        filled
get-IsSigned_example =
    get-IsSigned prim prim_laws (λ s. 1 ∷ []) (λ s. "key") (λ t m. zeros) encrypt_strategy (5 ∷ [])
      (memory_client 9) options json "abc" (num 4) filled filled reads

abbrev tampered : Option (Pool (Entries Bytes))
tampered = some (cache_pool ((("tokens/key", (pos 0, 4 ∷ [])) ∷ []) ∷ []))

tampered_found :
    (with_cache
        (memory_client 9)
        options
        secure
        json
        ((memory_client 9).get (secure.get_cache_key "abc"))
        tampered
      ≡ (ok (some (4 ∷ [])), tampered))
    × (unprotect_data prim
          (keys_of prim (λ s. 1 ∷ []) (λ s. "key") (λ t m. zeros) encrypt_strategy (5 ∷ []) "abc")
          (some (4 ∷ []))
        ≡ raise invalid_mac)
unfolding get with_cache read reserve secure_codec keys_of derive_keys unprotect_data sign_data
    crypt_cache_key same_bytes take drop Memory.get expunge lookup is_expired b64encode letter
tampered_found = (refl, refl)

get-tampered_example :
    get (memory_client 9) options secure json "abc" tampered ≡ (raise attribute_error, tampered)
get-tampered_example =
    get-tampered prim prim_laws (λ s. 1 ∷ []) (λ s. "key") (λ t m. zeros) encrypt_strategy (5 ∷ [])
      (memory_client 9) options json "abc" tampered tampered (4 ∷ []) invalid_mac
      (ground (arith, eq_iff "abc" "")) tampered_found.0 tampered_found.1
