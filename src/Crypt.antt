-- ===== src/Crypt.antt =====
-- auth_token/_memcache_crypt.py: how tokens are signed and encrypted before they go to memcached.
pub mod Laws
use keystonemiddleware.Base.{
  ℕ, ◌*◌, Bool, true, false, not, Option, none, some, List, [], ◌∷◌, ◌++◌, Bytes, same_bytes, take,
  drop, if◌then◌else◌,
}
use keystonemiddleware.Exec.{
  Result, ok, raise, invalid_mac, decrypt_error, crypto_unavailable, attribute_error, then_result,
}
use keystonemiddleware.Base64.{b64encode, b64decode}

-- What the interpreter's hmac with SHA-384, oslo's constant_time_compare and the package
-- `cryptography` do. A cipher may refuse its key or its vector.
pub record Primitives : Type 0 where
  pub hmac : Bytes → Bytes → Bytes
  pub constant_time_compare : Bytes → Bytes → Bool
  -- `ciphers is not None`
  pub available : Bool
  pub cipher : Bytes → Bytes → Result (Unit {0})
  pub aes_encrypt : Bytes → Bytes → Bytes → Bytes
  pub aes_decrypt : Bytes → Bytes → Bytes → Result Bytes
  pub pad : Bytes → Bytes
  pub unpad : Bytes → Result Bytes

-- `b'ENCRYPT'`
abbrev pub encrypt_strategy : Bytes
encrypt_strategy = 69 ∷ 78 ∷ 67 ∷ 82 ∷ 89 ∷ 80 ∷ 84 ∷ []

abbrev pub digest_split : ℕ
digest_split = 16

abbrev pub digest_length_b64 : ℕ
digest_length_b64 = 64

-- What `derive_keys` returns.
pub record Keys : Type 0 where
  pub cache_key : Bytes
  pub mac : Bytes
  pub encryption : Bytes
  pub strategy : Bytes

infixl 5 ◌>>=◌
abbrev ◌>>=◌ {ℓ κ} : {A : Type ℓ} {B : Type κ} → Result A → (A → Result B) → Result B
r >>= f = then_result r f

module _ (prim : Primitives) where
  abbrev split_digest : Bytes → Bytes → Keys
  split_digest strategy digest = record {
    cache_key = take digest_split digest;
    mac = take digest_split (drop digest_split digest);
    encryption = drop (2 * digest_split) digest;
    strategy = strategy;
  }

  unfoldable pub derive_keys : Bytes → Bytes → Bytes → Keys
  derive_keys token secret strategy = split_digest strategy (prim.hmac secret (token ++ strategy))

  unfoldable pub sign_data : Bytes → Bytes → Bytes
  sign_data key message = b64encode (prim.hmac key message)

  -- The vector is what `os.urandom(16)` gives.
  unfoldable pub encrypt_data : Bytes → Bytes → Bytes → Result Bytes
  encrypt_data iv key message =
      if not prim.available
      then raise crypto_unavailable
      else (prim.cipher key iv >>= λ _. ok (iv ++ prim.aes_encrypt key iv (prim.pad message)))

  abbrev as_decrypt_error : Result Bytes → Result Bytes
  as_decrypt_error (ok message) = ok message
  as_decrypt_error (raise _) = raise decrypt_error

  unfoldable pub decrypt_data : Bytes → Bytes → Result Bytes
  decrypt_data key message =
      if not prim.available
      then raise attribute_error
      else (prim.cipher key (take 16 message) >>= λ _.
          as_decrypt_error (prim.aes_decrypt key (take 16 message) (drop 16 message))
          >>= prim.unpad)

  unfoldable pub protect_data : Bytes → Keys → Bytes → Result Bytes
  unfolding encrypt_data sign_data
  protect_data iv keys message = do
    plain ←
        (if same_bytes keys.strategy encrypt_strategy
          then encrypt_data iv keys.encryption message
          else ok message)
    let encoded = b64encode plain
    ok (sign_data keys.mac encoded ++ encoded)

  abbrev unprotect : Keys → Bytes → Result (Option Bytes)
  unfolding decrypt_data sign_data
  unprotect keys signed_data =
      let provided_mac = take digest_length_b64 signed_data in
      let calculated_mac = sign_data keys.mac (drop digest_length_b64 signed_data) in
      if not (prim.constant_time_compare provided_mac calculated_mac)
      then raise invalid_mac
      else (b64decode (drop digest_length_b64 signed_data) >>= λ message.
          (if same_bytes keys.strategy encrypt_strategy
            then decrypt_data keys.encryption message
            else ok message)
          >>= λ plain. ok (some plain))

  unfoldable pub unprotect_data : Keys → Option Bytes → Result (Option Bytes)
  unfolding unprotect
  unprotect_data keys none = ok none
  unprotect_data keys (some signed_data) = unprotect keys signed_data

  unfoldable pub get_cache_key : Keys → Bytes
  get_cache_key keys = b64encode keys.cache_key
