-- ===== src/Crypt/Laws.antt =====
-- auth_token/_memcache_crypt.py: `protect_data` and `unprotect_data` against each other, and the keys.
use keystonemiddleware.Base.{
  ◌≡◌, refl, sym, subst, ap, ◌∙◌, ◌↔◌, true, false, some, ◌++◌, arith, length, Bytes, AreBytes,
  AreBytes-append, same_bytes, take, drop, take-append, drop-append, take-drop, length_split,
  drop-drop, inl, inr, Bool-cases, if◌then◌else◌,
}
use keystonemiddleware.Exec.{ok, ok-injective, then_result-eq-ok}
use keystonemiddleware.Base64.{b64encode, b64decode}
use keystonemiddleware.Base64.RoundTrip.{b64decode-b64encode, length-b64encode}
use keystonemiddleware.Crypt.{
  Primitives, Keys, derive_keys, sign_data, encrypt_data, decrypt_data, protect_data,
  unprotect_data, digest_length_b64, encrypt_strategy,
}

-- What is documented of the primitives: the cipher is undone on padded data and the padding is, the
-- comparison is equality, and a signature has the length of a SHA-384 digest in base64.
pub record PrimitivesLaws (prim : Primitives) : Type 0 where
  pub constant_time_compare_iff : (s t : Bytes) → (prim.constant_time_compare s t ≡ true) ↔ (s ≡ t)
  pub length-hmac : (key s : Bytes) → length (prim.hmac key s) ≡ 48
  pub aes_decrypt-aes_encrypt :
      (key iv s : Bytes)
      → prim.aes_decrypt key iv (prim.aes_encrypt key iv (prim.pad s)) ≡ ok (prim.pad s)
  pub unpad-pad : (s : Bytes) → prim.unpad (prim.pad s) ≡ ok s
  pub aes_encrypt-AreBytes :
      (key iv s : Bytes) → AreBytes s → AreBytes (prim.aes_encrypt key iv (prim.pad s))

module _ (prim : Primitives) (laws : PrimitivesLaws prim) where
  length-sign_data : (key s : Bytes) → length (sign_data prim key s) ≡ digest_length_b64
  unfolding sign_data
  length-sign_data key s = omega (arith, length-b64encode (prim.hmac key s), laws.length-hmac key s)

  decrypt_data-encrypt_data :
      (iv key s c : Bytes)
      → length iv ≡ 16
      → encrypt_data prim iv key s ≡ ok c
      → decrypt_data prim key c ≡ ok s
  unfolding encrypt_data decrypt_data
  decrypt_data-encrypt_data iv key s c size e = elim (Bool-cases prim.available) [
    | inr missing ↦ absurd (ground arith)
    | inl there ↦
        let (_, made, same) = then_result-eq-ok (prim.cipher key iv) _ (rw (there) at e) in
        let enc = prim.aes_encrypt key iv (prim.pad s) in
        let whole : iv ++ enc ≡ c = ground arith in
        rw
          (
            ← whole,
            there,
            take-append 16 iv enc size,
            drop-append 16 iv enc size,
            made,
            laws.aes_decrypt-aes_encrypt key iv s,
          )
          (laws.unpad-pad s)
  ]

  encrypt_data-AreBytes :
      (iv key s c : Bytes)
      → AreBytes iv
      → AreBytes s
      → encrypt_data prim iv key s ≡ ok c
      → AreBytes c
  unfolding encrypt_data
  encrypt_data-AreBytes iv key s c vector message e = elim (Bool-cases prim.available) [
    | inr missing ↦ absurd (ground arith)
    | inl there ↦
        let (_, _, same) = then_result-eq-ok (prim.cipher key iv) _ (rw (there) at e) in
        subst AreBytes (ok-injective same) (
          AreBytes-append iv (prim.aes_encrypt key iv (prim.pad s)) vector
            (laws.aes_encrypt-AreBytes key iv s message))
  ]

  restored :
      (iv : Bytes) (keys : Keys) (s plain : Bytes)
      → length iv ≡ 16
      → (if same_bytes keys.strategy encrypt_strategy
          then encrypt_data prim iv keys.encryption s
          else ok s)
        ≡ ok plain
      → (if same_bytes keys.strategy encrypt_strategy
          then decrypt_data prim keys.encryption plain
          else ok plain)
        ≡ ok s
  restored iv keys s plain size made =
      elim (Bool-cases (same_bytes keys.strategy encrypt_strategy)) [
        | inl encrypted ↦
            rw (encrypted)
              (decrypt_data-encrypt_data iv keys.encryption s plain size (rw (encrypted) at made))
        | inr signed ↦ rw (signed) (sym (rw (signed) at made))
      ]

  plain-AreBytes :
      (iv : Bytes) (keys : Keys) (s plain : Bytes)
      → AreBytes iv
      → AreBytes s
      → (if same_bytes keys.strategy encrypt_strategy
          then encrypt_data prim iv keys.encryption s
          else ok s)
        ≡ ok plain
      → AreBytes plain
  plain-AreBytes iv keys s plain vector message made =
      elim (Bool-cases (same_bytes keys.strategy encrypt_strategy)) [
        | inl encrypted ↦
            encrypt_data-AreBytes iv keys.encryption s plain vector message (rw (encrypted) at made)
        | inr signed ↦ subst AreBytes (ok-injective (rw (signed) at made)) message
      ]

  -- What protect_data makes of a message of bytes, unprotect_data gives back, under the same keys,
  -- whether the strategy signs alone or encrypts too, whatever the vector of 16 bytes was, if the
  -- primitives do what is documented of them.
  pub unprotect_data-protect_data :
      (iv : Bytes) (keys : Keys) (s c : Bytes)
      → length iv ≡ 16
      → AreBytes iv
      → AreBytes s
      → protect_data prim iv keys s ≡ ok c
      → unprotect_data prim keys (some c) ≡ ok (some s)
  unfolding protect_data unprotect_data
  unprotect_data-protect_data iv keys s c size vector message e =
      let (plain, made, same) =
        then_result-eq-ok
          (if same_bytes keys.strategy encrypt_strategy
            then encrypt_data prim iv keys.encryption s
            else ok s)
          (λ p. ok (sign_data prim keys.mac (b64encode p) ++ b64encode p)) e in
      let encoded = b64encode plain in
      let mac = sign_data prim keys.mac encoded in
      let whole : mac ++ encoded ≡ c = ground arith in
      rw
        (
          ← whole,
          take-append 64 mac encoded (length-sign_data keys.mac encoded),
          drop-append 64 mac encoded (length-sign_data keys.mac encoded),
          (laws.constant_time_compare_iff mac mac).1 refl,
          b64decode-b64encode plain (plain-AreBytes iv keys s plain vector message made),
          restored iv keys s plain size made,
        )
        refl

  -- unprotect_data takes nothing that is not signed: whatever it returns stood behind the signature
  -- that the MAC key gives for it.
  pub unprotect_data-signed :
      (keys : Keys) (c s : Bytes)
      → unprotect_data prim keys (some c) ≡ ok (some s)
      → c ≡ sign_data prim keys.mac (drop digest_length_b64 c) ++ drop digest_length_b64 c
  unfolding unprotect_data
  unprotect_data-signed keys c s e =
      elim (Bool-cases
        (prim.constant_time_compare (take 64 c) (sign_data prim keys.mac (drop 64 c)))) [
          | inr differs ↦ absurd (ground arith)
          | inl agrees ↦
              sym (take-drop 64 c)
              ∙ ap (λ t. t ++ drop 64 c)
                  ((laws.constant_time_compare_iff (take 64 c)
                      (sign_data prim keys.mac (drop 64 c))).0
                    agrees)
        ]

  -- Under any strategy but the one spelled ENCRYPT, also one that differs in the case of its letters,
  -- protect_data stores a message of bytes so that base64 alone gives it back, without a key, if the
  -- signatures have the length of a SHA-384 digest.
  pub protect_data-readable :
      (iv token secret strategy s c : Bytes)
      → AreBytes s
      → same_bytes strategy encrypt_strategy ≡ false
      → protect_data prim iv (derive_keys prim token secret strategy) s ≡ ok c
      → b64decode (drop digest_length_b64 c) ≡ ok s
  unfolding protect_data derive_keys
  protect_data-readable iv token secret strategy s c message other e =
      let mac = sign_data prim (derive_keys prim token secret strategy).mac (b64encode s) in
      let whole : mac ++ b64encode s ≡ c = ok-injective (rw (other) at e) in
      rw
        (
          ← whole,
          drop-append 64 mac (b64encode s)
              (length-sign_data (derive_keys prim token secret strategy).mac (b64encode s)),
        )
        (b64decode-b64encode s message)

  -- Each of the three keys has 16 bytes, and together they are the digest of the token and the strategy
  -- under the secret.
  pub derive_keys_lem :
      (token secret strategy : Bytes)
      → (length (derive_keys prim token secret strategy).cache_key ≡ 16)
        × (length (derive_keys prim token secret strategy).mac ≡ 16)
        × (length (derive_keys prim token secret strategy).encryption ≡ 16)
        × ((derive_keys prim token secret strategy).cache_key
              ++ ((derive_keys prim token secret strategy).mac
                  ++ (derive_keys prim token secret strategy).encryption)
            ≡ prim.hmac secret (token ++ strategy))
  unfolding derive_keys
  derive_keys_lem token secret strategy =
      let digest = prim.hmac secret (token ++ strategy) in
      let whole = laws.length-hmac secret (token ++ strategy) in
      let (head, tail) = length_split 16 32 digest whole in
      let (middle, last) = length_split 16 16 (drop 16 digest) tail in
      rw (← drop-drop 16 16 32 digest refl) (
        head,
        middle,
        last,
        ap (λ t. take 16 digest ++ t) (take-drop 16 (drop 16 digest)) ∙ take-drop 16 digest,
      )
