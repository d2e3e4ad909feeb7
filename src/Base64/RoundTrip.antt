-- ===== src/Base64/RoundTrip.antt =====
-- base64: decoding undoes encoding, and how long an encoding is.
use Prim.Native.Nat.{◌/◌, ◌%◌}
use keystonemiddleware.Base.{
  ◌≡◌, refl, ap, ℕ, ◌+◌, ◌*◌, ◌<◌, false, some, [], ◌∷◌, Bytes, AreBytes, arith, nat_eq, inl, inr,
  length,
}
use keystonemiddleware.Exec.{ok, then_result, Result-cases}
use keystonemiddleware.Base64.{
  letter, sextet, b64encode, Group, start, advance, at_place, decode_from, b64decode,
}

abbrev IsByte : ℕ → Type 0
IsByte n = n < 256

sextet-letter : (n : ℕ) → n < 64 → sextet (letter n) ≡ some n
unfolding sextet letter
sextet-letter n small = ground arith

letter_no_pad : (n : ℕ) → n < 64 → nat_eq (letter n) 61 ≡ false
unfolding letter
letter_no_pad n small = ground arith

decode_from-letter :
    (g : Group) (n : ℕ) (s : Bytes)
    → n < 64
    → decode_from g (letter n ∷ s)
      ≡ then_result (decode_from (advance g n).1 s) (λ rest. ok ((advance g n).0 rest))
unfolding decode_from
decode_from-letter g n s small = rw (letter_no_pad n small, sextet-letter n small) refl

-- The bytes that the four numbers of a group give back.
first_byte : (a b : ℕ) → IsByte a → IsByte b → a / 4 * 4 + (a % 4 * 16 + b / 16) / 16 ≡ a
first_byte a b small small' = omega arith

second_byte :
    (a b c : ℕ)
    → IsByte b
    → IsByte c
    → (a % 4 * 16 + b / 16) % 16 * 16 + (b % 16 * 4 + c / 64) / 4 ≡ b
second_byte a b c small small' = omega arith

third_byte : (b c : ℕ) → IsByte c → (b % 16 * 4 + c / 64) % 4 * 64 + c % 64 ≡ c
third_byte b c small = omega arith

decode_from-group :
    (a b c : ℕ) (s : Bytes)
    → IsByte a
    → IsByte b
    → IsByte c
    → decode_from start (
        letter (a / 4)
        ∷ letter (a % 4 * 16 + b / 16)
        ∷ letter (b % 16 * 4 + c / 64)
        ∷ letter (c % 64)
        ∷ s)
      ≡ then_result (decode_from start s) (λ rest. ok (a ∷ b ∷ c ∷ rest))
decode_from-group a b c s is_a is_b is_c =
    rw
      (
        decode_from-letter start (a / 4) _ (omega arith),
        decode_from-letter _ (a % 4 * 16 + b / 16) _ (omega arith),
        decode_from-letter _ (b % 16 * 4 + c / 64) _ (omega arith),
        decode_from-letter _ (c % 64) _ (omega arith),
      )
      (elim (Result-cases (decode_from start s)) [
        | inl (rest, e) ↦
            rw (e, first_byte a b is_a is_b, second_byte a b c is_b is_c, third_byte b c is_c) refl
        | inr (x, e) ↦ rw (e) refl
      ])

decode_from-end :
    (n : ℕ)
    → (decode_from start [] ≡ ok [])
      × (decode_from (at_place 2 n) (61 ∷ 61 ∷ []) ≡ ok [])
      × (decode_from (at_place 3 n) (61 ∷ []) ≡ ok [])
unfolding decode_from
decode_from-end n = (refl, refl, refl)

-- b64decode undoes b64encode.
pub b64decode-b64encode : (s : Bytes) → AreBytes s → b64decode (b64encode s) ≡ ok s
unfolding b64decode b64encode
b64decode-b64encode [] bytes = (decode_from-end 0).0
b64decode-b64encode (a ∷ []) (is_a, _) =
    rw
      (
        decode_from-letter start (a / 4) _ (omega arith),
        decode_from-letter _ (a % 4 * 16) _ (omega arith),
        (decode_from-end (a % 4 * 16 % 16)).1,
      )
      (ap (λ n. ok (n ∷ [])) (omega arith))
b64decode-b64encode (a ∷ b ∷ []) (is_a, (is_b, _)) =
    rw
      (
        decode_from-letter start (a / 4) _ (omega arith),
        decode_from-letter _ (a % 4 * 16 + b / 16) _ (omega arith),
        decode_from-letter _ (b % 16 * 4) _ (omega arith),
        (decode_from-end (b % 16 * 4 % 4)).2,
        first_byte a b is_a is_b,
      )
      (ap (λ n. ok (a ∷ n ∷ [])) (omega arith))
b64decode-b64encode (a ∷ b ∷ c ∷ s) (is_a, (is_b, (is_c, bytes))) =
    rw (decode_from-group a b c (b64encode s) is_a is_b is_c, b64decode-b64encode s bytes) refl

-- An encoding has four letters for three bytes, the last group filled up.
pub length-b64encode : (s : Bytes) → length (b64encode s) ≡ (length s + 2) / 3 * 4
unfolding b64encode
length-b64encode [] = refl
length-b64encode (a ∷ []) = refl
length-b64encode (a ∷ b ∷ []) = refl
length-b64encode (a ∷ b ∷ c ∷ s) = omega (arith, length-b64encode s)
