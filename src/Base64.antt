-- ===== src/Base64.antt =====
-- The standard library's base64, whose bytes memcache_crypt signs and stores.
pub mod RoundTrip
use Prim.Native.Nat.{◌/◌, ◌%◌}
use keystonemiddleware.Base.{
  ℕ, suc, ◌+◌, ◌-◌, ◌*◌, not, Option, none, some, [], ◌∷◌, ◌&&◌, Bytes, ltb, leb, nat_eq,
  if◌then◌else◌,
}
use keystonemiddleware.Exec.{Result, ok, raise, then_result, value_error}

-- The letter of a number below 64.
unfoldable pub letter : ℕ → ℕ
letter n =
    if ltb n 26
    then n + 65
    else if ltb n 52
    then n + 71
    else if ltb n 62
    then n - 4
    else if nat_eq n 62
    then 43
    else 47

-- The number of a letter; other bytes have none.
unfoldable pub sextet : ℕ → Option ℕ
sextet c =
    if leb 65 c && leb c 90
    then some (c - 65)
    else if leb 97 c && leb c 122
    then some (c - 71)
    else if leb 48 c && leb c 57
    then some (c + 4)
    else if nat_eq c 43
    then some 62
    else if nat_eq c 47
    then some 63
    else none

-- `base64.b64encode(s)`
unfoldable pub b64encode : Bytes → Bytes
b64encode [] = []
b64encode (a ∷ []) = letter (a / 4) ∷ letter (a % 4 * 16) ∷ 61 ∷ 61 ∷ []
b64encode (a ∷ b ∷ []) =
    letter (a / 4) ∷ letter (a % 4 * 16 + b / 16) ∷ letter (b % 16 * 4) ∷ 61 ∷ []
b64encode (a ∷ b ∷ c ∷ s) =
    letter (a / 4)
    ∷ letter (a % 4 * 16 + b / 16)
    ∷ letter (b % 16 * 4 + c / 64)
    ∷ letter (c % 64)
    ∷ b64encode s

-- Where binascii stands in a group of four, with the bits that are left over and the padding so far.
pub record Group : Type 0 where
  pub quad_pos : ℕ
  pub leftchar : ℕ
  pub pads : ℕ

abbrev pub start : Group
start = record { quad_pos = 0; leftchar = 0; pads = 0 }

abbrev at_place : ℕ → ℕ → Group
at_place quad_pos leftchar = record { quad_pos = quad_pos; leftchar = leftchar; pads = 0 }

-- What the next number of a group adds: a byte in front, but for the first, and the place after it.
abbrev pub advance : Group → ℕ → (Bytes → Bytes) × Group
advance g n =
    if nat_eq g.quad_pos 0
    then (λ s. s, at_place 1 n)
    else if nat_eq g.quad_pos 1
    then (λ s. (g.leftchar * 4 + n / 16) ∷ s, at_place 2 (n % 16))
    else if nat_eq g.quad_pos 2
    then (λ s. (g.leftchar * 16 + n / 4) ∷ s, at_place 3 (n % 4))
    else (λ s. (g.leftchar * 64 + n) ∷ s, at_place 0 0)

abbrev padded : Group → Group
padded g = record g { pads = suc g.pads }

-- The loop of `binascii.a2b_base64`: a byte that is no letter is passed over, padding ends the data once
-- a group is full, and data that ends within a group is an error.
unfoldable pub decode_from : Group → Bytes → Result Bytes
decode_from g [] = if nat_eq g.quad_pos 0 then ok [] else raise value_error
decode_from g (c ∷ s) =
    let over_pad = decode_from (padded g) s in
    let skipped = decode_from g s in
    if nat_eq c 61
    then (if not (leb 2 g.quad_pos)
        then skipped
        else if leb 4 (g.quad_pos + suc g.pads)
        then ok []
        else over_pad)
    else elim (sextet c) [
      | none ↦ skipped
      | some n ↦
          let (front, next) = advance g n in
          then_result (decode_from next s) (λ rest. ok (front rest))
    ]

-- `base64.b64decode(s)`
unfoldable pub b64decode : Bytes → Result Bytes
b64decode = decode_from start
