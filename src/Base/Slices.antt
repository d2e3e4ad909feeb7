-- ===== src/Base/Slices.antt =====
-- Python's byte strings, and the slices of a sequence.
use Prim.Native.Nat.{ℕ, zero, suc, ◌+◌, ◌<◌}
use mathlib.Core.Path.{◌≡◌, refl, ap}
use mathlib.Core.Logic.{◌↔◌}
use mathlib.Core.Bool.{Bool, true, false, ◌&&◌}
use mathlib.Core.List.{List, [], ◌∷◌, ◌++◌}
use native.Mathlib.Omega.{arith}
use keystonemiddleware.Base.Tests.{length, nat_eq, All}

abbrev pub Bytes : Type 0
Bytes = List ℕ

-- What a byte string of Python's is made of.
abbrev pub AreBytes : Bytes → Type 0
AreBytes = All (λ n. n < 256)

pub AreBytes-append : (s t : Bytes) → AreBytes s → AreBytes t → AreBytes (s ++ t)
AreBytes-append [] t left right = right
AreBytes-append (n ∷ s) t (byte, left) right = (byte, AreBytes-append s t left right)

-- `s == t`
unfoldable pub same_bytes : Bytes → Bytes → Bool
same_bytes [] [] = true
same_bytes (a ∷ s) (b ∷ t) = nat_eq a b && same_bytes s t
same_bytes _ _ = false

pub same_bytes_iff : (s t : Bytes) → (same_bytes s t ≡ true) ↔ (s ≡ t)
unfolding same_bytes
same_bytes_iff [] [] = (λ _. refl, λ _. refl)
same_bytes_iff [] (b ∷ t) = ground arith
same_bytes_iff (a ∷ s) [] = ground arith
same_bytes_iff (a ∷ s) (b ∷ t) = ground (arith, same_bytes_iff s t)

module _ {ℓ} {A : Type ℓ} where
  -- `xs[:n]`
  unfoldable pub take : ℕ → List A → List A
  take zero xs = []
  take (suc n) [] = []
  take (suc n) (x ∷ xs) = x ∷ take n xs

  -- `xs[n:]`
  unfoldable pub drop : ℕ → List A → List A
  drop zero xs = xs
  drop (suc n) [] = []
  drop (suc n) (x ∷ xs) = drop n xs

  pub take-append : (n : ℕ) (xs ys : List A) → length xs ≡ n → take n (xs ++ ys) ≡ xs
  unfolding take
  take-append zero [] ys h = refl
  take-append zero (x ∷ xs) ys h = absurd (ground arith)
  take-append (suc n) [] ys h = absurd (ground arith)
  take-append (suc n) (x ∷ xs) ys h = ap (λ t. x ∷ t) (take-append n xs ys (ground arith))

  pub drop-append : (n : ℕ) (xs ys : List A) → length xs ≡ n → drop n (xs ++ ys) ≡ ys
  unfolding drop
  drop-append zero [] ys h = refl
  drop-append zero (x ∷ xs) ys h = absurd (ground arith)
  drop-append (suc n) [] ys h = absurd (ground arith)
  drop-append (suc n) (x ∷ xs) ys h = drop-append n xs ys (ground arith)

  pub take-drop : (n : ℕ) (xs : List A) → take n xs ++ drop n xs ≡ xs
  unfolding take drop
  take-drop zero xs = refl
  take-drop (suc n) [] = refl
  take-drop (suc n) (x ∷ xs) = ap (λ t. x ∷ t) (take-drop n xs)

  pub length_split :
      (n m : ℕ) (xs : List A)
      → length xs ≡ n + m
      → (length (take n xs) ≡ n) × (length (drop n xs) ≡ m)
  unfolding take drop
  length_split zero m xs h = (refl, ground arith)
  length_split (suc n) m [] h = absurd (ground arith)
  length_split (suc n) m (x ∷ xs) h = ground (arith, length_split n m xs (ground arith))

  drop-nil : (n : ℕ) → drop n [] ≡ []
  unfolding drop
  drop-nil zero = refl
  drop-nil (suc n) = refl

  pub drop-drop : (m n k : ℕ) (xs : List A) → m + n ≡ k → drop n (drop m xs) ≡ drop k xs
  unfolding drop
  drop-drop zero n k xs h = ap (λ i. drop i xs) (ground arith)
  drop-drop (suc m) n zero xs h = absurd (ground arith)
  drop-drop (suc m) n (suc k) [] h = drop-nil n
  drop-drop (suc m) n (suc k) (x ∷ xs) h = drop-drop m n k xs (ground arith)
