-- ===== src/Base/Pieces.antt =====
-- Python's text methods that take a text apart: split, rsplit, partition and replace.
use Prim.Native.Nat.{ℕ, zero, suc, ◌-◌}
use Prim.Native.Char.{Char, code}
use Prim.Native.String
use Prim.Native.String.{String}
use mathlib.Core.Path.{◌≡◌, refl}
use mathlib.Core.Logic.{inl, inr}
use mathlib.Core.Bool.{Bool, true, false}
use mathlib.Core.Option.{Option, none, some}
use mathlib.Core.List.{List, [], ◌∷◌}
use native.Mathlib.Omega.{arith}
use text.Mathlib.TextLemmas.{nil-append, cons-append}
use keystonemiddleware.Base.Tests.{if◌then◌else◌, nat_eq, Bool-cases}
use keystonemiddleware.Base.Text.{cons, starts_with}

abbrev push : Char → List String → List String
push c [] = cons c "" ∷ []
push c (p ∷ ps) = cons c p ∷ ps

-- `s.split(sep)` for the character of a code
unfoldable pub split : ℕ → String → List String
split sep String.[] = "" ∷ []
split sep (String.◌∷◌ c s) =
    let rest = split sep s in if nat_eq (code c) sep then "" ∷ rest else push c rest

-- `pieces[-1]` and `pieces[0]`
unfoldable pub last : List String → String
last [] = ""
last (p ∷ []) = p
last (p ∷ q ∷ ps) = last (q ∷ ps)

unfoldable pub head : List String → String
head [] = ""
head (p ∷ ps) = p

abbrev rejoin :
    Char → Option (String × String) → Option (String × String) → Option (String × String)
rejoin c none otherwise = otherwise
rejoin c (some (a, b)) otherwise = some (cons c a, b)

-- `s.rsplit(sep, 1)`; none where no separator stands in the text
unfoldable pub rsplit : ℕ → String → Option (String × String)
rsplit sep String.[] = none
rsplit sep (String.◌∷◌ c s) =
    rejoin c (rsplit sep s) (if nat_eq (code c) sep then some ("", s) else none)

-- `sep in s` for a character
unfoldable pub has_char : ℕ → String → Bool
has_char sep String.[] = false
has_char sep (String.◌∷◌ c s) =
    let rest = has_char sep s in if nat_eq (code c) sep then true else rest

unfoldable pub drop_text : ℕ → String → String
drop_text zero s = s
drop_text (suc n) String.[] = ""
drop_text (suc n) (String.◌∷◌ c s) = drop_text n s

-- `s[:n]`
unfoldable pub take_text : ℕ → String → String
take_text zero s = ""
take_text (suc n) String.[] = ""
take_text (suc n) (String.◌∷◌ c s) = cons c (take_text n s)

-- `s.partition(sep)[2]`
unfoldable pub after : String → String → String
unfolding drop_text starts_with
after sep String.[] = ""
after sep (String.◌∷◌ c s) =
    let rest = after sep s in
    if starts_with (String.◌∷◌ c s) sep then drop_text (String.count sep) (String.◌∷◌ c s) else rest

-- `sep in s`
unfoldable pub contains_text : String → String → Bool
unfolding starts_with
contains_text sep String.[] = starts_with "" sep
contains_text sep (String.◌∷◌ c s) =
    let rest = contains_text sep s in if starts_with (String.◌∷◌ c s) sep then true else rest

-- The text behind a replaced piece; `skip` counts its characters that are still to be passed over.
replace_from : String → String → ℕ → String → String
unfolding starts_with
replace_from old new skip String.[] = ""
replace_from old new zero (String.◌∷◌ c s) =
    let kept = cons c (replace_from old new zero s) in
    let replaced = String.◌++◌ new (replace_from old new (String.count old - 1) s) in
    if starts_with (String.◌∷◌ c s) old then replaced else kept
replace_from old new (suc n) (String.◌∷◌ c s) = replace_from old new n s

-- Where the old text is empty the new one comes before every character and at the end.
interleave : String → String → String
interleave new String.[] = new
interleave new (String.◌∷◌ c s) = String.◌++◌ new (cons c (interleave new s))

-- `s.replace(old, new)`
unfoldable pub replace : String → String → String → String
unfolding replace_from interleave
replace String.[] new s = interleave new s
replace (String.◌∷◌ c old) new s = replace_from (String.◌∷◌ c old) new zero s

rsplit-no_char : (sep : ℕ) (s : String) → has_char sep s ≡ false → rsplit sep s ≡ none
unfolding rsplit has_char
rsplit-no_char sep String.[] h = refl
rsplit-no_char sep (String.◌∷◌ c s) h = elim (Bool-cases (nat_eq (code c) sep)) [
  | inl here ↦ absurd (ground arith)
  | inr other ↦ rw (rsplit-no_char sep s (rw (other) at h), other) refl
]

-- What is joined by a separator comes apart at the last one.
pub rsplit-join :
    (sep : ℕ) (c : Char) (a b : String)
    → code c ≡ sep
    → has_char sep b ≡ false
    → rsplit sep (String.◌++◌ a (String.◌∷◌ c b)) ≡ some (a, b)
unfolding rsplit
rsplit-join sep c String.[] b is_sep h =
    rw (nil-append (String.◌∷◌ c b), rsplit-no_char sep b h, is_sep) (ground arith)
rsplit-join sep c (String.◌∷◌ d a) b is_sep h =
    rw (cons-append d a (String.◌∷◌ c b), rsplit-join sep c a b is_sep h) refl
