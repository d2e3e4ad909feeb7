-- ===== src/Base/Text.antt =====
-- Python's text methods that the middleware calls.
use Prim.Native.Char.{Char, code}
use Prim.Native.String
use Prim.Native.String.{String}
use mathlib.Core.Bool.{Bool, true, false, ◌||◌, ◌&&◌}
use mathlib.Core.List.{List, [], ◌∷◌}
use keystonemiddleware.Base.Tests.{if◌then◌else◌, leb, nat_eq}

abbrev pub cons : Char → String → String
cons c s = String.◌∷◌ c s

-- The white space of `str.strip()` among the Latin-1 characters, which is what a header can hold.
abbrev pub is_space : Char → Bool
is_space c =
    let n = code c in
    (leb 9 n && leb n 13) || (leb 28 n && leb n 32) || nat_eq n 133 || nat_eq n 160

unfoldable pub lstrip : String → String
lstrip String.[] = ""
lstrip (String.◌∷◌ c s) = let rest = lstrip s in if is_space c then rest else cons c s

unfoldable pub rstrip : String → String
rstrip String.[] = ""
rstrip (String.◌∷◌ c s) =
    let rest = rstrip s in
    elim rest [
      | String.[] ↦ if is_space c then "" else cons c ""
      | String.◌∷◌ d t ↦ cons c (cons d t)
    ]

-- `s.strip()`
unfoldable pub strip : String → String
unfolding lstrip rstrip
strip s = rstrip (lstrip s)

abbrev same_char : Char → Char → Bool
same_char c d = nat_eq (code c) (code d)

-- The character of `to` that stands where `c` stands in `from`.
translate : String → String → Char → Char
translate (String.◌∷◌ a from) (String.◌∷◌ b to) c =
    let rest = translate from to c in if same_char a c then b else rest
translate _ _ c = c

lower_char : Char → Char
unfolding translate
lower_char = translate "ABCDEFGHIJKLMNOPQRSTUVWXYZ" "abcdefghijklmnopqrstuvwxyz"

-- `s.lower()` on ASCII text
unfoldable pub lower : String → String
unfolding lower_char
lower String.[] = ""
lower (String.◌∷◌ c s) = cons (lower_char c) (lower s)

upper_char : Char → Char
unfolding translate
upper_char = translate "abcdefghijklmnopqrstuvwxyz" "ABCDEFGHIJKLMNOPQRSTUVWXYZ"

-- `s.upper()` on ASCII text
unfoldable pub upper : String → String
unfolding upper_char
upper String.[] = ""
upper (String.◌∷◌ c s) = cons (upper_char c) (upper s)

-- `s.startswith(t)`
unfoldable pub starts_with : String → String → Bool
starts_with s String.[] = true
starts_with String.[] (String.◌∷◌ b t) = false
starts_with (String.◌∷◌ a s) (String.◌∷◌ b t) = same_char a b && starts_with s t

reverse_onto : String → String → String
reverse_onto String.[] acc = acc
reverse_onto (String.◌∷◌ c s) acc = reverse_onto s (cons c acc)

unfoldable pub ends_with : String → String → Bool
unfolding starts_with reverse_onto
ends_with s t = starts_with (reverse_onto s "") (reverse_onto t "")

-- `sep.join(parts)`
unfoldable pub join : String → List String → String
join sep [] = ""
join sep (s ∷ []) = s
join sep (s ∷ t ∷ ts) = String.◌++◌ s (String.◌++◌ sep (join sep (t ∷ ts)))
