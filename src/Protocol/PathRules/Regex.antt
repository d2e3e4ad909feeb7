-- ===== src/Protocol/PathRules/Regex.antt =====
-- Python's `re`, as far as the expressions of `_path_matches` go: `^`, runs of characters and single
-- characters, and `$`.
use Prim.Native.Char.{Char, code}
use keystonemiddleware.Base.{
  ◌≡◌, ℕ, String, Bool, true, false, not, ◌&&◌, ◌||◌, Option, none, some, List, [], ◌∷◌, has_char,
  nat_eq, if◌then◌else◌,
}
use keystonemiddleware.Exec.{Result, ok}
use keystonemiddleware.Protocol.PathRules.{is_char}

-- `[^\/]+`, `.*` and a character that stands for itself
pub data Atom : Type 0 where
  no_slashes anything : Atom
  one : Char → Atom

-- A character outside a class that stands for itself.
abbrev pub is_ordinary : Char → Bool
is_ordinary c = not (has_char (code c) "\\.^$*+?{}[]|()")

abbrev pub then_atom : Atom → Option (List Atom) → Option (List Atom)
then_atom a none = none
then_atom a (some atoms) = some (a ∷ atoms)

abbrev when_empty : String → Option (List Atom)
when_empty String.[] = some []
when_empty _ = none

-- The atoms of an expression up to its `$`, where the first argument is what is left of an atom that has
-- been begun; nothing for an expression of any other form.
unfoldable pub atoms_of : String → String → Option (List Atom)
atoms_of _ String.[] = none
atoms_of (String.◌∷◌ e expected) (String.◌∷◌ c r) =
    let rest = atoms_of expected r in if nat_eq (code c) (code e) then rest else none
atoms_of String.[] (String.◌∷◌ c r) =
    let class = atoms_of "^\\/]+" r in
    let dots = atoms_of "*" r in
    let rest = atoms_of "" r in
    if is_char c b'['
    then then_atom no_slashes class
    else if is_char c b'.'
    then then_atom anything dots
    else if is_char c b'$'
    then when_empty r
    else if is_ordinary c
    then then_atom (one c) rest
    else none

unfoldable pub parse_regex : String → Option (List Atom)
parse_regex String.[] = none
parse_regex (String.◌∷◌ c r) = if is_char c b'^' then atoms_of "" r else none

-- Any number of characters but the one with the code n, then what `after` takes.
unfoldable pub star : ℕ → (String → Bool) → String → Bool
star n after String.[] = after ""
star n after (String.◌∷◌ d s) = after (String.◌∷◌ d s) || (not (is_char d n) && star n after s)

-- The same with one character at least.
unfoldable pub plus : ℕ → (String → Bool) → String → Bool
plus n after String.[] = false
plus n after (String.◌∷◌ d s) = not (is_char d n) && star n after s

unfoldable pub step : Char → (String → Bool) → String → Bool
step c after String.[] = false
step c after (String.◌∷◌ d s) = nat_eq (code c) (code d) && after s

-- `$` takes the end of the text, and a line feed that ends it.
unfoldable pub at_end : String → Bool
at_end String.[] = true
at_end (String.◌∷◌ d String.[]) = is_char d 10
at_end _ = false

-- Whether the atoms take a text as far as `$`. A class takes line feeds, the dot does not.
unfoldable pub match_atoms : List Atom → String → Bool
match_atoms [] = at_end
match_atoms (no_slashes ∷ atoms) = plus b'/' (match_atoms atoms)
match_atoms (anything ∷ atoms) = star 10 (match_atoms atoms)
match_atoms (one c ∷ atoms) = step c (match_atoms atoms)

-- What is documented of `re.match`, for expressions of this form.
abbrev pub ReMatch : (String → String → Result Bool) → Type 0
ReMatch re_match =
    (r s : String) (atoms : List Atom)
    → parse_regex r ≡ some atoms
    → re_match r s ≡ ok (match_atoms atoms s)
