-- ===== src/Protocol/PathRules/Matches.antt =====
-- auth_token/__init__.py: which paths a pattern matches, by `_path_matches`.
use Prim.Native.Char.{Char}
use text.Mathlib.TextLemmas.{nil-append, cons-append, append_assoc}
use keystonemiddleware.Base.{
  ◌≡◌, refl, sym, ap, ◌∙◌, ◌≢◌, ◌⊎◌, ◌↔◌, String, ◌<>◌, Bool, true, false, some, List, [], ◌∷◌, map,
  has_char, cons, arith,
}
use keystonemiddleware.Exec.{Result, ok, ok-injective}
use keystonemiddleware.Protocol.PathRules.{
  Token, tag, wild, rec_wild, literal, tokens, token_regex, tokens_regex, path_regex, path_matches,
}
use keystonemiddleware.Protocol.PathRules.Regex.{
  Atom, no_slashes, anything, one, is_ordinary, atoms_of, parse_regex, then_atom, match_atoms,
  ReMatch,
}
use keystonemiddleware.Protocol.PathRules.Runs.{
  star-true, star-append, plus-true, plus-append, step-true, step-append, at_end_iff,
}

-- What a token stands for: a name is some text without a slash, `**` any text on one line.
abbrev pub Fits : Token → String → Type 0
Fits tag s = (s ≢ "") × (has_char b'/' s ≡ false)
Fits wild s = (s ≢ "") × (has_char b'/' s ≡ false)
Fits rec_wild s = has_char 10 s ≡ false
Fits (literal c) s = s ≡ cons c ""

-- A text that comes apart into what the tokens stand for, but for a line feed at its end.
abbrev pub Matches : List Token → String → Type 0
Matches [] s = (s ≡ "") ⊎ (s ≡ "\n")
Matches (t ∷ ts) s =
    (front : String) × (rest : String) × (s ≡ front <> rest) × Fits t front × Matches ts rest

-- No literal of the pattern means more than itself in a regular expression.
abbrev pub AreOrdinary : List Token → Type 0
AreOrdinary [] = Unit {0}
AreOrdinary (literal c ∷ ts) = (is_ordinary c ≡ true) × AreOrdinary ts
AreOrdinary (_ ∷ ts) = AreOrdinary ts

abbrev atom : Token → Atom
atom tag = no_slashes
atom wild = no_slashes
atom rec_wild = anything
atom (literal c) = one c

-- The matcher takes a text exactly if it comes apart into what the tokens stand for.
match_atoms-Matches :
    (ts : List Token) (s : String) → match_atoms (map atom ts) s ≡ true → Matches ts s
unfolding match_atoms
match_atoms-Matches [] s e = (at_end_iff s).0 e
match_atoms-Matches (tag ∷ ts) s e =
    let (front, rest, same, fits, matched) = plus-true b'/' (match_atoms (map atom ts)) s e in
    (front, rest, same, fits, match_atoms-Matches ts rest matched)
match_atoms-Matches (wild ∷ ts) s e =
    let (front, rest, same, fits, matched) = plus-true b'/' (match_atoms (map atom ts)) s e in
    (front, rest, same, fits, match_atoms-Matches ts rest matched)
match_atoms-Matches (rec_wild ∷ ts) s e =
    let (front, rest, same, fits, matched) = star-true 10 (match_atoms (map atom ts)) s e in
    (front, rest, same, fits, match_atoms-Matches ts rest matched)
match_atoms-Matches (literal c ∷ ts) s e =
    let (rest, same, matched) = step-true c (match_atoms (map atom ts)) s e in
    (cons c "", rest, same, refl, match_atoms-Matches ts rest matched)

Matches-match_atoms :
    (ts : List Token) (s : String) → Matches ts s → match_atoms (map atom ts) s ≡ true
unfolding match_atoms
Matches-match_atoms [] s m = (at_end_iff s).1 m
Matches-match_atoms (tag ∷ ts) s (front, rest, same, (some_text, free), m) =
    rw (same) (plus-append b'/' _ front rest some_text free (Matches-match_atoms ts rest m))
Matches-match_atoms (wild ∷ ts) s (front, rest, same, (some_text, free), m) =
    rw (same) (plus-append b'/' _ front rest some_text free (Matches-match_atoms ts rest m))
Matches-match_atoms (rec_wild ∷ ts) s (front, rest, same, free, m) =
    rw (same) (star-append 10 _ front rest free (Matches-match_atoms ts rest m))
Matches-match_atoms (literal c ∷ ts) s (front, rest, same, one_char, m) =
    rw (same, one_char) (step-append c _ rest (Matches-match_atoms ts rest m))

atoms_of-class : (r : String) → atoms_of "" ("[^\\/]+" <> r) ≡ then_atom no_slashes (atoms_of "" r)
unfolding atoms_of has_char
atoms_of-class r =
    rw
      (
        cons-append "[" "^\\/]+" r,
        cons-append "^" "\\/]+" r,
        cons-append "\\" "/]+" r,
        cons-append "/" "]+" r,
        cons-append "]" "+" r,
        cons-append "+" "" r,
        nil-append r,
      )
      refl

atoms_of-dots : (r : String) → atoms_of "" (".*" <> r) ≡ then_atom anything (atoms_of "" r)
unfolding atoms_of has_char
atoms_of-dots r = rw (cons-append "." "*" r, cons-append "*" "" r, nil-append r) refl

atoms_of-one :
    (c : Char) (r : String)
    → is_ordinary c ≡ true
    → atoms_of "" (cons c "" <> r) ≡ then_atom (one c) (atoms_of "" r)
unfolding atoms_of has_char
atoms_of-one c r plain = rw (cons-append c "" r, nil-append r) (ground arith)

-- The expression that is built is read back as an atom for each token.
atoms_of-tokens_regex :
    (ts : List Token) → AreOrdinary ts → atoms_of "" (tokens_regex ts <> "$") ≡ some (map atom ts)
unfolding tokens_regex token_regex atoms_of
atoms_of-tokens_regex [] ordinary = refl
atoms_of-tokens_regex (tag ∷ ts) ordinary =
    rw
      (
        append_assoc "[^\\/]+" (tokens_regex ts) "$",
        atoms_of-class,
        atoms_of-tokens_regex ts ordinary,
      )
      refl
atoms_of-tokens_regex (wild ∷ ts) ordinary =
    rw
      (
        append_assoc "[^\\/]+" (tokens_regex ts) "$",
        atoms_of-class,
        atoms_of-tokens_regex ts ordinary,
      )
      refl
atoms_of-tokens_regex (rec_wild ∷ ts) ordinary =
    rw (append_assoc ".*" (tokens_regex ts) "$", atoms_of-dots, atoms_of-tokens_regex ts ordinary)
      refl
atoms_of-tokens_regex (literal c ∷ ts) (plain, ordinary) =
    rw
      (
        append_assoc (cons c "") (tokens_regex ts) "$",
        atoms_of-one c _ plain,
        atoms_of-tokens_regex ts ordinary,
      )
      refl

-- Where re.match does what is documented and no literal of the pattern means more than itself in an
-- expression, a path matches exactly if it comes apart into what the pattern's tokens stand for: a tag
-- or a star for some text without a slash, two stars for any text on one line, and a literal for itself.
pub path_matches_iff :
    (re_match : String → String → Result Bool) (path pattern : String)
    → ReMatch re_match
    → AreOrdinary (tokens false pattern)
    → (path_matches re_match path pattern ≡ ok true) ↔ Matches (tokens false pattern) path
unfolding path_matches path_regex parse_regex
path_matches_iff re_match path pattern documented ordinary =
    let ts = tokens false pattern in
    let answered : path_matches re_match path pattern ≡ ok (match_atoms (map atom ts) path) =
      documented (path_regex pattern) path (map atom ts) (
        rw (cons-append "^" "" (tokens_regex ts <> "$"), nil-append (tokens_regex ts <> "$"))
          (atoms_of-tokens_regex ts ordinary)) in
    (
      λ e. match_atoms-Matches ts path (ok-injective (sym answered ∙ e)),
      λ m. answered ∙ ap ok (Matches-match_atoms ts path m),
    )
