-- ===== src/Protocol/PathRules.antt =====
-- auth_token/__init__.py: `_path_matches`. The pattern's tokens are turned into a regular expression,
-- which the interpreter's `re.match` then tries on the request's path.
pub mod Regex
pub mod Runs
pub mod Matches
use Prim.Native.Char.{Char, code}
use keystonemiddleware.Base.{
  ℕ, String, ◌<>◌, Bool, true, false, List, [], ◌∷◌, nat_eq, cons, if◌then◌else◌,
}
use keystonemiddleware.Exec.{Result}

-- The four groups of `token_regex`
pub data Token : Type 0 where
  tag wild rec_wild : Token
  literal : Char → Token

abbrev pub is_char : Char → ℕ → Bool
is_char c n = nat_eq (code c) n

-- A `}` follows, so that `{[^}]*}` can match.
unfoldable pub has_close : String → Bool
has_close String.[] = false
has_close (String.◌∷◌ c s) = let rest = has_close s in if is_char c b'}' then true else rest

-- `re.finditer(token_regex, path_pattern)`, with `inside` while a tag is read. A brace that belongs to
-- no tag matches no group and is passed over.
unfoldable pub tokens : Bool → String → List Token
unfolding has_close
tokens inside String.[] = []
tokens true (String.◌∷◌ c s) =
    let after = tag ∷ tokens false s in
    let more = tokens true s in if is_char c b'}' then after else more
tokens false (String.◌∷◌ c String.[]) =
    if is_char c b'*'
    then wild ∷ []
    else if is_char c b'{'
    then []
    else if is_char c b'}'
    then []
    else literal c ∷ []
tokens false (String.◌∷◌ c (String.◌∷◌ d s)) =
    let next = tokens false (String.◌∷◌ d s) in
    let starred = rec_wild ∷ tokens false s in
    let tagged = tokens true (String.◌∷◌ d s) in
    if is_char c b'*'
    then (if is_char d b'*' then starred else wild ∷ next)
    else if is_char c b'{'
    then (if has_close (cons d s) then tagged else next)
    else if is_char c b'}'
    then next
    else literal c ∷ next

unfoldable pub token_regex : Token → String
token_regex tag = "[^\\/]+"
token_regex wild = "[^\\/]+"
token_regex rec_wild = ".*"
token_regex (literal c) = cons c ""

unfoldable pub tokens_regex : List Token → String
unfolding token_regex
tokens_regex [] = ""
tokens_regex (t ∷ ts) = token_regex t <> tokens_regex ts

unfoldable pub path_regex : String → String
unfolding tokens tokens_regex
path_regex path_pattern = "^" <> (tokens_regex (tokens false path_pattern) <> "$")

-- `re_match` is `bool(re.match(pattern, text))`, which may raise.
unfoldable pub path_matches : (String → String → Result Bool) → String → String → Result Bool
unfolding path_regex
path_matches re_match request_path path_pattern = re_match (path_regex path_pattern) request_path
