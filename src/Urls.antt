-- ===== src/Urls.antt =====
-- The standard library's urllib.parse, as far as the middleware takes URLs apart.
use Prim.Native.Char.{Char, code}
use keystonemiddleware.Base.{
  String, ◌<>◌, Bool, true, not, Option, none, some, ◌==◌, ◌&&◌, ◌||◌, starts_with, drop_text,
  has_char, lower, cons, leb, nat_eq, if◌then◌else◌,
}
use keystonemiddleware.Exec.{Result, ok, raise, then_result, value_error}

-- Characters that a scheme consists of (urllib.parse.scheme_chars).
abbrev is_scheme_char : Char → Bool
is_scheme_char c =
    let n = code c in
    (leb 97 n && leb n 122)
    || (leb 65 n && leb n 90)
    || (leb 48 n && leb n 57)
    || nat_eq n 43
    || nat_eq n 45
    || nat_eq n 46

-- What follows `scheme:`, or the whole text where no scheme stands.
behind_scheme : String → String → String
behind_scheme whole String.[] = whole
behind_scheme whole (String.◌∷◌ c s) =
    let deeper = behind_scheme whole s in
    if nat_eq (code c) b':' then s else if is_scheme_char c then deeper else whole

until_path : String → String
until_path String.[] = ""
until_path (String.◌∷◌ c s) =
    let rest = until_path s in
    let n = code c in if nat_eq n b'/' || nat_eq n b'?' || nat_eq n b'#' then "" else cons c rest

-- `[` and `]` come together, or ValueError
abbrev valid_netloc : String → Result String
valid_netloc location =
    let opened = has_char b'[' location in
    let closed = has_char b']' location in
    if (opened && not closed) || (closed && not opened) then raise value_error else ok location

-- `urlparse(url).netloc` of a text
unfoldable pub netloc : String → Result String
unfolding behind_scheme until_path
netloc url =
    let rest = if starts_with url ":" then url else behind_scheme url url in
    if starts_with rest "//" then valid_netloc (until_path (drop_text 2 rest)) else ok ""

-- The text before `:`, or "" where no scheme stands.
before_colon : String → Option String
before_colon String.[] = none
before_colon (String.◌∷◌ c s) =
    let deeper = before_colon s in
    if nat_eq (code c) b':'
    then some ""
    else if is_scheme_char c
    then elim deeper [ none ↦ none | some rest ↦ some (cons c rest) ]
    else none

all_digits : String → Bool
all_digits String.[] = true
all_digits (String.◌∷◌ c s) = let n = code c in leb 48 n && leb n 57 && all_digits s

-- `urlparse(url).scheme`; digits behind the colon are a port, and the text before it is no scheme.
unfoldable pub scheme : String → String
unfolding before_colon behind_scheme all_digits
scheme url =
    let rest = behind_scheme url url in
    elim (before_colon url) [
      | none ↦ ""
      | some name ↦ if not (rest == "") && all_digits rest then "" else lower name
    ]

-- `urljoin(url, '/')`, where the scheme is one that HTTP clients use
unfoldable pub root : String → Result String
unfolding scheme netloc
root url = then_result (netloc url) λ location.
    if scheme url == ""
    then ok (if location == "" then "/" else "//" <> (location <> "/"))
    else ok (scheme url <> ("://" <> (location <> "/")))

is_slash : Char → Bool
is_slash c = nat_eq (code c) b'/'

-- `url.rstrip('/')`
unfoldable pub rstrip_slashes : String → String
unfolding is_slash
rstrip_slashes String.[] = ""
rstrip_slashes (String.◌∷◌ c s) =
    let rest = rstrip_slashes s in if is_slash c && rest == "" then "" else cons c rest

lstrip_slashes : String → String
unfolding is_slash
lstrip_slashes String.[] = ""
lstrip_slashes (String.◌∷◌ c s) =
    let rest = lstrip_slashes s in if is_slash c then rest else cons c s

-- `url.strip('/')`
unfoldable pub strip_slashes : String → String
unfolding lstrip_slashes rstrip_slashes
strip_slashes s = rstrip_slashes (lstrip_slashes s)
