-- ===== src/Json.antt =====
-- The values that jsonutils.loads returns: Python dictionaries, lists, texts, numbers, booleans and
-- None, with the dictionary and truth operations that the middleware applies to them. Numbers are
-- only passed through, and are natural here.
use keystonemiddleware.Base.{
  ℕ, String, Bool, true, false, not, Option, none, some, List, [], ◌∷◌, ◌==◌, nat_eq, if◌then◌else◌,
}
use keystonemiddleware.Exec.{Result, ok, raise, attribute_error, key_error, type_error}

mutual
  pub data Json : Type 0 where
    null : Json
    bool : Bool → Json
    num : ℕ → Json
    str : String → Json
    arr : Items → Json
    obj : Fields → Json

  pub data Items : Type 0 where
    nil : Items
    item : Json → Items → Items

  pub data Fields : Type 0 where
    end : Fields
    field : String → Json → Fields → Fields

-- `bool(v)`
unfoldable pub truthy : Json → Bool
truthy null = false
truthy (bool b) = b
truthy (num n) = not (nat_eq n 0)
truthy (str s) = not (s == "")
truthy (arr nil) = false
truthy (arr (item _ _)) = true
truthy (obj end) = false
truthy (obj (field _ _ _)) = true

unfoldable pub find : String → Fields → Option Json
find k end = none
find k (field j v fs) = if j == k then some v else find k fs

-- `d[k] = v` on a dictionary
unfoldable pub put : String → Json → Fields → Fields
put k v end = field k v end
put k v (field j w fs) = if j == k then field k v fs else field j w (put k v fs)

abbrev pub or_null : Option Json → Json
or_null none = null
or_null (some v) = v

abbrev pub or_key_error : Option Json → Result Json
or_key_error none = raise key_error
or_key_error (some v) = ok v

-- `v.get(k)`: None for a missing key
unfoldable pub get : Json → String → Result Json
unfolding find
get (obj fs) k = ok (or_null (find k fs))
get _ k = raise attribute_error

-- `v[k]` with a text for `k`
unfoldable pub index : Json → String → Result Json
unfolding find
index (obj fs) k = or_key_error (find k fs)
index _ k = raise type_error

unfoldable pub items : Items → List Json
items nil = []
items (item v vs) = v ∷ items vs

unfoldable pub of_list : List Json → Items
of_list [] = nil
of_list (v ∷ vs) = item v (of_list vs)

unfoldable pub names : Fields → List Json
names end = []
names (field k _ fs) = str k ∷ names fs

-- `for x in v`: a dictionary yields its keys. A text is no list of services or rules, and what
-- Python would do with its characters, to index them by a text, is the same error one step later.
unfoldable pub iterate : Json → Result (List Json)
unfolding items names
iterate (arr vs) = ok (items vs)
iterate (obj fs) = ok (names fs)
iterate (str s) = if s == "" then ok [] else raise type_error
iterate _ = raise type_error

-- `v == s` for a text `s`
unfoldable pub is_text : Json → String → Bool
is_text (str t) s = t == s
is_text _ s = false
