-- ===== src/Fixture.antt =====
-- fixture.py: AuthTokenFixture, which stands in for `fetch_token` in tests. keystoneauth1's token
-- fixtures and uuid4 are parameters; the clock is an argument.
use keystonemiddleware.Base.{
  ◌≡◌, ℕ, String, Bool, true, false, Option, none, some, List, [], ◌∷◌, Dict, ◌==◌, ltb, lookup,
  insert, lookup-insert, arith, if◌then◌else◌,
}
use keystonemiddleware.Exec.{Result, ok, raise, invalid_token}
use keystonemiddleware.Json.{Json, truthy}

pub record TokenData : Type 0 where
  pub expires : ℕ
  pub body : Json

-- What a token is made of, by either of the fixtures; the user's and the project's domains go to a
-- V3Token only.
pub record TokenArgs : Type 0 where
  pub expires : Option ℕ
  pub user : Option String × Option String
  pub user_domain : Option String × Option String
  pub project : Option String × Option String
  pub project_domain : Option String × Option String

pub record TokenFixtures : Type 0 where
  pub v2_token : String → TokenArgs → TokenData
  pub v3_token : TokenArgs → TokenData
  pub add_role : String → TokenData → TokenData

abbrev id_or : String → Option String → String
id_or uuid none = uuid
id_or uuid (some id) = if id == "" then uuid else id

-- `add_token`: the id, and the tokens
unfoldable pub add_token :
    String → TokenData → Option String → Dict TokenData → String × Dict TokenData
add_token uuid token_data token_id tokens =
    (id_or uuid token_id, insert (id_or uuid token_id) token_data tokens)

unfoldable pub add_roles : TokenFixtures → List String → TokenData → TokenData
add_roles lib [] token = token
add_roles lib (role ∷ roles) token = add_roles lib roles (lib.add_role role token)

abbrev roles_or_empty : Option (List String) → List String
roles_or_empty none = []
roles_or_empty (some roles) = roles

-- `add_token_data`
unfoldable pub add_token_data :
    TokenFixtures
    → String
    → Option String
    → TokenArgs
    → Option (List String)
    → Bool
    → Dict TokenData
    → Dict TokenData
unfolding add_token add_roles
add_token_data lib uuid token_id args role_list is_v2 tokens =
    let id = id_or uuid token_id in
    let token = if is_v2 then lib.v2_token id args else lib.v3_token args in
    (add_token uuid (add_roles lib (roles_or_empty role_list) token) (some id) tokens).1

-- `_assert_token_not_expired`, with the data behind it
unfoldable pub unexpired : ℕ → TokenData → Result Json
unexpired now token_data =
    if ltb token_data.expires now then raise invalid_token else ok token_data.body

unfoldable pub fixture_fetch_token : ℕ → String → Dict TokenData → Result Json
unfolding unexpired truthy
fixture_fetch_token now token tokens = elim (lookup token tokens) [
  | none ↦ raise invalid_token
  | some token_data ↦
      let fetched = unexpired now token_data in
      if truthy token_data.body then fetched else raise invalid_token
]

-- A token that was added is fetched until it expires, and adding it changes no other.
pub fixture_fetch_token-add_token :
    (now : ℕ) (uuid id token : String) (token_data : TokenData) (tokens : Dict TokenData)
    → id == "" ≡ false
    → truthy token_data.body ≡ true
    → fixture_fetch_token now token (add_token uuid token_data (some id) tokens).1 ≡ (
        if id == token
        then (if ltb token_data.expires now then raise invalid_token else ok token_data.body)
        else fixture_fetch_token now token tokens)
unfolding fixture_fetch_token add_token
fixture_fetch_token-add_token now uuid id token token_data tokens named full =
    ground (arith, lookup-insert token id token_data tokens)
