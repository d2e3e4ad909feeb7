-- ===== src/Tests/Headers.antt =====
-- auth_token/_request.py: headers and the catalog, on concrete requests.
use keystonemiddleware.Base.{
  ◌≡◌, refl, none, some, List, [], ◌∷◌, lookup, insert, erase, erase_all, contains, lower,
  if◌then◌else◌,
}
use keystonemiddleware.Exec.{ok}
use keystonemiddleware.Json.{Json, str, obj, end, field, put, get, index}
use keystonemiddleware.Request.AuthHeaders.{
  Headers, remove_auth_headers, set_user_headers, set_service_headers, copy_deprecated,
}
use keystonemiddleware.Request.Removal.{removed_headers, remove_auth_headers_lem}
use keystonemiddleware.Request.Written.{
  WritesUser, WritesService, set_user_headers_lem, set_service_headers_lem,
}
use keystonemiddleware.Request.Catalog.{
  Regions, text_key, add_endpoints, add_url, key, same_key, lower_text, new_region,
}
use keystonemiddleware.Request.Catalog.Regions.{url_at, last_url, url_at-add_endpoints}
use keystonemiddleware.Tests.Fixtures.{alice, nova}

abbrev forged : Headers
forged =
    ("X-User-Id", some "root")
    ∷ ("X-Roles", some "admin")
    ∷ ("OpenStack-System-Scope", some "all")
    ∷ ("Accept", some "*/*")
    ∷ []

removed :
    (remove_auth_headers forged
      ≡ ("OpenStack-System-Scope", some "all") ∷ ("Accept", some "*/*") ∷ [])
unfolding remove_auth_headers erase_all erase
removed = refl

remove_auth_headers_lem_example :
    (lookup "X-Roles" (remove_auth_headers forged)
      ≡ (if contains removed_headers "X-Roles" then none else lookup "X-Roles" forged))
    × (lookup "X-Roles"
          (remove_auth_headers (set_service_headers nova (set_user_headers alice forged).1))
        ≡ lookup "X-Roles" (remove_auth_headers forged))
remove_auth_headers_lem_example = remove_auth_headers_lem alice nova forged "X-Roles"

set_user_headers_lem_example :
    ((set_user_headers alice forged).0 ≡ ok tt)
    × WritesUser alice forged (set_user_headers alice forged).1 "Accept"
set_user_headers_lem_example = set_user_headers_lem alice forged "Accept"

user_name : lookup "X-User" (set_user_headers alice forged).1 ≡ some (some "alice")
unfolding set_user_headers copy_deprecated lookup insert
user_name = refl

set_service_headers_lem_example :
    WritesService nova
      (set_user_headers alice forged).1
      (set_service_headers nova (set_user_headers alice forged).1)
set_service_headers_lem_example = set_service_headers_lem nova (set_user_headers alice forged).1

abbrev endpoint : Json → Json → Json → Json
endpoint region interface url =
    obj (field "region" region (field "interface" interface (field "url" url end)))

abbrev endpoints : List Json
endpoints =
    endpoint (str "east") (str "Public") (str "http://old")
    ∷ endpoint (str "west") (str "public") (str "http://west")
    ∷ endpoint (str "east") (str "public") (str "http://east")
    ∷ []

abbrev grouped : Regions
grouped =
    (text_key "east", field "region" (str "east") (field "publicURL" (str "http://east") end))
    ∷ (text_key "west", field "region" (str "west") (field "publicURL" (str "http://west") end))
    ∷ []

collected : add_endpoints endpoints [] ≡ ok grouped
unfolding add_endpoints add_url put get index key same_key lower_text new_region lower
collected = refl

url_at-add_endpoints_example :
    url_at (text_key "east") "publicURL" grouped
    ≡ last_url (text_key "east") "publicURL" endpoints (url_at (text_key "east") "publicURL" [])
url_at-add_endpoints_example =
    url_at-add_endpoints (text_key "east") "publicURL" endpoints [] grouped refl collected

east : url_at (text_key "east") "publicURL" grouped ≡ some (str "http://east")
unfolding url_at same_key
east = refl
