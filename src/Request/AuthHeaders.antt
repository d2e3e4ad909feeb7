-- ===== src/Request/AuthHeaders.antt =====
-- auth_token/_request.py: the header names of _AuthTokenRequest, and the methods that write them.
-- Headers are webob's EnvironHeaders: one entry to a name, whose spelling is the source's here
-- (webob ignores the case). An entry holds what was assigned, which may be None.
use keystonemiddleware.Base.{
  String, ◌<>◌, Bool, Option, none, some, List, [], ◌∷◌, ◌++◌, map, Dict, lookup, insert, erase_all,
  join, if◌then◌else◌,
}
use keystonemiddleware.Exec.{Exec, ok, raise, key_error}
use keystonemiddleware.Json.{truthy, find, or_null}
use keystonemiddleware.Access.{AccessInfo}

abbrev pub Headers : Type 0
Headers = Dict (Option String)

-- `_HEADER_TEMPLATE`: the part of each template after `X%s`, and the attribute that it shows.
abbrev pub header_template : List (String × (AccessInfo → Option String))
header_template =
    ("-Domain-Id", λ ref. ref.domain_id)
    ∷ ("-Domain-Name", λ ref. ref.domain_name)
    ∷ ("-Project-Id", λ ref. ref.project_id)
    ∷ ("-Project-Name", λ ref. ref.project_name)
    ∷ ("-Project-Domain-Id", λ ref. ref.project_domain_id)
    ∷ ("-Project-Domain-Name", λ ref. ref.project_domain_name)
    ∷ ("-User-Id", λ ref. ref.user_id)
    ∷ ("-User-Name", λ ref. ref.username)
    ∷ ("-User-Domain-Id", λ ref. ref.user_domain_id)
    ∷ ("-User-Domain-Name", λ ref. ref.user_domain_name)
    ∷ []

-- `'X%s…' % prefix`
abbrev pub with_prefix : String → String → String
with_prefix prefix rest = "X" <> (prefix <> rest)

abbrev pub user_prefix : String
user_prefix = ""

abbrev pub service_prefix : String
service_prefix = "-Service"

abbrev pub roles_header : String → String
roles_header prefix = with_prefix prefix "-Roles"

abbrev pub user_status_header : String
user_status_header = "X-Identity-Status"

abbrev pub service_status_header : String
service_status_header = "X-Service-Identity-Status"

abbrev pub admin_project_header : String
admin_project_header = "X-Is-Admin-Project"

abbrev pub system_scope_header : String
system_scope_header = "OpenStack-System-Scope"

abbrev pub service_catalog_header : String
service_catalog_header = "X-Service-Catalog"

abbrev pub confirmed : String
confirmed = "Confirmed"

abbrev pub invalid : String
invalid = "Invalid"

-- `_DEPRECATED_HEADER_MAP`: a deprecated name, and the one that it repeats.
abbrev pub deprecated_header_map : List (String × String)
deprecated_header_map =
    ("X-Role", "X-Roles")
    ∷ ("X-User", "X-User-Name")
    ∷ ("X-Tenant-Id", "X-Project-Id")
    ∷ ("X-Tenant-Name", "X-Project-Name")
    ∷ ("X-Tenant", "X-Project-Name")
    ∷ []

-- `_confirmed`
abbrev pub status_value : Bool → String
status_value b = if b then confirmed else invalid

-- `_is_admin_project`
unfoldable pub is_admin_project : AccessInfo → String
is_admin_project ref = if ref.is_admin_project then "True" else "False"

-- `_get_system_scope`
unfoldable pub get_system_scope : AccessInfo → Option String
unfolding truthy find
get_system_scope ref =
    if ref.system_scoped
    then (if truthy (or_null (find "all" ref.system)) then some "all" else none)
    else none

-- The assignments of a loop, in order.
unfoldable pub insert_all : List (String × Option String) → Headers → Headers
insert_all [] h = h
insert_all ((k, v) ∷ entries) h = insert_all entries (insert k v h)

-- What `_set_auth_headers` assigns, in order.
unfoldable pub auth_entries : AccessInfo → String → List (String × Option String)
auth_entries ref prefix =
    (roles_header prefix, some (join "," ref.role_names))
    ∷ (system_scope_header, get_system_scope ref)
    ∷ map (λ e. (with_prefix prefix e.0, e.1 ref)) header_template

unfoldable pub set_auth_headers : AccessInfo → String → Headers → Headers
unfolding insert_all auth_entries
set_auth_headers ref prefix h = insert_all (auth_entries ref prefix) h

-- The loop `self.headers[k] = self.headers[v]`
unfoldable pub copy_deprecated : List (String × String) → Exec Headers (Unit {0})
copy_deprecated [] h = (ok tt, h)
copy_deprecated ((k, v) ∷ entries) h = elim (lookup v h) [
  | none ↦ (raise key_error, h)
  | some value ↦ copy_deprecated entries (insert k value h)
]

unfoldable pub set_user_headers : AccessInfo → Exec Headers (Unit {0})
unfolding set_auth_headers is_admin_project
set_user_headers ref h =
    copy_deprecated deprecated_header_map (
      insert admin_project_header (some (is_admin_project ref))
        (set_auth_headers ref user_prefix h))

unfoldable pub set_service_headers : AccessInfo → Headers → Headers
unfolding set_auth_headers
set_service_headers ref h = set_auth_headers ref service_prefix h

-- `_all_auth_headers`, in the order of its `yield`s
abbrev pub all_auth_headers : List String
all_auth_headers =
    service_catalog_header
    ∷ user_status_header
    ∷ service_status_header
    ∷ admin_project_header
    ∷ (map (λ e. e.0) deprecated_header_map
        ++ (product header_template
            ++ (roles_header user_prefix ∷ roles_header service_prefix ∷ [])))
  where
    product : List (String × (AccessInfo → Option String)) → List String
    product [] = []
    product (e ∷ es) = with_prefix user_prefix e.0 ∷ with_prefix service_prefix e.0 ∷ product es

-- `remove_auth_headers`
unfoldable pub remove_auth_headers : Headers → Headers
remove_auth_headers h = erase_all all_auth_headers h
