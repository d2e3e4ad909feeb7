-- ===== src/Request/Removal.antt =====
-- auth_token/_request.py: what `remove_auth_headers` takes off a request, and what it leaves.
use keystonemiddleware.Base.{
  ◌≡◌, refl, sym, ap, ◌∙◌, String, Bool, true, false, some, none, List, [], ◌∷◌, ◌==◌, eq_iff,
  arith, lookup, lookup-erase_all, contains, Bool-cases, inl, inr, if◌then◌else◌, ◌&&◌,
}
use keystonemiddleware.Access.{AccessInfo}
use keystonemiddleware.Request.AuthHeaders.{
  Headers, all_auth_headers, system_scope_header, remove_auth_headers, set_user_headers,
  set_service_headers, get_system_scope, auth_entries, service_prefix,
}
use keystonemiddleware.Request.Written.{
  last_of_absent, names_of, user_entries, lookup-set_user_headers, lookup-set_service_headers,
}

-- The headers under which auth_token tells an application about its user and about the service.
abbrev pub identity_headers : List String
identity_headers =
    "X-Domain-Id" ∷ "X-Domain-Name" ∷ "X-Project-Id" ∷ "X-Project-Name" ∷ "X-Project-Domain-Id"
    ∷ "X-Project-Domain-Name" ∷ "X-User-Id" ∷ "X-User-Name" ∷ "X-User-Domain-Id"
    ∷ "X-User-Domain-Name" ∷ "X-Roles" ∷ "X-Service-Domain-Id" ∷ "X-Service-Domain-Name"
    ∷ "X-Service-Project-Id" ∷ "X-Service-Project-Name" ∷ "X-Service-Project-Domain-Id"
    ∷ "X-Service-Project-Domain-Name" ∷ "X-Service-User-Id" ∷ "X-Service-User-Name"
    ∷ "X-Service-User-Domain-Id" ∷ "X-Service-User-Domain-Name" ∷ "X-Service-Roles"
    ∷ "X-Service-Catalog" ∷ "X-Is-Admin-Project" ∷ "X-Role" ∷ "X-User" ∷ "X-Tenant-Id"
    ∷ "X-Tenant-Name" ∷ "X-Tenant" ∷ []

-- These, and the two that say whether the tokens were accepted.
abbrev pub removed_headers : List String
removed_headers = "X-Identity-Status" ∷ "X-Service-Identity-Status" ∷ identity_headers

pub lookup-remove_auth_headers :
    (j : String) (h : Headers)
    → lookup j (remove_auth_headers h) ≡ (if contains all_auth_headers j then none else lookup j h)
unfolding remove_auth_headers
lookup-remove_auth_headers j h = lookup-erase_all j all_auth_headers h

-- A client's own OpenStack-System-Scope header, which _set_auth_headers also writes, survives
-- remove_auth_headers.
pub system_scope_kept :
    (h : Headers)
    → lookup system_scope_header (remove_auth_headers h) ≡ lookup system_scope_header h
system_scope_kept h = lookup-remove_auth_headers system_scope_header h

-- Every name of the first list stands in the second.
abbrev is_within : List String → List String → Bool
is_within [] ks = true
is_within (j ∷ js) ks = contains ks j && is_within js ks

contains-is_within :
    (js ks : List String) (j : String)
    → is_within js ks ≡ true
    → contains ks j ≡ false
    → contains js j ≡ false
contains-is_within [] ks j within absent = refl
contains-is_within (k ∷ js) ks j within absent = elim (Bool-cases (k == j)) [
  | inl same ↦ absurd (ground (arith, ap (contains ks) ((eq_iff k j).0 same)))
  | inr other ↦ rw (other) (contains-is_within js ks j (ground arith) absent)
]

pub same_names : (j : String) → contains all_auth_headers j ≡ contains removed_headers j
same_names j = elim (Bool-cases (contains all_auth_headers j)) [
  | inr absent ↦ absent ∙ sym (contains-is_within removed_headers all_auth_headers j refl absent)
  | inl there ↦ elim (Bool-cases (contains removed_headers j)) [
    | inl listed ↦ there ∙ sym listed
    | inr absent ↦
        absurd (ground (arith, contains-is_within all_auth_headers removed_headers j refl absent))
  ]
]

-- What the two methods write is taken off again, but for the system scope.
lookup-written :
    (user service : AccessInfo) (h : Headers) (j : String)
    → contains all_auth_headers j ≡ false
    → lookup j (set_service_headers service (set_user_headers user h).1)
      ≡ (if system_scope_header == j then some (get_system_scope service) else lookup j h)
unfolding auth_entries
lookup-written user service h j absent = elim (Bool-cases (system_scope_header == j)) [
  | inl scope ↦
      rw (scope, ← (eq_iff system_scope_header j).0 scope)
        (lookup-set_service_headers system_scope_header service (set_user_headers user h).1)
  | inr other ↦ rw (other) (
      lookup-set_service_headers j service (set_user_headers user h).1
      ∙ last_of_absent j (auth_entries service service_prefix) _ (
          contains-is_within (names_of (auth_entries service service_prefix))
            (system_scope_header ∷ all_auth_headers) j refl (rw (other) absent))
      ∙ lookup-set_user_headers j user h
      ∙ last_of_absent j (user_entries user) _ (
          contains-is_within (names_of (user_entries user)) (system_scope_header ∷ all_auth_headers)
            j refl (rw (other) absent)))
]

removed-written :
    (user service : AccessInfo) (h : Headers) (j : String)
    → lookup j (remove_auth_headers (set_service_headers service (set_user_headers user h).1)) ≡ (
        if system_scope_header == j
        then some (get_system_scope service)
        else lookup j (remove_auth_headers h))
removed-written user service h j = elim (Bool-cases (contains all_auth_headers j)) [
  | inl there ↦
      let other : (system_scope_header == j) ≡ false =
        elim (Bool-cases (system_scope_header == j)) [
          | inr other ↦ other
          | inl scope ↦ absurd (
              ground
                (arith, ap (contains all_auth_headers) ((eq_iff system_scope_header j).0 scope)))
        ] in
      rw (lookup-remove_auth_headers j _, lookup-remove_auth_headers j h, there, other) refl
  | inr absent ↦
      rw
        (
          lookup-remove_auth_headers j (set_service_headers service (set_user_headers user h).1),
          lookup-remove_auth_headers j h,
          absent,
        )
        (lookup-written user service h j absent)
]

-- remove_auth_headers takes off exactly the headers by which auth_token tells an application about its
-- user and about the service, and the two status headers. It undoes what set_user_headers and
-- set_service_headers wrote, but for OpenStack-System-Scope, which stays with the service's scope.
pub remove_auth_headers_lem :
    (user service : AccessInfo) (h : Headers) (j : String)
    → (lookup j (remove_auth_headers h) ≡ (if contains removed_headers j then none else lookup j h))
      × (lookup j (remove_auth_headers (set_service_headers service (set_user_headers user h).1))
          ≡ (if system_scope_header == j
              then some (get_system_scope service)
              else lookup j (remove_auth_headers h)))
remove_auth_headers_lem user service h j = (
  lookup-remove_auth_headers j h ∙ ap (λ b. if b then none else lookup j h) (same_names j),
  removed-written user service h j,
)
