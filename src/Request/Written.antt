-- ===== src/Request/Written.antt =====
-- auth_token/_request.py: what `set_user_headers` and `set_service_headers` write.
use keystonemiddleware.Base.{
  String, ◌≡◌, refl, sym, ◌∙◌, ap, false, Option, some, List, [], ◌∷◌, ◌++◌, map, ◌⊎◌, inl, inr,
  true, ◌==◌, lookup, insert, lookup-insert, contains, join, All, ◌&◌, Bool-cases, if◌then◌else◌,
  arith,
}
use keystonemiddleware.Exec.{ok}
use keystonemiddleware.Access.{AccessInfo}
use keystonemiddleware.Request.AuthHeaders.{
  Headers, header_template, with_prefix, user_prefix, service_prefix, roles_header,
  admin_project_header, system_scope_header, deprecated_header_map, is_admin_project,
  get_system_scope, insert_all, auth_entries, set_auth_headers, copy_deprecated, set_user_headers,
  set_service_headers,
}

-- The value that the last entry of a name assigns, or else `o`.
abbrev pub last_of :
    String → List (String × Option String) → Option (Option String) → Option (Option String)
last_of j [] o = o
last_of j ((k, v) ∷ entries) o = last_of j entries (if k == j then some v else o)

abbrev pub names_of : List (String × Option String) → List String
names_of [] = []
names_of ((k, _) ∷ entries) = k ∷ names_of entries

pub lookup-insert_all :
    (j : String) (entries : List (String × Option String)) (h : Headers)
    → lookup j (insert_all entries h) ≡ last_of j entries (lookup j h)
unfolding insert_all
lookup-insert_all j [] h = refl
lookup-insert_all j ((k, v) ∷ entries) h =
    lookup-insert_all j entries (insert k v h) ∙ ap (last_of j entries) (lookup-insert j k v h)

pub last_of_absent :
    (j : String) (entries : List (String × Option String)) (o : Option (Option String))
    → contains (names_of entries) j ≡ false
    → last_of j entries o ≡ o
last_of_absent j [] o e = refl
last_of_absent j ((k, v) ∷ entries) o e =
    ground (arith, last_of_absent j entries (if k == j then some v else o))

-- What the whole of `set_user_headers` assigns, in order.
abbrev pub user_entries : AccessInfo → List (String × Option String)
unfolding auth_entries
user_entries ref =
    auth_entries ref user_prefix
    ++ (admin_project_header, some (is_admin_project ref))
      ∷ ("X-Role", some (join "," ref.role_names))
      ∷ ("X-User", ref.username)
      ∷ ("X-Tenant-Id", ref.project_id)
      ∷ ("X-Tenant-Name", ref.project_name)
      ∷ ("X-Tenant", ref.project_name)
      ∷ []

insert_all-concat :
    (entries : List (String × Option String)) (k : String) (v : Option String) (h : Headers)
    → insert k v (insert_all entries h) ≡ insert_all (entries ++ (k, v) ∷ []) h
unfolding insert_all
insert_all-concat [] k v h = refl
insert_all-concat ((j, w) ∷ entries) k v h = insert_all-concat entries k v (insert j w h)

-- The loop over the deprecated names `rest` finds the values `out`, once `entries` are assigned.
abbrev Finds :
    Headers → List (String × Option String) → List (String × String) → List (Option String) → Type 0
Finds h entries [] [] = Unit
Finds h entries ((k, v) ∷ rest) (value ∷ out) =
    (last_of v entries (lookup v h) ≡ some value) × Finds h (entries ++ (k, value) ∷ []) rest out
Finds h entries _ _ = ⊥

abbrev copies :
    List (String × Option String)
    → List (String × String)
    → List (Option String)
    → List (String × Option String)
copies entries ((k, v) ∷ rest) (value ∷ out) = copies (entries ++ (k, value) ∷ []) rest out
copies entries _ _ = entries

copy_deprecated-insert_all :
    (rest : List (String × String)) (out : List (Option String))
    (entries : List (String × Option String)) (h : Headers)
    → Finds h entries rest out
    → copy_deprecated rest (insert_all entries h) ≡ (ok tt, insert_all (copies entries rest out) h)
unfolding copy_deprecated
copy_deprecated-insert_all [] [] entries h f = refl
copy_deprecated-insert_all [] (value ∷ out) entries h f = absurd f
copy_deprecated-insert_all ((k, v) ∷ rest) [] entries h f = absurd f
copy_deprecated-insert_all ((k, v) ∷ rest) (value ∷ out) entries h (found, f) = ground (
  arith,
  found,
  lookup-insert_all v entries h,
  insert_all-concat entries k value h,
  copy_deprecated-insert_all rest out (entries ++ (k, value) ∷ []) h f,
)

-- set_user_headers never raises, and makes these assignments.
pub set_user_headers-insert_all :
    (ref : AccessInfo) (h : Headers)
    → set_user_headers ref h ≡ (ok tt, insert_all (user_entries ref) h)
unfolding set_user_headers auth_entries insert_all
set_user_headers-insert_all ref h =
    copy_deprecated-insert_all deprecated_header_map
      (some (join "," ref.role_names)
        ∷ ref.username
        ∷ ref.project_id
        ∷ ref.project_name
        ∷ ref.project_name
        ∷ [])
      (auth_entries ref user_prefix ++ (admin_project_header, some (is_admin_project ref)) ∷ []) h
      (refl, (refl, (refl, (refl, (refl, tt)))))

pub lookup-set_user_headers :
    (j : String) (ref : AccessInfo) (h : Headers)
    → lookup j (set_user_headers ref h).1 ≡ last_of j (user_entries ref) (lookup j h)
lookup-set_user_headers j ref h =
    rw (set_user_headers-insert_all ref h) (lookup-insert_all j (user_entries ref) h)

pub lookup-set_service_headers :
    (j : String) (ref : AccessInfo) (h : Headers)
    → lookup j (set_service_headers ref h)
      ≡ last_of j (auth_entries ref service_prefix) (lookup j h)
unfolding set_service_headers set_auth_headers
lookup-set_service_headers j ref h = lookup-insert_all j (auth_entries ref service_prefix) h

-- Every name that `set_user_headers` assigns.
abbrev pub user_header_names : List String
user_header_names =
    roles_header user_prefix
    ∷ system_scope_header
    ∷ (map (λ e. with_prefix user_prefix e.0) header_template
        ++ admin_project_header ∷ map (λ d. d.0) deprecated_header_map)

-- What the headers `h'` hold where `h` held the headers before.
pub record WritesUser (ref : AccessInfo) (h h' : Headers) (j : String) : Type 0 where
  pub attributes :
      All (λ e. lookup (with_prefix user_prefix e.0) h' ≡ some (e.1 ref)) header_template
  pub roles : lookup (roles_header user_prefix) h' ≡ some (some (join "," ref.role_names))
  pub scope : lookup system_scope_header h' ≡ some (get_system_scope ref)
  pub admin : lookup admin_project_header h' ≡ some (some (is_admin_project ref))
  pub repeated : All (λ d. lookup d.0 h' ≡ lookup d.1 h') deprecated_header_map
  pub kept : (contains user_header_names j ≡ true) ⊎ (lookup j h' ≡ lookup j h)

pub record WritesService (ref : AccessInfo) (h h' : Headers) : Type 0 where
  pub attributes :
      All (λ e. lookup (with_prefix service_prefix e.0) h' ≡ some (e.1 ref)) header_template
  pub roles : lookup (roles_header service_prefix) h' ≡ some (some (join "," ref.role_names))
  pub scope : lookup system_scope_header h' ≡ some (get_system_scope ref)
  pub kept : All (λ j. (j ≡ system_scope_header) ⊎ (lookup j h' ≡ lookup j h)) user_header_names

-- set_user_headers never raises. Afterwards each header of _HEADER_TEMPLATE holds its attribute,
-- X-Roles the role names joined by commas, OpenStack-System-Scope the system scope,
-- X-Is-Admin-Project True or False, each deprecated header the value of its replacement, and every
-- header of another name is what it was.
pub set_user_headers_lem :
    (ref : AccessInfo) (h : Headers) (j : String)
    → ((set_user_headers ref h).0 ≡ ok tt) × WritesUser ref h (set_user_headers ref h).1 j
unfolding auth_entries
set_user_headers_lem ref h j = (
  ap (λ r. r.0) (set_user_headers-insert_all ref h),
  record {
    attributes = at _ & at _ & at _ & at _ & at _ & at _ & at _ & at _ & at _ & at _ & tt;
    roles = at _;
    scope = at _;
    admin = at _;
    repeated =
        at "X-Role" ∙ sym (at "X-Roles")
        & at "X-User" ∙ sym (at "X-User-Name")
        & at "X-Tenant-Id" ∙ sym (at "X-Project-Id")
        & at "X-Tenant-Name" ∙ sym (at "X-Project-Name")
        & at "X-Tenant" ∙ sym (at "X-Project-Name")
        & tt;
    kept = elim (Bool-cases (contains user_header_names j)) [
      | inl listed ↦ inl listed
      | inr other ↦ inr (at j ∙ last_of_absent j (user_entries ref) (lookup j h) other)
    ];
  },
)
  where
    at :
        (k : String)
        → lookup k (set_user_headers ref h).1 ≡ last_of k (user_entries ref) (lookup k h)
    at k = lookup-set_user_headers k ref h

-- set_service_headers writes the role names and each attribute of _HEADER_TEMPLATE under the
-- X-Service prefix, and changes no header that set_user_headers writes but OpenStack-System-Scope,
-- which then shows the system scope of the service's token instead of the user's.
pub set_service_headers_lem :
    (ref : AccessInfo) (h : Headers) → WritesService ref h (set_service_headers ref h)
unfolding auth_entries
set_service_headers_lem ref h = record {
  attributes = at _ & at _ & at _ & at _ & at _ & at _ & at _ & at _ & at _ & at _ & tt;
  roles = at _;
  scope = at _;
  kept =
      inr (at _)
      & inl refl
      & inr (at _)
      & inr (at _)
      & inr (at _)
      & inr (at _)
      & inr (at _)
      & inr (at _)
      & inr (at _)
      & inr (at _)
      & inr (at _)
      & inr (at _)
      & inr (at _)
      & inr (at _)
      & inr (at _)
      & inr (at _)
      & inr (at _)
      & inr (at _)
      & tt;
}
  where
    at :
        (j : String)
        → lookup j (set_service_headers ref h)
          ≡ last_of j (auth_entries ref service_prefix) (lookup j h)
    at j = lookup-set_service_headers j ref h
