-- ===== src/Audit/Targets.antt =====
-- audit/_api.py: the service that a request addresses (_get_service_info, _build_target and
-- get_target_resource).
pub mod Choice
use keystonemiddleware.Base.{
  String, Bool, false, not, Option, none, some, List, [], ◌∷◌, ◌==◌, ◌&&◌, ◌||◌, lookup, has_char,
  starts_with, drop_text, cons, leb, nat_eq, if◌then◌else◌,
}
use keystonemiddleware.Exec.{
  Result, ok, raise, then_result, value_error, key_error, type_error, attribute_error,
}
use keystonemiddleware.Json.{Json, str, arr, obj, item, find, index, iterate, truthy, is_text}
use keystonemiddleware.Urls.{netloc}
use keystonemiddleware.Audit.{AuditMap, AuditRequest, build_type_uri}

-- The same of any JSON value: a false one counts as an empty text, another has no `decode`.
unfoldable pub netloc_of : Json → Result String
unfolding truthy
netloc_of (str url) = netloc url
netloc_of value = if truthy value then raise attribute_error else ok ""

-- `v[0]` of a true value. Of a text it is a text, on which the `.get` that follows fails.
unfoldable pub first_endpoint : Json → Result Json
first_endpoint (arr (item v _)) = ok v
first_endpoint (obj _) = raise key_error
first_endpoint (str _) = raise attribute_error
first_endpoint _ = raise type_error

abbrev or_default : Json → Option Json → Json
or_default default none = default
or_default default (some v) = v

-- `v.get(k, default)`
unfoldable pub get_or : Json → String → Json → Result Json
unfolding find
get_or (obj fs) k default = ok (or_default default (find k fs))
get_or _ k default = raise attribute_error

-- pycadf's constructors, which check what they are given and may raise.
pub record Pycadf (Endpoint Resource : Type 0) : Type 0 where
  pub endpoint : String → Json → Result Endpoint
  -- by typeURI, id and name
  pub resource : String → Json → Json → Result Resource
  pub add_address : Endpoint → Resource → Result Resource

pub record Service (Endpoint : Type 0) : Type 0 where
  pub id : Json
  pub name : Json
  pub type : String
  pub admin_endp : Option Endpoint
  pub public_endp : Option Endpoint
  pub private_endp : Option Endpoint

-- Where a service of the catalog stands to a request.
pub data Standing : Type 0 where
  skipped addressed by_default elsewhere : Standing

infixl 5 ◌>>=◌
abbrev ◌>>=◌ : {A B : Type 0} → Result A → (A → Result B) → Result B
◌>>=◌ = then_result

abbrev is_default_type : AuditMap → Json → Result Bool
is_default_type map endp = elim map.default_target_endpoint_type [
  | none ↦ ok false
  | some default ↦
      let compared = then_result (index endp "type") (λ type. ok (is_text type default)) in
      if default == "" then ok false else compared
]

-- `netloc == admin_urlparse.netloc or netloc == public_urlparse.netloc`, where the port counts
abbrev addresses : AuditRequest → Bool → String → String → Bool
addresses req port admin public = port && (req.host_netloc == admin || req.host_netloc == public)

abbrev otherwise : AuditMap → Json → Result Standing
otherwise map endp = do
  default ← is_default_type map endp
  ok (if default then by_default else elsewhere)

abbrev standing_with : AuditMap → AuditRequest → Json → Json → Result Standing
standing_with map req endp endpoints = do
  urls ← first_endpoint endpoints
  admin ← get_or urls "adminURL" (str "")
  admin_netloc ← netloc_of admin
  public ← get_or urls "publicURL" (str "")
  public_netloc ← netloc_of public
  port ← req.host_port
  if addresses req port admin_netloc public_netloc then ok addressed else otherwise map endp

-- The loop's body, by the conditions of its branches.
unfoldable pub standing : AuditMap → AuditRequest → Json → Result Standing
unfolding netloc_of first_endpoint get_or
standing map req endp = do
  endpoints ← index endp "endpoints"
  if truthy endpoints
      then standing_with map req endp endpoints
      else then_result (index endp "name") (λ _. ok skipped)

-- `self._MAP.service_endpoints.get(type, UNKNOWN)`; a list or a dictionary has no hash.
unfoldable pub type_of_service : AuditMap → Json → Result String
type_of_service map (str type) = elim (lookup type map.service_endpoints) [
  | none ↦ ok "unknown"
  | some named ↦ ok named
]
type_of_service map (arr _) = raise type_error
type_of_service map (obj _) = raise type_error
type_of_service map _ = ok "unknown"

module _ {Endpoint Resource : Type 0} (pycadf : Pycadf Endpoint Resource) where
  abbrev endpoint_at : Json → String → String → Result Endpoint
  endpoint_at urls name key = do url ← get_or urls key (str "unknown"); pycadf.endpoint name url

  unfoldable pub get_service_info : AuditMap → Json → Result (Service Endpoint)
  unfolding type_of_service first_endpoint get_or
  get_service_info map endp = do
    type ← index endp "type"
    type ← type_of_service map type
    name ← index endp "name"
    endpoints ← index endp "endpoints"
    urls ← first_endpoint endpoints
    id ← get_or urls "id" name
    admin ← endpoint_at urls "admin" "adminURL"
    private ← endpoint_at urls "private" "internalURL"
    public ← endpoint_at urls "public" "publicURL"
    ok (record {
      id = id;
      name = name;
      type = type;
      admin_endp = some admin;
      public_endp = some public;
      private_endp = some private;
    })

  abbrev pub unknown_service : Service Endpoint
  unknown_service = record {
    id = str "unknown";
    name = str "unknown";
    type = "unknown";
    admin_endp = none;
    public_endp = none;
    private_endp = none;
  }

  -- After a loop without break.
  abbrev pub service_or_default : AuditMap → Option Json → Result (Service Endpoint)
  service_or_default map none = ok unknown_service
  service_or_default map (some endp) =
      let described = get_service_info map endp in
      if truthy endp then described else ok unknown_service

  -- The loop over the catalog, with `default_endpoint`.
  unfoldable pub search_catalog :
      AuditMap → AuditRequest → Option Json → List Json → Result (Service Endpoint)
  unfolding get_service_info
  search_catalog map req default [] = service_or_default map default
  search_catalog map req default (endp ∷ catalog) =
      let going_on = search_catalog map req default catalog in
      let with_default = search_catalog map req (some endp) catalog in
      then_result (standing map req endp) (λ s. elim s [
        | skipped ↦ going_on
        | addressed ↦ get_service_info map endp
        | by_default ↦ with_default
        | elsewhere ↦ going_on
      ])

  abbrev add_there : Option Endpoint → Resource → Result Resource
  add_there none target = ok target
  add_there (some endp) target = pycadf.add_address endp target

  unfoldable pub build_target : AuditMap → AuditRequest → Service Endpoint → Result Resource
  build_target map req service = do
    target ←
        pycadf.resource
          (if service.type == "unknown"
            then service.type
            else build_type_uri map req.path service.type)
          service.id service.name
    target ← add_there service.admin_endp target
    target ← add_there service.private_endp target
    add_there service.public_endp target

  -- `jsonutils.loads(req.environ['HTTP_X_SERVICE_CATALOG'])`, and {} where there is none
  abbrev catalog_of : (String → Result Json) → AuditRequest → Result (List Json)
  catalog_of loads req = elim (lookup "HTTP_X_SERVICE_CATALOG" req.environ) [
    | none ↦ ok []
    | some text ↦ then_result (loads text) iterate
  ]

  unfoldable pub get_target_resource :
      (String → Result Json) → AuditMap → AuditRequest → Result Resource
  unfolding build_target
  get_target_resource loads map req = do
    catalog ← catalog_of loads req
    service ← search_catalog map req none catalog
    build_target map req service
