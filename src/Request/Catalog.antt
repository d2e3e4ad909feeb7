-- ===== src/Request/Catalog.antt =====
-- auth_token/_request.py: `_normalize_catalog`, which groups the endpoints of a v3 catalog by region.
pub mod Regions
use keystonemiddleware.Base.{
  ℕ, String, ◌<>◌, Bool, true, false, Option, none, some, List, [], ◌∷◌, ◌++◌, map, ◌==◌, lower,
  nat_eq, if◌then◌else◌,
}
use keystonemiddleware.Exec.{
  Exception, Result, ok, raise, then_result, key_error, attribute_error, type_error,
}
use keystonemiddleware.Json.{
  Json, null, bool, num, str, arr, obj, Fields, end, field, truthy, find, put, get, index, iterate,
  of_list,
}

-- A hashable value, as a dictionary's key: True and 1 are one key, and so are False and 0.
pub data Key : Type 0 where
  no_key : Key
  text_key : String → Key
  num_key : ℕ → Key

unfoldable pub key : Json → Result Key
key null = ok no_key
key (bool b) = ok (num_key (if b then 1 else 0))
key (num n) = ok (num_key n)
key (str s) = ok (text_key s)
key (arr _) = raise type_error
key (obj _) = raise type_error

unfoldable pub same_key : Key → Key → Bool
same_key no_key no_key = true
same_key (text_key s) (text_key t) = s == t
same_key (num_key m) (num_key n) = nat_eq m n
same_key _ _ = false

infixl 5 ◌>>=◌
abbrev ◌>>=◌ {ℓ κ} : {A : Type ℓ} {B : Type κ} → Result A → (A → Result B) → Result B
r >>= f = then_result r f

-- `v.get(k, [])` and the loop over it
unfoldable pub get_list : Json → String → Result (List Json)
unfolding find
get_list (obj fs) k = elim (find k fs) [ none ↦ ok [] | some v ↦ iterate v ]
get_list _ k = raise attribute_error

-- `v.lower()`
unfoldable pub lower_text : Json → Result String
lower_text (str s) = ok (lower s)
lower_text _ = raise attribute_error

abbrev pub Regions : Type 0
Regions = List (Key × Fields)

-- `{'region': region_name} if region_name else {}`
unfoldable pub new_region : Json → Fields
unfolding truthy
new_region region_name = if truthy region_name then field "region" region_name end else end

-- The region of the name is found, or made, and the endpoint's URL is put into it.
unfoldable pub add_url : Key → Fields → String → Json → Regions → Regions
unfolding put
add_url k fresh interface url [] = (k, put interface url fresh) ∷ []
add_url k fresh interface url ((j, region) ∷ regions) =
    if same_key j k
    then (j, put interface url region) ∷ regions
    else (j, region) ∷ add_url k fresh interface url regions

-- One round of the loop over the endpoints.
unfoldable pub add_endpoint : Json → Regions → Result Regions
add_endpoint endpoint regions = do
  region_name ← get endpoint "region"
  k ← key region_name
  interface ← index endpoint "interface"
  interface_name ← lower_text interface
  url ← index endpoint "url"
  ok (add_url k (new_region region_name) (interface_name <> "URL") url regions)

unfoldable pub add_endpoints : List Json → Regions → Result Regions
unfolding add_endpoint
add_endpoints [] regions = ok regions
add_endpoints (endpoint ∷ rest) regions =
    add_endpoint endpoint regions >>= λ regions'. add_endpoints rest regions'

-- `try: service['name'] = v3_service['name']`, where a KeyError is passed over
unfoldable pub copy_name : Json → Fields → Result Fields
unfolding find
copy_name (obj fs) service = elim (find "name" fs) [
  | none ↦ ok service
  | some name ↦ ok (put "name" name service)
]
copy_name _ service = raise type_error

unfoldable pub normalize_service : Json → Result Json
unfolding copy_name get_list add_endpoints
normalize_service v3_service = do
  type ← index v3_service "type"
  service ← copy_name v3_service (field "type" type end)
  endpoints ← get_list v3_service "endpoints"
  regions ← add_endpoints endpoints []
  ok (obj (put "endpoints" (arr (of_list (map (λ r. obj r.1) regions))) service))

unfoldable pub normalize_services : List Json → Result (List Json)
unfolding normalize_service
normalize_services [] = ok []
normalize_services (s ∷ rest) = normalize_service s >>= λ service.
    normalize_services rest >>= λ services. ok (service ∷ services)

unfoldable pub normalize_catalog : Json → Result Json
unfolding normalize_services
normalize_catalog catalog = do
  v3_services ← iterate catalog
  services ← normalize_services v3_services
  ok (arr (of_list services))
