-- ===== src/Request/Catalog/Regions.antt =====
-- auth_token/_request.py: the regions that `_normalize_catalog` collects, against the endpoints.
use keystonemiddleware.Base.{
  ◌≡◌, refl, ◌∙◌, ap, String, ◌<>◌, Bool, true, false, Option, none, some, List, [], ◌∷◌, ◌==◌,
  ◌&&◌, ◌↔◌, inl, inr, arith, eq_iff, if◌then◌else◌,
}
use keystonemiddleware.Exec.{ok, raise, Result-cases, then_result}
use keystonemiddleware.Json.{Json, Fields, end, field, find, put, get, index}
use keystonemiddleware.Request.Catalog.{
  Key, no_key, text_key, num_key, key, same_key, lower_text, Regions, new_region, add_url,
  add_endpoint, add_endpoints,
}

pub find-put :
    (j k : String) (v : Json) (fs : Fields)
    → find j (put k v fs) ≡ (if k == j then some v else find j fs)
unfolding find put
find-put j k v end = refl
find-put j k v (field i w fs) =
    ground (arith, eq_iff k j, eq_iff i k, eq_iff i j, find-put j k v fs)

same_key_iff : (j k : Key) → (same_key j k ≡ true) ↔ (j ≡ k)
unfolding same_key
same_key_iff no_key no_key = ground arith
same_key_iff (text_key s) (text_key t) = ground (arith, eq_iff s t)
same_key_iff (num_key m) (num_key n) = ground arith
same_key_iff no_key (text_key t) = ground arith
same_key_iff no_key (num_key t) = ground arith
same_key_iff (text_key s) no_key = ground arith
same_key_iff (text_key s) (num_key n) = ground arith
same_key_iff (num_key s) no_key = ground arith
same_key_iff (num_key s) (text_key n) = ground arith

-- What the regions hold under an interface's name in the region of a key.
unfoldable pub url_at : Key → String → Regions → Option Json
unfolding find
url_at k interface [] = none
url_at k interface ((j, region) ∷ regions) =
    if same_key j k then find interface region else url_at k interface regions

url_at-add_url :
    (k j : Key) (i interface : String) (fresh : Fields) (url : Json) (regions : Regions)
    → find i fresh ≡ none
    → url_at k i (add_url j fresh interface url regions)
      ≡ (if same_key j k && (interface == i) then some url else url_at k i regions)
unfolding url_at add_url
url_at-add_url k j i interface fresh url [] e = ground (arith, find-put i interface url fresh)
url_at-add_url k j i interface fresh url ((l, region) ∷ regions) e = ground (
  arith,
  same_key_iff l j,
  same_key_iff l k,
  same_key_iff j k,
  find-put i interface url region,
  url_at-add_url k j i interface fresh url regions e,
)

-- The endpoint is one of the region with this key, and its interface has this name.
unfoldable pub is_for : Key → String → Json → Bool
is_for k i endpoint = elim (then_result (get endpoint "region") key) [
  | ok j ↦ elim (then_result (index endpoint "interface") lower_text) [
    | ok interface ↦ same_key j k && (interface <> "URL" == i)
    | raise _ ↦ false
  ]
  | raise _ ↦ false
]

unfoldable pub url_of : Json → Option Json
url_of endpoint = elim (index endpoint "url") [ ok url ↦ some url | raise _ ↦ none ]

-- The URL of the last endpoint of the region and the interface, or else `o`.
unfoldable pub last_url : Key → String → List Json → Option Json → Option Json
last_url k i [] o = o
last_url k i (endpoint ∷ rest) o =
    last_url k i rest (if is_for k i endpoint then url_of endpoint else o)

find-new_region :
    (i : String) (name : Json) → ("region" == i) ≡ false → find i (new_region name) ≡ none
unfolding new_region find
find-new_region i name e = ground arith

url_at-add_endpoint :
    (k : Key) (i : String) (endpoint : Json) (regions regions' : Regions)
    → ("region" == i) ≡ false
    → add_endpoint endpoint regions ≡ ok regions'
    → url_at k i regions' ≡ (if is_for k i endpoint then url_of endpoint else url_at k i regions)
unfolding add_endpoint is_for url_of
url_at-add_endpoint k i endpoint regions regions' ne e =
    elim (Result-cases (get endpoint "region")) [
      | inr (x, no_region) ↦ ground arith
      | inl (name, region) ↦ elim (Result-cases (key name)) [
        | inr (x, no_key_of) ↦ ground arith
        | inl (j, hashed) ↦ elim (Result-cases (index endpoint "interface")) [
          | inr (x, no_interface) ↦ ground arith
          | inl (v, interface) ↦ elim (Result-cases (lower_text v)) [
            | inr (x, no_text) ↦ ground arith
            | inl (t, lowered) ↦ elim (Result-cases (index endpoint "url")) [
              | inr (x, no_url) ↦ ground arith
              | inl (url, found) ↦ ground (
                arith,
                url_at-add_url k j i (t <> "URL") (new_region name) url regions
                    (find-new_region i name ne),
              )
            ]
          ]
        ]
      ]
    ]

-- After the endpoints are collected, a region and an interface name other than "region" show the
-- URL of the last endpoint of that region and interface.
pub url_at-add_endpoints :
    (k : Key) (i : String) (endpoints : List Json) (regions regions' : Regions)
    → ("region" == i) ≡ false
    → add_endpoints endpoints regions ≡ ok regions'
    → url_at k i regions' ≡ last_url k i endpoints (url_at k i regions)
unfolding add_endpoints last_url
url_at-add_endpoints k i [] regions regions' ne e = ground arith
url_at-add_endpoints k i (endpoint ∷ rest) regions regions' ne e =
    elim (Result-cases (add_endpoint endpoint regions)) [
      | inr (x, stopped) ↦ ground arith
      | inl (next, added) ↦
          url_at-add_endpoints k i rest next regions' ne (ground arith)
          ∙ ap (last_url k i rest) (url_at-add_endpoint k i endpoint regions next ne added)
    ]
