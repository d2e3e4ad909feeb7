-- ===== src/Tests/Audits.antt =====
-- audit/_api.py: actions and target types of concrete requests.
use keystonemiddleware.Base.{
  ◌≡◌, refl, String, ◌<>◌, true, none, some, List, [], ◌∷◌, lookup, lower, ends_with, starts_with,
  rsplit, split, take_text, All,
}
use keystonemiddleware.Exec.{Result, ok, raise, value_error}
use keystonemiddleware.Json.{Json, null, obj, field, end, truthy}
use keystonemiddleware.Audit.{
  AuditMap, AuditRequest, list, update_by, create, custom, url_ending, clean_path, get_action,
  method_action, custom_action, body_action, type_uri, piece, build_type_uri,
}
use keystonemiddleware.Audit.Uris.{IsConfigured, joined, build_type_uri-Words}

abbrev pub nova_map : AuditMap
nova_map = record {
  path_kw = ("servers", "server") ∷ ("os-hosts", "host") ∷ [];
  custom_actions = ("reboot", "start/reboot") ∷ ("os-hosts/post", "enable") ∷ [];
  service_endpoints = ("compute", "service/compute") ∷ [];
  default_target_endpoint_type = some "network";
}

abbrev pub request : String → String → Result Json → AuditRequest
request method path json = record {
  method = method;
  path = path;
  path_qs = path;
  json = json;
  host_netloc = "nova:8774";
  host_port = ok true;
  client_addr = some "10.0.0.1";
  user_agent = none;
  environ = ("HTTP_X_USER_ID", "u") ∷ ("HTTP_X_SERVICE_CATALOG", "c") ∷ [];
}

abbrev list_servers : AuditRequest
list_servers = request "GET" "/v2/servers.json/" (ok null)

runs :
    (get_action nova_map list_servers ≡ ok list)
    × (get_action nova_map (request "POST" "/v2/os-hosts" (ok null)) ≡ ok (custom "enable"))
    × (get_action nova_map
          (request "POST" "/v2/servers/7/action" (ok (obj (field "pause" null end))))
        ≡ ok (update_by "pause"))
    × (get_action nova_map (request "POST" "/v2/servers/7/action" (raise value_error)) ≡ ok create)
    × (build_type_uri nova_map "/v2/servers/7/ips" "service/compute"
        ≡ "service/compute/servers/server")
unfolding get_action custom_action url_ending clean_path method_action body_action truthy lookup
    lower ends_with starts_with rsplit split take_text build_type_uri type_uri piece
runs = (refl, refl, refl, refl, refl)

no_custom : custom_action nova_map list_servers (url_ending list_servers.path) ≡ none
unfolding custom_action url_ending clean_path lookup lower ends_with starts_with rsplit take_text
no_custom = refl

build_type_uri-Words_example :
    (words : List String) × (build_type_uri nova_map "/v2/servers/7/ips" "service/compute"
      ≡ "service/compute" <> joined nova_map words)
    × All (IsConfigured nova_map) words
build_type_uri-Words_example = build_type_uri-Words nova_map "/v2/servers/7/ips" "service/compute"
