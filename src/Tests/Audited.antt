-- ===== src/Tests/Audited.antt =====
-- audit/__init__.py and _api.py: events of concrete requests, with a notifier that keeps them.
use keystonemiddleware.Base.{
  ◌≡◌, refl, ℕ, String, Option, none, some, List, [], ◌∷◌, ◌++◌, lookup, insert, starts_with,
  has_char, drop_text, split, strip, upper,
}
use keystonemiddleware.Exec.{Result, ok, raise, Exec, key_error, value_error}
use keystonemiddleware.Json.{Json, null, str, arr, obj, item, nil, field, end, index, is_text}
use keystonemiddleware.Audit.{AuditRequest}
use keystonemiddleware.Audit.Maps.{ConfigFile, read_map}
use keystonemiddleware.Urls.{netloc}
use keystonemiddleware.Audit.Targets.{
  Pycadf, standing, addressed, by_default, skipped, search_catalog, get_service_info,
}
use keystonemiddleware.Audit.Targets.Choice.{Known, services, search_catalog_lem}
use keystonemiddleware.Audit.Events.{Events, Outcome, pending}
use keystonemiddleware.Audit.Middleware.{AuditMiddleware, Running, EventType, ignore_req_list, call}
use keystonemiddleware.Audit.Middleware.Notified.{serving}
use keystonemiddleware.Tests.Audits.{nova_map, request}

-- A service by its type and the netloc of its first endpoint.
abbrev service : String → String → Json
service type url = obj (
    field "type" (str type) (
      field "name" (str "n")
        (field "endpoints" (arr (item (obj (field "publicURL" (str url) end)) nil)) end)))

abbrev known : Known
known =
    (service "network" "http://net:9696/v2", by_default)
    ∷ (obj (field "name" (str "n") (field "endpoints" (arr nil) end)), skipped)
    ∷ (service "compute" "https://nova:8774/v2.1", addressed)
    ∷ (service "network" "http://other", by_default)
    ∷ []

abbrev get_it : AuditRequest
get_it = request "GET" "/v2/servers/7" (ok null)

locations :
    (netloc "https://nova:8774/v2.1?x" ≡ ok "nova:8774")
    × (netloc "nova:8774" ≡ ok "")
    × (netloc "://nova" ≡ ok "")
    × (netloc "//[::1" ≡ raise value_error)
unfolding netloc starts_with has_char drop_text
locations = (refl, refl, refl, refl)

abbrev pycadf : Pycadf Json String
pycadf = record {
  endpoint = λ name url. ok url;
  resource = λ type id name. ok type;
  add_address = λ endp target. ok target;
}

search_catalog_lem_example :
    search_catalog pycadf nova_map get_it none (services known)
    ≡ get_service_info pycadf nova_map (service "compute" "https://nova:8774/v2.1")
unfolding standing index starts_with has_char drop_text is_text netloc
search_catalog_lem_example =
    search_catalog_lem pycadf nova_map get_it known (refl, (refl, (refl, (refl, tt))))

abbrev catalog : Result Json
catalog = ok (arr (item (service "compute" "https://nova:8774/v2.1") nil))

-- Events as their outcomes, codes and target types.
abbrev Noted : Type 0
Noted = Outcome × Option ℕ × String

abbrev noted_events : Events String Noted
noted_events = record {
  new_event = λ outcome action client target. ok (outcome, none, target);
  set_request_path = λ path event. ok event;
  add_correlation_id = λ uuid event. ok event;
  set_reason = λ code event. ok (event.0, some code, event.2);
  set_outcome = λ outcome event. ok (outcome, event.1, event.2);
  add_reporterstep = ok;
}

abbrev World : Type 0
World = List (EventType × Noted)

abbrev auditing : Result Json → AuditMiddleware Json String Noted World
auditing loaded = record {
  cadf_audit = record {
    map = nova_map;
    pycadf = pycadf;
    events = noted_events;
    loads = λ text. loaded;
    uuid = "1";
  };
  notify = λ context type event w. (ok tt, w ++ (type, event) ∷ []);
  admin_context = null;
  ignored_methods = ignore_req_list (some "get, Options");
}

abbrev post_it : AuditRequest
post_it = request "POST" "/v2/servers" (ok null)

abbrev arrived : AuditRequest → Running Noted World
arrived req = record { request = req; context = none; cadf_event = none; world = [] }

abbrev started_event : Noted
started_event = (pending, none, "service/compute/servers")

abbrev failing : Exec (Running Noted World) ℕ
failing s = (raise key_error, s)

-- The methods to ignore are compared in upper case, and their requests run unaudited.
ignores :
    (ignore_req_list (some "get, Options") ≡ "GET" ∷ "OPTIONS" ∷ [])
    × ((call (auditing catalog) (λ n. n) (serving (λ w. (ok 200, w))) (arrived get_it)).1.world
        ≡ [])
unfolding ignore_req_list split strip upper call
ignores = (refl, refl)

-- A section of the map file also holds the options of DEFAULT, so that its target type counts as a
-- path keyword.
abbrev map_file : ConfigFile
map_file = record {
  defaults = ("target_endpoint_type", "compute") ∷ [];
  sections = ("path_keywords", ("servers", "server") ∷ []) ∷ [];
}

reads :
    read_map (some (ok map_file))
    ≡ ok (record {
      path_kw = ("target_endpoint_type", "compute") ∷ ("servers", "server") ∷ [];
      custom_actions = [];
      service_endpoints = [];
      default_target_endpoint_type = some "compute";
    })
unfolding read_map lookup insert
reads = refl
