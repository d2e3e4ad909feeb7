-- ===== src/Audit.antt =====
-- audit/_api.py: how OpenStackAuditApi names a request's action and the type of its target.
pub mod Actions
pub mod Uris
pub mod Maps
pub mod Targets
pub mod Events
pub mod Middleware
pub mod Notifier
use Prim.Native.String
use keystonemiddleware.Base.{
  ℕ, suc, ◌-◌, String, ◌<>◌, Bool, true, false, Option, none, some, List, [], ◌∷◌, Dict, ◌==◌, ◌||◌,
  lookup, lower, ends_with, rsplit, split, take_text, if◌then◌else◌,
}
use keystonemiddleware.Exec.{Result, ok, raise, value_error, attribute_error}
use keystonemiddleware.Json.{Json, obj, field, truthy}

pub record AuditMap : Type 0 where
  pub path_kw : Dict String
  pub custom_actions : Dict String
  pub service_endpoints : Dict String
  pub default_target_endpoint_type : Option String

-- What the audit reads of a webob request.
pub record AuditRequest : Type 0 where
  pub method : String
  pub path : String
  pub path_qs : String
  -- `req.json`, which may raise ValueError
  pub json : Result Json
  -- `urlparse(req.host_url)`: its netloc, and whether its port is one other than 0, which may raise
  -- ValueError
  pub host_netloc : String
  pub host_port : Result Bool
  pub client_addr : Option String
  pub user_agent : Option String
  -- the texts in `req.environ`
  pub environ : Dict String

-- The actions of pycadf's taxonomy, an update that the body names, and an action of the map.
pub data Action : Type 0 where
  create update list read delete unknown : Action
  update_by : String → Action
  custom : String → Action

-- `value[:-n]`
abbrev cut : ℕ → String → String
cut n value = take_text (String.count value - n) value

unfoldable pub clean_path : String → String
clean_path value = if ends_with value ".json" then cut 5 value else value

-- `path[path.rfind('/') + 1:]`
abbrev behind_last : String → Option (String × String) → String
behind_last path none = path
behind_last path (some (_, ending)) = ending

unfoldable pub url_ending : String → String
unfolding clean_path
url_ending path =
    let trimmed = if ends_with path "/" then cut 1 path else path in
    clean_path (behind_last trimmed (rsplit b'/' trimmed))

abbrev pub is_there : Option String → Bool
is_there none = false
is_there (some _) = true

-- `list(req.json.keys())[0]` of a true body
abbrev first_key : Json → Result Action
first_key (obj (field k _ _)) = ok (update_by k)
first_key _ = raise attribute_error

-- A POST to `action`
unfoldable pub body_action : Result Json → Result Action
body_action (ok body) = let named = first_key body in if truthy body then named else ok create
body_action (raise value_error) = ok create
body_action (raise e) = raise e

module _ (map : AuditMap) where
  abbrev pub is_keyword : String → Bool
  is_keyword word = is_there (lookup word map.path_kw)

  -- What the method and the path's end say where the map names no action.
  unfoldable pub method_action : AuditRequest → String → Result Action
  unfolding body_action
  method_action req ending =
      if req.method == "POST"
      then (if ending == "action"
          then body_action req.json
          else if is_keyword ending
          then ok create
          else ok update)
      else if req.method == "GET"
      then (if is_keyword ending then ok list else ok read)
      else if req.method == "PUT" || req.method == "PATCH"
      then ok update
      else if req.method == "DELETE"
      then ok delete
      else if req.method == "HEAD"
      then ok read
      else ok unknown

  unfoldable pub custom_action : AuditRequest → String → Option String
  custom_action req ending =
      elim (lookup (ending <> ("/" <> lower req.method)) map.custom_actions) [
        | some action ↦ some action
        | none ↦ lookup ending map.custom_actions
      ]

  unfoldable pub get_action : AuditRequest → Result Action
  unfolding method_action custom_action url_ending
  get_action req = elim (custom_action req (url_ending req.path)) [
    | some action ↦ ok (custom action)
    | none ↦ method_action req (url_ending req.path)
  ]

  abbrev piece_of : Option String → String
  piece_of none = ""
  piece_of (some word) = "/" <> word

  -- What one key adds to the type, behind the key before it.
  unfoldable pub piece : Option String → String → String
  piece prev_key key =
      if is_keyword key
      then "/" <> key
      else elim prev_key [ none ↦ "" | some prev ↦ piece_of (lookup prev map.path_kw) ]

  -- The loop over the keys.
  unfoldable pub type_uri : Option String → List String → String
  unfolding piece clean_path
  type_uri prev_key [] = ""
  type_uri prev_key (key ∷ keys) =
      piece prev_key (clean_path key) <> type_uri (some (clean_path key)) keys

  -- `_build_typeURI`
  unfoldable pub build_type_uri : String → String → String
  unfolding type_uri
  build_type_uri path service_type = service_type <> type_uri none (split b'/' path)
