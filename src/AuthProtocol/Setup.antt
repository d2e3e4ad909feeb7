-- ===== src/AuthProtocol/Setup.antt =====
-- auth_token/__init__.py: what AuthProtocol's `__init__` makes of its configuration. None in place of a
-- text stands as the text "None" in the challenge.
pub mod Readings
pub mod Protected
pub mod Signed
unfoldable pub use Readings.*
use keystonemiddleware.Base.{
  String, ◌<>◌, Bool, true, false, not, Option, none, some, List, [], ◌∷◌, ◌==◌, lookup, lower,
  if◌then◌else◌,
}
use keystonemiddleware.Exec.{
  Result, Exec, ok, raise, then_result, continue, type_error, attribute_error, configuration_error,
}
use keystonemiddleware.Cache.Memory.{ℤ}
use keystonemiddleware.Cache.Tokens.{CacheOptions}
use keystonemiddleware.Config.{
  Value, no_value, text, bool, int, texts, is_true, Config, OsloConf, ConfigLibrary, get,
  user_agent,
}
use keystonemiddleware.AuthOpts.{authtoken_group}
use keystonemiddleware.AuthPlugin.{PluginOptions, AuthTokenPlugin, auth_token_plugin}
use keystonemiddleware.Identity.{Version, IdentityOptions, www_authenticate_uri}
use keystonemiddleware.Protocol.Process.{Policy}
use keystonemiddleware.AuthProtocol.{Options}

-- What `__init__` leaves in the object, but for the identity server's own state.
pub record AuthProtocol (A : Type 0) : Type 0 where
  pub conf : Config
  pub options : Options
  pub auth : Auth A
  pub session : SessionOptions
  pub adapter : AdapterOptions
  pub identity : IdentityOptions
  pub cache : TokenCacheOf

abbrev is_legacy : {A : Type 0} → Auth A → Bool
is_legacy (legacy _) = true
is_legacy (loaded _) = false

module _ {A W : Type 0} (config_library : ConfigLibrary) (lib : SetupLibrary A W) where
  -- The options of a named plugin are registered before they are read.
  abbrev load_named : Config → String → Value → Result (Auth A × Config)
  load_named conf group name =
      let registered = record conf {
        oslo_conf_obj = lib.register_plugin name group conf.oslo_conf_obj;
      } in
      then_result (lib.load_plugin name (λ option. get registered option (some group)))
        λ plugin. ok (loaded plugin, registered)

  abbrev legacy_plugin : Config → String → Result (Auth A × Config)
  legacy_plugin conf group =
      then_result (plugin_options conf group) λ o. ok (legacy (auth_token_plugin o), conf)

  -- `_create_auth_plugin`
  unfoldable pub create_auth_plugin : Config → Result (Auth A × Config)
  unfolding get plugin_options is_true
  create_auth_plugin conf = do
    section ← get conf "auth_section" none
    group ← group_or_default section
    auth_type ← get conf "auth_type" (some group)
    let name = either auth_type (or_no_value (lookup "auth_plugin" conf.paste_overrides))
    let named = load_named conf group name
    let unnamed = legacy_plugin conf group
    if is_true name then named else unnamed

  -- `_create_session`; the user agent is kept in the configuration.
  unfoldable pub create_session : Config → Result (SessionOptions × Config)
  unfolding get
  create_session conf = do
    cert ← get conf "certfile" none
    key ← get conf "keyfile" none
    cacert ← get conf "cafile" none
    insecure ← get conf "insecure" none
    timeout ← get conf "http_connect_timeout" none
    agent ← (user_agent config_library conf).0
    ok (
      record {
        cert = cert;
        key = key;
        cacert = cacert;
        insecure = insecure;
        timeout = timeout;
        agent = agent;
      },
      (user_agent config_library conf).1,
    )

  abbrev normalized : Option String → Result (Option Version)
  normalized none = ok none
  normalized (some version) = then_result (lib.normalize_version_number version) (λ v. ok (some v))

  -- `_create_identity_server`: the adapter and the server
  unfoldable pub create_identity_server : Config → Value → Result (AdapterOptions × IdentityOptions)
  unfolding get
  create_identity_server conf interface = do
    region ← get conf "region_name" none
    retries ← get conf "http_request_max_retries" none
    version ← get conf "auth_version" none >>= as_optional
    version ← normalized version
    name ← as_optional interface
    ok (
      record { interface = interface; region_name = region; connect_retries = retries },
      record { requested_auth_version = version; requested_auth_interface = name },
    )

  -- What `enforce_token_bind`, `service_token_roles` and `service_token_roles_required` are set to
  abbrev pub TokenSettings : Type 0
  TokenSettings = String × List String × Bool

  -- The attributes that are read before the plugin is made.
  unfoldable pub read_policy : Config → Result (TokenSettings × Bool × Bool × Value)
  unfolding get is_true
  read_policy conf = do
    required ← get conf "service_token_roles_required" none
    bind ← get conf "enforce_token_bind" none >>= as_text
    roles ← get conf "service_token_roles" none >>= as_roles
    delay ← get conf "delay_auth_decision" none
    catalog ← get conf "include_service_catalog" none
    interface ← get conf "interface" none
    ok ((bind, roles, is_true required), is_true delay, is_true catalog, interface)

  -- The settings `www_authenticate_uri` and `auth_uri`, the first that is given.
  unfoldable pub configured_uri : Config → Result Value
  unfolding get is_true
  configured_uri conf = do
    uri ← get conf "www_authenticate_uri" none
    let older = get conf "auth_uri" none
    if is_true uri then ok uri else older

  abbrev shown : Option String → String
  shown none = "None"
  shown (some uri) = uri

  -- The fallback to the identity server where no setting names a URI.
  unfoldable pub challenge_uri : Auth A → Value → Exec W String
  unfolding www_authenticate_uri is_true
  challenge_uri auth uri w =
      let asked =
        continue (www_authenticate_uri (is_legacy auth) lib.auth_endpoint w)
          (λ base t. (ok (shown base), t)) in
      if is_true uri then (as_text uri, w) else asked

  abbrev Prepared : Type 0
  Prepared =
      (TokenSettings × Bool × Bool)
      × (Auth A × Config)
      × (SessionOptions × AdapterOptions × IdentityOptions)
      × Value

  -- Everything up to the address for the challenge.
  unfoldable pub prepare_protocol : Config → Result Prepared
  unfolding read_policy create_auth_plugin create_session create_identity_server configured_uri
  prepare_protocol conf = do
    policy ← read_policy conf
    auth ← create_auth_plugin conf
    session ← create_session auth.1
    server ← create_identity_server session.1 policy.3
    uri ← configured_uri session.1
    ok ((policy.0, policy.1, policy.2), (auth.0, session.1), (session.0, server.0, server.1), uri)

  -- `service_type` is left to validate_allowed_request, which reads it from the configuration.
  abbrev policy_of : Config → TokenSettings → Policy
  policy_of conf (bind, roles, required) = record {
    enforce_token_bind = bind;
    service_token_roles = roles;
    service_token_roles_required = required;
    service_type = get conf "service_type" none >>= as_optional;
  }

  abbrev put_together : Prepared → String → TokenCacheOf → AuthProtocol A
  put_together (policy, auth, made, _) uri cache = record {
    conf = auth.1;
    options = record {
      policy = policy_of auth.1 policy.0;
      delay_auth_decision = policy.1;
      include_service_catalog = policy.2;
      www_authenticate_uri = uri;
    };
    auth = auth.0;
    session = made.0;
    adapter = made.1;
    identity = made.2;
    cache = cache;
  }

  -- `__init__`, behind the configuration's own
  unfoldable pub auth_protocol : Config → Exec W (AuthProtocol A)
  unfolding prepare_protocol challenge_uri token_cache_factory
  auth_protocol conf w =
      continue (prepare_protocol conf, w)
        λ p t. continue (challenge_uri p.1.0 p.3 t) λ uri v.
          (then_result (token_cache_factory p.1.1) (λ cache. ok (put_together p uri cache)), v)
