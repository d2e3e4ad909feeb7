-- ===== src/AuthProtocol/Setup/Readings.antt =====
-- auth_token/__init__.py: the settings that AuthProtocol's `__init__` reads, the legacy plugin's options
-- and the token cache. An option's value has the option's type, as oslo.config sees to; one of another
-- type is a TypeError here.
use keystonemiddleware.Base.{String, Option, none, some, List, [], ◌==◌, lower, if◌then◌else◌}
use keystonemiddleware.Exec.{
  Result, Exec, ok, raise, then_result, type_error, attribute_error, configuration_error,
}
use keystonemiddleware.Cache.Memory.{ℤ}
use keystonemiddleware.Cache.Tokens.{CacheOptions}
use keystonemiddleware.Config.{Value, no_value, text, int, texts, is_true, Config, OsloConf, get}
use keystonemiddleware.AuthOpts.{authtoken_group}
use keystonemiddleware.AuthPlugin.{PluginOptions, AuthTokenPlugin}
use keystonemiddleware.Identity.{Version}

infixl 5 ◌>>=◌
abbrev pub ◌>>=◌ : {A B : Type 0} → Result A → (A → Result B) → Result B
◌>>=◌ = then_result

abbrev pub as_text : Value → Result String
as_text (text s) = ok s
as_text _ = raise type_error

abbrev pub as_optional : Value → Result (Option String)
as_optional no_value = ok none
as_optional (text s) = ok (some s)
as_optional _ = raise type_error

abbrev pub as_int : Value → Result ℤ
as_int (int n) = ok n
as_int _ = raise type_error

-- `set(service_token_roles or [])`
abbrev pub as_roles : Value → Result (List String)
as_roles no_value = ok []
as_roles (texts roles) = ok roles
as_roles _ = raise type_error

-- The plugins of keystoneauth1, and the session and the adapter that are made of options.
pub record SetupLibrary (A W : Type 0) : Type 0 where
  -- `get_plugin_loader(name)`, with `load_from_options_getter`
  pub load_plugin : Value → (String → Result Value) → Result A
  -- the registration of the plugin's options
  pub register_plugin : Value → String → OsloConf → OsloConf
  pub normalize_version_number : String → Result Version
  -- the adapter's `get_endpoint(interface=AUTH_INTERFACE)`
  pub auth_endpoint : Exec W (Option String)

pub data Auth (A : Type 0) : Type 0 where
  legacy : AuthTokenPlugin → Auth A
  loaded : A → Auth A

pub record SessionOptions : Type 0 where
  pub cert : Value
  pub key : Value
  pub cacert : Value
  pub insecure : Value
  pub timeout : Value
  pub agent : String

pub record AdapterOptions : Type 0 where
  pub interface : Value
  pub region_name : Value
  pub connect_retries : Value

-- TokenCache, or SecureTokenCache with its strategy and its secret.
pub data TokenCacheOf : Type 0 where
  token_cache : CacheOptions → TokenCacheOf
  secure_token_cache : String → String → CacheOptions → TokenCacheOf

-- `self._conf.get('auth_section') or _base.AUTHTOKEN_GROUP`
abbrev pub group_or_default : Value → Result String
group_or_default v = if is_true v then as_text v else ok authtoken_group

-- `a or b`
abbrev pub either : Value → Value → Value
either v w = if is_true v then v else w

abbrev pub or_no_value : Option Value → Value
or_no_value none = no_value
or_no_value (some v) = v

unfoldable pub plugin_options : Config → String → Result PluginOptions
unfolding get
plugin_options conf group = do
  prefix ← get conf "auth_admin_prefix" (some group) >>= as_text
  host ← get conf "auth_host" (some group) >>= as_text
  port ← get conf "auth_port" (some group) >>= as_int
  protocol ← get conf "auth_protocol" (some group) >>= as_text
  uri ← get conf "identity_uri" (some group) >>= as_optional
  admin_token ← get conf "admin_token" (some group) >>= as_optional
  user ← get conf "admin_user" (some group) >>= as_optional
  password ← get conf "admin_password" (some group) >>= as_optional
  tenant ← get conf "admin_tenant_name" (some group) >>= as_optional
  ok (record {
    auth_host = host;
    auth_port = port;
    auth_protocol = protocol;
    auth_admin_prefix = prefix;
    admin_user = user;
    admin_password = password;
    admin_tenant_name = tenant;
    admin_token = admin_token;
    identity_uri = uri;
  })

-- The `cache_kwargs` that the model of the cache has
unfoldable pub cache_options : Config → Result CacheOptions
unfolding get
cache_options conf = do
  time ← get conf "token_cache_time" none >>= as_int
  name ← get conf "cache" none >>= as_optional
  servers ← get conf "memcached_servers" none
  advanced ← get conf "memcache_use_advanced_pool" none
  ok (record {
    cache_time = time;
    env_cache_name = elim name [ none ↦ "" | some cache ↦ cache ];
    has_servers = is_true servers;
    use_advanced_pool = is_true advanced;
  })

-- `strategy.lower()`, which None does not have
abbrev pub strategy_of : Value → Result String
strategy_of (text s) = ok s
strategy_of _ = raise attribute_error

-- `SecureTokenCache.__init__`
unfoldable pub make_secure_token_cache : String → Value → CacheOptions → Result TokenCacheOf
make_secure_token_cache strategy secret_key o =
    let made = then_result (as_text secret_key) (λ key. ok (secure_token_cache strategy key o)) in
    if is_true secret_key then made else raise configuration_error

-- `_token_cache_factory`
unfoldable pub token_cache_factory : Config → Result TokenCacheOf
unfolding cache_options make_secure_token_cache get
token_cache_factory conf = do
  strategy ← get conf "memcache_security_strategy" none
  o ← cache_options conf
  strategy ← strategy_of strategy
  let secure =
      (get conf "memcache_secret_key" none >>= λ secret. make_secure_token_cache strategy secret o)
  if lower strategy == "none" then ok (token_cache o) else secure
