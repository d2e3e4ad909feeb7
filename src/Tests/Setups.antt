-- ===== src/Tests/Setups.antt =====
-- auth_token/__init__.py, s3_token.py, fixture.py and echo/service.py: objects made from settings.
use keystonemiddleware.AuthPlugin.{decimal}
use keystonemiddleware.Base.{
  ◌≡◌, refl, String, true, false, none, some, List, [], ◌∷◌, Dict, lookup, insert, lower, ℕ, strip,
  take_text, drop_text, starts_with,
}
use keystonemiddleware.Exec.{
  ok, raise, no_such_option, configuration_error, value_error, invalid_token,
}
use keystonemiddleware.Json.{num}
use keystonemiddleware.Cache.Memory.{pos}
use keystonemiddleware.Config.{
  Value, no_value, text, bool, int, str_type, Opt, OsloConf, Config, user_agent, is_true,
}
use keystonemiddleware.AuthOpts.{list_opts, authtoken_group}
use keystonemiddleware.AuthProtocol.Setup.{
  SetupLibrary, AuthProtocol, auth_protocol, token_cache_factory, secure_token_cache, loaded,
}
use keystonemiddleware.S3.Setup.{s3_token, cert_only, request_uri}
use keystonemiddleware.Fixture.{TokenData, add_token, fixture_fetch_token}
use keystonemiddleware.Echo.{environment}
use keystonemiddleware.Tests.Configured.{in_group, library as config_library}

abbrev pub plugin_opts : List Opt
plugin_opts =
    record { dest = "auth_type"; type = str_type; default = text "password"; deprecated_opts = [] }
    ∷ record { dest = "auth_section"; type = str_type; default = no_value; deprecated_opts = [] }
    ∷ []

-- oslo.config's defaults, with options that keystoneauth1 registers.
abbrev pub password_plugin : OsloConf
password_plugin = record {
  value = λ group name. in_group group name (list_opts plugin_opts);
  project = raise no_such_option;
}

abbrev conf_with : Dict Value → Config
conf_with overrides = record {
  name = "auth_token";
  group_name = authtoken_group;
  paste_overrides = overrides;
  oslo_conf_obj = password_plugin;
  memo = none;
}

abbrev pub setup_library : SetupLibrary String ℕ
setup_library = record {
  load_plugin = λ name options. ok "plugin";
  register_plugin = λ name group conf. conf;
  normalize_version_number = λ version. ok (3, 0);
  auth_endpoint = λ w. (ok (some "http://keystone:5000/v3"), w);
}

abbrev pub secured : Config
secured = conf_with (
    ("memcache_security_strategy", text "encrypt")
    ∷ ("memcache_secret_key", text "k")
    ∷ ("project", text "nova")
    ∷ [])

abbrev agent : String
agent = "nova/1.0 keystonemiddleware.auth_token/4.22"

abbrev pub made : AuthProtocol String
made = record {
  conf = record secured { memo = some agent };
  options = record {
    policy = record {
      enforce_token_bind = "permissive";
      service_token_roles = "service" ∷ [];
      service_token_roles_required = false;
      service_type = ok none;
    };
    delay_auth_decision = false;
    include_service_catalog = true;
    www_authenticate_uri = "http://keystone:5000/v3";
  };
  auth = loaded "plugin";
  session = record {
    cert = no_value;
    key = no_value;
    cacert = no_value;
    insecure = bool false;
    timeout = no_value;
    agent = agent;
  };
  adapter = record {
    interface = text "internal";
    region_name = no_value;
    connect_retries = int (pos 3);
  };
  identity = record { requested_auth_version = none; requested_auth_interface = some "internal" };
  cache = secure_token_cache "encrypt" "k" (record {
    cache_time = pos 300;
    env_cache_name = "";
    has_servers = false;
    use_advanced_pool = false;
  });
}

pub makes : auth_protocol config_library setup_library secured 0 ≡ (ok made, 0)
unfolding auth_protocol lookup list_opts user_agent lower
makes = refl

-- A strategy without a secret makes no cache.
refuses :
    token_cache_factory (conf_with (("memcache_security_strategy", text "MAC") ∷ []))
    ≡ raise configuration_error
unfolding token_cache_factory lookup list_opts lower is_true
refuses = refl

abbrev s3_conf : Dict Value
s3_conf = ("auth_host", text "::1") ∷ ("auth_port", text "0080") ∷ ("certfile", text "c") ∷ []

s3_makes :
    (s3_token (λ v. false) s3_conf
      ≡ ok (
        record { request_uri = "https://::1:80"; reseller_prefix = "AUTH_" },
        cert_only (text "c"),
      ))
    × (request_uri (("auth_port", text "a") ∷ []) ≡ raise value_error)
    × (request_uri (("auth_uri", text "http://k") ∷ []) ≡ ok "http://k")
unfolding s3_token lookup strip decimal take_text drop_text
s3_makes = (refl, refl, refl)

abbrev added : Dict TokenData
added = (add_token "uuid" (record { expires = 5; body = num 1 }) (some "t") []).1

fetches :
    (fixture_fetch_token 5 "t" added ≡ ok (num 1))
    × (fixture_fetch_token 6 "t" added ≡ raise invalid_token)
unfolding fixture_fetch_token lookup add_token insert
fetches = (refl, refl)

echoes :
    environment (("HTTP_X_USER_ID", "u") ∷ ("PATH_INFO", "/") ∷ []) ≡ ("HTTP_X_USER_ID", "u") ∷ []
unfolding environment starts_with
echoes = refl
