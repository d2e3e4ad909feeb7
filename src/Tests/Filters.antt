-- ===== src/Tests/Filters.antt =====
-- auth_token/__init__.py: from a paste file to an answered request.
use keystonemiddleware.Base.{
  ◌≡◌, refl, ◌⊎◌, ℕ, String, true, false, none, some, [], ◌∷◌, Dict, erase, update, insert, lookup,
  lower,
}
use keystonemiddleware.Exec.{Exception, Result, ok, raise}
use keystonemiddleware.Cache.Memory.{pos}
use keystonemiddleware.Config.{
  Value, no_value, text, bool, int, ConfigLibrary, settle, is_true, user_agent,
}
use keystonemiddleware.AuthOpts.{list_opts, authtoken_group}
use keystonemiddleware.AuthProtocol.Setup.{AuthProtocol, token_cache, loaded}
use keystonemiddleware.AuthProtocol.{Response}
use keystonemiddleware.AuthProtocol.Filter.{filter_factory, merged}
use keystonemiddleware.AuthProtocol.Filter.Enforced.{filter_factory-IsServed}
use keystonemiddleware.AuthProtocol.Call.{IsServed}
use keystonemiddleware.Tests.Fixtures.{strict_options, library, services, state_of, honest}
use keystonemiddleware.Tests.Middleware.{behind}
use keystonemiddleware.Tests.Calls.{served, counting, called}
use keystonemiddleware.Tests.Setups.{setup_library, password_plugin, plugin_opts}
use keystonemiddleware.Tests.Configured.{library as config_library}

abbrev with_plugin : ConfigLibrary
with_plugin = record config_library { global_conf = password_plugin }

-- The file's [DEFAULT] section delays the decision, and the filter's own takes that back.
abbrev defaults : Dict Value
defaults = ("delay_auth_decision", text "true") ∷ ("log_name", text "nova") ∷ []

abbrev own : Dict Value
own =
    ("delay_auth_decision", text "false")
    ∷ ("include_service_catalog", text "false")
    ∷ ("www_authenticate_uri", text "https://keystone")
    ∷ ("service_token_roles_required", text "true")
    ∷ ("service_type", text "compute")
    ∷ []

abbrev agent : String
agent = "keystonemiddleware.auth_token/4.22"

abbrev deployed : AuthProtocol String
deployed = record {
  conf = record {
    name = "auth_token";
    group_name = authtoken_group;
    paste_overrides =
        ("delay_auth_decision", bool false)
        ∷ ("log_name", text "nova")
        ∷ ("include_service_catalog", bool false)
        ∷ ("www_authenticate_uri", text "https://keystone")
        ∷ ("service_token_roles_required", bool true)
        ∷ ("service_type", text "compute")
        ∷ [];
    oslo_conf_obj = password_plugin;
    memo = some agent;
  };
  options = strict_options;
  auth = loaded "plugin";
  session = record {
    cert = no_value;
    key = no_value;
    cacert = no_value;
    insecure = bool false;
    timeout = no_value;
    agent = agent;
  };
  adapter = record {
    interface = text "internal";
    region_name = no_value;
    connect_retries = int (pos 3);
  };
  identity = record { requested_auth_version = none; requested_auth_interface = some "internal" };
  cache = token_cache (record {
    cache_time = pos 300;
    env_cache_name = "";
    has_servers = false;
    use_advanced_pool = false;
  });
}

makes : filter_factory with_plugin setup_library plugin_opts none defaults own 0 ≡ (ok deployed, 0)
unfolding filter_factory erase update insert settle lookup list_opts user_agent lower
makes = refl

filter_factory-IsServed_example :
    IsServed strict_options library services counting (state_of honest) 0 (ok served) behind 1
    ⊎ (((e : Exception) × (◌≡◌ {A = Result Response} (ok served) (raise e))) × (◌≡◌ {A = ℕ} 1 0))
unfolding erase merged update insert lookup list_opts is_true
filter_factory-IsServed_example =
    filter_factory-IsServed with_plugin setup_library plugin_opts none defaults own (bool false) 0 0
      deployed library services counting (state_of honest) behind 0 1 (ok served) refl refl makes
      called
