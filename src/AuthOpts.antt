-- ===== src/AuthOpts.antt =====
-- auth_token/_opts.py, and OPTS of auth_token/_auth.py: the options of auth_token with the types and
-- defaults that they are declared with. The common options of keystoneauth1's plugins are a parameter.
use keystonemiddleware.Base.{String, Bool, false, true, List, [], ◌∷◌, ◌++◌}
use keystonemiddleware.Cache.Memory.{pos}
use keystonemiddleware.Config.{
  Value, no_value, text, bool, int, texts, OptType, str_type, bool_type, int_type, list_type,
  choice_type, Opt, Groups,
}

abbrev opt : OptType → String → Value → Opt
opt type dest default = record { dest = dest; type = type; default = default; deprecated_opts = [] }

abbrev str_opt : String → Value → Opt
str_opt = opt str_type

abbrev bool_opt : String → Bool → Opt
bool_opt dest default = opt bool_type dest (bool default)

abbrev int_opt : String → Value → Opt
int_opt = opt int_type

-- `deprecated_name=`
abbrev was : String → Opt → Opt
was name o = record o { deprecated_opts = name ∷ [] }

-- `_OPTS`
unfoldable pub opts : List Opt
opts =
    was "auth_uri" (str_opt "www_authenticate_uri" no_value)
    ∷ str_opt "auth_uri" no_value
    ∷ str_opt "auth_version" no_value
    ∷ str_opt "interface" (text "internal")
    ∷ bool_opt "delay_auth_decision" false
    ∷ int_opt "http_connect_timeout" no_value
    ∷ int_opt "http_request_max_retries" (int (pos 3))
    ∷ str_opt "cache" no_value
    ∷ str_opt "certfile" no_value
    ∷ str_opt "keyfile" no_value
    ∷ str_opt "cafile" no_value
    ∷ bool_opt "insecure" false
    ∷ str_opt "region_name" no_value
    ∷ was "memcache_servers" (opt list_type "memcached_servers" no_value)
    ∷ int_opt "token_cache_time" (int (pos 300))
    ∷ opt (choice_type ("None" ∷ "MAC" ∷ "ENCRYPT" ∷ [])) "memcache_security_strategy" (text "None")
    ∷ str_opt "memcache_secret_key" no_value
    ∷ int_opt "memcache_pool_dead_retry" (int (pos 300))
    ∷ int_opt "memcache_pool_maxsize" (int (pos 10))
    ∷ int_opt "memcache_pool_socket_timeout" (int (pos 3))
    ∷ int_opt "memcache_pool_unused_timeout" (int (pos 60))
    ∷ int_opt "memcache_pool_conn_get_timeout" (int (pos 10))
    ∷ bool_opt "memcache_use_advanced_pool" false
    ∷ bool_opt "include_service_catalog" true
    ∷ str_opt "enforce_token_bind" (text "permissive")
    ∷ opt list_type "service_token_roles" (texts ("service" ∷ []))
    ∷ bool_opt "service_token_roles_required" false
    ∷ str_opt "service_type" no_value
    ∷ []

-- `_auth.OPTS`
unfoldable pub auth_opts : List Opt
auth_opts =
    str_opt "auth_admin_prefix" (text "")
    ∷ str_opt "auth_host" (text "127.0.0.1")
    ∷ int_opt "auth_port" (int (pos 35357))
    ∷ opt (choice_type ("http" ∷ "https" ∷ [])) "auth_protocol" (text "https")
    ∷ str_opt "identity_uri" no_value
    ∷ str_opt "admin_token" no_value
    ∷ str_opt "admin_user" no_value
    ∷ str_opt "admin_password" no_value
    ∷ str_opt "admin_tenant_name" (text "admin")
    ∷ []

abbrev pub authtoken_group : String
authtoken_group = "keystone_authtoken"

-- `AUTH_TOKEN_OPTS`, and `list_opts`, a deep copy of it
unfoldable pub list_opts : List Opt → Groups
unfolding opts auth_opts
list_opts common = (authtoken_group, opts ++ (auth_opts ++ common)) ∷ []

-- `_opts.list_opts`, for sample files
unfoldable pub sample_opts : List Opt → Groups
unfolding opts
sample_opts common = (authtoken_group, opts ++ common) ∷ []
