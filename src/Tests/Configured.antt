-- ===== src/Tests/Configured.antt =====
-- _common/config.py, auth_token/_opts.py and _auth.py: settings, options and endpoints.
use keystonemiddleware.Urls.{rstrip_slashes, strip_slashes}
use keystonemiddleware.Base.{
  ◌≡◌, refl, ◌⊎◌, String, true, false, Option, none, some, List, [], ◌∷◌, ◌==◌, ℕ, split, lookup,
  insert, erase, nat_eq, if◌then◌else◌, has_char, take_text, drop_text,
}
use keystonemiddleware.Exec.{Result, ok, raise, value_error, no_such_option, configuration_error}
use keystonemiddleware.Cache.Memory.{pos}
use keystonemiddleware.Config.{
  Value, text, bool, texts, OptType, bool_type, list_type, Opt, Groups, OsloConf, ConfigLibrary,
  PasteConf, Config, config, get, user_agent, settle, conf_values_type_convert, is_true,
}
use keystonemiddleware.Config.Settings.{get-config}
use keystonemiddleware.AuthOpts.{list_opts, authtoken_group}
use keystonemiddleware.AuthPlugin.{
  PluginOptions, AuthTokenPlugin, Discovery, Discovered, auth_interface, named, password,
  auth_token_plugin, get_endpoint, decimal,
}
use keystonemiddleware.AuthPlugin.Endpoints.{IsSupported, get_endpoint-IsSupported}

abbrev default_of : String → List Opt → Result Value
default_of name [] = raise no_such_option
default_of name (o ∷ options) =
    let further = default_of name options in if o.dest == name then ok o.default else further

abbrev pub in_group : String → String → Groups → Result Value
in_group group name [] = raise no_such_option
in_group group name ((g, options) ∷ groups) =
    let further = in_group group name groups in
    if g == group then default_of name options else further

abbrev converts : OptType → Value → Result Value
converts list_type (text s) = ok (texts (split b',' s))
converts bool_type (text s) =
    if s == "true"
    then ok (bool true)
    else if s == "false"
    then ok (bool false)
    else raise value_error
converts _ v = ok v

-- oslo.config without a file: every registered option has its default.
abbrev defaults : OsloConf
defaults = record {
  value = λ group name. in_group group name (list_opts []);
  project = raise no_such_option;
}

abbrev pub library : ConfigLibrary
library = record {
  convert = converts;
  load = λ project files. ok defaults;
  register_opts = λ groups conf. conf;
  global_conf = defaults;
  version_of = λ project. ok "1.0";
  own_version = "4.22";
}

abbrev paste : PasteConf
paste = record {
  oslo_config_config = none;
  settings =
      ("delay_auth_decision", text "true")
      ∷ ("memcache_servers", text "a,b")
      ∷ ("here", text "/etc")
      ∷ ("project", text "nova")
      ∷ [];
}

abbrev configured : Config
configured = record {
  name = "auth_token";
  group_name = authtoken_group;
  paste_overrides =
      ("delay_auth_decision", bool true)
      ∷ ("memcached_servers", texts ("a" ∷ "b" ∷ []))
      ∷ ("here", text "/etc")
      ∷ ("project", text "nova")
      ∷ [];
  oslo_conf_obj = defaults;
  memo = none;
}

configures : config library "auth_token" authtoken_group (list_opts []) paste ≡ ok configured
unfolding config erase settle lookup list_opts insert is_true split
configures = refl

get-config_example : get configured "memcached_servers" none ≡ ok (texts ("a" ∷ "b" ∷ []))
unfolding erase lookup list_opts insert split
get-config_example =
    get-config library "auth_token" authtoken_group (list_opts []) paste configured
      "memcached_servers" none configures

reads :
    (get configured "interface" none ≡ ok (text "internal"))
    × (get configured "nothing" none ≡ raise no_such_option)
    × ((user_agent library configured).0 ≡ ok "nova/1.0 keystonemiddleware.auth_token/4.22")
    × (conf_values_type_convert library authtoken_group
          (list_opts [])
          (("insecure", text "perhaps") ∷ [])
        ≡ raise configuration_error)
unfolding get lookup list_opts user_agent conf_values_type_convert settle insert
reads = (refl, refl, refl, refl)

abbrev fragments : PluginOptions
fragments = record {
  auth_host = "::1";
  auth_port = pos 80;
  auth_protocol = "http";
  auth_admin_prefix = "/admin/";
  admin_user = some "u";
  admin_password = some "p";
  admin_tenant_name = some "admin";
  admin_token = none;
  identity_uri = none;
}

abbrev plugin : AuthTokenPlugin
plugin = record {
  identity_uri = "http://[::1]:80/admin";
  plugin = password "http://[::1]:80/admin/v2.0" (some "u") (some "p") (some "admin");
}

plugs : auth_token_plugin fragments ≡ plugin
unfolding auth_token_plugin rstrip_slashes has_char decimal take_text drop_text strip_slashes
plugs = refl

abbrev discovery : Discovery String ℕ
discovery = record {
  discover = λ uri w. (ok uri, w);
  url_for = λ uri version. ok (some uri);
  normalize_version_number = λ version. ok version;
  version_match = λ a b. nat_eq a.0 b.0;
}

abbrev fresh : Discovered String ℕ
fresh = record { discovery = none; world = 0 }

abbrev found : Discovered String ℕ
found = record { discovery = some plugin.identity_uri; world = 0 }

finds :
    get_endpoint discovery plugin (named none) (some (3, 0)) fresh
    ≡ (ok (some "http://[::1]:80/admin/v3"), found)
unfolding get_endpoint
finds = refl

get_endpoint-IsSupported_example :
    ((named none ≡ auth_interface) × ("http://[::1]:80/admin/v3" ≡ plugin.identity_uri))
    ⊎ ((v : ℕ × ℕ) × (d : String) × (◌≡◌ {A = Option (ℕ × ℕ)} (some (3, 0)) (some v))
        × IsSupported discovery plugin v d "http://[::1]:80/admin/v3"
        × (found.discovery ≡ some d))
get_endpoint-IsSupported_example =
    get_endpoint-IsSupported discovery plugin (named none) (some (3, 0)) fresh found
      "http://[::1]:80/admin/v3" finds
