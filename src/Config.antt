-- ===== src/Config.antt =====
-- _common/config.py: the settings of a paste.deploy file over oslo.config's. oslo.config,
-- pkg_resources and pbr are parameters.
pub mod Owners
pub mod Settings
use keystonemiddleware.Base.{
  String, ◌<>◌, Bool, true, false, not, Option, none, some, List, [], ◌∷◌, Dict, ◌==◌, lookup,
  insert, erase, contains, if◌then◌else◌,
}
use keystonemiddleware.Exec.{
  Result, Exec, ok, raise, then_result, key_error, value_error, type_error, configuration_error,
  no_such_option, distribution_not_found,
}
use keystonemiddleware.Cache.Memory.{ℤ, is_zero}

-- What an option may be set to.
pub data Value : Type 0 where
  no_value : Value
  text : String → Value
  bool : Bool → Value
  int : ℤ → Value
  texts : List String → Value

-- `bool(v)`
unfoldable pub is_true : Value → Bool
is_true no_value = false
is_true (text s) = not (s == "")
is_true (bool b) = b
is_true (int n) = not (is_zero n)
is_true (texts []) = false
is_true (texts (_ ∷ _)) = true

-- oslo.config's types, and its options as they are read here.
pub data OptType : Type 0 where
  str_type bool_type int_type list_type : OptType
  choice_type : List String → OptType

pub record Opt : Type 0 where
  pub dest : String
  pub type : OptType
  pub default : Value
  pub deprecated_opts : List String

abbrev pub Groups : Type 0
Groups = List (String × List Opt)

-- An oslo.config object: its value of a group's option, and its `project`.
pub record OsloConf : Type 0 where
  pub value : String → String → Result Value
  pub project : Result Value

pub record ConfigLibrary : Type 0 where
  -- a type object, called on a value
  pub convert : OptType → Value → Result Value
  -- `ConfigOpts()([], project=…, default_config_files=…)`
  pub load : Value → Option (List Value) → Result OsloConf
  pub register_opts : Groups → OsloConf → OsloConf
  -- `cfg.CONF`
  pub global_conf : OsloConf
  -- `pkg_resources.get_distribution(project).version`
  pub version_of : String → Result String
  -- `pbr.version.VersionInfo('keystonemiddleware').version_string()`
  pub own_version : String

-- `type_, dest` by the name of a setting
abbrev pub OptTypes : Type 0
OptTypes = Dict (OptType × String)

unfoldable pub add_names : OptType × String → List String → OptTypes → OptTypes
add_names type_dest [] types = types
add_names type_dest (name ∷ names) types = add_names type_dest names (insert name type_dest types)

-- The inner loop over one group's options.
unfoldable pub add_options : List Opt → OptTypes → OptTypes
unfolding add_names
add_options [] types = types
add_options (o ∷ options) types =
    add_options options (add_names (o.type, o.dest) (o.dest ∷ o.deprecated_opts) types)

-- The loop over the groups, which ends at the first of the name.
unfoldable pub opt_types : String → Groups → OptTypes
unfolding add_options
opt_types group_name [] = []
opt_types group_name ((group, options) ∷ all_options) =
    let further = opt_types group_name all_options in
    if group == group_name then add_options options [] else further

-- The keys that paste.deploy, panko and gnocchi add.
abbrev pub as_is : Value → String → Bool
as_is no_value k = true
as_is _ k = contains ("here" ∷ "__file__" ∷ "configkey" ∷ []) k

-- How the `try` around a conversion ends.
abbrev pub converted : String → Value → Result Value → Result (String × Value)
converted dest v (ok w) = ok (dest, w)
converted dest v (raise key_error) = ok (dest, v)
converted dest v (raise value_error) = raise configuration_error
converted dest v (raise e) = raise e

abbrev pub Setting : Type 0
Setting = String × Value

-- What a paste file holds for a middleware, and the oslo.config object that a caller may pass.
pub record PasteConf : Type 0 where
  pub oslo_config_config : Option OsloConf
  pub settings : Dict Value

pub record Config : Type 0 where
  pub name : String
  pub group_name : String
  pub paste_overrides : Dict Value
  pub oslo_conf_obj : OsloConf
  pub memo : Option String

abbrev or_group : String → Option String → String
or_group default none = default
or_group default (some group) = group

-- `get`, with the group where one is given
unfoldable pub get : Config → String → Option String → Result Value
get self name group = elim (lookup name self.paste_overrides) [
  | some v ↦ ok v
  | none ↦ self.oslo_conf_obj.value (or_group self.group_name group) name
]

-- `except cfg.NoSuchOptError`
abbrev without_option : Result Value → Result Value → Result Value
without_option (raise no_such_option) other = other
without_option r other = r

unfoldable pub project : Config → Result Value
unfolding get
project self =
    without_option (get self "project" (some self.group_name))
      (without_option self.oslo_conf_obj.project (ok no_value))

module _ (lib : ConfigLibrary) where
  -- One setting: its destination and its value, by the type of the option that it names.
  unfoldable pub settle : OptTypes → Setting → Result Setting
  settle types (k, v) = elim (lookup k types) [
    | none ↦ ok (k, v)
    | some (type, dest) ↦
        let typed = converted dest v (lib.convert type v) in if as_is v k then ok (k, v) else typed
  ]

  -- The loop over the settings.
  unfoldable pub convert_settings : OptTypes → Dict Value → List Setting → Result (Dict Value)
  convert_settings types opts [] = ok opts
  convert_settings types opts (setting ∷ conf) =
      then_result (settle types setting)
        λ settled. convert_settings types (insert settled.0 settled.1 opts) conf

  unfoldable pub conf_values_type_convert : String → Groups → List Setting → Result (Dict Value)
  unfolding convert_settings opt_types
  conf_values_type_convert group_name all_options [] = ok []
  conf_values_type_convert group_name all_options (setting ∷ conf) =
      convert_settings (opt_types group_name all_options) [] (setting ∷ conf)

  abbrev or_no_value : Option Value → Value
  or_no_value none = no_value
  or_no_value (some v) = v

  abbrev config_files : Value → Option (List Value)
  config_files file = if is_true file then some (file ∷ []) else none

  -- The object that the keys `oslo_config_config`, `oslo_config_project` and `oslo_config_file` lead
  -- to; one that is passed holds options, and so counts as true.
  unfoldable pub local_conf : Groups → Option OsloConf → Value → Value → Result OsloConf
  local_conf all_options (some passed) project file = ok (lib.register_opts all_options passed)
  local_conf all_options none project file =
      let loaded =
        then_result (lib.load project (config_files file))
          (λ conf. ok (lib.register_opts all_options conf)) in
      if is_true project then loaded else ok lib.global_conf

  -- `__init__`; the three keys are taken out of the settings.
  unfoldable pub config : String → String → Groups → PasteConf → Result Config
  unfolding conf_values_type_convert local_conf
  config name group_name all_options conf =
      let project = or_no_value (lookup "oslo_config_project" conf.settings) in
      let file = or_no_value (lookup "oslo_config_file" conf.settings) in
      let left = erase "oslo_config_file" (erase "oslo_config_project" conf.settings) in
      then_result (conf_values_type_convert group_name all_options left) λ overrides.
        then_result (local_conf all_options conf.oslo_config_config project file) λ oslo.
          ok (record {
            name = name;
            group_name = group_name;
            paste_overrides = overrides;
            oslo_conf_obj = oslo;
            memo = none;
          })

  abbrev version_or_unknown : Result String → Result String
  version_or_unknown (raise distribution_not_found) = ok "unknown"
  version_or_unknown r = r

  abbrev with_version : String → Result String
  with_version name =
      then_result (version_or_unknown (lib.version_of name))
        λ version. ok (name <> ("/" <> (version <> " ")))

  -- The project before the middleware's name; a value that is no text names no distribution.
  unfoldable pub project_part : Value → Result String
  unfolding is_true
  project_part (text name) = let named = with_version name in if name == "" then ok "" else named
  project_part v = if is_true v then raise type_error else ok ""

  abbrev remember : Result String → Config → Result String × Config
  remember (ok agent) self = (ok agent, record self { memo = some agent })
  remember (raise e) self = (raise e, self)

  abbrev agent_of : Config → Result String
  agent_of self = then_result (project self) λ v.
      then_result (project_part v)
        λ part. ok (part <> ("keystonemiddleware." <> (self.name <> ("/" <> lib.own_version))))

  unfoldable pub user_agent : Exec Config String
  unfolding project project_part
  user_agent self = elim self.memo [
    | some agent ↦ (ok agent, self)
    | none ↦ remember (agent_of self) self
  ]
