-- ===== src/Config/Settings.antt =====
-- _common/config.py: which value `Config.get` finds.
use keystonemiddleware.Base.{
  ◌≡◌, refl, sym, ap, ◌∙◌, String, Option, none, some, List, [], ◌∷◌, Dict, ◌==◌, lookup, insert,
  lookup-insert, arith, erase, if◌then◌else◌, Bool, true, false, ◌||◌, Bool-cases, inl, inr,
  or_else, or_else-none, or_else_assoc,
}
use keystonemiddleware.Exec.{Result, ok, raise, key_error, value_error, then_result-eq-ok}
use keystonemiddleware.Config.{
  Value, no_value, Opt, OptType, Groups, OptTypes, Setting, ConfigLibrary, PasteConf, Config,
  opt_types, settle, as_is, converted, convert_settings, conf_values_type_convert, config, get,
  local_conf,
}
use keystonemiddleware.Config.Owners.{options_of, owner_of, entry_of, lookup-opt_types}

abbrev has_no_value : Value → Bool
has_no_value no_value = true
has_no_value _ = false

-- What paste.deploy and others add to a section, and a value None, are not converted.
abbrev is_foreign : String → Value → Bool
is_foreign k v = has_no_value v || ("here" == k || ("__file__" == k || "configkey" == k))

abbrev of_dest : String → Result Setting → Option Value
of_dest name (ok (dest, v)) = if dest == name then some v else none
of_dest name (raise e) = none

abbrev overrides_of : Result Config → Result (Dict Value)
overrides_of (ok self) = ok self.paste_overrides
overrides_of (raise e) = raise e

-- The settings but for the two that lead to a configuration file.
abbrev pub own_settings : PasteConf → Dict Value
own_settings conf = erase "oslo_config_file" (erase "oslo_config_project" conf.settings)

abbrev taken : Value → Result Value → Value
taken v (ok w) = w
taken v (raise e) = v

as_is-is_foreign : (v : Value) (k : String) → as_is v k ≡ is_foreign k v
as_is-is_foreign no_value k = refl
as_is-is_foreign _ k = ground arith

converted-taken :
    (name dest : String) (v : Value) (r : Result Value) (s : Setting)
    → converted dest v r ≡ ok s
    → of_dest name (converted dest v r) ≡ (if dest == name then some (taken v r) else none)
converted-taken name dest v (ok w) s e = refl
converted-taken name dest v (raise key_error) s e = refl
converted-taken name dest v (raise value_error) s e = absurd (ground arith)
converted-taken name dest v (raise _) s e = absurd (ground arith)

module _ (lib : ConfigLibrary) where
  -- A value that the option's type takes is converted, another one is as it is.
  abbrev typed : OptType → Value → Value
  typed type v = taken v (lib.convert type v)

  -- What a setting says of an option: the setting of another option, under any of its names, says
  -- nothing, and one that no option has counts under its own name.
  abbrev pub value_for : String → Option Opt → Setting → Option Value
  value_for name none (k, v) = if k == name then some v else none
  value_for name (some o) (k, v) =
      if is_foreign k v
      then (if k == name then some v else none)
      else if o.dest == name
      then some (typed o.type v)
      else none

  -- The last of the settings that say something of an option.
  abbrev pub last_setting : List Opt → List Setting → String → Option Value
  last_setting options [] name = none
  last_setting options (setting ∷ conf) name =
      or_else (last_setting options conf name) (value_for name (owner_of setting.0 options) setting)

  placed :
      (name dest : String) (v : Value) (opts : Dict Value)
      → lookup name (insert dest v opts) ≡ or_else (of_dest name (ok (dest, v))) (lookup name opts)
  placed name dest v opts = ground (arith, lookup-insert name dest v opts)

  -- The loop's step puts the value where the setting's owner has its own name.
  settle-value_for :
      (types : OptTypes) (owner : Option Opt) (setting : Setting) (name dest : String) (v : Value)
      → lookup setting.0 types ≡ entry_of owner
      → settle lib types setting ≡ ok (dest, v)
      → of_dest name (ok (dest, v)) ≡ value_for name owner setting
  unfolding settle
  settle-value_for types none (k, w) name dest v unknown e =
      sym (ap (of_dest name) (rw (settle, unknown) at e))
  settle-value_for types (some o) (k, w) name dest v known e =
      let made = rw (settle, known, as_is-is_foreign w k) at e in
      elim (Bool-cases (is_foreign k w)) [
        | inl foreign ↦ rw (foreign) (sym (ap (of_dest name) (rw (foreign) at made)))
        | inr own ↦
            let done = rw (own) at made in
            rw (own) (
              sym (ap (of_dest name) done)
              ∙ converted-taken name o.dest w (lib.convert o.type w) (dest, v) done)
      ]

  lookup-convert_settings :
      (types : OptTypes) (options : List Opt) (opts : Dict Value) (conf : List Setting)
      (converted : Dict Value) (name : String)
      → ((k : String) → lookup k types ≡ entry_of (owner_of k options))
      → convert_settings lib types opts conf ≡ ok converted
      → lookup name converted ≡ or_else (last_setting options conf name) (lookup name opts)
  unfolding convert_settings
  lookup-convert_settings types options opts [] converted name table e = ground arith
  lookup-convert_settings types options opts (setting ∷ conf) converted name table e =
      let ((dest, v), settled, rest) = then_result-eq-ok (settle lib types setting) _ e in
      let later = last_setting options conf name in
      lookup-convert_settings types options (insert dest v opts) conf converted name table rest
      ∙ ap (or_else later) (placed name dest v opts)
      ∙ sym (or_else_assoc later (of_dest name (ok (dest, v))) (lookup name opts))
      ∙ ap (λ said. or_else (or_else later said) (lookup name opts))
          (settle-value_for types (owner_of setting.0 options) setting name dest v (table setting.0)
            settled)

  lookup-conf_values_type_convert :
      (group_name : String) (all_options : Groups) (conf : List Setting) (converted : Dict Value)
      (name : String)
      → conf_values_type_convert lib group_name all_options conf ≡ ok converted
      → lookup name converted ≡ last_setting (options_of group_name all_options) conf name
  unfolding conf_values_type_convert lookup
  lookup-conf_values_type_convert group_name all_options [] converted name e = ground arith
  lookup-conf_values_type_convert group_name all_options (setting ∷ conf) converted name e =
      lookup-convert_settings (opt_types group_name all_options) (options_of group_name all_options)
        [] (setting ∷ conf) converted name (lookup-opt_types group_name all_options) e
      ∙ or_else-none (last_setting (options_of group_name all_options) (setting ∷ conf) name)

  config-overrides :
      (name group_name : String) (all_options : Groups) (conf : PasteConf) (self : Config)
      → config lib name group_name all_options conf ≡ ok self
      → conf_values_type_convert lib group_name all_options (own_settings conf)
        ≡ ok self.paste_overrides
  unfolding config
  config-overrides name group_name all_options conf self e =
      let (overrides, converted, rest) =
        then_result-eq-ok (conf_values_type_convert lib group_name all_options _) _ e in
      let (oslo, _, made) =
        then_result-eq-ok (local_conf lib all_options conf.oslo_config_config _ _) _ rest in
      converted ∙ ap overrides_of made

  -- A setting of the paste file counts for `get`: one under the name of the option or an older one, with
  -- the value that the option's type makes of it, or as it is where no option of the group has its name;
  -- the last one where there are several. oslo.config is asked where there is none.
  pub get-config :
      (name group_name : String) (all_options : Groups) (conf : PasteConf) (self : Config)
      (option : String) (group : Option String)
      → config lib name group_name all_options conf ≡ ok self
      → get self option group
        ≡ elim (last_setting (options_of group_name all_options) (own_settings conf) option) [
          | some v ↦ ok v
          | none ↦ get (record self { paste_overrides = [] }) option group
        ]
  unfolding get lookup
  get-config name group_name all_options conf self option group e =
      rw
        (← lookup-conf_values_type_convert group_name all_options (own_settings conf)
          self.paste_overrides option (config-overrides name group_name all_options conf self e))
        refl
