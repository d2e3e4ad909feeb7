-- ===== src/AuthProtocol/Filter.antt =====
-- auth_token/__init__.py: `filter_factory`, by which paste.deploy puts an AuthProtocol together.
pub mod Enforced
use keystonemiddleware.Base.{Option, List, Dict, update}
use keystonemiddleware.Exec.{Exec, continue}
use keystonemiddleware.Config.{Value, Opt, OsloConf, PasteConf, ConfigLibrary, config}
use keystonemiddleware.AuthOpts.{authtoken_group, list_opts}
use keystonemiddleware.AuthProtocol.Setup.{SetupLibrary, AuthProtocol, auth_protocol}

-- `conf = global_conf.copy()` and `conf.update(local_conf)`, with the object that a caller in the
-- program may pass as `oslo_config_config`
unfoldable pub merged : Option OsloConf → Dict Value → Dict Value → PasteConf
merged passed global_conf local_conf = record {
  oslo_config_config = passed;
  settings = update global_conf local_conf;
}

module _ {A W : Type 0} (config_library : ConfigLibrary) (lib : SetupLibrary A W)
    (common : List Opt) where
  -- `AuthProtocol(app, conf)`
  unfoldable pub from_paste : PasteConf → Exec W (AuthProtocol A)
  unfolding config auth_protocol
  from_paste conf w =
      continue (config config_library "auth_token" authtoken_group (list_opts common) conf, w)
        (auth_protocol config_library lib)

  -- The object that `auth_filter` puts around an application.
  unfoldable pub filter_factory :
      Option OsloConf → Dict Value → Dict Value → Exec W (AuthProtocol A)
  unfolding merged from_paste
  filter_factory passed global_conf local_conf = from_paste (merged passed global_conf local_conf)
