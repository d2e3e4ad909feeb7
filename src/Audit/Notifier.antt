-- ===== src/Audit/Notifier.antt =====
-- audit/_notifier.py, and the options of audit/__init__.py: where the audit's events go. oslo.messaging
-- is a parameter, and logging leaves the world as it is.
use keystonemiddleware.Base.{String, Bool, true, List, [], ◌∷◌, none, if◌then◌else◌}
use keystonemiddleware.Exec.{Result, Exec, ok, then_result}
use keystonemiddleware.Json.{Json}
use keystonemiddleware.Config.{
  Value, no_value, bool, str_type, bool_type, list_type, Opt, Groups, OsloConf, Config, is_true,
  get,
}
use keystonemiddleware.Audit.Middleware.{EventType}

abbrev pub audit_middleware_group : String
audit_middleware_group = "audit_middleware_notifications"

-- `_AUDIT_OPTS`
unfoldable pub audit_opts : List Opt
audit_opts =
    record {
      dest = "use_oslo_messaging";
      type = bool_type;
      default = bool true;
      deprecated_opts = [];
    }
    ∷ record { dest = "driver"; type = str_type; default = no_value; deprecated_opts = [] }
    ∷ record { dest = "topics"; type = list_type; default = no_value; deprecated_opts = [] }
    ∷ record { dest = "transport_url"; type = str_type; default = no_value; deprecated_opts = [] }
    ∷ []

-- `_list_opts`
unfoldable pub audit_list_opts : Groups
unfolding audit_opts
audit_list_opts = (audit_middleware_group, audit_opts) ∷ []

pub record OsloMessaging (T N Event W : Type 0) : Type 0 where
  -- the package is installed
  pub installed : Bool
  pub get_notification_transport : OsloConf → Value → Result T
  -- the notifier, by its driver and its topics
  pub notifier : T → Value → Value → Result N
  pub info : N → Json → EventType → Event → Exec W (Unit {0})

pub data Notifier (N : Type 0) : Type 0 where
  log_notifier : Notifier N
  messaging_notifier : N → Notifier N

module _ {T N Event W : Type 0} (oslo_messaging : OsloMessaging T N Event W) where
  abbrev make_messaging : Config → Result (Notifier N)
  make_messaging conf = then_result (get conf "transport_url" none) λ url.
      then_result (oslo_messaging.get_notification_transport conf.oslo_conf_obj url) λ transport.
        then_result (get conf "driver" none) λ driver.
          then_result (get conf "topics" none) λ topics.
            then_result (oslo_messaging.notifier transport driver topics)
              λ notifier. ok (messaging_notifier notifier)

  unfoldable pub create_notifier : Config → Result (Notifier N)
  unfolding get is_true
  create_notifier conf =
      let asked = then_result (get conf "use_oslo_messaging" none) λ use_it.
        let made = make_messaging conf in if is_true use_it then made else ok log_notifier in
      if oslo_messaging.installed then asked else ok log_notifier

  unfoldable pub send_notification : Notifier N → Json → EventType → Event → Exec W (Unit {0})
  send_notification log_notifier context event_type payload w = (ok tt, w)
  send_notification (messaging_notifier notifier) context event_type payload w =
      oslo_messaging.info notifier context event_type payload w
