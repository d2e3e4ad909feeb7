-- ===== src/Audit/Events.antt =====
-- audit/_api.py: the event of a request (_create_event), with the resources that stand for who sent
-- it (ClientResource, KeystoneCredential).
use keystonemiddleware.Base.{ℕ, String, Option, none, some, lookup}
use keystonemiddleware.Exec.{Result, then_result}
use keystonemiddleware.Json.{Json}
use keystonemiddleware.Audit.{AuditMap, AuditRequest, Action, get_action}
use keystonemiddleware.Audit.Targets.{Pycadf, get_target_resource}

pub record KeystoneCredential : Type 0 where
  pub token : String
  pub identity_status : Option String

pub record ClientResource : Type 0 where
  pub id : String
  pub name : String
  pub address : Option String
  pub agent : Option String
  pub credential : KeystoneCredential
  pub project_id : Option String
  pub request_id : Option String
  pub global_request_id : Option String

pub data Outcome : Type 0 where
  pending success failure unknown_outcome : Outcome

-- pycadf's events: each function may refuse what it is given.
pub record Events (Resource Event : Type 0) : Type 0 where
  -- `EventFactory().new_event` of an activity with outcome, by action, initiator and target
  pub new_event : Outcome → Action → ClientResource → Resource → Result Event
  -- `requestPath` and the tag `correlation_id`
  pub set_request_path : String → Event → Result Event
  pub add_correlation_id : String → Event → Result Event
  -- `reason`, `outcome` and the reporter step of the modifier
  pub set_reason : ℕ → Event → Result Event
  pub set_outcome : Outcome → Event → Result Event
  pub add_reporterstep : Event → Result Event

abbrev or_text : String → Option String → String
or_text default none = default
or_text default (some text) = text

unfoldable pub initiator_of : AuditRequest → ClientResource
initiator_of req = record {
  id = or_text "unknown" (lookup "HTTP_X_USER_ID" req.environ);
  name = or_text "unknown" (lookup "HTTP_X_USER_NAME" req.environ);
  address = req.client_addr;
  agent = req.user_agent;
  credential = record {
    token = or_text "" (lookup "HTTP_X_AUTH_TOKEN" req.environ);
    identity_status = some (or_text "unknown" (lookup "HTTP_X_IDENTITY_STATUS" req.environ));
  };
  project_id = some (or_text "unknown" (lookup "HTTP_X_PROJECT_ID" req.environ));
  request_id = lookup "openstack.request_id" req.environ;
  global_request_id = lookup "openstack.global_request_id" req.environ;
}

infixl 5 ◌>>=◌
abbrev ◌>>=◌ : {A B : Type 0} → Result A → (A → Result B) → Result B
◌>>=◌ = then_result

-- An audit API: its map, pycadf, and jsonutils.
pub record AuditApi (Endpoint Resource Event : Type 0) : Type 0 where
  pub map : AuditMap
  pub pycadf : Pycadf Endpoint Resource
  pub events : Events Resource Event
  pub loads : String → Result Json
  -- `identifier.generate_uuid()`
  pub uuid : String

module _ {Endpoint Resource Event : Type 0} (api : AuditApi Endpoint Resource Event) where
  unfoldable pub create_event : AuditRequest → Result Event
  unfolding initiator_of
  create_event req = do
    action ← get_action api.map req
    target ← get_target_resource api.pycadf api.loads api.map req
    event ← api.events.new_event pending action (initiator_of req) target
    event ← api.events.set_request_path req.path_qs event
    api.events.add_correlation_id api.uuid event
