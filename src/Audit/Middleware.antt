-- ===== src/Audit/Middleware.antt =====
-- audit/__init__.py: AuditMiddleware, which notifies an event before and after the application.
pub mod Answers
pub mod Notified
use keystonemiddleware.Base.{
  ℕ, String, Option, none, some, List, ◌&&◌, map, contains, leb, ltb, upper, strip, split,
  if◌then◌else◌,
}
use keystonemiddleware.Exec.{Result, ok, raise, Exec, pure, continue, ◌>>=◌, key_error}
use keystonemiddleware.Json.{Json}
use keystonemiddleware.Audit.{AuditRequest}
use keystonemiddleware.Audit.Events.{
  Outcome, success, failure, unknown_outcome, AuditApi, create_event,
}

-- `[x.upper().strip() for x in conf.get('ignore_req_list', '').split(',')]`
abbrev or_empty : Option String → String
or_empty none = ""
or_empty (some text) = text

unfoldable pub ignore_req_list : Option String → List String
ignore_req_list conf = map (λ x. strip (upper x)) (split b',' (or_empty conf))

pub data EventType : Type 0 where
  http_request http_response : EventType

-- One request on its way: what the environ holds, and the world of the notifier and the application.
pub record Running (Event W : Type 0) : Type 0 where
  pub request : AuditRequest
  pub context : Option Json
  pub cadf_event : Option Event
  pub world : W

-- `result`, and the code of the reason where there is a response
unfoldable pub outcome_of : Option ℕ → Outcome
outcome_of none = unknown_outcome
outcome_of (some status) = if leb 200 status && ltb status 400 then success else failure

abbrev required : {A : Type 0} → Option A → Result A
required none = raise key_error
required (some a) = ok a

-- What a middleware is made with: the API, the notifier, oslo.context and the ignored methods.
pub record AuditMiddleware (Endpoint Resource Event W : Type 0) : Type 0 where
  pub cadf_audit : AuditApi Endpoint Resource Event
  pub notify : Json → EventType → Event → Exec W (Unit {0})
  pub admin_context : Json
  pub ignored_methods : List String

module _ {Event W : Type 0} where
  -- `_log_and_ignore_error`: an exception is logged, and what was done before it stays done.
  unfoldable pub log_and_ignore_error :
      Exec (Running Event W) (Unit {0}) → Exec (Running Event W) (Unit {0})
  log_and_ignore_error fn s = let (_, after) = fn s in (ok tt, after)

  abbrev on_world : Exec W (Unit {0}) → Exec (Running Event W) (Unit {0})
  on_world m s = let (r, w) = m s.world in (r, record s { world = w })

  abbrev get_context : Exec (Running Event W) Json
  get_context s = (required s.context, s)

  -- The event is one object: what is set on it is what the environ holds then.
  abbrev put_event : Event → Exec (Running Event W) (Unit {0})
  put_event event s = (ok tt, record s { cadf_event = some event })

  module _ {Endpoint Resource : Type 0} (self : AuditMiddleware Endpoint Resource Event W) where
    unfoldable pub create_and_keep_event : Exec (Running Event W) Event
    create_and_keep_event s =
        continue (create_event self.cadf_audit s.request, s)
          λ event. put_event event >>= λ _. pure event

    unfoldable pub notify_request : Exec (Running Event W) (Unit {0})
    unfolding create_and_keep_event
    notify_request = get_context >>= λ context.
        create_and_keep_event >>= λ event. on_world (self.notify context http_request event)

    -- The event that the environ holds, or a new one.
    abbrev current_event : Exec (Running Event W) Event
    current_event s = elim s.cadf_event [
      | none ↦ create_and_keep_event s
      | some event ↦ (ok event, s)
    ]

    abbrev updated : (Event → Result Event) → Event → Exec (Running Event W) Event
    updated f event s = continue (f event, s) λ event. put_event event >>= λ _. pure event

    abbrev with_reason : Option ℕ → Event → Result Event
    with_reason none event = ok event
    with_reason (some status) event = self.cadf_audit.events.set_reason status event

    unfoldable pub notify_response : Option ℕ → Exec (Running Event W) (Unit {0})
    unfolding create_and_keep_event outcome_of
    notify_response status = current_event >>= λ event.
        updated (with_reason status) event >>= λ event.
        updated (self.cadf_audit.events.set_outcome (outcome_of status)) event >>= λ event.
        updated self.cadf_audit.events.add_reporterstep event >>= λ event.
        get_context >>= λ context. on_world (self.notify context http_response event)

    unfoldable pub process_request : Exec (Running Event W) (Unit {0})
    unfolding log_and_ignore_error notify_request
    process_request = log_and_ignore_error notify_request

    unfoldable pub process_response : Option ℕ → Exec (Running Event W) (Unit {0})
    unfolding log_and_ignore_error notify_response
    process_response status = log_and_ignore_error (notify_response status)

    abbrev pub with_context : Running Event W → Running Event W
    with_context s = record s { context = some self.admin_context }

    module _ {R : Type 0} (status_int : R → ℕ) (application : Exec (Running Event W) R) where
      -- The `try` around the application: an exception is raised again behind the event.
      unfoldable pub reraised : Result R × Running Event W → Result R × Running Event W
      unfolding process_response
      reraised (ok response, s) =
          let (_, after) = process_response (some (status_int response)) s in (ok response, after)
      reraised (raise e, s) = let (_, after) = process_response none s in (raise e, after)

      -- `__call__`
      unfoldable pub call : Exec (Running Event W) R
      unfolding process_request reraised
      call s =
          let ignored = application s in
          let (_, started) = process_request (with_context s) in
          let audited = reraised (application started) in
          if contains self.ignored_methods s.request.method then ignored else audited
