-- ===== src/Audit/Middleware/Notified.antt =====
-- audit/__init__.py: which events are notified around the application, and in which order.
use keystonemiddleware.Base.{ℕ, Option, none, some}
use keystonemiddleware.Exec.{Result, ok, raise, then_result, Exec}
use keystonemiddleware.Audit.Events.{Events}
use keystonemiddleware.Audit.Middleware.{EventType, Running, AuditMiddleware, outcome_of}

module _ {Resource Event : Type 0} (events : Events Resource Event) where
  abbrev with_code : Option ℕ → Event → Result Event
  with_code none event = ok event
  with_code (some code) event = events.set_reason code event

  -- The event after the response, as pycadf makes it of the one before.
  abbrev pub responded : Option ℕ → Event → Result Event
  responded code event =
      then_result (with_code code event)
        λ event. then_result (events.set_outcome (outcome_of code) event) events.add_reporterstep

-- An application that leaves the environ alone.
abbrev pub serving : {Event W R : Type 0} → (W → Result R × W) → Exec (Running Event W) R
serving serve s = let (r, w) = serve s.world in (r, record s { world = w })

abbrev pub code_of : {R : Type 0} → (R → ℕ) → Result R → Option ℕ
code_of status_int (ok response) = some (status_int response)
code_of status_int (raise e) = none

module _ {Event W Endpoint Resource R : Type 0} (self : AuditMiddleware Endpoint Resource Event W)
    (status_int : R → ℕ) (serve : W → Result R × W) where
  abbrev tell : EventType → Event → Exec W (Unit {0})
  tell = self.notify self.admin_context
