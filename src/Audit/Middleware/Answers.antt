-- ===== src/Audit/Middleware/Answers.antt =====
-- audit/__init__.py: what the audit leaves of the application's answer.
use keystonemiddleware.Base.{contains, if◌then◌else◌}
use keystonemiddleware.Exec.{Exec}
use keystonemiddleware.Audit.Middleware.{Running, AuditMiddleware, process_request, with_context}

-- The request as the application gets it.
abbrev pub passed_on :
    {Event W Endpoint Resource : Type 0}
    → AuditMiddleware Endpoint Resource Event W
    → Running Event W
    → Running Event W
passed_on self s =
    if contains self.ignored_methods s.request.method
    then s
    else (process_request self (with_context self s)).1
