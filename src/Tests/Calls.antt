-- ===== src/Tests/Calls.antt =====
-- auth_token/__init__.py: a good request on its way to an application that counts its calls.
use keystonemiddleware.Base.{◌≡◌, ap, ℕ, suc, []}
use keystonemiddleware.Exec.{Exec, ok}
use keystonemiddleware.Request.{Request}
use keystonemiddleware.AuthProtocol.{Response, process_response}
use keystonemiddleware.AuthProtocol.Call.{call, run_application}
use keystonemiddleware.Tests.Fixtures.{strict_options, library, services, state_of, honest}
use keystonemiddleware.Tests.Middleware.{behind, passes}

abbrev pub served : Response
served = record { status_int = 204; response_headers = [] }

abbrev pub counting : Request → Exec ℕ Response
counting request n = (ok served, suc n)

pub called :
    call strict_options library services counting (state_of honest, 0) ≡ (ok served, (behind, 1))
unfolding call process_response
called = ap (run_application strict_options library services counting 0) passes.0
