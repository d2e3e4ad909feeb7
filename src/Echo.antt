-- ===== src/Echo.antt =====
-- echo/service.py: the application that answers what auth_token tells it.
use keystonemiddleware.Base.{String, [], ◌∷◌, Dict, starts_with, if◌then◌else◌}
use keystonemiddleware.Config.{Value, text}

-- The entries of the environ whose keys start with HTTP_X_.
unfoldable pub environment : Dict String → Dict String
environment [] = []
environment ((k, v) ∷ environ) =
    let rest = environment environ in if starts_with k "HTTP_X_" then (k, v) ∷ rest else rest

pub record EchoAnswer : Type 0 where
  pub status : String
  pub headers : Dict String
  pub body : String

-- `echo_app`, with jsonutils.dumps
unfoldable pub echo_app : (Dict String → String) → Dict String → EchoAnswer
unfolding environment
echo_app dumps environ = record {
  status = "200 OK";
  headers = ("Content-Type", "application/json") ∷ [];
  body = dumps (environment environ);
}

-- The settings of EchoService.
abbrev pub echo_conf : Dict Value
echo_conf = ("auth_protocol", text "http") ∷ ("admin_token", text "ADMIN") ∷ []
