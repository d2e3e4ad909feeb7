-- ===== src/Access.antt =====
-- keystoneauth1's AccessInfo, which `access.create` builds from the body of a token: what
-- auth_token/__init__.py, _request.py and _user_plugin.py read of it. The class is not the
-- middleware's, so `create` itself is a parameter where it is used.
use keystonemiddleware.Base.{String, Bool, Option, List, Dict}
use keystonemiddleware.Json.{Json, Fields}

pub record AccessInfo : Type 0 where
  pub version : String
  pub role_names : List String
  -- What `will_expire_soon(stale_duration=0)` answers during the request.
  pub will_expire_soon : Bool
  -- The binding types and their identifiers; empty for None.
  pub bind : Dict String
  pub domain_id : Option String
  pub domain_name : Option String
  pub project_id : Option String
  pub project_name : Option String
  pub project_domain_id : Option String
  pub project_domain_name : Option String
  pub user_id : Option String
  pub username : Option String
  pub user_domain_id : Option String
  pub user_domain_name : Option String
  pub is_admin_project : Bool
  pub system_scoped : Bool
  pub system : Fields
  pub has_service_catalog : Bool
  pub catalog : Json
