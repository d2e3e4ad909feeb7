-- ===== src/Audit/Maps.antt =====
-- audit/_api.py: how OpenStackAuditApi reads its map file (__init__).
use keystonemiddleware.Base.{String, Option, none, some, [], ◌∷◌, Dict, lookup, insert}
use keystonemiddleware.Exec.{Exception, Result, ok, raise, parsing_error, audit_config_error}
use keystonemiddleware.Audit.{AuditMap}

-- What configparser holds of a file: the entries of DEFAULT, and the other sections. Values stand
-- here without `%` interpolation.
pub record ConfigFile : Type 0 where
  pub defaults : Dict String
  pub sections : Dict (Dict String)

-- A section's own entries over those of DEFAULT.
unfoldable pub over : Dict String → Dict String → Dict String
over defaults [] = defaults
over defaults ((k, v) ∷ own) = over (insert k v defaults) own

-- `dict(map_conf.items(section))`, and {} where that raises NoSectionError
unfoldable pub section_items : ConfigFile → String → Dict String
unfolding over
section_items file section = elim (lookup section file.sections) [
  | none ↦ []
  | some own ↦ over file.defaults own
]

abbrev map_of : ConfigFile → AuditMap
map_of file = record {
  path_kw = section_items file "path_keywords";
  custom_actions = section_items file "custom_actions";
  service_endpoints = section_items file "service_endpoints";
  default_target_endpoint_type = lookup "target_endpoint_type" file.defaults;
}

abbrev no_map : AuditMap
no_map = record {
  path_kw = [];
  custom_actions = [];
  service_endpoints = [];
  default_target_endpoint_type = none;
}

abbrev as_config_error : Exception → Exception
as_config_error parsing_error = audit_config_error
as_config_error e = e

abbrev read_file : Result ConfigFile → Result AuditMap
read_file (ok file) = ok (map_of file)
read_file (raise e) = raise (as_config_error e)

-- The map, by what reading the file gives where one is named.
unfoldable pub read_map : Option (Result ConfigFile) → Result AuditMap
unfolding section_items
read_map none = ok no_map
read_map (some file) = read_file file
