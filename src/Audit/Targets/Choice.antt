-- ===== src/Audit/Targets/Choice.antt =====
-- audit/_api.py: which service of the catalog get_target_resource takes.
use keystonemiddleware.Base.{
  ◌≡◌, refl, sym, ap, ◌∙◌, Option, none, some, List, [], ◌∷◌, map, All, or_else, or_else-none,
  or_else_assoc,
}
use keystonemiddleware.Exec.{Result, ok}
use keystonemiddleware.Json.{Json}
use keystonemiddleware.Audit.{AuditMap, AuditRequest}
use keystonemiddleware.Audit.Targets.{
  Standing, skipped, addressed, by_default, elsewhere, Pycadf, Service, standing, get_service_info,
  search_catalog, service_or_default,
}

-- The services of a catalog, each with how it stands to the request.
abbrev pub Known : Type 0
Known = List (Json × Standing)

abbrev pub services : Known → List Json
services = map (λ x. x.0)

abbrev pub first_addressed : Known → Option Json
first_addressed [] = none
first_addressed ((endp, addressed) ∷ known) = some endp
first_addressed ((endp, _) ∷ known) = first_addressed known

abbrev pub last_default : Known → Option Json
last_default [] = none
last_default ((endp, by_default) ∷ known) = or_else (last_default known) (some endp)
last_default ((endp, _) ∷ known) = last_default known

module _ {Endpoint Resource : Type 0} (pycadf : Pycadf Endpoint Resource) (map : AuditMap)
    (req : AuditRequest) where
  abbrev Stands : Json × Standing → Type 0
  Stands (endp, s) = standing map req endp ≡ ok s

  abbrev chosen : Option Json → Option Json → Result (Service Endpoint)
  chosen none default = service_or_default pycadf map default
  chosen (some endp) default = get_service_info pycadf map endp

  search_from :
      (known : Known) (default : Option Json)
      → All Stands known
      → search_catalog pycadf map req default (services known)
        ≡ chosen (first_addressed known) (or_else (last_default known) default)
  unfolding search_catalog
  search_from [] default stands = refl
  search_from ((endp, skipped) ∷ known) default (here, stands) =
      rw (here) (search_from known default stands)
  search_from ((endp, addressed) ∷ known) default (here, stands) = rw (here) refl
  search_from ((endp, by_default) ∷ known) default (here, stands) = rw (here) (
      search_from known (some endp) stands
      ∙ ap (chosen (first_addressed known))
          (sym (or_else_assoc (last_default known) (some endp) default)))
  search_from ((endp, elsewhere) ∷ known) default (here, stands) =
      rw (here) (search_from known default stands)

  -- The first service that the request addresses is taken, and where there is none the last one of
  -- the default type, and where there is none either the unknown one.
  pub search_catalog_lem :
      (known : Known)
      → All Stands known
      → search_catalog pycadf map req none (services known)
        ≡ chosen (first_addressed known) (last_default known)
  search_catalog_lem known stands =
      search_from known none stands
      ∙ ap (chosen (first_addressed known)) (or_else-none (last_default known))
