-- ===== src/Protocol/Rules/Laws.antt =====
-- auth_token/__init__.py: what a request has shown when `validate_allowed_request` lets it through.
use keystonemiddleware.Base.{
  ◌≡◌, refl, ◌∙◌, ap, ◌≢◌, ◌⊎◌, inl, inr, String, Bool, true, false, Option, none, some, List, [],
  ◌∷◌, Any, here, there, arith, eq_iff, Bool-cases, ends_with, if◌then◌else◌,
}
use keystonemiddleware.Exec.{Result, ok, then_result, then_result-eq-ok}
use keystonemiddleware.Json.{Json, null, str, truthy, get, index, iterate, is_text}
use keystonemiddleware.Request.{Request, service_token, is_given}
use keystonemiddleware.Protocol.PathRules.{path_matches}
use keystonemiddleware.Protocol.Rules.{
  offers, is_null, validates_token, path_rule, rule_matches, match_rules, check_restricted,
  check_service_type, validate_allowed_request,
}

is_text_iff : (v : Json) (s : String) → is_text v s ≡ true → v ≡ str s
unfolding is_text
is_text_iff (str t) s e = ground (arith, eq_iff t s)
is_text_iff _ s e = ground arith

-- A service of the catalog has the type.
abbrev pub HasType : String → Json → Type 0
HasType my_service_type s = index s "type" ≡ ok (str my_service_type)

offers-HasType :
    (my : String) (services : List Json) → offers my services ≡ ok true → Any (HasType my) services
unfolding offers
offers-HasType my [] e = absurd (ground arith)
offers-HasType my (s ∷ services) e =
    let (type, found, e') = then_result-eq-ok (index s "type") _ e in
    let (more, later, e'') = then_result-eq-ok (offers my services) _ e' in
    elim (Bool-cases (is_text type my)) [
      | inl same ↦ here (found ∙ ap ok (is_text_iff type my same))
      | inr other ↦ there (offers-HasType my services (ground arith))
    ]

module _ (re_match : String → String → Result Bool) (my : String) (req : Request) where
  -- The rule names the request's method and the service's type, and its path pattern matches.
  pub record RuleAllows (rule : Json) : Type 0 where
    pub pattern : String
    pub method : index rule "method" ≡ ok (str req.method)
    pub service : index rule "service" ≡ ok (str my)
    pub path : index rule "path" ≡ ok (str pattern)
    pub matched : path_matches re_match req.path pattern ≡ ok true

  path_rule-matches :
      (path : Json)
      → path_rule re_match req path ≡ ok true
      → (pattern : String) × (path ≡ str pattern)
        × (path_matches re_match req.path pattern ≡ ok true)
  unfolding path_rule
  path_rule-matches (str pattern) e = (pattern, refl, e)
  path_rule-matches _ e = ground arith

  rule_matches-RuleAllows :
      (rule : Json) → rule_matches re_match my req rule ≡ ok true → RuleAllows rule
  unfolding rule_matches
  rule_matches-RuleAllows rule e =
      let (method, has_method, e₁) = then_result-eq-ok (index rule "method") _ e in
      let (path, has_path, e₂) = then_result-eq-ok (index rule "path") _ e₁ in
      let (service, has_service, e₃) = then_result-eq-ok (index rule "service") _ e₂ in
      let (pattern, same_path, matched) = path_rule-matches path (ground arith) in
      record {
        pattern = pattern;
        method = has_method ∙ ap ok (is_text_iff method req.method (ground arith));
        service = has_service ∙ ap ok (is_text_iff service my (ground arith));
        path = has_path ∙ ap ok same_path;
        matched = matched;
      }

  match_rules-RuleAllows :
      (rules : List Json) → match_rules re_match my req rules ≡ ok tt → Any RuleAllows rules
  unfolding match_rules
  match_rules-RuleAllows [] e = absurd (ground arith)
  match_rules-RuleAllows (rule ∷ rules) e =
      let (found, matched, e') = then_result-eq-ok (rule_matches re_match my req rule) _ e in
      elim (Bool-cases found) [
        | inl hit ↦ here (rule_matches-RuleAllows rule (matched ∙ ap ok hit))
        | inr miss ↦ there (match_rules-RuleAllows rules (ground arith))
      ]

  -- The token's catalog lists the service, and a rule allows the request or a service token came
  -- along with it.
  pub record RestrictedAllows (token access_rules : Json) : Type 0 where
    pub catalog : Json
    pub services : List Json
    pub has_catalog : index token "catalog" ≡ ok catalog
    pub has_services : iterate catalog ≡ ok services
    pub listed : Any (HasType my) services
    pub chained_or_allowed :
        (is_given (service_token req) ≡ true)
        ⊎ ((rules : List Json) × (iterate access_rules ≡ ok rules) × Any RuleAllows rules)

  check_restricted-RestrictedAllows :
      (token access_rules : Json)
      → check_restricted re_match my req token access_rules ≡ ok tt
      → RestrictedAllows token access_rules
  unfolding check_restricted
  check_restricted-RestrictedAllows token access_rules e =
      let (catalog, has_catalog, e₁) = then_result-eq-ok (index token "catalog") _ e in
      let (services, has_services, e₂) = then_result-eq-ok (iterate catalog) _ e₁ in
      let (listed, has_listed, e₃) = then_result-eq-ok (offers my services) _ e₂ in
      let on_list : listed ≡ true = ground arith in
      record {
        catalog = catalog;
        services = services;
        has_catalog = has_catalog;
        has_services = has_services;
        listed = offers-HasType my services (has_listed ∙ ap ok on_list);
        chained_or_allowed = elim (Bool-cases (is_given (service_token req))) [
          | inl chained ↦ inl chained
          | inr alone ↦
              let (rules, has_rules, checked) =
                then_result-eq-ok (iterate access_rules) (match_rules re_match my req)
                  (ground arith) in
              inr (rules, has_rules, match_rules-RuleAllows rules checked)
        ];
      }

-- Why a request may go on with its token.
pub data IsAllowed (re_match : String → String → Result Bool)
    (service_type : Result (Option String)) (req : Request) (token : Json) : Type 0 where
  -- no application credential stands behind the token
  unrestricted :
      {app_cred : Json}
      → get token "application_credential" ≡ ok app_cred
      → truthy app_cred ≡ false
      → IsAllowed re_match service_type req token
  -- the application credential has no access rules
  no_rules :
      {app_cred : Json}
      → get token "application_credential" ≡ ok app_cred
      → get app_cred "access_rules" ≡ ok null
      → IsAllowed re_match service_type req token
  -- the identity service is asked to validate a token
  validation :
      service_type ≡ ok (some "identity")
      → req.method ≡ "GET"
      → ends_with req.path "/v3/auth/tokens" ≡ true
      → IsAllowed re_match service_type req token
  -- the rules, the catalog and the service token allow it
  by_rules :
      {app_cred access_rules : Json} {my : String}
      → get token "application_credential" ≡ ok app_cred
      → get app_cred "access_rules" ≡ ok access_rules
      → service_type ≡ ok (some my)
      → my ≢ ""
      → RestrictedAllows re_match my req token access_rules
      → IsAllowed re_match service_type req token

module _ (re_match : String → String → Result Bool) (req : Request) (token : Json) where
  check_service_type-IsAllowed :
      (my_service_type : Option String) (app_cred access_rules : Json)
      → get token "application_credential" ≡ ok app_cred
      → get app_cred "access_rules" ≡ ok access_rules
      → check_service_type re_match my_service_type req token access_rules ≡ ok tt
      → IsAllowed re_match (ok my_service_type) req token
  unfolding check_service_type validates_token
  check_service_type-IsAllowed none app_cred access_rules has_cred has_rules e =
      absurd (ground arith)
  check_service_type-IsAllowed (some my) app_cred access_rules has_cred has_rules e =
      elim (Bool-cases (validates_token my req)) [
        | inl yes_it ↦
            validation (ap (λ t. ok (some t)) ((eq_iff my "identity").0 (ground arith)))
              (ground (arith, eq_iff my "identity", eq_iff req.method "GET")) (ground arith)
        | inr other ↦
            by_rules has_cred has_rules refl (ground (arith, eq_iff my ""))
              (check_restricted-RestrictedAllows re_match my req token access_rules (ground arith))
      ]

  is_null_iff : (v : Json) → is_null v ≡ true → v ≡ null
  is_null_iff null e = refl
  is_null_iff _ e = ground arith

  check_app_cred-IsAllowed :
      (service_type : Result (Option String)) (app_cred : Json)
      → get token "application_credential" ≡ ok app_cred
      → truthy app_cred ≡ true
      → then_result (get app_cred "access_rules") (λ rules.
        if is_null rules
        then ok tt
        else then_result service_type (λ my. check_service_type re_match my req token rules))
        ≡ ok tt
      → IsAllowed re_match service_type req token
  check_app_cred-IsAllowed service_type app_cred has_cred restricted e =
      let (rules, has_rules, checked) = then_result-eq-ok (get app_cred "access_rules") _ e in
      elim (Bool-cases (is_null rules)) [
        | inl none_there ↦ no_rules has_cred (has_rules ∙ ap ok (is_null_iff rules none_there))
        | inr some_there ↦
            let (my, is_my, checked') =
              then_result-eq-ok service_type (λ my. check_service_type re_match my req token rules)
                (rw (some_there) at checked) in
            rw (is_my) (check_service_type-IsAllowed my app_cred rules has_cred has_rules checked')
      ]

-- A request that validate_allowed_request lets through has a token without access rules; or the
-- service type is configured, and the request validates a token at the identity service, or the
-- token's catalog lists the service and either a service token came along or some access rule names
-- the request's method, the service and a path pattern that matches.
pub validate_allowed_request-IsAllowed :
    (re_match : String → String → Result Bool) (service_type : Result (Option String))
    (req : Request) (token : Json)
    → validate_allowed_request re_match service_type req token ≡ ok tt
    → IsAllowed re_match service_type req token
unfolding validate_allowed_request
validate_allowed_request-IsAllowed re_match service_type req token e =
    let (app_cred, has_cred, e') = then_result-eq-ok (get token "application_credential") _ e in
    elim (Bool-cases (truthy app_cred)) [
      | inr plain ↦ unrestricted has_cred plain
      | inl restricted ↦
          check_app_cred-IsAllowed re_match req token service_type app_cred has_cred restricted
            (rw (restricted) at e')
    ]
