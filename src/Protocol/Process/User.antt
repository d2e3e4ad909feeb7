-- ===== src/Protocol/Process/User.antt =====
-- auth_token/__init__.py: how `process_request` ends with the user's token.
use keystonemiddleware.Base.{
  ◌≡◌, refl, String, Bool, true, false, Option, none, some, ◌==◌, arith, eq_iff, Bool-cases,
  Option-cases, ◌⊎◌, inl, inr,
}
use keystonemiddleware.Exec.{ok, raise, then_result-eq-ok}
use keystonemiddleware.Json.{Json, index}
use keystonemiddleware.Access.{AccessInfo}
use keystonemiddleware.Request.{Request, user_token, service_token, is_given, set_user_token_valid}
use keystonemiddleware.Protocol.Bind.{confirm_token_bind}
use keystonemiddleware.Protocol.Rules.Laws.{IsAllowed, validate_allowed_request-IsAllowed}
use keystonemiddleware.Protocol.Process.{
  Policy, Methods, State, Attempt, not_fetched, fetched, attempt, check_rules, check_user,
  fail_user, accept_user, end_user, process_user_token,
}
use keystonemiddleware.Protocol.Process.Service.{IsFetched, attempt-fetched}

module _ {R : Type 0} (p : Policy) (m : Methods R) where
  -- The access rules of the token's application credential allow the request; a v2.0 token has none.
  abbrev pub RulesAllow : Request → Json → AccessInfo → Type 0
  RulesAllow req body ref =
      (ref.version ≡ "v2.0")
      ⊎ ((token : Json) × (index body "token" ≡ ok token)
          × IsAllowed m.re_match p.service_type req token)

  check_rules-RulesAllow :
      (req : Request) (body : Json) (ref : AccessInfo) {u : Unit {0}}
      → check_rules p m req body ref ≡ ok u
      → RulesAllow req body ref
  check_rules-RulesAllow req body ref e = elim (Bool-cases (ref.version == "v2.0")) [
    | inl old ↦ inl ((eq_iff _ _).0 old)
    | inr new ↦
        let (token, there, allowed) = then_result-eq-ok (index body "token") _ (rw (new) at e) in
        inr (
          token,
          there,
          validate_allowed_request-IsAllowed m.re_match p.service_type req token allowed,
        )
  ]

  -- The request's user token was fetched and passed every check.
  pub record IsUser (s : State R) (allow_expired : Bool) (body : Json) (ref : AccessInfo)
      : Type 0 where
    pub token : String
    pub given : user_token s.request ≡ some token
    pub store' : R
    pub is_fetched : IsFetched m token allow_expired s.store store' body ref
    pub valid : m.validate_token ref allow_expired ≡ ok tt
    pub allowed : RulesAllow s.request body ref
    pub bound :
        (is_given (service_token s.request) ≡ true)
        ⊎ (confirm_token_bind p.enforce_token_bind ref.bind s.request ≡ ok tt)

  -- How the user token's block ends if it does not raise.
  pub data UserEnd (s s' : State R) (allow_expired : Bool) (found : Option AccessInfo)
      : Type 0 where
    skipped :
        is_given (user_token s.request) ≡ false
        → s' ≡ s
        → found ≡ none
        → UserEnd s s' allow_expired found
    refused :
        is_given (user_token s.request) ≡ true
        → s'.request ≡ set_user_token_valid false s.request
        → UserEnd s s' allow_expired found
    accepted :
        {body : Json} {ref : AccessInfo}
        → IsUser s allow_expired body ref
        → s'.request ≡ (accept_user p m s body).request
        → found ≡ some ref
        → UserEnd s s' allow_expired found

  check_user-ok :
      (allow_expired : Bool) (req : Request) (body : Json) (ref : AccessInfo) {u : Unit {0}}
      → check_user p m allow_expired req body ref ≡ ok u
      → (m.validate_token ref allow_expired ≡ ok tt)
        × RulesAllow req body ref
        × ((is_given (service_token req) ≡ true)
            ⊎ (confirm_token_bind p.enforce_token_bind ref.bind req ≡ ok tt))
  unfolding check_user
  check_user-ok allow_expired req body ref e =
      let (_, valid, rest) = then_result-eq-ok (m.validate_token ref allow_expired) _ e in
      let (_, rules, bound) = then_result-eq-ok (check_rules p m req body ref) _ rest in
      (
        valid,
        check_rules-RulesAllow req body ref rules,
        elim (Bool-cases (is_given (service_token req))) [
          | inl chained ↦ inl chained
          | inr alone ↦ inr (rw (alone) at bound)
        ],
      )

  end_user-UserEnd :
      (s s' : State R) (allow_expired : Bool) (token : String) (a : Attempt) (store' : R)
      {found : Option AccessInfo}
      → user_token s.request ≡ some token
      → (token == "") ≡ false
      → attempt m token allow_expired (check_user p m allow_expired s.request) s.store ≡ (a, store')
      → end_user p m (record s { store = store' }) a ≡ (ok found, s')
      → UserEnd s s' allow_expired found
  unfolding end_user fail_user
  end_user-UserEnd s s' allow_expired token (not_fetched x) store' given nonempty e h =
      refused (ground arith) (ground arith)
  end_user-UserEnd s s' allow_expired token (fetched body ref (raise x)) store' given nonempty e h =
      refused (ground arith) (ground arith)
  end_user-UserEnd s s' allow_expired token (fetched body ref (ok u)) store' given nonempty e h =
      let (is_fetched, checks) = attempt-fetched m token allow_expired _ s.store e in
      let (valid, allowed, bound) = check_user-ok allow_expired s.request body ref checks in
      accepted
        (record {
          token = token;
          given = given;
          store' = store';
          is_fetched = is_fetched;
          valid = valid;
          allowed = allowed;
          bound = bound;
        })
        (ground arith) (ground arith)

  pub process_user_token-UserEnd :
      (s s' : State R) (allow_expired : Bool) {found : Option AccessInfo}
      → process_user_token p m allow_expired s ≡ (ok found, s')
      → UserEnd s s' allow_expired found
  unfolding process_user_token
  process_user_token-UserEnd s s' allow_expired h = elim (Option-cases (user_token s.request)) [
    | inl no_token ↦ skipped (ground arith) (ground arith) (ground arith)
    | inr (token, given) ↦ elim (Bool-cases (token == "")) [
      | inl empty ↦ skipped (ground arith) (ground arith) (ground arith)
      | inr nonempty ↦
          end_user-UserEnd s s' allow_expired token _ _ given nonempty refl
            (rw (nonempty) at (rw (given, process_user_token) at h))
    ]
  ]
