-- ===== src/Protocol/Process/Confirmed.antt =====
-- auth_token/__init__.py: what a request has shown when BaseAuthProtocol's `process_request` marks its
-- user token as valid.
use keystonemiddleware.Base.{
  ◌≡◌, refl, sym, ap, ◌∙◌, Bool, true, false, Option, some, lookup-insert, arith,
}
use keystonemiddleware.Exec.{ok, continue-eq-ok}
use keystonemiddleware.Json.{Json}
use keystonemiddleware.Access.{AccessInfo}
use keystonemiddleware.Request.{
  Request, user_token, is_given, user_token_valid, set_user_token_valid, set_service_token_valid,
}
use keystonemiddleware.Protocol.Process.{
  Policy, Methods, State, process_service_token, process_user_token, accept_user, attach_plugin,
  process_request,
}
use keystonemiddleware.Protocol.Process.Service
use keystonemiddleware.Protocol.Process.Service.{ServiceEnd, process_service_token-ServiceEnd}
use keystonemiddleware.Protocol.Process.User.{
  IsUser, UserEnd, refused, skipped, accepted, process_user_token-UserEnd,
}

pub user_token_valid-set_self :
    (b : Bool) (r : Request) → user_token_valid (set_user_token_valid b r) ≡ ok b
unfolding user_token_valid set_user_token_valid
user_token_valid-set_self true r = simp lookup-insert
user_token_valid-set_self false r = simp lookup-insert

module _ {R : Type 0} (p : Policy) (m : Methods R) where
  -- A run that does not raise: the service token's block, the user token's, and the plugin.
  pub record IsRun (s s' : State R) : Type 0 where
    pub between : State R
    pub behind : State R
    pub service : Option AccessInfo
    pub allow_expired : Bool
    pub user : Option AccessInfo
    pub service_end : ServiceEnd p m s between service allow_expired
    pub user_end : UserEnd p m between behind allow_expired user
    pub result : s' ≡ (attach_plugin p m user service behind).1

  pub process_request-IsRun : (s s' : State R) → process_request p m s ≡ (ok tt, s') → IsRun s s'
  unfolding process_request
  process_request-IsRun s s' e =
      let (found, between, first, rest) = continue-eq-ok (process_service_token p m s) _ e in
      let (user, behind, second, last) =
        continue-eq-ok (process_user_token p m found.1 between) _ rest in
      record {
        between = between;
        behind = behind;
        service = found.0;
        allow_expired = found.1;
        user = user;
        service_end = process_service_token-ServiceEnd p m s between first;
        user_end = process_user_token-UserEnd p m between behind found.1 second;
        result = sym (ap (λ r. r.1) last);
      }

  pub user_token_valid-result :
      (s s' : State R) (run : IsRun s s')
      → user_token_valid s'.request ≡ user_token_valid run.behind.request
  unfolding user_token_valid
  user_token_valid-result s s' run = rw (run.result) refl

  user_token-set_service :
      (b : Bool) (r : Request) → user_token (set_service_token_valid b r) ≡ user_token r
  unfolding user_token set_service_token_valid
  user_token-set_service b r = simp lookup-insert

  -- The service token's block leaves the user's token alone.
  pub user_token-between :
      (s between : State R) {found : Option AccessInfo} {allow_expired : Bool}
      → ServiceEnd p m s between found allow_expired
      → user_token between.request ≡ user_token s.request
  user_token-between s between (Service.ServiceEnd.skipped _ same _) =
      ap (λ t. user_token t.request) same
  user_token-between s between (Service.ServiceEnd.refused _ same _) =
      ap user_token same ∙ user_token-set_service false s.request
  user_token-between s between (Service.ServiceEnd.accepted _ _ same _ _) =
      ap user_token same ∙ user_token-set_service _ s.request

  -- The user's token was fetched and passed every check, once the service token's block was left.
  pub record IsAuthenticated (s s' : State R) : Type 0 where
    pub between : State R
    pub service : Option AccessInfo
    pub allow_expired : Bool
    pub service_end : ServiceEnd p m s between service allow_expired
    pub body : Json
    pub ref : AccessInfo
    pub is_user : IsUser p m between allow_expired body ref
    pub plugin :
        s'.request.token_auth
        ≡ some (record { user = some ref; service = service; has_session = false })
    pub info : s'.request.token_info ≡ some body

  accepted-IsAuthenticated :
      (s s' : State R) (run : IsRun s s') {body : Json} {ref : AccessInfo}
      → IsUser p m run.between run.allow_expired body ref
      → run.behind.request ≡ (accept_user p m run.between body).request
      → run.user ≡ some ref
      → IsAuthenticated s s'
  unfolding accept_user
  accepted-IsAuthenticated s s' run {body} {ref} is_user after found = record {
    between = run.between;
    service = run.service;
    allow_expired = run.allow_expired;
    service_end = run.service_end;
    body = body;
    ref = ref;
    is_user = is_user;
    plugin =
        ap (λ t. t.request.token_auth) run.result
        ∙ ap (λ u. some (record { user = u; service = run.service; has_session = false })) found;
    info = ap (λ t. t.request.token_info) run.result ∙ ap (λ r. r.token_info) after;
  }

-- If process_request does not raise, a user token came along and X-Identity-Status is then Confirmed,
-- the token was fetched and described by an AccessInfo, it passed _validate_token (where only the
-- service token's block may have allowed an expired one), its access rules allow the request, and its
-- binding holds or a service token came along; the plugin and the token information are that token's.
pub process_request-IsAuthenticated :
    {R : Type 0} (p : Policy) (m : Methods R) (s s' : State R)
    → process_request p m s ≡ (ok tt, s')
    → is_given (user_token s.request) ≡ true
    → user_token_valid s'.request ≡ ok true
    → IsAuthenticated p m s s'
process_request-IsAuthenticated p m s s' e given confirmed =
    let run = process_request-IsRun p m s s' e in by_end run run.user_end
  where
    by_end :
        (run : IsRun p m s s')
        → UserEnd p m run.between run.behind run.allow_expired run.user
        → IsAuthenticated p m s s'
    by_end run (skipped missing _ _) =
        absurd (ground (arith, user_token-between p m s run.between run.service_end))
    by_end run (refused _ after) = absurd (
        ground (
          arith,
          user_token_valid-result p m s s' run,
          user_token_valid-set_self false run.between.request,
        ))
    by_end run (accepted is_user after found) =
        accepted-IsAuthenticated p m s s' run is_user after found
