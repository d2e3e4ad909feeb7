-- ===== src/Identity/Laws.antt =====
-- auth_token/_identity.py: what `verify_token` answers and raises, and what it asks of the server.
use keystonemiddleware.Base.{
  ◌≡◌, refl, ◌⊎◌, String, Bool, true, false, arith, inl, inr, Bool-cases, if◌then◌else◌,
}
use keystonemiddleware.Exec.{
  Exception, Result, Exec, ok, raise, invalid_token, service_error, not_found, unauthorized,
  http_error, throw, Result-cases,
}
use keystonemiddleware.Json.{Json, obj, field, end, truthy}
use keystonemiddleware.Identity.{
  Remote, IdentityOptions, IdentityServer, handled, ask, strategy_verify_token, request_strategy,
  verify_token_once, verify_token,
}

-- keystoneauth1's answers of the server, which the middleware promises to translate.
abbrev pub IsHttpError : Exception → Type 0
IsHttpError e = (e ≡ not_found) ⊎ (e ≡ unauthorized) ⊎ (e ≡ http_error)

handled-not-http :
    {W : Type 0} (again : Exec (IdentityServer W) Json) (r : Result Json × IdentityServer W)
    {e : Exception}
    → ((s : IdentityServer W) (x : Exception) → (again s).0 ≡ raise x → ¬ IsHttpError x)
    → (handled again r).0 ≡ raise e
    → ¬ IsHttpError e
unfolding handled
handled-not-http again (ok body, s) k h = absurd (ground arith)
handled-not-http again (raise unauthorized, s) k h = k s _ h
handled-not-http again (raise _, s) k h = ground arith

-- How a refusal of the server leaves the middleware.
abbrev pub refusal : Exception → Exception
refusal not_found = invalid_token
refusal http_error = service_error
refusal e = e

-- The body of an answer that holds something.
abbrev pub wrapped : Result Json → Result Json
wrapped (ok body) = if truthy body then ok (obj (field "token" body end)) else raise invalid_token
wrapped (raise e) = raise e

-- How an answer that is not asked for again leaves the middleware.
abbrev pub final : Result Json → Result Json
final (ok body) = wrapped (ok body)
final (raise unauthorized) = raise service_error
final (raise e) = raise (refusal e)

-- One question, and after an Unauthorized a second one about a token that has not expired.
abbrev after_answer : {W : Type 0} → Remote W → String → Result Json × W → Result Json × W
after_answer remote token (raise unauthorized, w) =
    let (r, w') = remote.validate token false w in (final r, w')
after_answer remote token (r, w) = (final r, w)

abbrev pub answer_of : {W : Type 0} → Remote W → String → Bool → Exec W Json
answer_of remote token allow_expired w =
    after_answer remote token (remote.validate token allow_expired w)

module _ {W : Type 0} (remote : Remote W) (options : IdentityOptions) where
  verify_token_once-not-http :
      (token : String) (allow_expired : Bool) (s : IdentityServer W) (e : Exception)
      → (verify_token_once remote options token allow_expired s).0 ≡ raise e
      → ¬ IsHttpError e
  unfolding verify_token_once
  verify_token_once-not-http token allow_expired s e h =
      handled-not-http _ (ask remote options token allow_expired s) (λ t x g. ground arith) h

  -- Whatever the server answers, verify_token raises none of keystoneauth1's NotFound, Unauthorized and
  -- other HttpErrors: a NotFound is InvalidToken, and what else is an error of the server ServiceError.
  pub verify_token-not-http :
      (token : String) (allow_expired : Bool) (s : IdentityServer W) (e : Exception)
      → (verify_token remote options token allow_expired s).0 ≡ raise e
      → ¬ IsHttpError e
  unfolding verify_token
  verify_token-not-http token allow_expired s e h =
      handled-not-http _ (ask remote options token allow_expired s)
        (verify_token_once-not-http token false) h

  ask-answer :
      (token : String) (allow_expired : Bool) (s : IdentityServer W)
      → s.strategy_built ≡ true
      → let (r, w) = remote.validate token allow_expired s.world in
        ask remote options token allow_expired s ≡ (wrapped r, record s { world = w })
  unfolding request_strategy strategy_verify_token
  ask-answer token allow_expired s built =
      elim (Result-cases (remote.validate token allow_expired s.world).0) [
        | inr (x, refused) ↦ ground arith
        | inl (body, there) ↦ ground arith
      ]

  handled-final :
      (r : Result Json) (s : IdentityServer W)
      → handled (throw service_error) (wrapped r, s) ≡ (final r, s)
  unfolding handled
  handled-final (ok body) s = elim (Bool-cases (truthy body)) [
    | inl there ↦ rw (there) refl
    | inr missing ↦ rw (missing) refl
  ]
  handled-final (raise unauthorized) s = refl
  handled-final (raise _) s = refl

  handled-answer :
      (token : String) (r : Result Json) (w : W) (s : IdentityServer W)
      → s.strategy_built ≡ true
      → handled (verify_token_once remote options token false) (wrapped r, record s { world = w })
        ≡ (let (r', w') = after_answer remote token (r, w) in (r', record s { world = w' }))
  unfolding handled verify_token_once
  handled-answer token (ok body) w s built = elim (Bool-cases (truthy body)) [
    | inl there ↦ rw (there) refl
    | inr missing ↦ rw (missing) refl
  ]
  handled-answer token (raise unauthorized) w s built =
      rw (ask-answer token false (record s { world = w }) built)
        (handled-final (remote.validate token false w).0 _)
  handled-answer token (raise _) w s built = refl

  -- Once the strategy is built, verify_token answers by what the server says of the token: with the data
  -- under "token", or InvalidToken where there is none; a NotFound becomes InvalidToken, another
  -- HttpError ServiceError, and every other exception is as it is. After an Unauthorized it asks once
  -- more, and then never for an expired token, whatever allow_expired said; a second Unauthorized is a
  -- ServiceError.
  pub verify_token_lem :
      (token : String) (allow_expired : Bool) (s : IdentityServer W)
      → s.strategy_built ≡ true
      → verify_token remote options token allow_expired s
        ≡ (let (r, w) = answer_of remote token allow_expired s.world in (r, record s { world = w }))
  unfolding verify_token
  verify_token_lem token allow_expired s built =
      let (r, w) = remote.validate token allow_expired s.world in
      rw (ask-answer token allow_expired s built) (handled-answer token r w s built)
