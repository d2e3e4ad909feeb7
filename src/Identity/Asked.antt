-- ===== src/Identity/Asked.antt =====
-- auth_token/_identity.py: how often `verify_token` asks the identity server.
use keystonemiddleware.Base.{◌≡◌, ℕ, suc, ◌+◌, ◌≤◌, String, Bool, false, arith}
use keystonemiddleware.Exec.{Exec, Result, ok, raise, throw, unauthorized, service_error}
use keystonemiddleware.Json.{Json}
use keystonemiddleware.Identity.{
  Remote, IdentityOptions, IdentityServer, handled, ask, request_strategy, get_strategy_class,
  strategy_verify_token, verify_token_once, verify_token,
}

-- The same server, with a count of the questions about tokens.
abbrev pub counted : {W : Type 0} → Remote W → Remote (W × ℕ)
counted remote = record {
  validate = λ token allow_expired (w, n).
      let (r, after) = remote.validate token allow_expired w in (r, (after, suc n));
  has_endpoint =
      λ version (w, n). let (r, after) = remote.has_endpoint version w in (r, (after, n));
  invalidate_auth = λ (w, n). (remote.invalidate_auth w, n);
  version_match = remote.version_match;
}

module _ {W : Type 0} (remote : Remote W) (options : IdentityOptions) where
  request_strategy-count :
      (s : IdentityServer (W × ℕ))
      → (request_strategy (counted remote) options s).1.world.1 ≡ s.world.1
  unfolding request_strategy get_strategy_class
  request_strategy-count s = ground arith

  ask-count :
      (token : String) (allow_expired : Bool) (s : IdentityServer (W × ℕ))
      → (ask (counted remote) options token allow_expired s).1.world.1 ≤ s.world.1 + 1
  unfolding strategy_verify_token
  ask-count token allow_expired s = ground (arith, request_strategy-count s)

  handled-count :
      (again : Exec (IdentityServer (W × ℕ)) Json) (x : Result Json × IdentityServer (W × ℕ))
      (n : ℕ)
      → ((s : IdentityServer (W × ℕ)) → (again s).1.world.1 ≤ s.world.1 + n)
      → (handled again x).1.world.1 ≤ x.1.world.1 + n
  unfolding handled
  handled-count again (ok body, s) n more = ground arith
  handled-count again (raise unauthorized, s) n more = more s
  handled-count again (raise _, s) n more = ground arith

  verify_token_once-count :
      (token : String) (allow_expired : Bool) (s : IdentityServer (W × ℕ))
      → (verify_token_once (counted remote) options token allow_expired s).1.world.1 ≤ s.world.1 + 1
  unfolding verify_token_once
  verify_token_once-count token allow_expired s = ground (
    arith,
    ask-count token allow_expired s,
    handled-count (throw service_error) (ask (counted remote) options token allow_expired s) 0
        (λ t. omega arith),
  )

  -- verify_token asks the identity server about a token at most twice, whatever it answers.
  pub verify_token-count :
      (token : String) (allow_expired : Bool) (s : IdentityServer (W × ℕ))
      → (verify_token (counted remote) options token allow_expired s).1.world.1 ≤ s.world.1 + 2
  unfolding verify_token
  verify_token-count token allow_expired s = ground (
    arith,
    ask-count token allow_expired s,
    handled-count (verify_token_once (counted remote) options token false)
        (ask (counted remote) options token allow_expired s) 1
        (verify_token_once-count token false),
  )
