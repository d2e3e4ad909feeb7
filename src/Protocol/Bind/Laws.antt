-- ===== src/Protocol/Bind/Laws.antt =====
-- auth_token/__init__.py: when `_confirm_token_bind` accepts a token.
use keystonemiddleware.Base.{
  ◌≡◌, refl, ◌≢◌, ◌↔◌, ◌⊎◌, String, true, false, Option, none, some, [], ◌∷◌, Dict, All, arith,
  eq_iff,
}
use keystonemiddleware.Exec.{ok}
use keystonemiddleware.Request.{Request, auth_type, text_is}
use keystonemiddleware.Protocol.Bind.{
  disabled, permissive, strict, required, kerberos, has_bind, check_bind, check_binds,
  confirm_token_bind,
}

-- What a binding asks of the request: a Kerberos one the negotiated user with its identifier, and any
-- other one the permissive mode.
abbrev pub BindHolds : String → Request → String × String → Type 0
BindHolds mode req (bind_type, identifier) =
    ((bind_type ≡ kerberos)
      × (auth_type req ≡ some "negotiate")
      × (req.remote_user ≡ some identifier))
    ⊎ ((bind_type ≢ kerberos) × (mode ≡ permissive))

text_is_iff : (o : Option String) (s : String) → (text_is o s ≡ true) ↔ (o ≡ some s)
text_is_iff none s = ground arith
text_is_iff (some t) s = ground (arith, eq_iff t s)

check_bind_iff :
    (mode : String) (req : Request) (b : String × String)
    → (check_bind mode req b.0 b.1 ≡ ok tt) ↔ BindHolds mode req b
unfolding check_bind
check_bind_iff mode req (bind_type, identifier) = ground (
  arith,
  eq_iff bind_type kerberos,
  eq_iff mode permissive,
  text_is_iff (auth_type req) "negotiate",
  text_is_iff req.remote_user identifier,
)

check_binds_iff :
    (mode : String) (req : Request) (bind : Dict String)
    → (check_binds mode req bind ≡ ok tt) ↔ All (BindHolds mode req) bind
unfolding check_binds
check_binds_iff mode req [] = (λ _. tt, λ _. refl)
check_binds_iff mode req ((k, v) ∷ bind) =
    ground (arith, check_bind_iff mode req (k, v), check_binds_iff mode req bind)

-- The mode names a binding type, and the token has no binding of that type.
abbrev pub NamesMissing : String → Dict String → Type 0
NamesMissing mode bind =
    (mode ≢ permissive)
    × (mode ≢ strict)
    × (mode ≢ required)
    × (mode ≢ "")
    × (has_bind mode bind ≡ false)

-- _confirm_token_bind accepts exactly when the mode is disabled; or the token has no binding and the
-- mode is permissive or strict; or the token has bindings, among them one of the type that the mode
-- names if it names one, and each binding holds: a Kerberos one by the negotiated user, another one
-- by the permissive mode alone.
pub confirm_token_bind_iff :
    (mode : String) (bind : Dict String) (req : Request)
    → (confirm_token_bind mode bind req ≡ ok tt) ↔ (
        (mode ≡ disabled)
        ⊎ ((bind ≡ []) × ((mode ≡ permissive) ⊎ (mode ≡ strict)))
        ⊎ ((bind ≢ []) × (¬ NamesMissing mode bind) × All (BindHolds mode req) bind))
unfolding confirm_token_bind
confirm_token_bind_iff mode [] req =
    ground (arith, eq_iff mode disabled, eq_iff mode permissive, eq_iff mode strict)
confirm_token_bind_iff mode (b ∷ bind) req = ground (
  arith,
  eq_iff mode disabled,
  eq_iff mode permissive,
  eq_iff mode strict,
  eq_iff mode required,
  eq_iff mode "",
  check_binds_iff mode req (b ∷ bind),
)
