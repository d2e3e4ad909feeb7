-- ===== src/AuthProtocol/Filter/Enforced.antt =====
-- auth_token/__init__.py: from the settings of a paste file to the decision on a request.
use keystonemiddleware.Base.{
  ◌≡◌, refl, sym, ap, ◌∙◌, ◌⊎◌, Bool, false, Option, none, some, List, Dict,
}
use keystonemiddleware.Exec.{
  Exception, Result, Exec, ok, raise, ok-injective, continue-eq-ok, read-eq-ok, then_result-eq-ok,
}
use keystonemiddleware.Request.{Request}
use keystonemiddleware.Protocol.Process.{State}
use keystonemiddleware.Config.{Value, Opt, OsloConf, Config, ConfigLibrary, is_true, get, config}
use keystonemiddleware.Config.Owners.{options_of}
use keystonemiddleware.Config.Settings.{last_setting, own_settings, get-config}
use keystonemiddleware.AuthOpts.{authtoken_group, list_opts}
use keystonemiddleware.AuthProtocol.{Services, Library, Response}
use keystonemiddleware.AuthProtocol.Call.{call, IsServed, call-IsServed}
use keystonemiddleware.AuthProtocol.Setup.{
  SetupLibrary, AuthProtocol, auth_protocol, read_policy, TokenSettings, prepare_protocol,
  create_auth_plugin, create_session, create_identity_server, configured_uri, as_text, as_roles,
  ◌>>=◌, challenge_uri, token_cache_factory,
}
use keystonemiddleware.AuthProtocol.Filter.{merged, from_paste, filter_factory}

module _ {A W : Type 0} (config_library : ConfigLibrary) (lib : SetupLibrary A W) where
  read_policy-delay :
      (conf : Config) (d : Value) (p : TokenSettings config_library lib × Bool × Bool × Value)
      → get conf "delay_auth_decision" none ≡ ok d
      → read_policy config_library lib conf ≡ ok p
      → p.1 ≡ is_true d
  unfolding read_policy
  read_policy-delay conf d p set e =
      let (_, _, e₁) = then_result-eq-ok (get conf "service_token_roles_required" none) _ e in
      let (_, _, e₂) = then_result-eq-ok (get conf "enforce_token_bind" none >>= as_text) _ e₁ in
      let (_, _, e₃) = then_result-eq-ok (get conf "service_token_roles" none >>= as_roles) _ e₂ in
      let (d', set', e₄) = then_result-eq-ok (get conf "delay_auth_decision" none) _ e₃ in
      let (_, _, e₅) = then_result-eq-ok (get conf "include_service_catalog" none) _ e₄ in
      let (_, _, e₆) = then_result-eq-ok (get conf "interface" none) _ e₅ in
      ap (λ p. p.1) (sym (ok-injective e₆)) ∙ ap is_true (ok-injective (sym set' ∙ set))

  prepare_protocol-delay :
      (conf : Config) (d : Value) (p : _)
      → get conf "delay_auth_decision" none ≡ ok d
      → prepare_protocol config_library lib conf ≡ ok p
      → p.0.1 ≡ is_true d
  unfolding prepare_protocol
  prepare_protocol-delay conf d p set e =
      let (policy, read, e₁) = then_result-eq-ok (read_policy config_library lib conf) _ e in
      let (auth, _, e₂) = then_result-eq-ok (create_auth_plugin config_library lib conf) _ e₁ in
      let (session, _, e₃) = then_result-eq-ok (create_session config_library lib auth.1) _ e₂ in
      let (_, _, e₄) =
        then_result-eq-ok (create_identity_server config_library lib session.1 policy.3) _ e₃ in
      let (_, _, e₅) = then_result-eq-ok (configured_uri config_library lib session.1) _ e₄ in
      ap (λ p. p.0.1) (sym (ok-injective e₅)) ∙ read_policy-delay conf d policy set read

  -- An AuthProtocol that could be made delays the decision exactly where its setting says so.
  pub auth_protocol-delay :
      (conf : Config) (d : Value) (w v : W) (self : AuthProtocol A)
      → get conf "delay_auth_decision" none ≡ ok d
      → auth_protocol config_library lib conf w ≡ (ok self, v)
      → self.options.delay_auth_decision ≡ is_true d
  unfolding auth_protocol
  auth_protocol-delay conf d w v self set e =
      let (p, prepared, rest) = read-eq-ok (prepare_protocol config_library lib conf) w _ e in
      let (uri, t, asked, made) =
        continue-eq-ok (challenge_uri config_library lib p.1.0 p.3 w) _ rest in
      let (cache, factory, same) =
        then_result-eq-ok (token_cache_factory p.1.1) _ (ap (λ r. r.0) made) in
      ap (λ (a : AuthProtocol A). a.options.delay_auth_decision) (sym (ok-injective same))
      ∙ prepare_protocol-delay conf d p set prepared

  -- A filter that could be made of a paste file whose last word on delay_auth_decision is no leaves the
  -- application below it to authenticated requests: with any services, the application runs only on
  -- such a request, and otherwise the middleware raises and the application's world stays as it is.
  pub filter_factory-IsServed :
      {R V : Type 0} (common : List Opt) (passed : Option OsloConf)
      (global_conf local_conf : Dict Value) (d : Value) (w v : W) (self : AuthProtocol A)
      (library : Library) (services : Services R) (application : Request → Exec V Response)
      (s s' : State R) (a a' : V) (out : Result Response)
      → last_setting config_library
          (options_of authtoken_group (list_opts common))
          (own_settings (merged passed global_conf local_conf))
          "delay_auth_decision"
        ≡ some d
      → is_true d ≡ false
      → filter_factory config_library lib common passed global_conf local_conf w ≡ (ok self, v)
      → call self.options library services application (s, a) ≡ (out, (s', a'))
      → IsServed self.options library services application s a out s' a'
        ⊎ (((e : Exception) × (out ≡ raise e)) × (a' ≡ a))
  unfolding filter_factory from_paste
  filter_factory-IsServed common passed global_conf local_conf d w v self library services
        application s s' a a' out last_word now made called =
      let paste = merged passed global_conf local_conf in
      let (conf, read, built) =
        read-eq-ok (config config_library "auth_token" authtoken_group (list_opts common) paste) w _
          made in
      let set : get conf "delay_auth_decision" none ≡ ok d =
        get-config config_library "auth_token" authtoken_group (list_opts common) paste conf
          "delay_auth_decision" none read
        ∙ rw (last_word) refl in
      call-IsServed self.options library services application s s' a a' out
        (auth_protocol-delay conf d w v self set built ∙ now) called
