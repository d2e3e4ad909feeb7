-- ===== src/AuthPlugin/Endpoints.antt =====
-- auth_token/_auth.py: which endpoints `get_endpoint` answers.
use keystonemiddleware.Base.{
  ◌≡◌, refl, sym, ap, ◌∙◌, ◌⊎◌, inl, inr, if◌then◌else◌, Option-cases, String, ◌<>◌, true, Option,
  none, some, arith,
}
use keystonemiddleware.Exec.{Result, ok, raise, continue-eq-ok, then_result-eq-ok}
use keystonemiddleware.Identity.{Version}
use keystonemiddleware.AuthPlugin.{
  AuthTokenPlugin, Discovery, Discovered, Interface, auth_interface, named, is_url, discovery_of,
  keep, versioned, supported, get_endpoint,
}

module _ {D W : Type 0} (lib : Discovery D W) (self : AuthTokenPlugin) where
  -- The endpoint of a version that the server has, by one of the two paths that the plugin knows.
  pub record IsSupported (version : Version) (d : D) (url : String) : Type 0 where
    pub found : String
    pub has_version : lib.url_for d version ≡ ok (some found)
    pub normal : Version
    pub normalized : lib.normalize_version_number version ≡ ok normal
    pub known :
        ((lib.version_match (2, 0) normal ≡ true) × (url ≡ self.identity_uri <> "/v2.0"))
        ⊎ ((lib.version_match (3, 0) normal ≡ true) × (url ≡ self.identity_uri <> "/v3"))

  versioned-known :
      (normal : Version) (url : String)
      → versioned lib self normal ≡ ok (some url)
      → ((lib.version_match (2, 0) normal ≡ true) × (url ≡ self.identity_uri <> "/v2.0"))
        ⊎ ((lib.version_match (3, 0) normal ≡ true) × (url ≡ self.identity_uri <> "/v3"))
  unfolding versioned
  versioned-known normal url e = ground arith

  is_url-some :
      (answer : Option String) → is_url answer ≡ true → (found : String) × (answer ≡ some found)
  is_url-some none there = absurd (ground arith)
  is_url-some (some found) there = (found, refl)

  supported_url :
      (answer : Option String) (hacked : Result (Option String)) {url : String}
      → (if is_url answer then hacked else ok none) ≡ ok (some url)
      → (is_url answer ≡ true) × (hacked ≡ ok (some url))
  supported_url answer hacked e = ground arith

  kept :
      (x : Result D × W) (t : Discovered D W) (d : D)
      → keep lib self x ≡ (ok d, t)
      → t.discovery ≡ some d
  kept (ok d', w) t d e = ground arith
  kept (raise x, w) t d e = absurd (ground arith)

  discovery_of-kept :
      (s t : Discovered D W) (d : D) → discovery_of lib self s ≡ (ok d, t) → t.discovery ≡ some d
  unfolding discovery_of
  discovery_of-kept s t d e = elim (Option-cases s.discovery) [
    | inl fresh ↦ kept (lib.discover self.identity_uri s.world) t d (rw (fresh, discovery_of) at e)
    | inr (d', there) ↦ ground (arith, rw (there, discovery_of) at e)
  ]

  supported-IsSupported :
      (version : Version) (d : D) (url : String)
      → supported lib self version d ≡ ok (some url)
      → IsSupported version d url
  unfolding supported
  supported-IsSupported version d url e =
      let (answer, has_version, rest) = then_result-eq-ok (lib.url_for d version) _ e in
      let (there, hacked) = supported_url answer _ rest in
      let (found, is_found) = is_url-some answer there in
      let (normal, normalized, made) =
        then_result-eq-ok (lib.normalize_version_number version) _ hacked in
      record {
        found = found;
        has_version = has_version ∙ ap ok is_found;
        normal = normal;
        normalized = normalized;
        known = versioned-known normal url made;
      }

  -- An answer is the identity URI for the auth interface, and otherwise an address below it for a
  -- version that the server was found to have; what discovery found is kept.
  pub get_endpoint-IsSupported :
      (interface : Interface) (version : Option Version) (s t : Discovered D W) (url : String)
      → get_endpoint lib self interface version s ≡ (ok (some url), t)
      → ((interface ≡ auth_interface) × (url ≡ self.identity_uri))
        ⊎ ((v : Version) × (d : D) × (version ≡ some v)
            × IsSupported v d url
            × (t.discovery ≡ some d))
  unfolding get_endpoint
  get_endpoint-IsSupported auth_interface version s t url e = inl (refl, ground arith)
  get_endpoint-IsSupported (named _) none s t url e = absurd (ground arith)
  get_endpoint-IsSupported (named _) (some version) s t url e =
      let (d, u, found, answered) = continue-eq-ok (discovery_of lib self s) _ e in
      let same : u ≡ t = ap (λ x. x.1) answered in
      inr (
        version,
        d,
        refl,
        supported-IsSupported version d url (ap (λ x. x.0) answered),
        ap (λ x. x.discovery) (sym same) ∙ discovery_of-kept s u d found,
      )
