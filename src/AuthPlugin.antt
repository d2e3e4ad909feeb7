-- ===== src/AuthPlugin.antt =====
-- auth_token/_auth.py: AuthTokenPlugin, which finds the identity server from the options of older
-- releases. keystoneauth1's plugins and its discovery are parameters.
pub mod Endpoints
use keystonemiddleware.Base.{
  ℕ, zero, suc, String, ◌<>◌, Bool, true, false, not, Option, none, some, List, [], ◌∷◌, ◌==◌,
  has_char, take_text, drop_text, nat_eq, if◌then◌else◌,
}
use keystonemiddleware.Exec.{Result, Exec, ok, raise, then_result, continue, not_implemented}
use keystonemiddleware.Urls.{rstrip_slashes, strip_slashes}
use keystonemiddleware.Cache.Memory.{ℤ, pos, negsuc}
use keystonemiddleware.Identity.{Version}

-- The decimal digits of a number, the last one first.
next : List ℕ → List ℕ
next [] = 1 ∷ []
next (d ∷ ds) = let carried = next ds in if nat_eq d 9 then 0 ∷ carried else suc d ∷ ds

digits : ℕ → List ℕ
digits zero = 0 ∷ []
digits (suc n) = next (digits n)

written : List ℕ → String
written [] = ""
written (d ∷ ds) = written ds <> take_text 1 (drop_text d "0123456789")

-- `'%s' % n`
unfoldable pub decimal : ℤ → String
unfolding written digits next
decimal (pos n) = written (digits n)
decimal (negsuc n) = "-" <> written (digits (suc n))

-- The arguments of `__init__`, of the types of their options.
pub record PluginOptions : Type 0 where
  pub auth_host : String
  pub auth_port : ℤ
  pub auth_protocol : String
  pub auth_admin_prefix : String
  pub admin_user : Option String
  pub admin_password : Option String
  pub admin_tenant_name : Option String
  pub admin_token : Option String
  pub identity_uri : Option String

-- `token_endpoint.Token` and `v2.Password`, by their URL and what they are given
pub data Credentials : Type 0 where
  token : String → String → Credentials
  password : String → Option String → Option String → Option String → Credentials

pub record AuthTokenPlugin : Type 0 where
  pub identity_uri : String
  pub plugin : Credentials

-- An IPv6 address stands in brackets.
unfoldable pub host_of : String → String
host_of auth_host = if has_char b':' auth_host then "[" <> (auth_host <> "]") else auth_host

-- The URI that the fragments make up.
unfoldable pub uri_of_fragments : PluginOptions → String
unfolding host_of
uri_of_fragments o =
    let uri = o.auth_protocol <> ("://" <> (host_of o.auth_host <> (":" <> decimal o.auth_port))) in
    if o.auth_admin_prefix == "" then uri else uri <> ("/" <> strip_slashes o.auth_admin_prefix)

abbrev uri_or : Option String → String → String
uri_or none fragments = fragments
uri_or (some uri) fragments = if uri == "" then fragments else uri

abbrev plugin_of : PluginOptions → String → Option String → Credentials
plugin_of o auth_url none = password auth_url o.admin_user o.admin_password o.admin_tenant_name
plugin_of o auth_url (some admin_token) =
    if admin_token == ""
    then password auth_url o.admin_user o.admin_password o.admin_tenant_name
    else token auth_url admin_token

-- `__init__`
unfoldable pub auth_token_plugin : PluginOptions → AuthTokenPlugin
unfolding uri_of_fragments
auth_token_plugin o =
    let uri = rstrip_slashes (uri_or o.identity_uri (uri_of_fragments o)) in
    record { identity_uri = uri; plugin = plugin_of o (uri <> "/v2.0") o.admin_token }

-- keystoneauth1's discovery: `Discover(session, url=…)` asks the server.
pub record Discovery (D W : Type 0) : Type 0 where
  pub discover : String → Exec W D
  pub url_for : D → Version → Result (Option String)
  pub normalize_version_number : Version → Result Version
  pub version_match : Version → Version → Bool

-- `plugin.AUTH_INTERFACE`, and the names of the others
pub data Interface : Type 0 where
  auth_interface : Interface
  named : Option String → Interface

pub record Discovered (D W : Type 0) : Type 0 where
  pub discovery : Option D
  pub world : W

abbrev pub is_url : Option String → Bool
is_url none = false
is_url (some url) = not (url == "")

module _ {D W : Type 0} (lib : Discovery D W) (self : AuthTokenPlugin) where
  abbrev keep : Result D × W → Result D × Discovered D W
  keep (ok d, w) = (ok d, record { discovery = some d; world = w })
  keep (raise e, w) = (raise e, record { discovery = none; world = w })

  -- `if not self._discover:`
  unfoldable pub discovery_of : Exec (Discovered D W) D
  discovery_of s = elim s.discovery [
    | some d ↦ (ok d, s)
    | none ↦ keep (lib.discover self.identity_uri s.world)
  ]

  unfoldable pub versioned : Version → Result (Option String)
  versioned version =
      if lib.version_match (2, 0) version
      then ok (some (self.identity_uri <> "/v2.0"))
      else if lib.version_match (3, 0) version
      then ok (some (self.identity_uri <> "/v3"))
      else raise not_implemented

  -- Behind the discovery of the server's versions.
  unfoldable pub supported : Version → D → Result (Option String)
  unfolding versioned
  supported version d = then_result (lib.url_for d version) λ url.
      let hacked = then_result (lib.normalize_version_number version) versioned in
      if is_url url then hacked else ok none

  unfoldable pub get_endpoint : Interface → Option Version → Exec (Discovered D W) (Option String)
  unfolding discovery_of supported
  get_endpoint auth_interface version s = (ok (some self.identity_uri), s)
  get_endpoint (named _) none s = (ok none, s)
  get_endpoint (named _) (some version) s =
      continue (discovery_of s) (λ d t. (supported version d, t))
