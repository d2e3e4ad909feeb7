-- ===== src/S3/Laws.antt =====
-- s3_token.py: whom S3Token lets through with a token, and what it asks for.
use Prim.Native.Char.{Char, code}
use keystonemiddleware.Base.{
  cons, ◌≡◌, refl, ap, ◌∙◌, ◌⊎◌, inl, inr, String, ◌<>◌, ◌≤◌, ◌<◌, false, Option, none, some, ◌||◌,
  ltb, leb, arith, lookup, insert, split, last, has_char, rsplit-join, Bool-cases, Option-cases,
}
use keystonemiddleware.Exec.{
  Exception, Result, ok, raise, value_error, key_error, Result-cases, then_result-eq-ok,
}
use keystonemiddleware.Json.{Json}
use keystonemiddleware.S3.{
  S3Request, Reply, forwarded, HttpResponse, S3Library, S3Options, request_token,
  read_authorization, force_tenant, credentials, json_request, identity_info, tenant_to_connect,
  replace_account, connect, or_denied, on_answer, authenticate, call, with_account,
  with_authorization,
}

module _ (lib : S3Library) (o : S3Options) where
  -- The request carries no S3 signature or no token.
  pub NotSigned : S3Request → Type 0
  NotSigned req =
      (lib.split_path req.path ≡ raise value_error)
      ⊎ (lookup "Authorization" req.headers ≡ none)
      ⊎ (request_token req.headers ≡ none)

  -- The identity server accepted the signature, and the request goes to the account of the tenant that is
  -- asked for, or of the answer, with the answer's token.
  pub record IsConnected (req : S3Request) (account : Option String)
      (token access_id signature : String) (req' : S3Request) : Type 0 where
    pub access : String
    pub forced : Option String
    pub parts : force_tenant access_id ≡ ok (access, forced)
    pub response : HttpResponse
    pub posted :
        lib.post (o.request_uri <> "/v2.0/s3tokens") (credentials access token signature)
        ≡ some response
    pub success : (200 ≤ response.status_code) × (response.status_code < 300)
    pub token_id : String
    pub tenant : Json
    pub info : identity_info lib o response ≡ ok (token_id, tenant)
    pub name : String
    pub tenant_name : tenant_to_connect lib o forced tenant ≡ ok name
    pub path_info : String
    pub replaced :
        replace_account lib o account (o.reseller_prefix <> name) req.path_info ≡ ok path_info
    pub result :
        req'
        ≡ record req { path_info = path_info; headers = insert "X-Auth-Token" token_id req.headers }

  or_denied-forwarded :
      (r : Result (String × Json)) (f : String × Json → Result Reply) (req' : S3Request)
      → or_denied lib o r f ≡ ok (forwarded req')
      → (info : String × Json) × (r ≡ ok info) × (f info ≡ ok (forwarded req'))
  or_denied-forwarded (ok info) f req' h = (info, refl, h)
  or_denied-forwarded (raise value_error) f req' h = absurd (ground arith)
  or_denied-forwarded (raise key_error) f req' h = absurd (ground arith)
  or_denied-forwarded (raise _) f req' h = absurd (ground arith)

  json_request-answered :
      (creds : Json) (f : HttpResponse → Result Reply) (req' : S3Request)
      → on_answer lib o (json_request lib o creds) f ≡ ok (forwarded req')
      → (response : HttpResponse) × (lib.post (o.request_uri <> "/v2.0/s3tokens") creds
          ≡ some response)
        × ((200 ≤ response.status_code) × (response.status_code < 300))
        × (f response ≡ ok (forwarded req'))
  unfolding json_request
  json_request-answered creds f req' h =
      elim (Option-cases (lib.post (o.request_uri <> "/v2.0/s3tokens") creds)) [
        | inl failed ↦ absurd (ground (arith, rw (failed) at h))
        | inr (response, posted) ↦
            elim (Bool-cases (ltb response.status_code 200 || leb 300 response.status_code)) [
              | inl bad ↦ absurd (ground (arith, rw (bad) at (rw (posted) at h)))
              | inr good ↦
                  (response, posted, (ground arith, ground arith), rw (good) at (rw (posted) at h))
            ]
      ]

  authenticate-IsConnected :
      (req req' : S3Request) (account : Option String) (token access_id signature : String)
      → authenticate lib o req account token (access_id, signature) ≡ ok (forwarded req')
      → IsConnected req account token access_id signature req'
  unfolding authenticate connect
  authenticate-IsConnected req req' account token access_id signature h =
      let (parts, parted, h₁) = then_result-eq-ok (force_tenant access_id) _ h in
      let (response, posted, success, h₂) =
        json_request-answered (credentials parts.0 token signature) _ req' h₁ in
      let (info, read, h₃) = or_denied-forwarded (identity_info lib o response) _ req' h₂ in
      let (name, named, h₄) = then_result-eq-ok (tenant_to_connect lib o parts.1 info.1) _ h₃ in
      let (path_info, replaced, h₅) =
        then_result-eq-ok (replace_account lib o account (o.reseller_prefix <> name) req.path_info)
          _ h₄ in
      record {
        access = parts.0;
        forced = parts.1;
        parts = parted;
        response = response;
        posted = posted;
        success = success;
        token_id = info.0;
        tenant = info.1;
        info = read;
        name = name;
        tenant_name = named;
        path_info = path_info;
        replaced = replaced;
        result = ground arith;
      }

  -- A request that carries a path to an account, a token and a signature that can be read.
  pub record IsSigned (req : S3Request) (account : Option String)
      (token access_id signature : String) : Type 0 where
    pub auth_header : String
    pub path_split : lib.split_path req.path ≡ ok account
    pub header_there : lookup "Authorization" req.headers ≡ some auth_header
    pub header_read : read_authorization auth_header ≡ some (access_id, signature)
    pub token_there : request_token req.headers ≡ some token

  -- How a request gets to the application.
  pub data IsForwarded (req req' : S3Request) : Type 0 where
    skipped : NotSigned req → req' ≡ req → IsForwarded req req'
    connected :
        {account : Option String} {token access_id signature : String}
        → IsSigned req account token access_id signature
        → IsConnected req account token access_id signature req'
        → IsForwarded req req'

  signed-IsForwarded :
      (req req' : S3Request) (account : Option String) (auth_header token : String)
      → lib.split_path req.path ≡ ok account
      → lookup "Authorization" req.headers ≡ some auth_header
      → request_token req.headers ≡ some token
      → call lib o req ≡ ok (forwarded req')
      → IsForwarded req req'
  unfolding call with_account with_authorization
  signed-IsForwarded req req' account auth_header token path_split header_there token_there h =
      elim (Option-cases (read_authorization auth_header)) [
        | inl unread ↦ absurd (
            ground (
              arith,
              rw (path_split, header_there, token_there, unread, with_account, with_authorization)
                  at h,
            ))
        | inr ((access_id, signature), header_read) ↦
            connected
              (record {
                auth_header = auth_header;
                path_split = path_split;
                header_there = header_there;
                header_read = header_read;
                token_there = token_there;
              })
              (authenticate-IsConnected req req' account token access_id signature (
                rw
                  (
                    path_split, header_there, token_there, header_read, with_account,
                    with_authorization,
                  )
                  at h))
      ]

  with_account-raise :
      (req req' : S3Request) (x : Exception)
      → with_account lib o req (raise x) ≡ ok (forwarded req')
      → (x ≡ value_error) × (req' ≡ req)
  unfolding with_account
  with_account-raise req req' value_error h = (refl, ground arith)
  with_account-raise req req' _ h = absurd (ground arith)

  -- S3Token hands a request to the application only as it came, where it has no path to an account, no
  -- Authorization header or no token; or behind an answer of status 2xx that the identity server gave
  -- for the access id, the token and the signature of the request, with the token of that answer. The
  -- account is then that of the tenant that the access id forces, which is the client's word, or else
  -- that of the answer's tenant.
  pub call-IsForwarded :
      (req req' : S3Request) → call lib o req ≡ ok (forwarded req') → IsForwarded req req'
  unfolding call with_account with_authorization NotSigned
  call-IsForwarded req req' h = elim (Result-cases (lib.split_path req.path)) [
    | inr (x, no_path) ↦
        let (is_value_error, same) = with_account-raise req req' x (rw (no_path) at h) in
        skipped (inl (no_path ∙ ap raise is_value_error)) same
    | inl (account, path_split) ↦ elim (Option-cases (lookup "Authorization" req.headers)) [
      | inl no_header ↦
          skipped (inr (inl no_header))
            (ground (arith, rw (path_split, no_header, with_account) at h))
      | inr (auth_header, header_there) ↦ elim (Option-cases (request_token req.headers)) [
        | inl no_token ↦
            skipped (inr (inr no_token))
              (ground (arith, rw (path_split, header_there, no_token, with_account) at h))
        | inr (token, token_there) ↦
            signed-IsForwarded req req' account auth_header token path_split header_there
              token_there h
      ]
    ]
  ]

-- An Authorization header whose last word is an access id, a colon and a signature without one is read
-- as these two, colons in the access id included.
pub read_authorization_lem :
    (colon : Char) (access_id signature auth_header : String)
    → code colon ≡ b':'
    → last (split b' ' auth_header) ≡ access_id <> cons colon signature
    → has_char b':' signature ≡ false
    → read_authorization auth_header ≡ some (access_id, signature)
unfolding read_authorization
read_authorization_lem colon access_id signature auth_header is_colon word no_colon =
    rw (word) (rsplit-join b':' colon access_id signature is_colon no_colon)
