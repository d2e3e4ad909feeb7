-- ===== src/Ec2/Laws.antt =====
-- ec2_token.py: which requests EC2Token lets through.
use keystonemiddleware.Base.{
  ◌≡◌, refl, inl, inr, String, false, some, ◌==◌, arith, lookup, insert, nat_eq, Bool-cases,
  Option-cases,
}
use keystonemiddleware.Exec.{Exception, ok, raise, then_result-eq-ok}
use keystonemiddleware.Ec2.{
  Ec2Request, Ec2Response, forwarded, Ec2Options, Ec2Library, get_signature, get_access,
  on_response, ask, with_access, with_signature, cert, call,
}

module _ (lib : Ec2Library) (o : Ec2Options) where
  -- The identity server took the request's access key and signature, and gave a token for them.
  pub record IsConfirmed (req req' : Ec2Request) : Type 0 where
    pub signature : String
    pub signed : get_signature req ≡ some signature
    pub access : String
    pub accessed : get_access req ≡ some access
    pub nonempty : ((signature == "") ≡ false) × ((access == "") ≡ false)
    pub response : Ec2Response
    pub asked : ask lib o req access signature ≡ ok response
    pub status : response.status_code ≡ 200
    pub token_id : String
    pub token_given : lookup "x-subject-token" response.headers ≡ some token_id
    pub result : req' ≡ record req { headers = insert "X-Auth-Token" token_id req.headers }

  on_response-forwarded :
      (req req' : Ec2Request) (response : Ec2Response)
      → on_response lib o req response ≡ forwarded req'
      → (response.status_code ≡ 200)
        × ((token_id : String) × (lookup "x-subject-token" response.headers ≡ some token_id)
            × (req' ≡ record req { headers = insert "X-Auth-Token" token_id req.headers }))
  unfolding on_response
  on_response-forwarded req req' response h =
      elim (Option-cases (lookup "x-subject-token" response.headers)) [
        | inl missing ↦ absurd (ground (arith, rw (missing) at h))
        | inr (token_id, there) ↦ elim (Bool-cases (nat_eq response.status_code 200)) [
          | inl fine ↦ (ground arith, (token_id, there, ground (arith, rw (fine, there) at h)))
          | inr refused ↦ absurd (ground (arith, rw (refused) at h))
        ]
      ]

  -- EC2Token hands on only a request whose signature and access key the identity server took, with
  -- status 200 and a token, and all that it changes is that X-Auth-Token is this token.
  pub call-IsConfirmed :
      (req req' : Ec2Request) → call lib o req ≡ ok (forwarded req') → IsConfirmed req req'
  unfolding call with_signature with_access
  call-IsConfirmed req req' h = elim (Option-cases (get_signature req)) [
    | inl unsigned ↦ absurd (ground (arith, rw (unsigned, with_signature) at h))
    | inr (signature, signed) ↦ elim (Bool-cases (signature == "")) [
      | inl empty ↦ absurd (ground (arith, rw (signed, with_signature, empty) at h))
      | inr given ↦ elim (Option-cases (get_access req)) [
        | inl missing ↦
            absurd (ground (arith, rw (signed, with_signature, given, missing, with_access) at h))
        | inr (access, accessed) ↦ elim (Bool-cases (access == "")) [
          | inl none_there ↦ absurd (
              ground
                (arith, rw (signed, with_signature, given, accessed, with_access, none_there) at h))
          | inr there ↦
              let (response, asked, answered) =
                then_result-eq-ok (ask lib o req access signature)
                  (λ r. ok (on_response lib o req r))
                  (rw (signed, with_signature, given, accessed, with_access, there) at h) in
              let (status, found) = on_response-forwarded req req' response (ground arith) in
              let (token_id, token_given, result) = found in
              record {
                signature = signature;
                signed = signed;
                access = access;
                accessed = accessed;
                nonempty = (given, there);
                response = response;
                asked = asked;
                status = status;
                token_id = token_id;
                token_given = token_given;
                result = result;
              }
        ]
      ]
    ]
  ]

  -- With both a certificate and a key in the options no signed request is answered: the certificate is
  -- looked up under a name that is no option of the group, and what that raises ends the request.
  pub call-certfile :
      (req : Ec2Request) (signature access file key : String) (x : Exception)
      → get_signature req ≡ some signature
      → get_access req ≡ some access
      → (signature == "") ≡ false
      → (access == "") ≡ false
      → o.certfile ≡ some file
      → o.keyfile ≡ some key
      → (file == "") ≡ false
      → (key == "") ≡ false
      → o.keystone_ec2_certfile ≡ raise x
      → call lib o req ≡ raise x
  unfolding call with_signature with_access ask cert
  call-certfile req signature access file key x signed accessed given there has_file has_key
        file_given key_given missing =
      rw
        (
          signed, with_signature, given, accessed, with_access, there, has_file, has_key,
          file_given, key_given, missing,
        )
        refl
