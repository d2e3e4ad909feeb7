-- ===== src/Exec.antt =====
-- Python's exceptions as values, and methods that change an object and may raise. What was written
-- before a raise stays written, so the state comes back beside the exception too.
use keystonemiddleware.Base.{◌≡◌, refl, String, List, ◌⊎◌, inl, inr, arith}

-- The classes that the middleware raises or catches: its own (exceptions.py and
-- auth_token/_exceptions.py, memcache crypt), keystoneauth1's, webob's and the interpreter's.
pub data Exception : Type 0 where
  invalid_token service_error configuration_error : Exception
  connect_failure discovery_failure request_timeout endpoint_not_found : Exception
  not_found unauthorized http_error : Exception
  http_unauthorized : List (String × String) → Exception
  http_service_unavailable : Exception
  invalid_mac decrypt_error crypto_unavailable : Exception
  key_error attribute_error type_error value_error index_error not_implemented regex_error :
      Exception
  -- configparser's, and PycadfAuditApiConfigError
  parsing_error os_error audit_config_error : Exception
  -- oslo.config's NoSuchOptError and NoSuchGroupError, pkg_resources' DistributionNotFound
  no_such_option no_such_group distribution_not_found : Exception

pub data Result {ℓ} (A : Type ℓ) : Type ℓ where
  ok : A → Result A
  raise : Exception → Result A

abbrev pub then_result {ℓ κ} : {A : Type ℓ} {B : Type κ} → Result A → (A → Result B) → Result B
then_result (ok a) f = f a
then_result (raise e) f = raise e

abbrev pub Exec {ℓ} : Type ℓ → Type ℓ → Type ℓ
Exec S A = S → Result A × S

module _ {ℓ} {S A : Type ℓ} where
  abbrev pub pure : A → Exec S A
  pure a s = (ok a, s)

  abbrev pub throw : Exception → Exec S A
  throw e s = (raise e, s)

  abbrev pub lift : Result A → Exec S A
  lift r s = (r, s)

module _ {ℓ} {S A B : Type ℓ} where
  abbrev pub continue : Result A × S → (A → Exec S B) → Result B × S
  continue (ok a, s) f = f a s
  continue (raise e, s) f = (raise e, s)

  infixl 5 ◌>>=◌
  abbrev pub ◌>>=◌ : Exec S A → (A → Exec S B) → Exec S B
  ◌>>=◌ m f s = continue (m s) f

-- To split on a result and keep the equation.
pub Result-cases {ℓ} :
    {A : Type ℓ} (r : Result A) → ((a : A) × (r ≡ ok a)) ⊎ ((e : Exception) × (r ≡ raise e))
Result-cases (ok a) = inl (a, refl)
Result-cases (raise e) = inr (e, refl)

pub ok-injective {ℓ} : {A : Type ℓ} {x y : A} → ◌≡◌ {A = Result A} (ok x) (ok y) → x ≡ y
ok-injective e = ground arith

-- Inversion of a step that did not raise.
pub then_result-eq-ok {ℓ κ} :
    {A : Type ℓ} {B : Type κ} (r : Result A) (f : A → Result B) {b : B}
    → then_result r f ≡ ok b
    → (a : A) × (r ≡ ok a) × (f a ≡ ok b)
then_result-eq-ok (ok a) f e = (a, refl, e)
then_result-eq-ok (raise x) f e = ground arith

pub continue-eq-ok {ℓ} :
    {S A B : Type ℓ} (x : Result A × S) (f : A → Exec S B) {b : B} {t : S}
    → continue x f ≡ (ok b, t)
    → (a : A) × (s : S) × (x ≡ (ok a, s)) × (f a s ≡ (ok b, t))
continue-eq-ok (ok a, s) f e = (a, s, refl, e)
continue-eq-ok (raise x, s) f e = ground arith

-- The same for a step that reads the state alone.
pub read-eq-ok {ℓ} :
    {S A B : Type ℓ} (r : Result A) (s : S) (f : A → Exec S B) {b : B} {t : S}
    → continue (r, s) f ≡ (ok b, t)
    → (a : A) × (r ≡ ok a) × (f a s ≡ (ok b, t))
read-eq-ok (ok a) s f e = (a, refl, e)
read-eq-ok (raise x) s f e = ground arith
