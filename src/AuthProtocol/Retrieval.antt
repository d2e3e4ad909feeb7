-- ===== src/AuthProtocol/Retrieval.antt =====
-- auth_token/__init__.py: AuthProtocol's `fetch_token`, over the token cache and the identity server.
use Prim.Native.String
use keystonemiddleware.Base.{ℕ, suc, String, Bool, List, nat_eq, if◌then◌else◌}
use keystonemiddleware.Exec.{
  Exception, Result, Exec, ok, raise, invalid_token, service_error, connect_failure,
  discovery_failure, request_timeout, endpoint_not_found, http_service_unavailable, key_error,
  type_error, index_error, then_result, throw, pure, ◌>>=◌,
}
use keystonemiddleware.Json.{
  Json, str, arr, obj, Items, nil, item, Fields, end, field, truthy, is_text,
}

-- The token cache and the identity server that the middleware holds, over a state of theirs.
pub record Services (R : Type 0) : Type 0 where
  -- `self._token_cache.initialize(request.environ)`
  pub initialize : List String → R → R
  pub cache_get : String → Exec R Json
  pub cache_set : String → Json → Exec R (Unit {0})
  -- `self._identity_server.verify_token` and `invalidate`
  pub verify_token : String → Bool → Exec R Json
  pub invalidate : R → R

-- `_CACHE_INVALID_INDICATOR`
abbrev pub invalid_indicator : Json
invalid_indicator = str "invalid"

abbrev items_len : Items → ℕ
items_len nil = 0
items_len (item _ vs) = suc (items_len vs)

abbrev fields_len : Fields → ℕ
fields_len end = 0
fields_len (field _ _ fs) = suc (fields_len fs)

-- `len(v)`
unfoldable pub len : Json → Result ℕ
len (str s) = ok (String.count s)
len (arr vs) = ok (items_len vs)
len (obj fs) = ok (fields_len fs)
len _ = raise type_error

-- `v[0]`: a dictionary of texts has no such key
unfoldable pub first : Json → Result Json
first (arr (item v _)) = ok v
first (arr nil) = raise index_error
first (obj _) = raise key_error
first (str (String.◌∷◌ c _)) = ok (str (String.◌∷◌ c String.[]))
first (str String.[]) = raise index_error
first _ = raise type_error

-- What a true value of the cache gives: a token marked as invalid, a pair of the old format, or data.
unfoldable pub read_cached : Json → Result Json
unfolding len first
read_cached cached =
    if is_text cached "invalid"
    then raise invalid_token
    else then_result (len cached) λ n. if nat_eq n 2 then first cached else ok cached

module _ {R : Type 0} (services : Services R) where
  abbrev from_server : String → Bool → Exec R Json
  from_server token allow_expired = do
    body ← services.verify_token token allow_expired
    (services.cache_set token body >>= λ _. pure body)

  abbrev from_cache : String → Bool → Json → Exec R Json
  unfolding read_cached
  from_cache token allow_expired cached s =
      let asked = from_server token allow_expired s in
      if truthy cached then (read_cached cached, s) else asked

  -- The `try` block of `fetch_token`.
  unfoldable pub look_up : String → Bool → Exec R Json
  unfolding from_cache
  look_up token allow_expired = services.cache_get token >>= from_cache token allow_expired

  abbrev unavailable : Bool → Exception
  unavailable delay = if delay then invalid_token else http_service_unavailable

  -- The handlers of `fetch_token`.
  unfoldable pub recover : Bool → String → Result Json × R → Result Json × R
  recover delay token (ok body, s) = (ok body, s)
  recover delay token (raise connect_failure, s) = (raise (unavailable delay), s)
  recover delay token (raise discovery_failure, s) = (raise (unavailable delay), s)
  recover delay token (raise request_timeout, s) = (raise (unavailable delay), s)
  recover delay token (raise service_error, s) = (raise (unavailable delay), s)
  recover delay token (raise invalid_token, s) =
      (services.cache_set token invalid_indicator >>= λ _. throw invalid_token) s
  recover delay token (raise endpoint_not_found, s) =
      (raise endpoint_not_found, services.invalidate s)
  recover delay token (raise e, s) = (raise e, s)

  unfoldable pub fetch_token : Bool → String → Bool → Exec R Json
  unfolding recover look_up
  fetch_token delay token allow_expired s = recover delay token (look_up token allow_expired s)
