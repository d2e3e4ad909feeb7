-- ===== src/Cache/Memory.antt =====
-- auth_token/_cache.py: _FakeClient, the cache in the middleware's own memory, at the time `now` of
-- timeutils.utcnow_ts().
pub mod View
pub mod Promise
pub mod History
use keystonemiddleware.Base.{
  ℕ, zero, suc, ◌+◌, ◌-◌, String, Bool, true, false, not, Option, none, some, List, [], ◌∷◌, Dict,
  ◌&&◌, leb, lookup, insert, erase, if◌then◌else◌,
}
use keystonemiddleware.Exec.{Result, ok, raise}

-- A Python integer; a negative cache time means that nothing is kept.
pub data ℤ : Type 0 where
  pos negsuc : ℕ → ℤ

abbrev pub is_zero : ℤ → Bool
is_zero (pos zero) = true
is_zero (pos (suc n)) = false
is_zero (negsuc n) = false

-- `now + time`
infixl 6 ◌+ℤ◌
unfoldable pub ◌+ℤ◌ : ℕ → ℤ → ℤ
now +ℤ (pos n) = pos (now + n)
now +ℤ (negsuc n) = if leb (suc n) now then pos (now - suc n) else negsuc (n - now)

-- `m + n` of two integers
unfoldable pub sum : ℤ → ℤ → ℤ
unfolding ◌+ℤ◌
sum (pos m) n = m +ℤ n
sum (negsuc m) (pos n) = n +ℤ negsuc m
sum (negsuc m) (negsuc n) = negsuc (suc (m + n))

-- `int(value)` and `str(n)` on the values that are stored
pub record Numbers {ℓ} (V : Type ℓ) : Type ℓ where
  pub int_of : V → Result ℤ
  pub str_of : ℤ → V

-- `now >= timeout`
abbrev pub reached : ℕ → ℤ → Bool
reached now (pos n) = leb n now
reached now (negsuc n) = true

-- `timeout and now >= timeout`
unfoldable pub is_expired : ℕ → ℤ → Bool
is_expired now timeout = not (is_zero timeout) && reached now timeout

-- `timeutils.utcnow_ts() + time`, or 0 for no end
unfoldable pub timeout_at : ℕ → ℤ → ℤ
unfolding ◌+ℤ◌
timeout_at now time = if is_zero time then pos 0 else now +ℤ time

abbrev pub Entries {ℓ} : Type ℓ → Type ℓ
Entries V = Dict (ℤ × V)

module _ {ℓ} {V : Type ℓ} where
  -- The loop of `get` that deletes the expired keys.
  unfoldable pub expunge : ℕ → Entries V → Entries V
  expunge now [] = []
  expunge now ((k, (timeout, v)) ∷ cache) =
      let rest = expunge now cache in
      if is_expired now timeout then rest else (k, (timeout, v)) ∷ rest

  abbrev value_of : Option (ℤ × V) → Option V
  value_of none = none
  value_of (some (_, v)) = some v

  unfoldable pub get : ℕ → String → Entries V → Option V × Entries V
  unfolding expunge
  get now key cache = let left = expunge now cache in (value_of (lookup key left), left)

  unfoldable pub set : ℕ → String → V → ℤ → Entries V → Entries V
  unfolding timeout_at
  set now key value time cache = insert key (timeout_at now time, value) cache

  abbrev set_if_absent : ℕ → String → V → ℤ → Option V × Entries V → Bool × Entries V
  set_if_absent now key value time (some _, cache) = (false, cache)
  set_if_absent now key value time (none, cache) = (true, set now key value time cache)

  unfoldable pub add : ℕ → String → V → ℤ → Entries V → Bool × Entries V
  unfolding get set
  add now key value time cache = set_if_absent now key value time (get now key cache)

  unfoldable pub delete : String → Entries V → Entries V
  delete key cache = erase key cache

  module _ (numbers : Numbers V) where
    abbrev incremented : String → Entries V → ℤ × V → ℤ → Result ℤ → Result (Option ℤ) × Entries V
    incremented key left (timeout, v) delta (raise e) = (raise e, left)
    incremented key left (timeout, v) delta (ok n) =
        (ok (some (sum n delta)), insert key (timeout, numbers.str_of (sum n delta)) left)

    abbrev count_up : String → ℤ → Entries V → Option (ℤ × V) → Result (Option ℤ) × Entries V
    count_up key delta left none = (ok none, left)
    count_up key delta left (some entry) = incremented key left entry delta (numbers.int_of entry.1)

    -- `incr`, which keeps the time of the entry
    unfoldable pub incr : ℕ → String → ℤ → Entries V → Result (Option ℤ) × Entries V
    unfolding get sum
    incr now key delta cache =
        let left = (get now key cache).1 in count_up key delta left (lookup key left)
