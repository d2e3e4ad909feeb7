-- ===== src/Cache/Memory/Promise.antt =====
-- auth_token/_cache.py: the operations of _FakeClient against the abstract cache of View.
use keystonemiddleware.Base.{
  ◌≡◌, refl, ◌∙◌, ℕ, zero, suc, ◌+◌, ◌≤◌, String, Bool, not, Option, none, some, ◌==◌, ◌||◌, eq_iff,
  arith, ltb, nat_eq, lookup, lookup-insert, lookup-insert_self, lookup-erase, Option-cases,
  Bool-cases, inl, inr, if◌then◌else◌,
}
use keystonemiddleware.Exec.{Result, ok, raise, Result-cases}
use keystonemiddleware.Cache.Memory.{
  ℤ, pos, negsuc, ◌+ℤ◌, is_expired, Entries, get, set, add, delete, timeout_at, Numbers, sum,
  count_up, incr,
}
use keystonemiddleware.Cache.Memory.View.{
  view, live, Distinct, lookup-expunge, get_lem, Distinct-insert, Distinct-expunge, Distinct-erase,
}

pub is_expired-timeout_at :
    (now later time : ℕ)
    → is_expired later (timeout_at now (pos time)) ≡ not (nat_eq time 0 || ltb later (now + time))
unfolding is_expired timeout_at
is_expired-timeout_at now later zero = refl
is_expired-timeout_at now later (suc n) = ground arith

-- Whether a value that was stored at `now` for `time` seconds is there at `later`: before so many seconds
-- are over, for ever where they are none, and at no time for a negative number, unless the clock shows
-- so many seconds, which makes the end 0.
abbrev pub lasts : ℕ → ℕ → ℤ → Bool
lasts now later (pos n) = nat_eq n 0 || ltb later (now + n)
lasts now later (negsuc n) = nat_eq now (suc n)

pub is_expired-lasts :
    (now later : ℕ) (time : ℤ)
    → now ≤ later
    → is_expired later (timeout_at now time) ≡ not (lasts now later time)
unfolding is_expired timeout_at ◌+ℤ◌
is_expired-lasts now later (pos n) le = is_expired-timeout_at now later n
is_expired-lasts now later (negsuc n) le = ground arith

module _ {ℓ} {V : Type ℓ} where
  -- get answers what the abstract cache holds, and deletes no entry that a key shows now or later.
  pub get-view :
      (now later : ℕ) (key j : String) (cache : Entries V)
      → Distinct cache
      → now ≤ later
      → ((get now key cache).0 ≡ view now cache key)
        × (view later (get now key cache).1 j ≡ view later cache j)
        × Distinct (get now key cache).1
  unfolding get view
  get-view now later key j cache d le =
      (get_lem now key cache d, lookup-expunge now later j cache le d, Distinct-expunge now cache d)

  -- set makes the key show the value until the time is over, and keeps the other keys.
  pub set-view :
      (now later : ℕ) (key j : String) (v : V) (time : ℤ) (cache : Entries V)
      → Distinct cache
      → (view later (set now key v time cache) j ≡ (
          if key == j
          then (if is_expired later (timeout_at now time) then none else some v)
          else view later cache j))
        × Distinct (set now key v time cache)
  unfolding set view
  set-view now later key j v time cache d = (
    ground (arith, lookup-insert j key (timeout_at now time, v) cache),
    Distinct-insert key _ cache d,
  )

  -- A value is there for `time` seconds, and for ever where that is 0.
  pub get-set :
      (now later : ℕ) (key : String) (v : V) (time : ℕ) (cache : Entries V)
      → Distinct cache
      → (get later key (set now key v (pos time) cache)).0
        ≡ (if nat_eq time 0 || ltb later (now + time) then some v else none)
  get-set now later key v time cache d =
      let (shown, distinct) = set-view now later key key v (pos time) cache d in
      rw (get_lem later key (set now key v (pos time) cache) distinct, shown)
        (ground (arith, is_expired-timeout_at now later time, eq_iff key key))

  -- delete removes the key alone.
  pub delete-view :
      (now : ℕ) (key j : String) (cache : Entries V)
      → Distinct cache
      → (view now (delete key cache) j ≡ (if key == j then none else view now cache j))
        × Distinct (delete key cache)
  unfolding delete view
  delete-view now key j cache d =
      (ground (arith, lookup-erase j key cache), Distinct-erase key cache d)

  -- add sets a key that shows nothing, and changes nothing else.
  pub add-view :
      (now later : ℕ) (key j : String) (v : V) (time : ℤ) (cache : Entries V)
      → Distinct cache
      → now ≤ later
      → view later (add now key v time cache).1 j ≡ (
          if (add now key v time cache).0
          then view later (set now key v time cache) j
          else view later cache j)
  unfolding add get
  add-view now later key j v time cache d le =
      let (_, kept, distinct) = get-view now later key j cache d le in
      elim (Option-cases (get now key cache).0) [
        | inl absent ↦ rw (absent) (
            (set-view now later key j v time (get now key cache).1 distinct).0
            ∙ ground (arith, kept, (set-view now later key j v time cache d).0))
        | inr (w, there) ↦ rw (there) kept
      ]

  module _ (numbers : Numbers V) where
    -- What a value becomes, and one that is no number stays as it is.
    abbrev renewed : ℤ → V → Result ℤ → V
    renewed delta v (ok n) = numbers.str_of (sum n delta)
    renewed delta v (raise e) = v

    abbrev pub bumped : ℤ → V → V
    bumped delta v = renewed delta v (numbers.int_of v)

    abbrev pub bump : ℤ → Option V → Option V
    bump delta none = none
    bump delta (some v) = some (bumped delta v)

    bump-live :
        (later : ℕ) (timeout : ℤ) (v : V) (delta : ℤ)
        → bump delta (live later (some (timeout, v))) ≡ live later (some (timeout, bumped delta v))
    bump-live later timeout v delta = elim (Bool-cases (is_expired later timeout)) [
      | inl gone ↦ rw (gone) refl
      | inr kept ↦ rw (kept) refl
    ]

    -- What count_up leaves of the entries.
    view-count_up :
        (later : ℕ) (key j : String) (delta : ℤ) (left : Entries V)
        → live later (lookup j (count_up numbers key delta left (lookup key left)).1) ≡ (
            if key == j
            then bump delta (live later (lookup j left))
            else live later (lookup j left))
    view-count_up later key j delta left = elim (Bool-cases (key == j)) [
      | inr other ↦ rw (other) (elim (Option-cases (lookup key left)) [
        | inl gone ↦ rw (gone) refl
        | inr ((timeout, v), there) ↦ elim (Result-cases (numbers.int_of v)) [
          | inl (n, read) ↦
              rw
                (
                  there,
                  read,
                  lookup-insert j key (timeout, numbers.str_of (sum n delta)) left,
                  other,
                )
                refl
          | inr (x, failed) ↦ rw (there, failed) refl
        ]
      ])
      | inl here ↦
          rw (here, ← (eq_iff key j).0 here)
            (elim (Option-cases (lookup key left)) [
              | inl gone ↦ rw (gone, gone) refl
              | inr ((timeout, v), there) ↦ elim (Result-cases (numbers.int_of v)) [
                | inl (n, read) ↦
                    rw
                      (
                        there,
                        read,
                        lookup-insert_self key (timeout, numbers.str_of (sum n delta)) left,
                        bump-live later timeout v delta,
                        read,
                      )
                      refl
                | inr (x, failed) ↦
                    rw (there, failed, there, bump-live later timeout v delta, failed) refl
              ]
            ])
    ]

    count_up-Distinct :
        (key : String) (delta : ℤ) (left : Entries V) (found : Option (ℤ × V))
        → Distinct left
        → Distinct (count_up numbers key delta left found).1
    count_up-Distinct key delta left none d = d
    count_up-Distinct key delta left (some (timeout, v)) d =
        elim (Result-cases (numbers.int_of v)) [
          | inl (n, read) ↦ rw (read) (Distinct-insert key _ left d)
          | inr (x, failed) ↦ rw (failed) d
        ]

    -- incr changes the value of the key alone, and leaves the time until which it is shown.
    pub incr-view :
        (now later : ℕ) (key j : String) (delta : ℤ) (cache : Entries V)
        → Distinct cache
        → now ≤ later
        → (view later (incr numbers now key delta cache).1 j
            ≡ (if key == j then bump delta (view later cache j) else view later cache j))
          × Distinct (incr numbers now key delta cache).1
    unfolding incr view
    incr-view now later key j delta cache d le =
        let left = (get now key cache).1 in
        let (_, kept, distinct) = get-view now later key j cache d le in
        (
          rw (← kept) (view-count_up later key j delta left),
          count_up-Distinct key delta left (lookup key left) distinct,
        )
