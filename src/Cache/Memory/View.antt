-- ===== src/Cache/Memory/View.antt =====
-- auth_token/_cache.py: the abstract cache behind _FakeClient, a map from keys to values at a time.
use keystonemiddleware.Base.{
  ◌≡◌, refl, sym, ap, ◌∙◌, ℕ, ◌≤◌, String, true, false, Option, none, some, [], ◌∷◌, ◌==◌, eq_iff,
  arith, lookup, insert, lookup-insert, erase, lookup-erase, inl, inr, Bool-cases, Option-cases,
  if◌then◌else◌,
}
use keystonemiddleware.Cache.Memory.{ℤ, pos, negsuc, is_expired, Entries, expunge, get}

is_expired-later :
    (now later : ℕ) (timeout : ℤ)
    → now ≤ later
    → is_expired now timeout ≡ true
    → is_expired later timeout ≡ true
unfolding is_expired
is_expired-later now later (pos n) le h = ground arith
is_expired-later now later (negsuc n) le h = refl

module _ {ℓ} {V : Type ℓ} where
  abbrev pub live : ℕ → Option (ℤ × V) → Option V
  live now none = none
  live now (some (timeout, v)) = if is_expired now timeout then none else some v

  -- The abstract cache: what a key holds at a time.
  unfoldable pub view : ℕ → Entries V → String → Option V
  view now cache key = live now (lookup key cache)

  -- No key stands twice.
  unfoldable pub Distinct : Entries V → Type ℓ
  Distinct [] = Unit
  Distinct ((k, _) ∷ cache) = (lookup k cache ≡ none) × Distinct cache

  pub lookup-expunge :
      (now later : ℕ) (key : String) (cache : Entries V)
      → now ≤ later
      → Distinct cache
      → live later (lookup key (expunge now cache)) ≡ live later (lookup key cache)
  unfolding lookup expunge Distinct
  lookup-expunge now later key [] le d = refl
  lookup-expunge now later key ((k, (timeout, v)) ∷ cache) le (fresh, d) =
      elim (Bool-cases (is_expired now timeout)) [
        | inr kept ↦ elim (Bool-cases (k == key)) [
          | inl here ↦ rw (kept, here) refl
          | inr other ↦ rw (kept, other) (lookup-expunge now later key cache le d)
        ]
        | inl gone ↦ elim (Bool-cases (k == key)) [
          | inl here ↦
              rw
                (
                  gone,
                  here,
                  is_expired-later now later timeout le gone,
                  lookup-expunge now later key cache le d,
                  ← (eq_iff k key).0 here,
                  fresh,
                )
                refl
          | inr other ↦ rw (gone, other) (lookup-expunge now later key cache le d)
        ]
      ]

  lookup-expunge_kept :
      (now : ℕ) (key : String) (cache : Entries V) {timeout : ℤ} {v : V}
      → lookup key (expunge now cache) ≡ some (timeout, v)
      → is_expired now timeout ≡ false
  unfolding lookup expunge
  lookup-expunge_kept now key [] found = absurd (ground arith)
  lookup-expunge_kept now key ((k, (timeout, v)) ∷ cache) {timeout = timeout'} {v = v'} found =
      elim (Bool-cases (is_expired now timeout)) [
        | inl gone ↦ lookup-expunge_kept now key cache (rw (gone) at found)
        | inr kept ↦ elim (Bool-cases (k == key)) [
          | inl here ↦
              let first : is_expired now timeout ≡ false = kept in
              let same : ◌≡◌ {A = Option (ℤ × V)} (some (timeout, v)) (some (timeout', v')) =
                rw (kept, here) at found in
              ground arith
          | inr other ↦ lookup-expunge_kept now key cache (rw (kept, other) at found)
        ]
      ]

  pub get_lem :
      (now : ℕ) (key : String) (cache : Entries V)
      → Distinct cache
      → (get now key cache).0 ≡ view now cache key
  unfolding get view
  get_lem now key cache d = elim (Option-cases (lookup key (expunge now cache))) [
    | inl gone ↦
        rw (gone) (sym (ap (live now) gone) ∙ lookup-expunge now now key cache (ground arith) d)
    | inr ((timeout, v), kept) ↦
        rw
          (
            ← lookup-expunge now now key cache (ground arith) d,
            kept,
            lookup-expunge_kept now key cache kept,
          )
          refl
  ]

  insert-fresh :
      (i k : String) (e : ℤ × V) (cache : Entries V)
      → (i == k) ≡ false
      → lookup i cache ≡ none
      → lookup i (insert k e cache) ≡ none
  insert-fresh i k e cache other fresh =
      ground (arith, lookup-insert i k e cache, eq_iff i k, eq_iff k i)

  erase-fresh :
      (i k : String) (cache : Entries V) → lookup i cache ≡ none → lookup i (erase k cache) ≡ none
  erase-fresh i k cache fresh = ground (arith, lookup-erase i k cache)

  pub Distinct-insert :
      (k : String) (e : ℤ × V) (cache : Entries V) → Distinct cache → Distinct (insert k e cache)
  unfolding insert Distinct lookup
  Distinct-insert k e [] d = (refl, tt)
  Distinct-insert k e ((i, w) ∷ cache) (fresh, d) = elim (Bool-cases (i == k)) [
    | inl here ↦ rw (here) (rw (← (eq_iff i k).0 here) fresh, d)
    | inr other ↦ rw (other) (insert-fresh i k e cache other fresh, Distinct-insert k e cache d)
  ]

  expunge-none :
      (now : ℕ) (key : String) (cache : Entries V)
      → lookup key cache ≡ none
      → lookup key (expunge now cache) ≡ none
  unfolding lookup expunge
  expunge-none now key [] none_there = refl
  expunge-none now key ((i, (timeout, v)) ∷ cache) none_there =
      ground (arith, expunge-none now key cache)

  pub Distinct-expunge :
      (now : ℕ) (cache : Entries V) → Distinct cache → Distinct (expunge now cache)
  unfolding Distinct expunge
  Distinct-expunge now [] d = tt
  Distinct-expunge now ((k, (timeout, v)) ∷ cache) (fresh, d) =
      elim (Bool-cases (is_expired now timeout)) [
        | inl gone ↦ rw (gone) (Distinct-expunge now cache d)
        | inr kept ↦ rw (kept) (expunge-none now k cache fresh, Distinct-expunge now cache d)
      ]

  pub Distinct-erase : (k : String) (cache : Entries V) → Distinct cache → Distinct (erase k cache)
  unfolding Distinct erase
  Distinct-erase k [] d = tt
  Distinct-erase k ((i, w) ∷ cache) (fresh, d) = elim (Bool-cases (i == k)) [
    | inl here ↦ rw (here) (Distinct-erase k cache d)
    | inr other ↦ rw (other) (erase-fresh i k cache fresh, Distinct-erase k cache d)
  ]
