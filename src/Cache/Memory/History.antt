-- ===== src/Cache/Memory/History.antt =====
-- auth_token/_cache.py: what _FakeClient answers after any history of calls.
use keystonemiddleware.Base.{
  lookup, ◌≡◌, refl, ◌∙◌, ℕ, ◌≤◌, String, Option, none, some, List, [], ◌∷◌, ◌==◌, arith,
  Option-cases, inl, inr, if◌then◌else◌,
}
use keystonemiddleware.Cache.Memory.{ℤ, Entries, get, set, add, delete, Numbers, incr}
use keystonemiddleware.Cache.Memory.View.{view, Distinct, get_lem}
use keystonemiddleware.Cache.Memory.Promise.{
  get-view, set-view, delete-view, lasts, is_expired-lasts, incr-view, bump,
}

pub data Call {ℓ} (V : Type ℓ) : Type ℓ where
  gets deletes : String → Call V
  sets adds : String → V → ℤ → Call V
  incrs : String → ℤ → Call V

-- The calls with their times, the latest first.
abbrev pub History {ℓ} : Type ℓ → Type ℓ
History V = List (ℕ × Call V)

module _ {ℓ} {V : Type ℓ} where
  -- Time does not run backwards, up to `now`.
  unfoldable pub Ordered : ℕ → History V → Type 0
  Ordered now [] = Unit
  Ordered now ((time, _) ∷ past) = (time ≤ now) × Ordered time past

  abbrev while_it_lasts : ℕ → ℕ → V → ℤ → Option V
  while_it_lasts now later v time = if lasts now later time then some v else none

  set-lasts :
      (now later : ℕ) (key j : String) (v : V) (time : ℤ) (cache : Entries V)
      → Distinct cache
      → now ≤ later
      → view later (set now key v time cache) j
        ≡ (if key == j then while_it_lasts now later v time else view later cache j)
  set-lasts now later key j v time cache d le =
      ground
        (arith, (set-view now later key j v time cache d).0, is_expired-lasts now later time le)

  -- What an `add` at `now` leaves a key with, by what it held then and what it would hold now.
  abbrev kept_or : Option V → Option V → Option V → Option V
  kept_or none fresh old = fresh
  kept_or (some _) fresh old = old

  Ordered-later :
      (past : History V) (now later : ℕ) → now ≤ later → Ordered now past → Ordered later past
  unfolding Ordered
  Ordered-later [] now later le o = tt
  Ordered-later ((time, _) ∷ past) now later le (before, o) = (ground arith, o)

module _ {ℓ} {V : Type ℓ} (numbers : Numbers V) where
  unfoldable pub step : ℕ → Call V → Entries V → Entries V
  step now (gets key) cache = (get now key cache).1
  step now (sets key v time) cache = set now key v time cache
  step now (adds key v time) cache = (add now key v time cache).1
  step now (incrs key delta) cache = (incr numbers now key delta cache).1
  step now (deletes key) cache = delete key cache

  -- The client starts empty.
  unfoldable pub after : History V → Entries V
  unfolding step
  after [] = []
  after ((now, call) ∷ past) = step now call (after past)

  -- What a key holds after a history, without a cache: the last write of the key counts, until its
  -- time is over, an `add` is a write where the key held nothing, and an `incr` changes a number alone.
  unfoldable pub promised : History V → ℕ → String → Option V
  promised [] later j = none
  promised ((now, gets key) ∷ past) later j = promised past later j
  promised ((now, sets key v time) ∷ past) later j =
      let old = promised past later j in if key == j then while_it_lasts now later v time else old
  promised ((now, adds key v time) ∷ past) later j =
      let old = promised past later j in
      let held = promised past now key in
      if key == j then kept_or held (while_it_lasts now later v time) old else old
  promised ((now, incrs key delta) ∷ past) later j =
      let old = promised past later j in if key == j then bump numbers delta old else old
  promised ((now, deletes key) ∷ past) later j =
      let old = promised past later j in if key == j then none else old

  add-Distinct :
      (now : ℕ) (key : String) (v : V) (time : ℤ) (cache : Entries V)
      → Distinct cache
      → Distinct (add now key v time cache).1
  unfolding add
  add-Distinct now key v time cache d =
      let (_, _, distinct) = get-view now now key key cache d (ground arith) in
      elim (Option-cases (get now key cache).0) [
        | inl absent ↦
            rw (absent) (set-view now now key key v time (get now key cache).1 distinct).1
        | inr (w, there) ↦ rw (there) distinct
      ]

  step-Distinct :
      (now : ℕ) (call : Call V) (cache : Entries V)
      → Distinct cache
      → Distinct (step now call cache)
  unfolding step
  step-Distinct now (gets key) cache d = (get-view now now key key cache d (ground arith)).2
  step-Distinct now (sets key v time) cache d = (set-view now now key key v time cache d).1
  step-Distinct now (adds key v time) cache d = add-Distinct now key v time cache d
  step-Distinct now (incrs key delta) cache d =
      (incr-view numbers now now key key delta cache d (ground arith)).1
  step-Distinct now (deletes key) cache d = (delete-view now key key cache d).1

  pub after-Distinct : (past : History V) → Distinct (after past)
  unfolding after Distinct
  after-Distinct [] = tt
  after-Distinct ((now, call) ∷ past) = step-Distinct now call (after past) (after-Distinct past)

  view-add :
      (now later : ℕ) (key j : String) (v : V) (time : ℤ) (cache : Entries V)
      → Distinct cache
      → now ≤ later
      → view later (add now key v time cache).1 j ≡ (
          if key == j
          then kept_or (view now cache key) (while_it_lasts now later v time) (view later cache j)
          else view later cache j)
  unfolding add
  view-add now later key j v time cache d le =
      let (answer, kept, distinct) = get-view now later key j cache d le in
      elim (Option-cases (get now key cache).0) [
        | inl absent ↦
            rw (absent, ← answer, absent)
              (set-lasts now later key j v time (get now key cache).1 distinct le
                ∙ ground (arith, kept))
        | inr (w, there) ↦ rw (there, ← answer, there) (ground (arith, kept))
      ]

  pub view-after :
      (past : History V) (now : ℕ) (j : String)
      → Ordered now past
      → view now (after past) j ≡ promised past now j
  unfolding after step promised Ordered view lookup
  view-after [] now j o = refl
  view-after ((time, gets key) ∷ past) now j (le, o) =
      (get-view time now key j (after past) (after-Distinct past) le).1
      ∙ view-after past now j (Ordered-later past time now le o)
  view-after ((time, sets key v t) ∷ past) now j (le, o) = ground (
    arith,
    set-lasts time now key j v t (after past) (after-Distinct past) le,
    view-after past now j (Ordered-later past time now le o),
  )
  view-after ((time, adds key v t) ∷ past) now j (le, o) =
      rw
        (
          view-add time now key j v t (after past) (after-Distinct past) le,
          view-after past time key o,
          view-after past now j (Ordered-later past time now le o),
        )
        refl
  view-after ((time, incrs key delta) ∷ past) now j (le, o) =
      rw
        (
          (incr-view numbers time now key j delta (after past) (after-Distinct past) le).0,
          view-after past now j (Ordered-later past time now le o),
        )
        refl
  view-after ((time, deletes key) ∷ past) now j (le, o) = ground (
    arith,
    (delete-view now key j (after past) (after-Distinct past)).0,
    view-after past now j (Ordered-later past time now le o),
  )

  -- After any history of calls at times that do not run backwards, get answers what the history
  -- promises the key: the last write counts until its time is over, an add is a write where the key
  -- held nothing, and an incr changes a number and not its time.
  pub get-after :
      (past : History V) (now : ℕ) (key : String)
      → Ordered now past
      → (get now key (after past)).0 ≡ promised past now key
  get-after past now key o =
      get_lem now key (after past) (after-Distinct past) ∙ view-after past now key o
