-- ===== src/Cache/Tokens/Lending.antt =====
-- auth_token/_cache.py: a _CachePool that several threads share. Clients are numbered as they are
-- made; a thread that is inside `reserve` holds one, and may be inside more than once.
use keystonemiddleware.Base.{
  ◌≡◌, refl, ◌⊎◌, sym, ◌∙◌, ℕ, suc, ◌+◌, Option, none, some, List, [], ◌∷◌, map, arith, nat_eq, leb,
  length, ltb, Bool-cases, Option-cases, inl, inr, if◌then◌else◌,
}

pub record Lending : Type 0 where
  -- The list's end, where clients are taken and put back, stands first.
  pub free : List ℕ
  -- The reservations, the latest first: the thread and its client.
  pub lent : List (ℕ × ℕ)
  pub made : ℕ

pub data Event : Type 0 where
  enters leaves : ℕ → Event

abbrev new_pool : Lending
new_pool = record { free = []; lent = []; made = 0 }

-- `self.pop()`, or a new client where the list is empty
unfoldable pub acquire : ℕ → Lending → Lending
acquire thread s = elim s.free [
  | [] ↦ record { free = []; lent = (thread, s.made) ∷ s.lent; made = suc s.made }
  | c ∷ rest ↦ record s { free = rest; lent = (thread, c) ∷ s.lent }
]

abbrev kept : ℕ × ℕ → Option (ℕ × List (ℕ × ℕ)) → Option (ℕ × List (ℕ × ℕ))
kept loan none = none
kept loan (some (c, rest)) = some (c, loan ∷ rest)

-- The client of the thread's innermost reservation, and the others.
unfoldable pub held : ℕ → List (ℕ × ℕ) → Option (ℕ × List (ℕ × ℕ))
held thread [] = none
held thread ((t, c) ∷ lent) =
    let deeper = held thread lent in if nat_eq t thread then some (c, lent) else kept (t, c) deeper

-- The `finally` of a reservation: `self.append(c)`.
unfoldable pub release : ℕ → Lending → Lending
unfolding held
release thread s = elim (held thread s.lent) [
  | none ↦ s
  | some (c, rest) ↦ record s { free = c ∷ s.free; lent = rest }
]

unfoldable pub step : Event → Lending → Lending
step (enters thread) s = acquire thread s
step (leaves thread) s = release thread s

-- The pool after a history, the latest event first.
unfoldable pub after : List Event → Lending
unfolding step
after [] = new_pool
after (e ∷ past) = step e (after past)

abbrev pub larger : ℕ → ℕ → ℕ
larger m n = if leb m n then n else m

-- The most reservations that were open at one time.
unfoldable pub peak : List Event → ℕ
peak [] = 0
peak (e ∷ past) = larger (length (after (e ∷ past)).lent) (peak past)

-- How often a client stands in a list.
abbrev pub times : ℕ → List ℕ → ℕ
times c [] = 0
times c (d ∷ cs) = (if nat_eq d c then 1 else 0) + times c cs

abbrev pub clients : List (ℕ × ℕ) → List ℕ
clients = map (λ x. x.1)

held-times :
    (thread d : ℕ) (lent : List (ℕ × ℕ)) {c : ℕ} {rest : List (ℕ × ℕ)}
    → held thread lent ≡ some (c, rest)
    → (times d (clients lent) ≡ times d (c ∷ clients rest)) × (length lent ≡ suc (length rest))
unfolding held
held-times thread d [] h = absurd (ground arith)
held-times thread d ((t, e) ∷ lent) h = elim (Bool-cases (nat_eq t thread)) [
  | inl here ↦ ground arith
  | inr other ↦ elim (Option-cases (held thread lent)) [
    | inl gone ↦ ground arith
    | inr ((c, rest), deeper) ↦ ground (arith, held-times thread d lent deeper)
  ]
]

record Sound (s : Lending) : Type 0 where
  one_place : (c : ℕ) → times c s.free + times c (clients s.lent) ≡ (if ltb c s.made then 1 else 0)
  none_lost : length s.free + length s.lent ≡ s.made

List-cases : (xs : List ℕ) → (xs ≡ []) ⊎ ((x : ℕ) × (rest : List ℕ) × (xs ≡ x ∷ rest))
List-cases [] = inl refl
List-cases (x ∷ rest) = inr (x, rest, refl)

acquire-Sound : (thread : ℕ) (s : Lending) → Sound s → Sound (acquire thread s)
unfolding acquire
acquire-Sound thread s v = elim (List-cases s.free) [
  | inl empty ↦
      rw (empty, acquire)
        (record {
          one_place = λ d. ground (arith, v.one_place d);
          none_lost = ground (arith, v.none_lost);
        })
  | inr (c, rest, there) ↦
      rw (there, acquire)
        (record {
          one_place = λ d. ground (arith, v.one_place d);
          none_lost = ground (arith, v.none_lost);
        })
]

release-Sound : (thread : ℕ) (s : Lending) → Sound s → Sound (release thread s)
unfolding release
release-Sound thread s v = elim (Option-cases (held thread s.lent)) [
  | inl none_held ↦ rw (none_held, release) v
  | inr ((c, rest), found) ↦
      rw (found, release)
        (record {
          one_place = λ d. ground (arith, (held-times thread d s.lent found).0, v.one_place d);
          none_lost = ground (arith, (held-times thread c s.lent found).1, v.none_lost);
        })
]

after-Sound : (past : List Event) → Sound (after past)
unfolding after step
after-Sound [] = record { one_place = λ c. ground arith; none_lost = refl }
after-Sound (enters thread ∷ past) = acquire-Sound thread (after past) (after-Sound past)
after-Sound (leaves thread ∷ past) = release-Sound thread (after past) (after-Sound past)

-- Whatever the threads do, each client that was made is at one place: free, or held by one
-- reservation.
pub after_one_place :
    (past : List Event) (c : ℕ)
    → times c (after past).free + times c (clients (after past).lent)
      ≡ (if ltb c (after past).made then 1 else 0)
after_one_place past = (after-Sound past).one_place

acquire-made :
    (thread : ℕ) (s : Lending)
    → Sound s
    → larger (length (acquire thread s).lent) s.made ≡ (acquire thread s).made
unfolding acquire
acquire-made thread s v = ground arith

release-made :
    (thread : ℕ) (s : Lending)
    → Sound s
    → larger (length (release thread s).lent) s.made ≡ (release thread s).made
unfolding release
release-made thread s v = elim (Option-cases (held thread s.lent)) [
  | inl none_held ↦ rw (none_held, release) (ground arith)
  | inr ((c, rest), found) ↦
      rw (found, release) (ground (arith, (held-times thread c s.lent found).1))
]

made-peak_alone : (past : List Event) → (after past).made ≡ peak past
unfolding peak after step
made-peak_alone [] = refl
made-peak_alone (enters thread ∷ past) =
    rw (← made-peak_alone past) (sym (acquire-made thread (after past) (after-Sound past)))
made-peak_alone (leaves thread ∷ past) =
    rw (← made-peak_alone past) (sym (release-made thread (after past) (after-Sound past)))

-- No client is lost and none is made without need: there are as many as were ever held at one time.
pub made-peak :
    (past : List Event)
    → ((after past).made ≡ peak past)
      × (length (after past).free + length (after past).lent ≡ peak past)
made-peak past = (made-peak_alone past, (after-Sound past).none_lost ∙ made-peak_alone past)
