-- ===== src/Tests/Histories.antt =====
-- auth_token/_cache.py: histories of calls of _FakeClient and of threads that share a _CachePool.
use keystonemiddleware.Base.{◌≡◌, ℕ, ◌+◌, ltb, some, List, [], ◌∷◌, arith, length, if◌then◌else◌}
use keystonemiddleware.Exec.{ok}
use keystonemiddleware.Cache.Memory.{get, pos, ℤ, negsuc, is_expired, timeout_at, Numbers, sum}
use keystonemiddleware.Cache.Memory.History.{
  History, Ordered, gets, sets, adds, incrs, deletes, after, get-after, promised,
}
use keystonemiddleware.Cache.Tokens.Lending as Lending
use keystonemiddleware.Cache.Tokens.Lending.{
  Event, enters, leaves, times, clients, peak, after_one_place, made-peak,
}

abbrev size : ℤ → ℕ
size (pos n) = n
size (negsuc n) = 0

abbrev numbers : Numbers ℕ
numbers = record { int_of = λ n. ok (pos n); str_of = size }

abbrev calls : History ℕ
calls =
    (9, incrs "b" (pos 2))
    ∷ (9, adds "b" 5 (pos 1))
    ∷ (8, adds "a" 4 (pos 0))
    ∷ (7, gets "a")
    ∷ (5, sets "b" 3 (pos 2))
    ∷ (4, deletes "a")
    ∷ (3, adds "a" 2 (pos 9))
    ∷ (3, sets "a" 1 (pos 5))
    ∷ []

calls-Ordered : Ordered 9 calls
unfolding Ordered
calls-Ordered = ground arith

get-after_example : (get 9 "b" (after numbers calls)).0 ≡ some 7
unfolding promised is_expired timeout_at sum
get-after_example = get-after numbers calls 9 "b" calls-Ordered

abbrev threads : List Event
threads = leaves 2 ∷ enters 1 ∷ leaves 1 ∷ enters 2 ∷ enters 1 ∷ []

after_one_place_example :
    times 1 (Lending.after threads).free + times 1 (clients (Lending.after threads).lent)
    ≡ (if ltb 1 (Lending.after threads).made then 1 else 0)
after_one_place_example = after_one_place threads 1

made-peak_example :
    ((Lending.after threads).made ≡ 2)
    × (length (Lending.after threads).free + length (Lending.after threads).lent ≡ 2)
unfolding peak Lending.after Lending.release Lending.acquire
made-peak_example = made-peak threads
