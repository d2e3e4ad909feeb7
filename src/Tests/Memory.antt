-- ===== src/Tests/Memory.antt =====
-- auth_token/_cache.py and the standard library's base64: a cache in memory, and encodings.
use keystonemiddleware.Base.{◌≡◌, refl, ℕ, false, none, some, [], ◌∷◌, lookup, insert, erase}
use keystonemiddleware.Exec.{ok, raise, value_error}
use keystonemiddleware.Base64.{b64encode, b64decode, letter, decode_from, sextet}
use keystonemiddleware.Cache.Memory
use keystonemiddleware.Cache.Memory.{ℤ, pos, negsuc, Entries, is_expired, timeout_at, expunge}
use keystonemiddleware.Cache.Memory.View.{Distinct}

abbrev two_entries : Entries ℕ
two_entries = ("a", (pos 5, 1)) ∷ ("b", (pos 0, 2)) ∷ []

two_entries-Distinct : Distinct two_entries
unfolding Distinct lookup
two_entries-Distinct = (refl, (refl, tt))

runs :
    ((Memory.get 4 "a" two_entries).0 ≡ some 1)
    × ((Memory.get 5 "a" two_entries) ≡ (none, ("b", (pos 0, 2)) ∷ []))
    × ((Memory.get 9 "c" (Memory.set 9 "c" 3 (negsuc 0) two_entries)).0 ≡ none)
    × ((Memory.add 4 "a" 7 (pos 0) two_entries).0 ≡ false)
    × (Memory.delete "a" two_entries ≡ ("b", (pos 0, 2)) ∷ [])
unfolding Memory.get Memory.set Memory.add Memory.delete expunge lookup insert erase is_expired
    timeout_at
runs = (refl, refl, refl, refl, refl)

-- "Man" is TWFu, and the text ends within a group without its padding.
base64_runs :
    (b64encode (77 ∷ 97 ∷ 110 ∷ []) ≡ 84 ∷ 87 ∷ 70 ∷ 117 ∷ [])
    × (b64encode (77 ∷ []) ≡ 84 ∷ 81 ∷ 61 ∷ 61 ∷ [])
    × (b64decode (84 ∷ 81 ∷ 10 ∷ 61 ∷ 61 ∷ 84 ∷ []) ≡ ok (77 ∷ []))
    × (b64decode (84 ∷ 81 ∷ 61 ∷ []) ≡ raise value_error)
unfolding b64encode letter b64decode decode_from sextet
base64_runs = (refl, refl, refl, refl)
