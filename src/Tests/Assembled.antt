-- ===== src/Tests/Assembled.antt =====
-- auth_token: AuthProtocol with its own cache, on a token that comes twice.
use keystonemiddleware.Base.{
  ◌≡◌, refl, ◌+◌, ◌≤◌, ℕ, Bool, true, false, some, List, [], ◌∷◌, Bytes, arith, eq_iff, lookup,
}
use keystonemiddleware.Exec.{ok}
use keystonemiddleware.Json.{Json, null, str, obj, field, end, truthy}
use keystonemiddleware.Identity.{IdentityServer, verify_token}
use keystonemiddleware.Identity.Asked.{counted}
use keystonemiddleware.Cache.Memory.{Entries, get as memory_get}
use keystonemiddleware.Cache.Tokens.{JsonCodec, get}
use keystonemiddleware.Cache.Tokens.Pools.{Pool}
use keystonemiddleware.Cache.Tokens.Codecs.{plain_codec}
use keystonemiddleware.Cache.Tokens.Stored.{
  memory_client, memory_client-ClientLaws, plain_codec-RoundTrips,
}
use keystonemiddleware.AuthProtocol.{Services, fetch_token}
use keystonemiddleware.AuthProtocol.Assembled.{assembled}
use keystonemiddleware.AuthProtocol.Assembled.Asked.{asked, fetch_token-asked}
use keystonemiddleware.Tests.Storage.{options, empty_pool}
use keystonemiddleware.Tests.Tokens.{remote, identity_options}

-- Toy JSON: one body alone.
abbrev body : Json
body = obj (field "token" (obj (field "user" (str "u1") end)) end)

abbrev json : JsonCodec
json = record { dumps = λ v. 123 ∷ 125 ∷ []; loads = λ s. ok body }

abbrev State : Type 0
State = Pool (Entries Bytes) × IdentityServer (List Bool × ℕ)

abbrev protocol : Services State
protocol =
    assembled (memory_client 9) options (plain_codec (λ s. s)) json (counted remote)
      identity_options

abbrev fresh : State
fresh =
    (empty_pool, record { adapter_version = some (3, 0); strategy_built = true; world = ([], 0) })

unfoldable missed : State
unfolding assembled
missed = (protocol.cache_get "good" fresh).1

unfoldable confirmed : State
unfolding assembled missed
confirmed = (protocol.verify_token "good" false missed).1

misses : protocol.cache_get "good" fresh ≡ (ok null, missed)
unfolding missed get memory_get lookup
misses = refl

confirms : protocol.verify_token "good" false missed ≡ (ok body, confirmed)
unfolding confirmed missed verify_token truthy
confirms = refl

fetch_token-asked_example :
    let (answer, after) = fetch_token protocol false "good" false fresh in
    let (later, after_later) = fetch_token protocol false "good" true after in
    (answer ≡ ok body)
    × (later ≡ answer)
    × (after_later.1 ≡ after.1)
    × (asked
          (memory_client 9)
          options
          (plain_codec (λ s. s))
          json
          remote
          identity_options
          after_later
        ≤ 0 + 2)
fetch_token-asked_example =
    fetch_token-asked (memory_client 9) options (plain_codec (λ s. s)) json remote identity_options
      (memory_client-ClientLaws 9 300) (plain_codec-RoundTrips (λ s. s))
      (obj (field "user" (str "u1") end)) (ground arith) refl false "good" false true fresh missed
      confirmed (ground (arith, eq_iff "good" "")) misses confirms
