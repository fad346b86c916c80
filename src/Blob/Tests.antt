-- ===== src/Blob/Tests.antt =====
-- A run of the blob store on concrete input.
use panda_server.Prelude.{ℕ, [], ◌∷◌, ◌≡◌, List, length}
use panda_server.Domain.Error.{ok}
use panda_server.Store.Example.{example_env, empty_store}
use panda_server.Blob.{get, put}
use panda_server.Blob.Laws.{get-put}

abbrev bytes : List ℕ
bytes = 104 ∷ 105 ∷ 10 ∷ []

get-put_example :
    ((put example_env bytes empty_store).0 ≡ ok (example_env.blake3 bytes, length bytes))
    × (get (example_env.blake3 bytes) (put example_env bytes empty_store).1 ≡ ok bytes)
get-put_example = get-put example_env bytes empty_store (λ old h. cc)
