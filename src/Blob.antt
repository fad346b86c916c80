-- ===== src/Blob.antt =====
-- crates/blob/src/lib.rs: the content-addressed files. Failures of the file system are not modelled,
-- and a hash is taken for ASCII, as blake3's hexadecimal is: `split_at` counts bytes there.
pub mod Laws
pub mod Tests
use Prim.Native.String
use Prim.Native.String.{[], ◌∷◌}
use mathlib.Core.List
use panda_server.Prelude.{
  ℕ, zero, suc, leb, String, Bool, true, false, ◌&&◌, Option, none, some, List, ◌==◌, length,
  if◌then◌else◌, is_some,
}
use panda_server.Prelude.Sql.{find, delete}
use panda_server.Prelude.Text.{char_count, is_empty}
use panda_server.Domain.Etag.{take_chars}
use panda_server.Domain.Error.{Result, ok, not_found, ok_or}
use panda_server.Store.Env.{Env}
use panda_server.Store.State.{Store}
use panda_server.Store.Action.{Action}

abbrev drop_chars : ℕ → String → String
drop_chars zero s = s
drop_chars (suc n) [] = []
drop_chars (suc n) (c ∷ s) = drop_chars n s

-- The components below the root, `a/c/rest`.
abbrev pub path_for_hash : String → List String
path_for_hash hash =
    let b = drop_chars 2 hash in
    let long = leb 2 (char_count b) in
    let rest = if long then drop_chars 2 b else [] in
    let c = if long then take_chars 2 b else b in
    List.◌∷◌ (take_chars 2 hash)
      (List.◌∷◌ c (List.◌∷◌ (if is_empty rest then hash else rest) List.[]))

pub same_path : List String → List String → Bool
same_path List.[] List.[] = true
same_path (List.◌∷◌ a p) (List.◌∷◌ b q) = a == b && same_path p q
same_path List.[] (List.◌∷◌ b q) = false
same_path (List.◌∷◌ a p) List.[] = false

-- The content of the file at a path.
abbrev pub file : List String → Store → Option (List String × List ℕ)
file path s = find (λ f. same_path f.0 path) s.files

abbrev pub content : Option (List String × List ℕ) → Option (List ℕ)
content none = none
content (some f) = some f.1

unfoldable pub get : String → Store → Result (List ℕ)
unfolding same_path
get hash s =
    ok_or (content (file (path_for_hash hash) s)) (not_found (String.◌++◌ "blob not found: " hash))

-- The file is written only if there is none at its path.
unfoldable pub put : Env → List ℕ → Action (String × ℕ)
unfolding same_path
put env bytes s =
    let hash = env.blake3 bytes in
    let path = path_for_hash hash in
    let written : Store = record s { files = List.◌++◌ s.files (List.◌∷◌ (path, bytes) List.[]) } in
    (ok (hash, length bytes), if is_some (file path s) then s else written)

unfoldable pub exists : String → Store → Bool
unfolding same_path
exists hash s = is_some (file (path_for_hash hash) s)

-- Whatever refers to the hash, the file is removed.
unfoldable pub delete_if_unreferenced : String → Action (Unit {0})
unfolding same_path
delete_if_unreferenced hash s =
    let path = path_for_hash hash in
    let removed : Store = record s { files = delete (λ f. same_path f.0 path) s.files } in
    (ok tt, removed)
