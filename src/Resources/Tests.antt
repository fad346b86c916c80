-- ===== src/Resources/Tests.antt =====
-- Attaching a file twice.
use panda_server.Prelude.{none, [], ◌∷◌, ◌≡◌, refl, map}
use panda_server.Domain.Error.{ok}
use panda_server.Store.State.{Store}
use panda_server.Store.Example.{empty_store}
use panda_server.Resources.{Upload, new_resource, to_proto, create, find_by_hash, insert_resource}
use panda_server.Store.Action.{◌>>=◌}

abbrev picture : Upload
picture = record {
  memo_id = none;
  hash = "ff00";
  kind = "image";
  mime_type = none;
  filename = none;
  byte_size = 3;
}

abbrev filed : Store
filed = (create "w" picture "r1" 50 empty_store empty_store).1

-- The second call finds the row of the first, and changes nothing.
same_row :
    create "w" picture "r2" 60 filed filed
    ≡ (ok (to_proto (new_resource "w" picture "r1" 50)), filed)
unfolding create find_by_hash ◌>>=◌ insert_resource
same_row = refl

-- Where both calls look before either writes, the file has two rows.
two_rows :
    map to_proto (create "w" picture "r2" 60 empty_store filed).1.resources
    ≡ to_proto (new_resource "w" picture "r1" 50) ∷ to_proto (new_resource "w" picture "r2" 60) ∷ []
unfolding create find_by_hash ◌>>=◌ insert_resource
two_rows = refl
