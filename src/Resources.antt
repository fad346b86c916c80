-- ===== src/Resources.antt =====
-- crates/store/src/resources.rs: the files that are attached to notes. The look-ups of `create` are
-- before the write lock and have a store of their own (`seen`).
mod Tests
use Prim.Native.String
use panda_server.Prelude.{
  ℕ, ◌+◌, ℤ, clamp, String, Bool, true, false, not, ◌&&◌, Option, none, some, List, [], ◌∷◌, ◌++◌,
  ◌==◌, leb, take, map, if◌then◌else◌, is_some,
}
use panda_server.Prelude.Sql.{find, select, update, order_by}
use panda_server.Domain.Error.{ok, err, internal, not_found, fail_if}
use panda_server.Store.Rows.{Timestamp, BlobMeta, Memo, Resource}
use panda_server.Store.State.{Store}
use panda_server.Store.Action.{Action, ◌>>=◌, ◌>>◌, pure, lift}
use panda_server.Todos.Checks.{memo_exists, is_dangling}

-- `proto::Resource`
pub record ResourceMessage : Type 0 where
  pub id : String
  pub memo_id : Option String
  pub content_hash : String
  pub kind : String
  pub mime_type : Option String
  pub filename : Option String
  pub byte_size : ℕ
  pub url : String
  pub created_at : Timestamp

abbrev pub to_proto : Resource → ResourceMessage
to_proto r = record {
  id = r.id;
  memo_id = r.memo_id;
  content_hash = r.content_hash;
  kind = r.kind;
  mime_type = r.mime_type;
  filename = r.filename;
  byte_size = r.byte_size;
  url = String.◌++◌ "/api/v1/resources/" (String.◌++◌ r.id "/blob");
  created_at = r.created_at;
}

abbrev pub found : Option Resource → Option ResourceMessage
found none = none
found (some r) = some (to_proto r)

abbrev pub has_hash : String → String → Resource → Bool
has_hash ws hash r = r.workspace_id == ws && r.content_hash == hash && not r.is_deleted

unfoldable pub find_by_hash : String → String → Store → Option ResourceMessage
find_by_hash ws hash s = found (find (has_hash ws hash) s.resources)

unfoldable pub get : String → String → Store → Option ResourceMessage
get ws id s =
    found
      (find (λ (r : Resource). r.workspace_id == ws && r.id == id && not r.is_deleted) s.resources)

unfoldable pub list : String → ℤ → Store → List ResourceMessage
list ws limit s = map to_proto (
    take (clamp limit 1 500) (
      order_by (λ a b. leb b.created_at a.created_at)
        (select (λ (r : Resource). r.workspace_id == ws && not r.is_deleted) s.resources)))

-- `INSERT … ON CONFLICT(hash) DO UPDATE SET refcount = refcount + 1`
abbrev pub count_blob : String → String → ℕ → Timestamp → List BlobMeta → List BlobMeta
count_blob ws hash byte_size now bs =
    let row : BlobMeta = record {
      hash = hash;
      workspace_id = ws;
      byte_size = byte_size;
      storage_key = hash;
      refcount = 1;
      created_at = now;
    } in
    if is_some (find (λ b. b.hash == hash) bs)
    then update (λ b. b.hash == hash) (λ b. record b { refcount = b.refcount + 1 }) bs
    else bs ++ row ∷ []

-- The arguments of `create` that describe the file.
pub record Upload : Type 0 where
  pub memo_id : Option String
  pub hash : String
  pub kind : String
  pub mime_type : Option String
  pub filename : Option String
  pub byte_size : ℕ

abbrev pub new_resource : String → Upload → String → Timestamp → Resource
new_resource ws u id now = record {
  id = id;
  workspace_id = ws;
  memo_id = u.memo_id;
  content_hash = u.hash;
  kind = u.kind;
  mime_type = u.mime_type;
  filename = u.filename;
  byte_size = u.byte_size;
  is_deleted = false;
  created_at = now;
}

-- The two statements under the lock, without a transaction.
unfoldable pub insert_resource : String → Upload → String → Timestamp → Action ResourceMessage
insert_resource ws u id now s =
    let counted : Store = record s {
      content_blobs = count_blob ws u.hash u.byte_size now s.content_blobs;
    } in
    let row = new_resource ws u id now in
    let inserted : Store = record counted { resources = counted.resources ++ row ∷ [] } in
    if is_some (find (λ (r : Resource). r.id == id) s.resources)
    then (err (internal "UNIQUE constraint failed: resources.id"), counted)
    else if is_dangling u.memo_id s
    then (err (internal "FOREIGN KEY constraint failed"), counted)
    else (ok (to_proto row), inserted)

abbrev pub misses_memo : String → Option String → Store → Bool
misses_memo ws none s = false
misses_memo ws (some memo_id) s = not (memo_exists ws memo_id s)

-- A file that the workspace has is not inserted again.
abbrev pub create_unless :
    Option ResourceMessage → String → Upload → String → Timestamp → Action ResourceMessage
create_unless (some existing) ws u id now = pure existing
create_unless none ws u id now = insert_resource ws u id now

unfoldable pub create : String → Upload → String → Timestamp → Store → Action ResourceMessage
create ws u id now seen = do
  lift (fail_if (misses_memo ws u.memo_id seen) (not_found "memo not found in workspace"))
  create_unless (find_by_hash ws u.hash seen) ws u id now
