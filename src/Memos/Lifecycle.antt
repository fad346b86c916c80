-- ===== src/Memos/Lifecycle.antt =====
-- crates/store/src/memos.rs: `soft_delete`, `restore` and `batch_move`. A permanent deletion takes the
-- rows of the other tables with it, or their reference to the note, as the foreign keys of
-- migrations/001_initial.sql say.
pub mod Trash
pub mod Erase
pub mod Move
pub mod Operations
pub mod Tests
use Prim.Native.String
use panda_server.Prelude.{
  ℕ, ◌+◌, String, Bool, true, false, Option, none, some, List, [], ◌∷◌, ◌==◌, if◌then◌else◌,
  is_some, is_same,
}
use panda_server.Prelude.Sql.{find, update, delete}
use panda_server.Domain.Error.{ok}
use panda_server.Store.Rows.{Timestamp, Memo, Content, Revision, Lease, Dirty, Todo, Resource}
use panda_server.Store.Env.{Env, Json, str, bool}
use panda_server.Store.State.{Store}
use panda_server.Store.Action.{Action, ◌>>=◌, ◌>>◌, pure, lift, reads}
use panda_server.Sync
use panda_server.Memos.Queries.{is_memo, require_notebook}

-- The entry of the change log for changed columns of a note.
unfoldable pub log_meta : Env → String → String → String × Json → Timestamp → Action (Unit {0})
log_meta env ws memo_id field now = do
  Sync.append_unlocked ws "memo" memo_id "upsert" "meta"
      (some (env.object_to_json (("id", str memo_id) ∷ field ∷ [])))
      (String.◌++◌ "memo:" (String.◌++◌ memo_id ":meta")) now
  pure tt

abbrev pub erased_links : String → Store → Store
erased_links memo_id s =
    let unlinked_todo = λ (t : Todo). let u : Todo = record t { linked_memo_id = none } in u in
    let unlinked_resource = λ (r : Resource). let u : Resource = record r { memo_id = none } in u in
    record s {
      memo_contents = delete (λ (c : Content). c.memo_id == memo_id) s.memo_contents;
      memo_revisions = delete (λ (r : Revision). r.memo_id == memo_id) s.memo_revisions;
      edit_leases = delete (λ (l : Lease). l.memo_id == memo_id) s.edit_leases;
      search_dirty = delete (λ (d : Dirty). d.memo_id == memo_id) s.search_dirty;
      todos = update (λ (t : Todo). is_same t.linked_memo_id (some memo_id)) unlinked_todo s.todos;
      resources =
          update (λ (r : Resource). is_same r.memo_id (some memo_id)) unlinked_resource s.resources;
    }

-- `DELETE FROM memos`, with what the foreign keys do where it deletes a row
pub erase : String → String → Action (Unit {0})
erase ws memo_id s =
    let kept : Store = record s { memos = delete (is_memo ws memo_id) s.memos } in
    (ok tt, if is_some (find (is_memo ws memo_id) s.memos) then erased_links memo_id kept else kept)

unfoldable pub write_memo : String → String → (Memo → Memo) → Action (Unit {0})
write_memo ws memo_id f s =
    let written : Store = record s { memos = update (is_memo ws memo_id) f s.memos } in
    (ok tt, written)

abbrev pub trashed : Timestamp → Memo → Memo
trashed now m = record m { is_deleted = true; deleted_at = some now; updated_at = now }

abbrev pub recovered : Timestamp → Memo → Memo
recovered now m = record m { is_deleted = false; deleted_at = none; updated_at = now }

pub delete_forever : String → String → Timestamp → Action (Unit {0})
delete_forever ws memo_id now = do
  erase ws memo_id
  Sync.append_unlocked ws "memo" memo_id "delete" "delete" none
      (String.◌++◌ "memo:" (String.◌++◌ memo_id ":delete")) now
  pure tt

unfoldable pub move_to_trash : Env → String → String → Timestamp → Action (Unit {0})
move_to_trash env ws memo_id now = do
  write_memo ws memo_id (trashed now)
  log_meta env ws memo_id ("is_deleted", bool true) now

unfoldable pub soft_delete : Env → String → String → Bool → Timestamp → Action (Unit {0})
soft_delete env ws memo_id permanent now =
    if permanent then delete_forever ws memo_id now else move_to_trash env ws memo_id now

pub restore : Env → String → String → Timestamp → Action (Unit {0})
restore env ws memo_id now = do
  write_memo ws memo_id (recovered now)
  log_meta env ws memo_id ("is_deleted", bool false) now

abbrev pub moved : String → Timestamp → Memo → Memo
moved notebook_id now m = record m { notebook_id = notebook_id; updated_at = now }

-- One turn of the loop: whether the UPDATE found a row.
pub move_one : Env → String → String → String → Timestamp → Action Bool
move_one env ws notebook_id id now s =
    let written = (write_memo ws id (moved notebook_id now) s).1 in
    let logged = (log_meta env ws id ("notebook_id", str notebook_id) now written).1 in
    if is_some (find (is_memo ws id) s.memos) then (ok true, logged) else (ok false, written)

pub move_all : Env → String → String → List String → Timestamp → Action ℕ
move_all env ws notebook_id [] now = pure 0
move_all env ws notebook_id (id ∷ ids) now = do
  found ← move_one env ws notebook_id id now
  n ← move_all env ws notebook_id ids now
  pure (if found then 1 + n else n)

-- The notebook is looked up in `seen`, before the write lock is taken.
pub batch_move : Env → String → List String → String → Timestamp → Store → Action ℕ
batch_move env ws memo_ids notebook_id now seen = do
  lift (require_notebook ws notebook_id seen)
  move_all env ws notebook_id memo_ids now
