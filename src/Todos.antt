-- ===== src/Todos.antt =====
-- crates/store/src/todos.rs: independent tasks with optimistic concurrency and a trash.
-- A revision and a `base_revision` are not negative; the cast of a revision to `u64` is the identity.
pub mod Checks
pub mod Rows
pub mod Listing
pub mod Calls
pub mod Invariant
pub mod Revisions
pub mod Updated
pub mod Trash
pub mod Isolation
pub mod Operations
pub mod Tests
use Prim.Native.String
use panda_server.Prelude.{
  ℕ, zero, suc, ◌+◌, ◌^◌, ℤ, pos, negsuc, String, Bool, true, false, not, ◌&&◌, ◌||◌, Option, none,
  some, List, [], ◌∷◌, ◌++◌, ◌==◌, eqb, ltb, leb, if◌then◌else◌, unwrap_or, or_option, is_some,
}
use panda_server.Prelude.Sql.{find, select, update, delete, count}
use panda_server.Prelude.Text.{trim, is_empty}
use panda_server.Domain.Etag.{format_etag}
use panda_server.Domain.Error.{
  PandaError, Result, ok, err, invalid, conflict, not_found, internal, ok_or, fail_if,
}
use panda_server.Store.Rows.{Timestamp, Memo, Todo}
use panda_server.Store.Env.{Env}
use panda_server.Store.State.{Store}
use panda_server.Store.Action.{Action, ◌>>=◌, ◌>>◌, lift, reads, pure}
use panda_server.Sync
pub use panda_server.Todos.Checks.{
  TodoCreate, TodoUpdate, is_priority, is_status, memo_exists, is_dangling, has_id, differs,
  differs_etag,
}
unfoldable pub use panda_server.Todos.Checks.{
  validate, require_linked_memo, get, get_including_deleted, check_base, completion,
}

pub append_unlocked : Env → String → Todo → String → Timestamp → Action (Unit {0})
append_unlocked env ws todo operation now = do
  Sync.append_unlocked ws "todo" todo.id operation "json" (some (env.todo_to_json todo))
      (String.◌++◌ "todo:" todo.id) now
  pure tt

-- The end of `create`, `update` and `restore`: the written row is read back and logged.
pub log_upsert : Env → String → String → Timestamp → Action Todo
log_upsert env ws id now = do
  todo ← reads (get ws id)
  append_unlocked env ws todo "upsert" now
  pure todo

abbrev pub new_todo : String → String → TodoCreate → String → ℤ → Timestamp → Todo
new_todo ws id req status priority now = record {
  id = id;
  workspace_id = ws;
  title = trim req.title;
  note = req.note;
  status = status;
  due_date = req.due_date;
  priority = priority;
  linked_memo_id = req.linked_memo_id;
  is_deleted = false;
  revision = 1;
  etag = format_etag 1 id;
  created_at = now;
  updated_at = now;
  completed_at = completion status none now;
  deleted_at = none;
}

-- The tail of `create`, under the write lock; `id` is the requested or the fresh one.
pub insert_todo : Env → String → String → TodoCreate → String → ℤ → Timestamp → Action Todo
insert_todo env ws id req status priority now s = elim (find (has_id ws id) s.todos) [
  | some existing ↦ (ok existing, s)
  | none ↦
      let inserted : Store = record s {
        todos = s.todos ++ new_todo ws id req status priority now ∷ [];
      } in
      if is_some (find (λ (t : Todo). t.id == id) s.todos)
      then (err (internal "UNIQUE constraint failed: todos.id"), s)
      else if is_dangling req.linked_memo_id s
      then (err (internal "FOREIGN KEY constraint failed"), s)
      else log_upsert env ws id now inserted
]

-- `seen` is the store that the look for the linked note finds, before the write lock.
pub create : Env → String → TodoCreate → String → Timestamp → Store → Action Todo
create env ws req fresh_id now seen =
    let status = unwrap_or req.status "inbox" in
    let priority = unwrap_or req.priority (pos 0) in
    let id = unwrap_or req.id fresh_id in
    do
      lift (fail_if (is_empty (trim req.title)) (invalid "todo title is required"))
      lift (validate status priority)
      lift (require_linked_memo ws req.linked_memo_id seen)
      insert_todo env ws id req status priority now

-- The compare-and-swap of the UPDATE and DELETE statements: the row as it was read.
abbrev pub is_current : String → String → Bool → Todo → Todo → Bool
is_current ws id deleted old t =
    has_id ws id t
    && (if deleted then t.is_deleted else not t.is_deleted)
    && eqb t.revision old.revision
    && t.etag == old.etag

-- `if changed.rows_affected() != 1 { return Err(…) }` behind an UPDATE.
pub write_current : String → String → Bool → Todo → (Todo → Todo) → Action (Unit {0})
write_current ws id deleted old f s =
    let written : Store = record s { todos = update (is_current ws id deleted old) f s.todos } in
    if eqb (count (is_current ws id deleted old) s.todos) 1
    then (ok tt, written)
    else (err (conflict "todo revision conflict"), written)

abbrev pub updated : String → TodoUpdate → Todo → Timestamp → Todo → Todo
updated id req old now t =
    let status = unwrap_or req.status old.status in
    let rev = old.revision + 1 in
    record t {
      title = trim (unwrap_or req.title old.title);
      note = unwrap_or req.note old.note;
      status = status;
      due_date = unwrap_or req.due_date old.due_date;
      priority = unwrap_or req.priority old.priority;
      linked_memo_id = unwrap_or req.linked_memo_id old.linked_memo_id;
      revision = rev;
      etag = format_etag rev id;
      updated_at = now;
      completed_at = completion status old.completed_at now;
    }

pub update_todo : Env → String → String → TodoUpdate → Timestamp → Action Todo
update_todo env ws id req now = do
  old ← reads (get ws id)
  lift (check_base req.base_revision req.if_match_etag old)
  lift
      (fail_if (is_empty (trim (unwrap_or req.title old.title))) (invalid "todo title is required"))
  lift (validate (unwrap_or req.status old.status) (unwrap_or req.priority old.priority))
  reads (require_linked_memo ws (unwrap_or req.linked_memo_id old.linked_memo_id))
  write_current ws id false old (updated id req old now)
  log_upsert env ws id now

abbrev pub tombstone : String → Todo → Timestamp → Todo → Todo
tombstone id old now t =
    let rev = old.revision + 1 in
    record t {
      is_deleted = true;
      revision = rev;
      etag = format_etag rev id;
      updated_at = now;
      deleted_at = some now;
    }

-- `DELETE FROM todos WHERE …` and its check.
pub erase_current : String → String → Todo → Action (Unit {0})
erase_current ws id old s =
    let erased : Store = record s { todos = delete (is_current ws id true old) s.todos } in
    if eqb (count (is_current ws id true old) s.todos) 1
    then (ok tt, erased)
    else (err (conflict "todo revision conflict"), erased)

pub delete_forever :
    Env → String → String → Option ℕ → Option String → Timestamp → Action (Unit {0})
delete_forever env ws id base_revision if_match_etag now = do
  old ← reads (get_including_deleted ws id)
  lift (check_base base_revision if_match_etag old)
  lift (fail_if (not old.is_deleted) (invalid "todo must be in trash before permanent deletion"))
  erase_current ws id old
  append_unlocked env ws old "delete" now

pub move_to_trash : Env → String → String → Option ℕ → Option String → Timestamp → Action (Unit {0})
move_to_trash env ws id base_revision if_match_etag now = do
  old ← reads (get ws id)
  lift (check_base base_revision if_match_etag old)
  write_current ws id false old (tombstone id old now)
  gone ← reads (get_including_deleted ws id)
  append_unlocked env ws gone "delete" now

pub delete_todo :
    Env → String → String → Option ℕ → Option String → Bool → Timestamp → Action (Unit {0})
delete_todo env ws id base_revision if_match_etag permanent now =
    if permanent
    then delete_forever env ws id base_revision if_match_etag now
    else move_to_trash env ws id base_revision if_match_etag now

abbrev pub revived : String → Todo → Timestamp → Todo → Todo
revived id old now t =
    let rev = old.revision + 1 in
    record t {
      is_deleted = false;
      revision = rev;
      etag = format_etag rev id;
      updated_at = now;
      deleted_at = none;
    }

pub restore : Env → String → String → Option ℕ → Option String → Timestamp → Action Todo
restore env ws id base_revision if_match_etag now = do
  old ← reads (get_including_deleted ws id)
  lift (fail_if (not old.is_deleted) (invalid "todo is not deleted"))
  lift (check_base base_revision if_match_etag old)
  write_current ws id true old (revived id old now)
  log_upsert env ws id now
