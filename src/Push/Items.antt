-- ===== src/Push/Items.antt =====
-- crates/server/src/routes/sync_routes.rs, `push`: one operation of a batch. What it draws at random
-- is an argument, and one reading of the clock serves for a request.
use panda_server.Prelude.{
  ℕ, String, Bool, true, false, ◌||◌, Option, none, some, List, [], ◌∷◌, ◌==◌, if◌then◌else◌,
  unwrap_or,
}
use panda_server.Prelude.Text.{is_empty}
use panda_server.Domain.ErrorCode.{as_str}
use panda_server.Domain.Error.{Result, ok, err, invalid, ok_or, and_then}
use panda_server.Store.Rows.{Timestamp, Todo, MemoSaveAck}
use panda_server.Store.Messages.{TodoMessage, SyncPushItemResult}
use panda_server.Store.Env.{Env}
use panda_server.Store.State.{Store}
use panda_server.Store.Action.{Action, ◌>>=◌, pure, lift}
use panda_server.Notebooks.Queries.{default_inbox_id}
use panda_server.Memos.Contents.{SaveBody}
use panda_server.Memos.Request.{SaveRequest}
use panda_server.Memos.Save.{save}
use panda_server.Memos.Lifecycle.{soft_delete}
use panda_server.Memos.Create.{MemoDetail, create}
use panda_server.Todos
use panda_server.Todos.{TodoCreate, TodoUpdate}
use panda_server.Todos.Listing.{to_proto}

-- `proto::TodoPush`
pub record TodoPush : Type 0 where
  pub todo : Option TodoMessage
  pub base_revision : Option ℕ
  pub if_match_etag : Option String

-- `proto::MemoSaveRequest`
pub record MemoSaveRequest : Type 0 where
  pub if_match_etag : Option String
  pub base_revision : Option ℕ
  pub base_content_hash : Option String
  pub lease_id : Option String
  pub idempotency_key : String
  pub body : Option SaveBody
  pub title : Option String
  pub tags : List String
  pub is_pinned : Option Bool
  pub is_archived : Option Bool
  pub notebook_id : Option String

-- `proto::SyncPushItem`; the server does not read `depends_on_client_op_id`
pub record SyncPushItem : Type 0 where
  pub client_op_id : String
  pub op : String
  pub memo_id : Option String
  pub save : Option MemoSaveRequest
  pub notebook_id : Option String
  pub title : Option String
  pub markdown : Option String
  pub todo : Option TodoPush

-- The ids that an operation may need, the store that its reads before the write lock find, and what
-- other requests write meanwhile: before its result is looked for, before it takes the write lock, and
-- before its result is stored. Nothing is locked between these steps.
pub record Fresh : Type 0 where
  pub memo_id : String
  pub snapshot_id : String
  pub todo_id : String
  pub seen : Store
  pub before_lookup : Store → Store
  pub before_run : Store → Store
  pub before_store : Store → Store

-- Who pushes: `AuthContext` and the device of the request.
pub record Pusher : Type 0 where
  pub workspace_id : String
  pub user_id : String
  pub device_id : String

abbrev pub failed : String → Option String → String → SyncPushItemResult
failed op memo_id code = record {
  client_op_id = op;
  ok = false;
  error_code = some code;
  save_ack = none;
  memo_id = memo_id;
  todo = none;
}

abbrev pub done :
    String → Option MemoSaveAck → Option String → Option TodoMessage → SyncPushItemResult
done op ack memo_id todo = record {
  client_op_id = op;
  ok = true;
  error_code = none;
  save_ack = ack;
  memo_id = memo_id;
  todo = todo;
}

abbrev pub result_of :
    {A : Type 0} → String → Option String → (A → SyncPushItemResult) → Result A → SyncPushItemResult
result_of op memo_id f (ok a) = f a
result_of op memo_id f (err e) = failed op memo_id (as_str e.code)

-- `match … .await { Ok(…) => …, Err(e) => … }`: a failure is the item's result, not the request's.
unfoldable pub settle :
    {A : Type 0}
    → String
    → Option String
    → (A → SyncPushItemResult)
    → Action A
    → Action SyncPushItemResult
settle op memo_id f m s = (ok (result_of op memo_id f (m s).0), (m s).1)

-- An empty notebook id stands for the inbox.
abbrev pub target_notebook : String → String → Store → Result String
target_notebook ws notebook_id s =
    if is_empty notebook_id then default_inbox_id ws s else ok notebook_id

unfoldable pub create_memo :
    Env → Pusher → SyncPushItem → Fresh → Timestamp → Action SyncPushItemResult
create_memo env who item fresh now = do
  notebook ← lift (target_notebook who.workspace_id (unwrap_or item.notebook_id "") fresh.seen)
  settle item.client_op_id none
      (λ (detail : MemoDetail). done item.client_op_id none (some detail.summary.id) none)
      (create env who.workspace_id who.user_id notebook item.title (unwrap_or item.markdown "") []
        fresh.memo_id now fresh.seen)

-- No tags in the message leave those of the note.
abbrev pub tags_of : List String → Option (List String)
tags_of [] = none
tags_of (x ∷ xs) = some (x ∷ xs)

abbrev pub request_of : MemoSaveRequest → SaveRequest
request_of save = record {
  if_match_etag = save.if_match_etag;
  base_revision = save.base_revision;
  base_content_hash = save.base_content_hash;
  lease_id = save.lease_id;
  idempotency_key = save.idempotency_key;
  body = save.body;
  title = save.title;
  tags = tags_of save.tags;
  is_pinned = save.is_pinned;
  is_archived = save.is_archived;
  notebook_id = save.notebook_id;
}

unfoldable pub save_memo :
    Env
    → Pusher
    → String
    → Option String
    → Option MemoSaveRequest
    → Fresh
    → Timestamp
    → Action SyncPushItemResult
save_memo env who op none request fresh now = pure (failed op none "invalid_argument")
save_memo env who op (some memo_id) none fresh now =
    pure (failed op (some memo_id) "invalid_argument")
save_memo env who op (some memo_id) (some request) fresh now =
    settle op (some memo_id) (λ ack. done op (some ack) (some memo_id) none)
      (save env who.workspace_id who.user_id memo_id (request_of request) now fresh.snapshot_id
        fresh.seen)

unfoldable pub delete_memo :
    Env → Pusher → String → Option String → Timestamp → Action SyncPushItemResult
delete_memo env who op none now = pure (failed op none "invalid_argument")
delete_memo env who op (some memo_id) now =
    settle op (some memo_id) (λ _. done op none (some memo_id) none)
      (soft_delete env who.workspace_id memo_id false now)

-- The payload of a todo operation; without one the whole request fails.
abbrev pub payload : Option TodoPush → Result (TodoPush × TodoMessage)
payload none = err (invalid "todo payload required")
payload (some push) =
    and_then (ok_or push.todo (invalid "todo payload required")) λ todo. ok (push, todo)

abbrev pub todo_done : String → Todo → SyncPushItemResult
todo_done op t = done op none none (some (to_proto t))

abbrev pub creation : TodoMessage → TodoCreate
creation todo = record {
  id = some todo.id;
  title = todo.title;
  note = todo.note;
  status = some todo.status;
  due_date = todo.due_date;
  priority = some todo.priority;
  linked_memo_id = todo.linked_memo_id;
}

abbrev pub change : TodoPush → TodoMessage → TodoUpdate
change push todo = record {
  title = some todo.title;
  note = some todo.note;
  status = some todo.status;
  due_date = some todo.due_date;
  priority = some todo.priority;
  linked_memo_id = some todo.linked_memo_id;
  base_revision = push.base_revision;
  if_match_etag = push.if_match_etag;
}

unfoldable pub create_todo :
    Env → Pusher → SyncPushItem → Fresh → Timestamp → Action SyncPushItemResult
create_todo env who item fresh now = do
  p ← lift (payload item.todo)
  settle item.client_op_id none (todo_done item.client_op_id)
      (Todos.create env who.workspace_id (creation p.1) fresh.todo_id now fresh.seen)

unfoldable pub update_todo : Env → Pusher → SyncPushItem → Timestamp → Action SyncPushItemResult
update_todo env who item now = do
  p ← lift (payload item.todo)
  settle item.client_op_id none (todo_done item.client_op_id)
      (Todos.update_todo env who.workspace_id p.1.id (change p.0 p.1) now)

unfoldable pub restore_todo : Env → Pusher → SyncPushItem → Timestamp → Action SyncPushItemResult
restore_todo env who item now = do
  p ← lift (payload item.todo)
  settle item.client_op_id none (todo_done item.client_op_id)
      (Todos.restore env who.workspace_id p.1.id p.0.base_revision p.0.if_match_etag now)

unfoldable pub delete_todo : Env → Pusher → SyncPushItem → Timestamp → Action SyncPushItemResult
delete_todo env who item now = do
  p ← lift (payload item.todo)
  settle item.client_op_id none (λ _. done item.client_op_id none none (some p.1))
      (Todos.delete_todo env who.workspace_id p.1.id p.0.base_revision p.0.if_match_etag false now)

-- `match item.op.as_str()`
unfoldable pub execute : Env → Pusher → SyncPushItem → Fresh → Timestamp → Action SyncPushItemResult
execute env who item fresh now =
    if item.op == "memo.create"
    then create_memo env who item fresh now
    else if item.op == "memo.update"
    then save_memo env who item.client_op_id item.memo_id item.save fresh now
    else if item.op == "memo.delete"
    then delete_memo env who item.client_op_id item.memo_id now
    else if item.op == "todo.create"
    then create_todo env who item fresh now
    else if item.op == "todo.update" || item.op == "todo.complete"
    then update_todo env who item now
    else if item.op == "todo.restore"
    then restore_todo env who item now
    else if item.op == "todo.delete"
    then delete_todo env who item now
    else pure (failed item.client_op_id none "invalid_argument")
