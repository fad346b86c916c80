-- ===== src/Push/Batch/Frame.antt =====
-- Executing an operation does not write the results of pushed operations.
use panda_server.Prelude.{String, Option, none, some, List}
use panda_server.Store.Rows.{Timestamp}
use panda_server.Store.Messages.{SyncPushItemResult, SyncOperation}
use panda_server.Store.Env.{Env}
use panda_server.Store.Action.{Action}
use panda_server.Store.Action.Keeps.{Keeps, Keeps-pure, keeps_rules}
use panda_server.Sync.Operations.{HasOperations}
use panda_server.Todos.Operations.{todos_operations}
use panda_server.Memos.Save.Operations.{save-HasOperations}
use panda_server.Memos.Lifecycle.Operations.{soft_delete-HasOperations}
use panda_server.Memos.Create.Operations as Create
use panda_server.Push.Items.{
  MemoSaveRequest, request_of, SyncPushItem, Fresh, Pusher, settle, create_memo, save_memo,
  delete_memo, create_todo, update_todo, restore_todo, delete_todo, execute,
}

module _ (os : List SyncOperation) where
  settle-HasOperations :
      {A : Type 0} (op : String) (memo_id : Option String) (f : A → SyncPushItemResult)
      (m : Action A)
      → Keeps (HasOperations os) m
      → Keeps (HasOperations os) (settle op memo_id f m)
  unfolding settle
  settle-HasOperations op memo_id f m kept = record { at = λ s h. kept.at s h }

  module _ (env : Env) (who : Pusher) (now : Timestamp) where
    create_memo-HasOperations :
        (item : SyncPushItem) (fresh : Fresh)
        → Keeps (HasOperations os) (create_memo env who item fresh now)
    unfolding create_memo
    create_memo-HasOperations item fresh =
        search (keeps_rules, settle-HasOperations, Create.create-HasOperations) depth 7

    save_memo-HasOperations :
        (op : String) (memo_id : Option String) (request : Option MemoSaveRequest) (fresh : Fresh)
        → Keeps (HasOperations os) (save_memo env who op memo_id request fresh now)
    unfolding save_memo
    save_memo-HasOperations op none request fresh = Keeps-pure _
    save_memo-HasOperations op (some memo_id) none fresh = Keeps-pure _
    save_memo-HasOperations op (some memo_id) (some request) fresh =
        settle-HasOperations op (some memo_id) _ _ (record {
          at = λ s h.
              save-HasOperations os env who.workspace_id now who.user_id memo_id
                (request_of request) fresh.snapshot_id fresh.seen s h;
        })

    delete_memo-HasOperations :
        (op : String) (memo_id : Option String)
        → Keeps (HasOperations os) (delete_memo env who op memo_id now)
    unfolding delete_memo
    delete_memo-HasOperations op none = Keeps-pure _
    delete_memo-HasOperations op (some memo_id) =
        search (settle-HasOperations, soft_delete-HasOperations) depth 5

    create_todo-HasOperations :
        (item : SyncPushItem) (fresh : Fresh)
        → Keeps (HasOperations os) (create_todo env who item fresh now)
    unfolding create_todo
    create_todo-HasOperations item fresh =
        search (keeps_rules, settle-HasOperations, todos_operations) depth 7

    update_todo-HasOperations :
        (item : SyncPushItem) → Keeps (HasOperations os) (update_todo env who item now)
    unfolding update_todo
    update_todo-HasOperations item =
        search (keeps_rules, settle-HasOperations, todos_operations) depth 7

    restore_todo-HasOperations :
        (item : SyncPushItem) → Keeps (HasOperations os) (restore_todo env who item now)
    unfolding restore_todo
    restore_todo-HasOperations item =
        search (keeps_rules, settle-HasOperations, todos_operations) depth 7

    delete_todo-HasOperations :
        (item : SyncPushItem) → Keeps (HasOperations os) (delete_todo env who item now)
    unfolding delete_todo
    delete_todo-HasOperations item =
        search (keeps_rules, settle-HasOperations, todos_operations) depth 7

    pub execute-HasOperations :
        (item : SyncPushItem) (fresh : Fresh)
        → Keeps (HasOperations os) (execute env who item fresh now)
    unfolding execute
    execute-HasOperations item fresh =
        search
          (
            keeps_rules, create_memo-HasOperations, save_memo-HasOperations,
            delete_memo-HasOperations, create_todo-HasOperations, update_todo-HasOperations,
            restore_todo-HasOperations, delete_todo-HasOperations,
          )
          depth 17
