-- ===== src/Push/Batch/Names.antt =====
-- The result of an operation carries its id (crates/server/src/routes/sync_routes.rs).
use panda_server.Prelude.{String, Option, none, some, ◌≡◌, refl, ap}
use panda_server.Domain.Error.{Result, ok, err}
use panda_server.Store.Rows.{Timestamp}
use panda_server.Store.Messages.{SyncPushItemResult}
use panda_server.Store.Env.{Env}
use panda_server.Store.Action.{Action, pure, ok-inj}
use panda_server.Store.Action.Returns.{Returns, Returns-pure, Returns-bind, returns_rules}
use panda_server.Push.Items.{
  MemoSaveRequest, SyncPushItem, Fresh, Pusher, failed, result_of, settle, create_memo, save_memo,
  delete_memo, create_todo, update_todo, restore_todo, delete_todo, execute,
}

-- A result carries the id of its operation.
abbrev pub Names : String → SyncPushItemResult → Type 0
Names op r = r.client_op_id ≡ op

result_of-Names :
    {A : Type 0} (op : String) (memo_id : Option String) (f : A → SyncPushItemResult)
    → ((a : A) → Names op (f a))
    → (r : Result A) → Names op (result_of op memo_id f r)
result_of-Names op memo_id f named (ok a) = named a
result_of-Names op memo_id f named (err e) = refl

settle-Names :
    {A : Type 0} (op : String) (memo_id : Option String) (f : A → SyncPushItemResult) (m : Action A)
    → ((a : A) → Names op (f a))
    → Returns (Names op) (settle op memo_id f m)
unfolding settle
settle-Names op memo_id f m named = record {
  at = λ before a after h.
      let same = ok-inj _ a (ap (λ p. p.0) h) in
      rw (← same) (result_of-Names op memo_id f named (m before).0);
}

module _ (env : Env) (who : Pusher) (now : Timestamp) where
  create_memo-Names :
      (item : SyncPushItem) (fresh : Fresh)
      → Returns (Names item.client_op_id) (create_memo env who item fresh now)
  unfolding create_memo
  create_memo-Names item fresh =
      Returns-bind _ _ λ notebook. settle-Names item.client_op_id none _ _ λ a. refl

  save_memo-Names :
      (op : String) (memo_id : Option String) (request : Option MemoSaveRequest) (fresh : Fresh)
      → Returns (Names op) (save_memo env who op memo_id request fresh now)
  unfolding save_memo
  save_memo-Names op none request fresh = Returns-pure _ refl
  save_memo-Names op (some memo_id) none fresh = Returns-pure _ refl
  save_memo-Names op (some memo_id) (some request) fresh =
      settle-Names op (some memo_id) _ _ λ a. refl

  delete_memo-Names :
      (op : String) (memo_id : Option String)
      → Returns (Names op) (delete_memo env who op memo_id now)
  unfolding delete_memo
  delete_memo-Names op none = Returns-pure _ refl
  delete_memo-Names op (some memo_id) = settle-Names op (some memo_id) _ _ λ a. refl

  module _ (item : SyncPushItem) where
    create_todo-Names :
        (fresh : Fresh) → Returns (Names item.client_op_id) (create_todo env who item fresh now)
    unfolding create_todo
    create_todo-Names fresh =
        Returns-bind _ _ λ p. settle-Names item.client_op_id none _ _ λ a. refl

    update_todo-Names : Returns (Names item.client_op_id) (update_todo env who item now)
    unfolding update_todo
    update_todo-Names = Returns-bind _ _ λ p. settle-Names item.client_op_id none _ _ λ a. refl

    restore_todo-Names : Returns (Names item.client_op_id) (restore_todo env who item now)
    unfolding restore_todo
    restore_todo-Names = Returns-bind _ _ λ p. settle-Names item.client_op_id none _ _ λ a. refl

    delete_todo-Names : Returns (Names item.client_op_id) (delete_todo env who item now)
    unfolding delete_todo
    delete_todo-Names = Returns-bind _ _ λ p. settle-Names item.client_op_id none _ _ λ a. refl

    failed-Names :
        Returns (Names item.client_op_id) (pure (failed item.client_op_id none "invalid_argument"))
    failed-Names = Returns-pure _ refl

    pub execute-Names :
        (fresh : Fresh) → Returns (Names item.client_op_id) (execute env who item fresh now)
    unfolding execute
    execute-Names fresh =
        search
          (
            returns_rules, create_memo-Names, save_memo-Names, delete_memo-Names, create_todo-Names,
            update_todo-Names, restore_todo-Names, delete_todo-Names, failed-Names,
          )
          depth 17
