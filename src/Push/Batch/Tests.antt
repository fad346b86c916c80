-- ===== src/Push/Batch/Tests.antt =====
-- A run of a push on concrete input.
use panda_server.Prelude.{ℕ, true, none, some, [], ◌∷◌, ◌≡◌, refl}
use panda_server.Domain.Error.{ok}
use panda_server.Store.Messages.{SyncPushItemResult}
use panda_server.Store.State.{Store}
use panda_server.Store.Action.{◌>>=◌}
use panda_server.Store.Example.{example_env, empty_store}
use panda_server.Auth.Service.{AuthContext}
use panda_server.Sync
use panda_server.Memos.Lifecycle.{log_meta, write_memo, move_to_trash, soft_delete}
use panda_server.Push.Items.{SyncPushItem, Fresh, settle, execute, delete_memo}
use panda_server.Push.Batch.{
  SyncHint, hint_after_change, pusher, store_push_result, store_if, answer, push_item, push_items,
  push,
}
use panda_server.Push.Batch.Retry.{IsQuiet, after_others, push-retry}

abbrev ctx : AuthContext
ctx = record {
  user_id = "u";
  username = "ann";
  workspace_id = "w";
  is_owner = true;
  device_id = some "phone";
  scopes = none;
  session_id = some "s1";
}

abbrev deletion : SyncPushItem
deletion = record {
  client_op_id = "m";
  op = "memo.delete";
  memo_id = some "m";
  save = none;
  notebook_id = none;
  title = none;
  markdown = none;
  todo = none;
}

abbrev deleted : SyncPushItemResult
deleted = record {
  client_op_id = "m";
  ok = true;
  error_code = none;
  save_ack = none;
  memo_id = some "m";
  todo = none;
}

abbrev drawn : ℕ → Fresh
drawn i = record {
  memo_id = "a";
  snapshot_id = "b";
  todo_id = "c";
  seen = empty_store;
  before_lookup = λ s. s;
  before_run = λ s. s;
  before_store = λ s. s;
}

abbrev after_push : Store
after_push = (push example_env 10 ctx "" (deletion ∷ []) drawn 100 empty_store).1

abbrev hinted : SyncHint
hinted = record { cursor = 1; sync_epoch = 1; kinds = "push" ∷ [] }

drawn-IsQuiet : (i : ℕ) → IsQuiet (pusher ctx "") (drawn i)
drawn-IsQuiet i = record { lookup = λ op s. refl; run = λ op s. refl; store = λ op s. refl }

push-retry_example :
    (hinted ≡ hint_after_change "w" ("push" ∷ []) after_push)
    × (push example_env 10 ctx "" (deletion ∷ []) drawn 200 after_push ≡ (
      ok (
        deleted ∷ [],
        hint_after_change "w" ("push" ∷ []) (after_others drawn 0 (deletion ∷ []) after_push),
      ),
      after_others drawn 0 (deletion ∷ []) after_push,
    ))
unfolding push push_items push_item answer execute delete_memo store_if store_push_result ◌>>=◌
    settle soft_delete move_to_trash write_memo log_meta Sync.append_unlocked Sync.epoch
push-retry_example =
    push-retry example_env 10 ctx "" (deletion ∷ []) drawn drawn 100 200 empty_store
      {rs = deleted ∷ []} {hint = hinted} {t = after_push} (refl, tt) (refl, tt) drawn-IsQuiet
      drawn-IsQuiet refl (refl, tt)
