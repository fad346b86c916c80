-- ===== src/Push/Batch.antt =====
-- crates/server/src/routes/sync_routes.rs, `push`: the batch, and the results that are kept so that an
-- operation is executed once.
pub mod Frame
pub mod Names
pub mod Retry
pub mod Tests
use panda_server.Prelude.{
  ℕ, ◌+◌, String, Bool, true, false, not, ◌&&◌, ◌==◌, Option, none, some, List, [], ◌∷◌, ◌++◌, ltb,
  length, if◌then◌else◌, is_some, unwrap_or,
}
use panda_server.Prelude.Sql.{find}
use panda_server.Prelude.Text.{trim, is_empty}
use panda_server.Domain.Error.{Result, ok, err, invalid, internal, ok_or, fail_if}
use panda_server.Store.Rows.{Timestamp}
use panda_server.Store.Messages.{SyncPushItemResult, SyncOperation}
use panda_server.Store.Env.{Env}
use panda_server.Store.State.{Store}
use panda_server.Store.Action.{Action, ◌>>=◌, ◌>>◌, pure, lift, reads}
use panda_server.Sync
use panda_server.Auth.Service.{AuthContext}
use panda_server.Push.Items.{SyncPushItem, Fresh, Pusher, execute}

abbrev pub is_operation : Pusher → String → SyncOperation → Bool
is_operation who op o =
    o.workspace_id == who.workspace_id && o.device_id == who.device_id && o.client_op_id == op

abbrev pub decoded : Env → Option SyncOperation → Result (Option SyncPushItemResult)
decoded env none = ok none
decoded env (some o) = elim (env.result_from_json o.response_json) [
  | none ↦ err (internal "decode sync operation")
  | some r ↦ ok (some r)
]

abbrev pub load_push_result : Env → Pusher → String → Store → Result (Option SyncPushItemResult)
load_push_result env who op s = decoded env (find (is_operation who op) s.sync_operations)

-- An operation without an id is not looked up.
abbrev pub cached : Env → Pusher → String → Store → Result (Option SyncPushItemResult)
cached env who op s = if is_empty op then ok none else load_push_result env who op s

-- `INSERT OR IGNORE`
unfoldable pub store_push_result : Env → Pusher → SyncPushItemResult → Timestamp → Action (Unit {0})
store_push_result env who r now s =
    let row : SyncOperation = record {
      workspace_id = who.workspace_id;
      device_id = who.device_id;
      client_op_id = r.client_op_id;
      response_json = env.result_to_json r;
      created_at = now;
    } in
    let stored : Store = record s { sync_operations = s.sync_operations ++ row ∷ [] } in
    (
      ok tt,
      if is_some (find (is_operation who r.client_op_id) s.sync_operations) then s else stored,
    )

unfoldable pub store_if : Env → Pusher → SyncPushItemResult → Timestamp → Action (Unit {0})
store_if env who r now =
    if r.ok && not (is_empty r.client_op_id) then store_push_result env who r now else pure tt

-- A step of other requests.
abbrev pub by_others : (Store → Store) → Action (Unit {0})
by_others f s = (ok tt, f s)

-- One turn of the loop: a result that is kept answers the item.
unfoldable pub answer :
    Env
    → Pusher
    → SyncPushItem
    → Fresh
    → Timestamp
    → Option SyncPushItemResult
    → Action SyncPushItemResult
answer env who item fresh now (some r) = pure r
answer env who item fresh now none = do
  by_others fresh.before_run
  r ← execute env who item fresh now
  by_others fresh.before_store
  store_if env who r now
  pure r

unfoldable pub push_item :
    Env → Pusher → SyncPushItem → Fresh → Timestamp → Action SyncPushItemResult
push_item env who item fresh now = do
  by_others fresh.before_lookup
  known ← reads (cached env who item.client_op_id)
  answer env who item fresh now known

-- The loop; `fresh i` is what the operation at position `i` draws and meets. Behind the last one,
-- others may write before the hint is read.
unfoldable pub push_items :
    Env
    → Pusher
    → ℕ
    → List SyncPushItem
    → (ℕ → Fresh)
    → Timestamp
    → Action (List SyncPushItemResult)
push_items env who i [] fresh now = do by_others (fresh i).before_lookup; pure []
push_items env who i (item ∷ items) fresh now = do
  r ← push_item env who item (fresh i) now
  rs ← push_items env who (i + 1) items fresh now
  pure (r ∷ rs)

-- `proto::SyncHint`
pub record SyncHint : Type 0 where
  pub cursor : ℕ
  pub sync_epoch : ℕ
  pub kinds : List String

-- What `hint_after_change` publishes on the workspace's channel.
abbrev pub hint_after_change : String → List String → Store → SyncHint
hint_after_change ws kinds s = record {
  cursor = Sync.max_cursor ws s;
  sync_epoch = Sync.epoch ws s;
  kinds = kinds;
}

-- The device that the request names, or that of the session.
abbrev pub device_of : String → Option String → String
device_of device_id from_session =
    if is_empty (trim device_id) then unwrap_or from_session "legacy" else device_id

abbrev pub pusher : AuthContext → String → Pusher
pusher ctx device_id = record {
  workspace_id = ctx.workspace_id;
  user_id = ctx.user_id;
  device_id = device_of device_id ctx.device_id;
}

-- `push`, with the limit `max_batch_size`: the results, and the hint that is published
unfoldable pub push :
    Env
    → ℕ
    → AuthContext
    → String
    → List SyncPushItem
    → (ℕ → Fresh)
    → Timestamp
    → Action (List SyncPushItemResult × SyncHint)
push env max_batch_size ctx device_id items fresh now = do
  lift (fail_if (ltb max_batch_size (length items)) (invalid "push batch too large"))
  results ← push_items env (pusher ctx device_id) 0 items fresh now
  hint ← reads (λ s. ok (hint_after_change ctx.workspace_id ("push" ∷ []) s))
  pure (results, hint)
