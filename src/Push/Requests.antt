-- ===== src/Push/Requests.antt =====
-- crates/server/src/routes/sync_routes.rs: `pull` and `admin_compact`.
use panda_server.Prelude.{
  ℕ, ℤ, pos, String, Bool, not, Option, none, some, List, unwrap_or, or_option,
}
use panda_server.Domain.Error.{Result, ok, permission_denied, fail_if}
use panda_server.Store.Rows.{Timestamp}
use panda_server.Store.State.{Store}
use panda_server.Store.Action.{Action, ◌>>=◌, ◌>>◌, pure, lift, reads}
use panda_server.Sync
use panda_server.Auth.Service.{AuthContext}

unfoldable pub note_cursor : AuthContext → Option String → ℕ → Timestamp → Action (Unit {0})
note_cursor ctx none cursor now s = (ok tt, s)
note_cursor ctx (some device) cursor now s =
    (ok tt, Sync.upsert_device_cursor ctx.workspace_id device ctx.user_id cursor now s)

-- `proto::SyncPullResponse`
pub record SyncPullResponse : Type 0 where
  pub sync_epoch : ℕ
  pub cursor : ℕ
  pub changes : List Sync.SyncChange
  pub has_more : Bool

-- `pull`
unfoldable pub pull_request :
    AuthContext → Option ℕ → Option ℤ → Option String → Timestamp → Action SyncPullResponse
pull_request ctx cursor limit device_id now = do
  page ←
      reads
        (λ s. ok (Sync.pull ctx.workspace_id (unwrap_or cursor 0) (unwrap_or limit (pos 100)) s))
  epoch ← reads (λ s. ok (Sync.epoch ctx.workspace_id s))
  note_cursor ctx (or_option device_id ctx.device_id) page.1 now
  pure (record { sync_epoch = epoch; cursor = page.1; changes = page.0; has_more = page.2 })

abbrev compacted : ℕ × Store → Result ℕ × Store
compacted (n, s) = (ok n, s)

-- `admin_compact`
unfoldable pub admin_compact : AuthContext → ℕ → Timestamp → Action ℕ
admin_compact ctx device_cursor_ttl_days now = do
  lift (fail_if (not ctx.is_owner) (permission_denied "owner only"))
  λ s. compacted (Sync.compact ctx.workspace_id device_cursor_ttl_days now s)
