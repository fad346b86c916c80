-- ===== src/Store/State.antt =====
-- The state behind `Store` (crates/store/src/lib.rs): the tables, the last AUTOINCREMENT key of
-- sync_changes, the configured inline threshold, and the files of the blob store.
use panda_server.Prelude.{ℕ, String, List}
use panda_server.Store.Rows.{
  Memo, Content, Revision, Lease, IdempotencyKey, BlobMeta, Dirty, Change, SyncMeta, DeviceCursor,
  Notebook, Todo, Resource,
}
use panda_server.Store.Accounts.{Workspace, User, Member, Session, ApiToken}
use panda_server.Store.Messages.{SyncOperation, FtsRow}

pub record Store : Type 0 where
  pub memos : List Memo
  pub memo_contents : List Content
  pub memo_revisions : List Revision
  pub edit_leases : List Lease
  pub idempotency_keys : List IdempotencyKey
  pub content_blobs : List BlobMeta
  pub search_dirty : List Dirty
  pub sync_changes : List Change
  pub last_change_id : ℕ
  pub sync_meta : List SyncMeta
  pub device_cursors : List DeviceCursor
  pub notebooks : List Notebook
  pub todos : List Todo
  pub resources : List Resource
  pub workspaces : List Workspace
  pub users : List User
  pub workspace_members : List Member
  pub sessions : List Session
  pub api_tokens : List ApiToken
  pub sync_operations : List SyncOperation
  pub memos_fts : List FtsRow
  pub files : List (List String × List ℕ)
  pub inline_threshold : ℕ
