-- ===== src/Store/Rows.antt =====
-- The rows of migrations/001_initial.sql as the `FromRow` structs of crates/store/src read them.
-- A timestamp is the number of seconds that its RFC 3339 text stands for: `now_rfc3339` writes texts
-- of one width in UTC, whose order as texts is the order of the instants. A 0/1 column is a Bool.
use panda_server.Prelude.{ℕ, ℤ, String, Bool, Option}

abbrev pub Timestamp : Type 0
Timestamp = ℕ

-- `MemoRow`, with the columns that only writes name
pub record Memo : Type 0 where
  pub id : String
  pub workspace_id : String
  pub notebook_id : String
  pub title : Option String
  pub excerpt : String
  pub tags_json : String
  pub is_pinned : Bool
  pub is_archived : Bool
  pub is_deleted : Bool
  pub revision : ℕ
  pub content_hash : String
  pub etag : String
  pub merged_into_memo_id : Option String
  pub created_by : String
  pub updated_by : String
  pub created_at : Timestamp
  pub updated_at : Timestamp
  pub deleted_at : Option Timestamp

-- `ContentRow`
pub record Content : Type 0 where
  pub memo_id : String
  pub revision : ℕ
  pub content_hash : String
  pub inline_markdown : Option String
  pub blob_ref : Option String
  pub byte_size : ℕ
  pub content_text : String
  pub updated_at : Timestamp

-- `RevRow`
pub record Revision : Type 0 where
  pub id : String
  pub memo_id : String
  pub revision : ℕ
  pub title : Option String
  pub tags_json : String
  pub content_hash : String
  pub created_by : String
  pub created_at : Timestamp

-- table edit_leases
pub record Lease : Type 0 where
  pub id : String
  pub memo_id : String
  pub workspace_id : String
  pub actor_id : String
  pub base_revision : ℕ
  pub base_content_hash : String
  pub mode : String
  pub expires_at : Timestamp
  pub created_at : Timestamp
  pub updated_at : Timestamp

-- table idempotency_keys
pub record IdempotencyKey : Type 0 where
  pub workspace_id : String
  pub key : String
  pub memo_id : String
  pub response_json : String
  pub expires_at : Timestamp
  pub created_at : Timestamp

-- table content_blobs
pub record BlobMeta : Type 0 where
  pub hash : String
  pub workspace_id : String
  pub byte_size : ℕ
  pub storage_key : String
  pub refcount : ℕ
  pub created_at : Timestamp

-- table search_dirty
pub record Dirty : Type 0 where
  pub memo_id : String
  pub workspace_id : String
  pub marked_at : Timestamp

-- `ChangeRow`, with its workspace
pub record Change : Type 0 where
  pub id : ℕ
  pub workspace_id : String
  pub entity_type : String
  pub entity_id : String
  pub operation : String
  pub payload_kind : String
  pub payload_json : Option String
  pub fold_key : String
  pub created_at : Timestamp

-- table sync_meta
pub record SyncMeta : Type 0 where
  pub workspace_id : String
  pub sync_epoch : ℕ
  pub updated_at : Timestamp

-- table device_cursors
pub record DeviceCursor : Type 0 where
  pub workspace_id : String
  pub device_id : String
  pub user_id : String
  pub cursor : ℤ
  pub sync_epoch : ℕ
  pub last_seen_at : Timestamp
  pub created_at : Timestamp

-- `NotebookRow`, with its workspace; the count of memos is computed by each query
pub record Notebook : Type 0 where
  pub id : String
  pub workspace_id : String
  pub parent_id : Option String
  pub name : String
  pub slug : Option String
  pub path : String
  pub depth : ℕ
  pub sort_order : ℤ
  pub is_deleted : Bool
  pub created_at : Timestamp
  pub updated_at : Timestamp

-- `TodoRow` and `Todo`, with its workspace
pub record Todo : Type 0 where
  pub id : String
  pub workspace_id : String
  pub title : String
  pub note : String
  pub status : String
  pub due_date : Option String
  pub priority : ℤ
  pub linked_memo_id : Option String
  pub is_deleted : Bool
  pub revision : ℕ
  pub etag : String
  pub created_at : Timestamp
  pub updated_at : Timestamp
  pub completed_at : Option Timestamp
  pub deleted_at : Option Timestamp

-- `ResourceRow`, with its workspace
pub record Resource : Type 0 where
  pub id : String
  pub workspace_id : String
  pub memo_id : Option String
  pub content_hash : String
  pub kind : String
  pub mime_type : Option String
  pub filename : Option String
  pub byte_size : ℕ
  pub is_deleted : Bool
  pub created_at : Timestamp

-- `proto::MemoSaveAck`; `protocol_version` is a constant
pub record MemoSaveAck : Type 0 where
  pub protocol_version : ℕ
  pub revision : ℕ
  pub content_hash : String
  pub etag : String
  pub lease_id : Option String
  pub saved_at : Timestamp
