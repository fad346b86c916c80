-- ===== src/Store/Messages.antt =====
-- The messages of crates/proto/src/lib.rs that the store keeps as JSON, and the rows that hold them.
use panda_server.Prelude.{ℕ, ℤ, String, Bool, Option}
use panda_server.Store.Rows.{Timestamp, MemoSaveAck}

-- `proto::Todo`
pub record TodoMessage : Type 0 where
  pub id : String
  pub title : String
  pub note : String
  pub status : String
  pub due_date : Option String
  pub priority : ℤ
  pub linked_memo_id : Option String
  pub is_deleted : Bool
  pub revision : ℕ
  pub etag : String
  pub created_at : Timestamp
  pub updated_at : Timestamp
  pub completed_at : Option Timestamp
  pub deleted_at : Option Timestamp

-- `proto::SyncPushItemResult`
pub record SyncPushItemResult : Type 0 where
  pub client_op_id : String
  pub ok : Bool
  pub error_code : Option String
  pub save_ack : Option MemoSaveAck
  pub memo_id : Option String
  pub todo : Option TodoMessage

-- table sync_operations
pub record SyncOperation : Type 0 where
  pub workspace_id : String
  pub device_id : String
  pub client_op_id : String
  pub response_json : String
  pub created_at : Timestamp

-- table memos_fts
pub record FtsRow : Type 0 where
  pub memo_id : String
  pub workspace_id : String
  pub title : String
  pub content_text : String
  pub tags : String
