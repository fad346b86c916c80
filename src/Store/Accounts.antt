-- ===== src/Store/Accounts.antt =====
-- The rows of the accounts in migrations/001_initial.sql, as crates/store/src/users.rs reads them.
-- A session's times are instants; the expiry of an API token is the text that a client sent.
use panda_server.Prelude.{String, Bool, Option}
use panda_server.Store.Rows.{Timestamp}

-- table workspaces
pub record Workspace : Type 0 where
  pub id : String
  pub name : String
  pub created_at : Timestamp
  pub updated_at : Timestamp

-- `UserRow`, with the columns that only writes name
pub record User : Type 0 where
  pub id : String
  pub username : String
  pub password_hash : String
  pub is_owner : Bool
  pub is_disabled : Bool
  pub last_login_at : Option Timestamp
  pub created_at : Timestamp
  pub updated_at : Timestamp

-- table workspace_members
pub record Member : Type 0 where
  pub workspace_id : String
  pub user_id : String
  pub role : String
  pub created_at : Timestamp

-- table sessions
pub record Session : Type 0 where
  pub id : String
  pub user_id : String
  pub workspace_id : String
  pub token_hash : String
  pub device_id : Option String
  pub expires_at : Timestamp
  pub revoked_at : Option Timestamp
  pub last_seen_at : Timestamp
  pub created_at : Timestamp

-- table api_tokens
pub record ApiToken : Type 0 where
  pub id : String
  pub workspace_id : String
  pub user_id : String
  pub name : String
  pub token_hash : String
  pub scopes_json : String
  pub expires_at : Option String
  pub created_at : Timestamp
