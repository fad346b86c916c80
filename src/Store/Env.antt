-- ===== src/Store/Env.antt =====
-- What the store calls and does not implement: blake3, argon2, serde_json, diffy, chrono, SQLite's text search and the
-- conversions between texts and bytes. Identifiers (`new_id`) and the clock are arguments of the
-- operations.
use panda_server.Prelude.{ℕ, String, Bool, Option, List, length}
use panda_server.Store.Messages.{SyncPushItemResult, FtsRow}
use panda_server.Store.Rows.{Timestamp, MemoSaveAck, Todo}

-- The values of the `json!` literals.
pub data Json : Type 0 where
  str : String → Json
  num : ℕ → Json
  bool : Bool → Json
  null : Json

pub record Env : Type 0 where
  -- `blake3::hash(data).to_hex()`
  pub blake3 : List ℕ → String
  pub as_bytes : String → List ℕ
  pub from_utf8 : List ℕ → Option String
  -- `diffy::Patch::from_str`, then `diffy::apply`: base text, patch text
  pub patch_parses : String → Bool
  pub diffy_apply : String → String → Option String
  pub tags_to_json : List String → String
  pub tags_from_json : String → Option (List String)
  pub ack_to_json : MemoSaveAck → String
  pub ack_from_json : String → Option MemoSaveAck
  pub todo_to_json : Todo → String
  pub object_to_json : List (String × Json) → String
  pub result_to_json : SyncPushItemResult → String
  pub result_from_json : String → Option SyncPushItemResult
  -- the text of an instant, `to_rfc3339_opts(Secs, true)`
  pub to_rfc3339 : Timestamp → String
  -- argon2: password and salt; password and stored hash, `none` for a hash that does not parse
  pub hash_password : String → String → String
  pub verify_password : String → String → Option Bool
  -- SQLite's `x LIKE pattern COLLATE NOCASE`, and its full-text `MATCH`
  pub like : String → String → Bool
  pub fts_match : String → FtsRow → Bool
  -- `DateTime::parse_from_rfc3339`, in seconds
  pub parse_from_rfc3339 : Timestamp → Option ℕ

-- `s.len()`
abbrev pub byte_len : Env → String → ℕ
byte_len env s = length (env.as_bytes s)
