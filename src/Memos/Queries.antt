-- ===== src/Memos/Queries.antt =====
-- The reads of crates/store/src/memos.rs.
use panda_server.Prelude.{
  ℕ, String, Bool, false, not, ◌&&◌, ◌||◌, Option, none, some, List, [], ◌==◌, leb, ltb,
  if◌then◌else◌, is_some, unwrap_or, is_same,
}
use panda_server.Prelude.Sql.{find}
use panda_server.Domain.Error.{Result, ok, err, not_found, internal, ok_or, ◌>>=◌}
use panda_server.Store.Rows.{
  Timestamp, Memo, Content, IdempotencyKey, MemoSaveAck, Resource, Notebook,
}
use panda_server.Store.Env.{Env}
use panda_server.Store.State.{Store}
use panda_server.Blob
use panda_server.Notebooks.Queries as Notebooks

-- `proto::MemoSummary`
pub record MemoSummary : Type 0 where
  pub id : String
  pub notebook_id : String
  pub title : Option String
  pub excerpt : String
  pub tags : List String
  pub is_pinned : Bool
  pub is_archived : Bool
  pub is_deleted : Bool
  pub revision : ℕ
  pub content_hash : String
  pub etag : String
  pub created_at : Timestamp
  pub updated_at : Timestamp
  pub deleted_at : Option Timestamp

abbrev pub summary_from_row : Env → Memo → MemoSummary
summary_from_row env r = record {
  id = r.id;
  notebook_id = r.notebook_id;
  title = r.title;
  excerpt = r.excerpt;
  tags = unwrap_or (env.tags_from_json r.tags_json) [];
  is_pinned = r.is_pinned;
  is_archived = r.is_archived;
  is_deleted = r.is_deleted;
  revision = r.revision;
  content_hash = r.content_hash;
  etag = r.etag;
  created_at = r.created_at;
  updated_at = r.updated_at;
  deleted_at = r.deleted_at;
}

abbrev pub is_memo : String → String → Memo → Bool
is_memo ws id m = m.workspace_id == ws && m.id == id

abbrev summary_of : Env → Option Memo → Option MemoSummary
summary_of env none = none
summary_of env (some r) = some (summary_from_row env r)

unfoldable pub get_summary : Env → String → String → Store → Option MemoSummary
get_summary env ws id s = summary_of env (find (is_memo ws id) s.memos)

-- The JOIN with the memo's row, for its workspace.
abbrev pub is_content : String → String → Store → Content → Bool
is_content ws memo_id s c = c.memo_id == memo_id && is_some (find (is_memo ws memo_id) s.memos)

unfoldable pub load_content_row : String → String → Store → Result Content
load_content_row ws memo_id s =
    ok_or (find (is_content ws memo_id s) s.memo_contents) (not_found "memo content missing")

-- `String::from_utf8`, as the callers report its failure
abbrev pub decode : Env → List ℕ → Result String
decode env bytes = ok_or (env.from_utf8 bytes) (internal "utf8 content")

abbrev pub read_body : Env → Option String → Option String → Store → Result String
read_body env (some md) blob_ref s = ok md
read_body env none (some href) s = do bytes ← Blob.get href s; decode env bytes
read_body env none none s = err (internal "content has neither inline nor blob")

abbrev pub read_markdown : Env → String → String → Store → Result String
read_markdown env ws memo_id s = do
  row ← load_content_row ws memo_id s
  read_body env row.inline_markdown row.blob_ref s

-- A hash is shared with a workspace by a note that refers to it or by a resource.
abbrev pub can_access_blob : String → String → Store → Bool
can_access_blob ws hash s =
    is_some (
      find
        (λ (c : Content).
          is_same c.blob_ref (some hash) && is_some (find (is_memo ws c.memo_id) s.memos))
        s.memo_contents)
    || is_some (
        find (λ (r : Resource). r.workspace_id == ws && r.content_hash == hash && not r.is_deleted)
          s.resources)

live_notebook : Option Notebook → Bool
live_notebook none = false
live_notebook (some n) = not n.is_deleted

unfoldable pub require_notebook : String → String → Store → Result (Unit {0})
unfolding live_notebook
require_notebook ws notebook_id s =
    if live_notebook (Notebooks.get ws notebook_id s)
    then ok tt
    else err (not_found "notebook not found in workspace")

-- `proto::MemoContentBody`
pub data MemoContentBody : Type 0 where
  markdown : String → MemoContentBody
  content_ref : String → MemoContentBody

pub record MemoContent : Type 0 where
  pub body : Option MemoContentBody
  pub content_hash : String
  pub byte_size : ℕ

abbrev content_body : Option String → Option String → Bool → Option MemoContentBody
content_body (some md) none small = some (markdown md)
content_body (some md) (some href) small =
    if small then some (markdown md) else some (content_ref href)
content_body none (some href) small = some (content_ref href)
content_body none none small = none

abbrev pub content_proto : Content → ℕ → MemoContent
content_proto row inline_threshold = record {
  body = content_body row.inline_markdown row.blob_ref (leb row.byte_size inline_threshold);
  content_hash = row.content_hash;
  byte_size = row.byte_size;
}

stored_ack : Env → Option IdempotencyKey → Option MemoSaveAck
stored_ack env none = none
stored_ack env (some k) = env.ack_from_json k.response_json

-- An acknowledgement is served until it expires.
abbrev pub is_served : String → String → Timestamp → IdempotencyKey → Bool
is_served ws key now k = k.workspace_id == ws && k.key == key && ltb now k.expires_at

unfoldable pub get_idempotency : Env → String → String → Timestamp → Store → Option MemoSaveAck
unfolding stored_ack
get_idempotency env ws key now s = stored_ack env (find (is_served ws key now) s.idempotency_keys)
