-- ===== src/Memos/Revisions.antt =====
-- crates/store/src/memos.rs: `list_revisions` and `restore_revision`.
use panda_server.Prelude.{
  ℕ, ℤ, clamp, String, Bool, ◌&&◌, Option, none, some, List, [], ◌==◌, leb, take, map,
  if◌then◌else◌, unwrap_or,
}
use panda_server.Prelude.Sql.{find, select, order_by}
use panda_server.Domain.Error.{Result, ok, err, not_found, ok_or, and_then}
use panda_server.Store.Rows.{Timestamp, Content, Revision, MemoSaveAck}
use panda_server.Store.Env.{Env}
use panda_server.Store.State.{Store}
use panda_server.Store.Action.{Action, ◌>>=◌, reads}
use panda_server.Blob
use panda_server.Memos.Queries.{MemoSummary, get_summary, load_content_row, decode}
use panda_server.Memos.Contents.{markdown_full}
use panda_server.Memos.Request.{SaveRequest}
use panda_server.Memos.Save.{save}

-- `proto::MemoRevision`
pub record MemoRevision : Type 0 where
  pub id : String
  pub memo_id : String
  pub revision : ℕ
  pub title : Option String
  pub tags : List String
  pub content_hash : String
  pub created_at : Timestamp

abbrev pub tags_in : Env → Revision → List String
tags_in env r = unwrap_or (env.tags_from_json r.tags_json) []

abbrev pub revision_of : Env → Revision → MemoRevision
revision_of env r = record {
  id = r.id;
  memo_id = r.memo_id;
  revision = r.revision;
  title = r.title;
  tags = tags_in env r;
  content_hash = r.content_hash;
  created_at = r.created_at;
}

-- `ORDER BY revision DESC`
abbrev newest : Revision → Revision → Bool
newest a b = leb b.revision a.revision

pub list_revisions : Env → String → String → ℤ → Store → Result (List MemoRevision)
list_revisions env ws memo_id limit s =
    and_then (ok_or (get_summary env ws memo_id s) (not_found "memo not found")) λ _. ok (
      map (revision_of env) (
        take (clamp limit 1 100)
          (order_by newest (select (λ (r : Revision). r.memo_id == memo_id) s.memo_revisions))))

abbrev missing_blob : Result String
missing_blob = err (not_found "revision content blob missing; ensure CAS retained hash")

abbrev inline_text : Env → Option String → Result String
inline_text env none = missing_blob
inline_text env (some md) = decode env (env.as_bytes md)

abbrev current_text : Env → String → Content → Result String
current_text env hash crow =
    if crow.content_hash == hash then inline_text env crow.inline_markdown else missing_blob

abbrev stored_text : Env → String → String → String → Result (List ℕ) → Store → Result String
stored_text env ws memo_id hash (ok bytes) s = decode env bytes
stored_text env ws memo_id hash (err e) s =
    and_then (load_content_row ws memo_id s) (current_text env hash)

-- The text of a revision: its blob, or the note's own row while that still has the hash.
abbrev pub revision_text : Env → String → String → String → Store → Result String
revision_text env ws memo_id hash s = stored_text env ws memo_id hash (Blob.get hash s) s

abbrev pub restoring : Env → MemoSummary → Revision → String → String → SaveRequest
restoring env summary r md key = record {
  if_match_etag = some summary.etag;
  base_revision = none;
  base_content_hash = none;
  lease_id = none;
  idempotency_key = key;
  body = some (markdown_full md);
  title = r.title;
  tags = some (tags_in env r);
  is_pinned = none;
  is_archived = none;
  notebook_id = none;
}

-- The key is a fresh id.
pub restore_revision :
    Env → String → String → String → String → String → String → Timestamp → Action MemoSaveAck
restore_revision env ws actor_id memo_id revision_id key snapshot_id now = do
  summary ← reads (λ s. ok_or (get_summary env ws memo_id s) (not_found "memo not found"))
  row ← reads (λ s.
      ok_or (find (λ (r : Revision). r.id == revision_id && r.memo_id == memo_id) s.memo_revisions)
        (not_found "revision not found"))
  md ← reads (revision_text env ws memo_id row.content_hash)
  λ s. save env ws actor_id memo_id (restoring env summary row md key) now snapshot_id s s
