-- ===== src/Memos/Create.antt =====
-- crates/store/src/memos.rs: `create` and `merge`. The write lock is taken behind the check of the
-- notebook, and one reading of the clock serves for a whole call.
pub mod ReadBack
pub mod Operations
pub mod Tests
use Prim.Native.String
use panda_server.Prelude.{
  ℕ, String, Bool, true, false, Option, none, some, List, [], ◌∷◌, ◌++◌, ◌==◌, ltb, length,
  if◌then◌else◌, is_some, unwrap_or, or_option,
}
use panda_server.Prelude.Sql.{find, update, order_by}
use panda_server.Prelude.Text.{join}
use panda_server.Domain.Error.{
  Result, ok, err, invalid, internal, not_found, ok_or, fail_if, and_then,
}
use panda_server.Domain.Etag.{format_etag}
use panda_server.Domain.Markdown.{normalize_markdown, derive_excerpt, derive_plain_text}
use panda_server.Store.Rows.{Timestamp, Memo, Content, Dirty}
use panda_server.Store.Env.{Env, Json, str, byte_len}
use panda_server.Store.State.{Store}
use panda_server.Store.Action.{Action, ◌>>=◌, ◌>>◌, pure, lift, reads, transaction}
use panda_server.Sync
use panda_server.Notebooks.Queries.{text_leb}
use panda_server.Memos.Queries.{
  MemoSummary, MemoContent, is_memo, get_summary, load_content_row, read_markdown, require_notebook,
  content_proto,
}
use panda_server.Memos.Contents.{place}
use panda_server.Memos.Save.{add_reference, mark_dirty}

-- `proto::MemoDetail`; both parts are always there
pub record MemoDetail : Type 0 where
  pub summary : MemoSummary
  pub content : MemoContent

abbrev pub hash_of : Env → String → String
hash_of env md = env.blake3 (env.as_bytes md)

-- What the client asks for, but for the notebook and the text.
abbrev pub new_memo :
    Env
    → String
    → String
    → String
    → Option String
    → String
    → List String
    → String
    → Timestamp
    → Memo
new_memo env ws actor_id notebook_id title md tags id now = record {
  id = id;
  workspace_id = ws;
  notebook_id = notebook_id;
  title = title;
  excerpt = derive_excerpt md 240;
  tags_json = env.tags_to_json tags;
  is_pinned = false;
  is_archived = false;
  is_deleted = false;
  revision = 1;
  content_hash = hash_of env md;
  etag = format_etag 1 (hash_of env md);
  merged_into_memo_id = none;
  created_by = actor_id;
  updated_by = actor_id;
  created_at = now;
  updated_at = now;
  deleted_at = none;
}

abbrev pub first_content :
    Env → String → Option String × Option String → String → Timestamp → Content
first_content env md p id now = record {
  memo_id = id;
  revision = 1;
  content_hash = hash_of env md;
  inline_markdown = p.0;
  blob_ref = p.1;
  byte_size = byte_len env md;
  content_text = derive_plain_text md;
  updated_at = now;
}

unfoldable pub reference : Option String → Action (Unit {0})
reference href s =
    let referenced : Store = record s { content_blobs = add_reference href s.content_blobs } in
    (ok tt, referenced)

unfoldable pub insert_memo : Memo → Action (Unit {0})
insert_memo m s =
    let inserted : Store = record s { memos = s.memos ++ m ∷ [] } in
    if is_some (find (λ (x : Memo). x.id == m.id) s.memos)
    then (err (internal "UNIQUE constraint failed: memos.id"), s)
    else (ok tt, inserted)

unfoldable pub insert_content : Content → Action (Unit {0})
insert_content c s =
    let inserted : Store = record s { memo_contents = s.memo_contents ++ c ∷ [] } in
    if is_some (find (λ (x : Content). x.memo_id == c.memo_id) s.memo_contents)
    then (err (internal "UNIQUE constraint failed: memo_contents.memo_id"), s)
    else (ok tt, inserted)

unfoldable pub queue_search : String → String → Timestamp → Action (Unit {0})
queue_search ws id now s =
    let queued : Store = record s { search_dirty = mark_dirty ws id now s.search_dirty } in
    (ok tt, queued)

-- The transaction.
unfoldable pub insert_note : String → Memo → Content → Timestamp → Action (Unit {0})
insert_note ws m c now = do
  reference c.blob_ref
  insert_memo m
  insert_content c
  queue_search ws m.id now

unfoldable pub log_created : Env → String → String → String → Timestamp → Action (Unit {0})
log_created env ws id etag now = do
  Sync.append_unlocked ws "memo" id "upsert" "content"
      (some (env.object_to_json (("id", str id) ∷ ("etag", str etag) ∷ [])))
      (String.◌++◌ "memo:" (String.◌++◌ id ":content")) now
  pure tt

-- The rows that the answer is made of. The summary's `unwrap` is on the row just inserted.
abbrev pub detail_of : Env → String → String → Store → Result MemoDetail
detail_of env ws id s =
    and_then
      (ok_or (get_summary env ws id s) (internal "called `Option::unwrap()` on a `None` value"))
      λ summary. and_then (load_content_row ws id s) λ crow.
        let detail : MemoDetail = record {
          summary = summary;
          content = content_proto crow s.inline_threshold;
        } in
        ok detail

-- `create` behind the check of the notebook; `md` is the normalised text.
unfoldable pub create_locked :
    Env
    → String
    → String
    → String
    → Option String
    → String
    → List String
    → String
    → Timestamp
    → Action MemoDetail
create_locked env ws actor_id notebook_id title md tags id now = do
  p ← place env ws md now
  transaction (
      insert_note ws (new_memo env ws actor_id notebook_id title md tags id now)
        (first_content env md p id now) now)
  log_created env ws id (format_etag 1 (hash_of env md)) now
  reads (detail_of env ws id)

-- `seen` is the store that the check of the notebook finds, before the write lock.
unfoldable pub create :
    Env
    → String
    → String
    → String
    → Option String
    → String
    → List String
    → String
    → Timestamp
    → Store
    → Action MemoDetail
create env ws actor_id notebook_id title markdown tags id now seen = do
  lift (require_notebook ws notebook_id seen)
  create_locked env ws actor_id notebook_id title (normalize_markdown markdown) tags id now

-- What `merge` has read of the notes: their parts and their tags.
abbrev pub Parts : Type 0
Parts = List String × List String

part : MemoSummary → String → String → String
part summary id md =
    String.◌++◌ "# " (String.◌++◌ (unwrap_or summary.title id) (String.◌++◌ "\n\n" md))

unfoldable pub merge_parts : Env → String → List String → Store → Result Parts
unfolding part
merge_parts env ws [] s = ok ([], [])
merge_parts env ws (id ∷ ids) s =
    and_then (ok_or (get_summary env ws id s) (not_found (String.◌++◌ "memo " id))) λ summary.
      and_then (read_markdown env ws id s) λ md.
        and_then (merge_parts env ws ids s)
          λ rest. ok (part summary id md ∷ rest.0, summary.tags ++ rest.1)

-- `dedup` of a sorted list
abbrev pub dedup : List String → List String
dedup [] = []
dedup (x ∷ []) = x ∷ []
dedup (x ∷ y ∷ ys) = let rest = dedup (y ∷ ys) in if x == y then rest else x ∷ rest

abbrev pub merged_away : String → Timestamp → Memo → Memo
merged_away new_id now m = record m {
  is_deleted = true;
  deleted_at = some now;
  merged_into_memo_id = some new_id;
  updated_at = now;
}

-- The loop behind the creation; no entry goes to the change log.
unfoldable pub retire : String → String → List String → Timestamp → Action (Unit {0})
retire ws new_id [] now s = (ok tt, s)
retire ws new_id (id ∷ ids) now s =
    let retired : Store = record s {
      memos = update (is_memo ws id) (merged_away new_id now) s.memos;
    } in
    retire ws new_id ids now retired

-- The reads before the creation find `seen`. The creation and the loop behind it take the write lock
-- one after the other; here nothing comes between them.
unfoldable pub merge :
    Env
    → String
    → String
    → List String
    → String
    → Option String
    → String
    → Timestamp
    → Store
    → Action MemoDetail
merge env ws actor_id memo_ids notebook_id title id now seen = do
  lift (fail_if (ltb (length memo_ids) 2) (invalid "merge requires >= 2 memos"))
  parts ← lift (merge_parts env ws memo_ids seen)
  detail ←
      create env ws actor_id notebook_id (or_option title (some "Merged"))
        (join "\n\n---\n\n" parts.0) (dedup (order_by text_leb parts.1)) id now seen
  retire ws detail.summary.id memo_ids now
  pure detail
