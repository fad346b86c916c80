-- ===== src/Memos/Save.antt =====
-- crates/store/src/memos.rs, `save`: an edit of a note under optimistic concurrency, retried by its
-- idempotency key. One reading of the clock serves for a whole call. `save_locked` is the part under
-- the write lock, where no other writer runs.
pub mod Frame
pub mod Outcome
pub mod Once
pub mod Retry
pub mod ReadBack
pub mod Operations
pub mod Tests
use Prim.Native.String
use panda_server.Prelude.{
  ℕ, ◌+◌, String, Bool, true, false, not, ◌&&◌, ◌||◌, Option, none, some, List, [], ◌∷◌, ◌++◌, ◌==◌,
  eqb, ltb, if◌then◌else◌, is_some, unwrap_or, or_option,
}
use panda_server.Prelude.Sql.{find, update}
use panda_server.Prelude.Text.{is_empty}
use panda_server.Domain.ErrorCode.{ErrorCode}
use panda_server.Domain.Error.{
  PandaError, Result, ok, err, new, with_etag, invalid, not_found, ok_or, fail_if,
}
use panda_server.Domain.Etag.{format_etag, etag_matches}
use panda_server.Domain.Markdown.{derive_plain_text}
use panda_server.Store.Rows.{
  Timestamp, Memo, Content, Lease, IdempotencyKey, BlobMeta, Dirty, MemoSaveAck,
}
use panda_server.Store.Env.{Env, Json, str}
use panda_server.Store.State.{Store}
use panda_server.Store.Action.{Action, ◌>>=◌, ◌>>◌, pure, lift, reads}
use panda_server.Sync
use panda_server.Memos.Queries.{
  MemoSummary, is_memo, get_summary, load_content_row, require_notebook, get_idempotency,
}
use panda_server.Memos.Contents.{SaveBody, NewContent, new_markdown, new_content}
use panda_server.Memos.Request.{
  SaveRequest, check_precondition, check_lease, check_notebook, has_meta,
}
use panda_server.Memos.Snapshot.{maybe_snapshot}

-- What one transaction of `save` writes.
pub record Edit : Type 0 where
  pub summary : MemoSummary
  pub content : NewContent
  pub markdown : Option String

abbrev pub content_changed : Edit → Bool
content_changed c = is_some c.markdown

abbrev pub next_revision : Edit → ℕ
next_revision c = if content_changed c then c.summary.revision + 1 else c.summary.revision

abbrev pub next_etag : Edit → String
next_etag c = format_etag (next_revision c) c.content.hash

-- `UPDATE memos SET …`
abbrev pub saved_memo : Env → String → SaveRequest → Edit → Timestamp → Memo → Memo
saved_memo env actor_id req c now m = record m {
  notebook_id = unwrap_or req.notebook_id c.summary.notebook_id;
  title = or_option req.title c.summary.title;
  excerpt = c.content.excerpt;
  tags_json = env.tags_to_json (unwrap_or req.tags c.summary.tags);
  is_pinned = unwrap_or req.is_pinned c.summary.is_pinned;
  is_archived = unwrap_or req.is_archived c.summary.is_archived;
  revision = next_revision c;
  content_hash = c.content.hash;
  etag = next_etag c;
  updated_by = actor_id;
  updated_at = now;
}

-- `UPDATE memo_contents SET …`
abbrev pub saved_content : Edit → Timestamp → Content → Content
saved_content c now r = record r {
  revision = next_revision c;
  content_hash = c.content.hash;
  inline_markdown = c.content.inline;
  blob_ref = c.content.blob_ref;
  byte_size = c.content.byte_size;
  content_text = derive_plain_text (unwrap_or c.markdown "");
  updated_at = now;
}

abbrev pub add_reference : Option String → List BlobMeta → List BlobMeta
add_reference none bs = bs
add_reference (some href) bs =
    update (λ b. b.hash == href) (λ b. record b { refcount = b.refcount + 1 }) bs

-- `INSERT INTO search_dirty … ON CONFLICT(memo_id) DO UPDATE SET marked_at`
abbrev pub mark_dirty : String → String → Timestamp → List Dirty → List Dirty
mark_dirty ws memo_id now ds =
    let row : Dirty = record { memo_id = memo_id; workspace_id = ws; marked_at = now } in
    if is_some (find (λ (d : Dirty). d.memo_id == memo_id) ds)
    then update (λ d. d.memo_id == memo_id) (λ d. record d { marked_at = now }) ds
    else ds ++ row ∷ []

abbrev renew_lease : Option String → Edit → Timestamp → List Lease → List Lease
renew_lease none c now ls = ls
renew_lease (some lid) c now ls =
    update (λ l. l.id == lid)
      (λ l. record l {
        base_revision = next_revision c;
        base_content_hash = c.content.hash;
        updated_at = now;
      })
      ls

abbrev pub ack_of : SaveRequest → Edit → Timestamp → MemoSaveAck
ack_of req c now = record {
  protocol_version = 1;
  revision = next_revision c;
  content_hash = c.content.hash;
  etag = next_etag c;
  lease_id = req.lease_id;
  saved_at = now;
}

-- `chrono::Duration::hours(24)`
abbrev pub one_day : ℕ
one_day = 86400

abbrev pub key_row : Env → String → String → String → MemoSaveAck → Timestamp → IdempotencyKey
key_row env ws key memo_id ack now = record {
  workspace_id = ws;
  key = key;
  memo_id = memo_id;
  response_json = env.ack_to_json ack;
  expires_at = now + one_day;
  created_at = now;
}

-- The INSERT of the acknowledgement. A row with the same key, though expired, makes it fail, and its
-- failure is ignored.
abbrev pub remember :
    Env
    → String
    → String
    → String
    → MemoSaveAck
    → Timestamp
    → List IdempotencyKey
    → List IdempotencyKey
remember env ws key memo_id ack now ks =
    if is_some (find (λ (k : IdempotencyKey). k.workspace_id == ws && k.key == key) ks)
    then ks
    else ks ++ key_row env ws key memo_id ack now ∷ []

pub write_save : Env → String → String → String → SaveRequest → Edit → Timestamp → Store → Store
write_save env ws actor_id memo_id req c now s =
    let changed = content_changed c in
    record s {
      memos = update (is_memo ws memo_id) (saved_memo env actor_id req c now) s.memos;
      memo_contents =
          if changed
          then update (λ r. r.memo_id == memo_id) (saved_content c now) s.memo_contents
          else s.memo_contents;
      content_blobs =
          if changed then add_reference c.content.blob_ref s.content_blobs else s.content_blobs;
      search_dirty = if changed then mark_dirty ws memo_id now s.search_dirty else s.search_dirty;
      edit_leases = renew_lease req.lease_id c now s.edit_leases;
      idempotency_keys =
          remember env ws req.idempotency_key memo_id (ack_of req c now) now s.idempotency_keys;
    }

-- The transaction, the entry in the change log, and the acknowledgement.
pub finish_save :
    Env → String → String → String → SaveRequest → Edit → Timestamp → Action MemoSaveAck
unfolding write_save
finish_save env ws actor_id memo_id req c now s =
    let kind : String = if content_changed c then "content" else "meta" in
    let payload =
      env.object_to_json
        (("id", str memo_id) ∷ ("etag", str (next_etag c)) ∷ ("kind", str kind) ∷ []) in
    let logged =
      Sync.append_unlocked ws "memo" memo_id "upsert" kind (some payload)
        (String.◌++◌ "memo:" (String.◌++◌ memo_id (String.◌++◌ ":" kind))) now
        (write_save env ws actor_id memo_id req c now s) in
    (ok (ack_of req c now), logged.1)

pub snapshot_if :
    Bool → Env → String → MemoSummary → String → Timestamp → String → Action (Unit {0})
snapshot_if true env memo_id summary actor_id now id =
    maybe_snapshot env memo_id summary actor_id now id
snapshot_if false env memo_id summary actor_id now id = pure tt

pub save_new :
    Env → String → String → String → SaveRequest → Timestamp → String → Action MemoSaveAck
save_new env ws actor_id memo_id req now snapshot_id = do
  summary ← reads (λ s. ok_or (get_summary env ws memo_id s) (not_found "memo not found"))
  lift (check_precondition req summary)
  reads (check_lease ws actor_id memo_id req.lease_id now summary)
  reads (check_notebook ws req.notebook_id)
  crow ← reads (load_content_row ws memo_id)
  markdown ← reads (new_markdown env ws crow req.body)
  lift (fail_if (not (is_some markdown) && not (has_meta req)) (invalid "nothing to save"))
  content ← new_content env ws summary crow markdown now
  snapshot_if (is_some markdown) env memo_id summary actor_id now snapshot_id
  finish_save env ws actor_id memo_id req
      (record { summary = summary; content = content; markdown = markdown }) now

-- An acknowledgement that is still stored answers the call at once.
pub save_locked :
    Env → String → String → String → SaveRequest → Timestamp → String → Action MemoSaveAck
save_locked env ws actor_id memo_id req now snapshot_id s =
    elim (get_idempotency env ws req.idempotency_key now s) [
      | some ack ↦ (ok ack, s)
      | none ↦ save_new env ws actor_id memo_id req now snapshot_id s
    ]

-- The store `seen` is read before the write lock is taken, the store `s` is the one under it.
pub save :
    Env → String → String → String → SaveRequest → Timestamp → String → Store → Action MemoSaveAck
save env ws actor_id memo_id req now snapshot_id seen s =
    if is_empty req.idempotency_key
    then (err (invalid "idempotency_key required"), s)
    else elim (get_idempotency env ws req.idempotency_key now seen) [
      | some ack ↦ (ok ack, s)
      | none ↦ save_locked env ws actor_id memo_id req now snapshot_id s
    ]
