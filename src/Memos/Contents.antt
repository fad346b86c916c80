-- ===== src/Memos/Contents.antt =====
-- crates/store/src/memos.rs: the parts of `save` and `create` that work out and store a new body.
use panda_server.Prelude.{
  ℕ, String, Option, none, some, [], ◌∷◌, ◌++◌, ◌==◌, leb, if◌then◌else◌, is_some,
}
use panda_server.Prelude.Sql.{find}
use panda_server.Domain.Error.{Result, ok, err, invalid, not_found, ok_or, and_then}
use panda_server.Domain.Markdown.{normalize_markdown, derive_excerpt}
use panda_server.Store.Rows.{Timestamp, Content, BlobMeta}
use panda_server.Store.Env.{Env, byte_len}
use panda_server.Store.State.{Store}
use panda_server.Store.Action.{Action, ◌>>=◌, ◌>>◌, pure}
use panda_server.Blob
use panda_server.Memos.Queries.{MemoSummary, can_access_blob, decode}

-- `proto::SaveBody`
pub data SaveBody : Type 0 where
  markdown_full : String → SaveBody
  markdown_patch : String → SaveBody
  content_hash_only : String → SaveBody

-- crates/domain/src/patch.rs
abbrev pub apply_markdown_patch : Env → String → String → Result String
apply_markdown_patch env base patch_text =
    if env.patch_parses patch_text
    then ok_or (env.diffy_apply base patch_text) (invalid "patch apply failed")
    else err (invalid "invalid markdown_patch")

-- The text that a patch applies to; a note with neither an inline text nor a blob counts as empty.
patch_base : Env → Content → Store → Result String
patch_base env crow s = elim crow.inline_markdown [
  | some md ↦ ok md
  | none ↦ elim crow.blob_ref [ some href ↦ and_then (Blob.get href s) (decode env) | none ↦ ok "" ]
]

normalized : String → Result (Option String)
normalized md = ok (some (normalize_markdown md))

patched : Env → String → String → Result (Option String)
patched env patch base = and_then (apply_markdown_patch env base patch) normalized

-- The `match body` of `save`: the new text, if there is one.
unfoldable pub new_markdown :
    Env → String → Content → Option SaveBody → Store → Result (Option String)
unfolding patch_base normalized patched
new_markdown env ws crow none s = ok none
new_markdown env ws crow (some (markdown_full md)) s = normalized md
new_markdown env ws crow (some (markdown_patch patch)) s =
    and_then (patch_base env crow s) (patched env patch)
new_markdown env ws crow (some (content_hash_only hash)) s =
    if can_access_blob ws hash s
    then and_then (and_then (Blob.get hash s) (decode env)) normalized
    else err (not_found "content hash not found in CAS")

-- `upsert_blob_meta`: a hash that is known stays with the workspace that stored it first.
unfoldable pub upsert_blob_meta : String → String → ℕ → String → Timestamp → Action (Unit {0})
upsert_blob_meta ws hash byte_size storage_key now s =
    let row : BlobMeta = record {
      hash = hash;
      workspace_id = ws;
      byte_size = byte_size;
      storage_key = storage_key;
      refcount = 0;
      created_at = now;
    } in
    let inserted : Store = record s { content_blobs = s.content_blobs ++ row ∷ [] } in
    (
      ok tt,
      if is_some (find (λ (b : BlobMeta). b.hash == hash) s.content_blobs) then s else inserted,
    )

-- A text up to the threshold is kept in the row, a longer one in a blob: (inline, blob_ref).
unfoldable pub place : Env → String → String → Timestamp → Action (Option String × Option String)
place env ws md now s =
    let in_blob = (do
      p ← Blob.put env (env.as_bytes md)
      upsert_blob_meta ws p.0 (byte_len env md) p.0 now
      pure (none, some p.0)) in
    if leb (byte_len env md) s.inline_threshold then (ok (some md, none), s) else in_blob s

pub record NewContent : Type 0 where
  pub hash : String
  pub byte_size : ℕ
  pub inline : Option String
  pub blob_ref : Option String
  pub excerpt : String

abbrev pub placed : Env → String → Option String × Option String → NewContent
placed env md p = record {
  hash = env.blake3 (env.as_bytes md);
  byte_size = byte_len env md;
  inline = p.0;
  blob_ref = p.1;
  excerpt = derive_excerpt md 240;
}

-- The content columns behind the save; without a new text those of the rows as they stand.
unfoldable pub new_content :
    Env → String → MemoSummary → Content → Option String → Timestamp → Action NewContent
new_content env ws summary crow (some md) now = do p ← place env ws md now; pure (placed env md p)
new_content env ws summary crow none now = pure (record {
  hash = summary.content_hash;
  byte_size = crow.byte_size;
  inline = crow.inline_markdown;
  blob_ref = crow.blob_ref;
  excerpt = summary.excerpt;
})
