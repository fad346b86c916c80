-- ===== src/Memos/Create/Tests.antt =====
-- A creation on concrete input.
use panda_server.Prelude.{pos, false, none, some, [], ◌∷◌, ◌≡◌, refl, inl}
use panda_server.Domain.Error.{ok}
use panda_server.Domain.Etag.{take_chars, format_etag}
use panda_server.Domain.Markdown.{normalize_markdown, derive_excerpt, derive_plain_text}
use panda_server.Prelude.Text.{
  is_whitespace, trim_start, lines, split_whitespace, join, strip_prefix, without_char,
  replace_char, contains_char, replace_crlf,
}
use panda_server.Domain.Etag.Decimal.{print_u64}
use panda_server.Domain.Markdown.Links.{strip_md_links}
use panda_server.Notebooks.Queries.{get}
use panda_server.Blob.{put}
use panda_server.Sync
use panda_server.Memos.Contents.{upsert_blob_meta, place}
use panda_server.Store.Rows.{Notebook}
use panda_server.Store.State.{Store}
use panda_server.Store.Action.{◌>>=◌}
use panda_server.Store.Example.{example_env, empty_store}
use panda_server.Memos.Queries.{
  MemoSummary, content_ref, get_summary, load_content_row, require_notebook, read_markdown,
}
use panda_server.Memos.Create.{
  MemoDetail, hash_of, reference, insert_memo, insert_content, queue_search, insert_note,
  log_created, create_locked, create,
}
use panda_server.Memos.Create.ReadBack.{read_markdown-create}

abbrev inbox : Notebook
inbox = record {
  id = "n1";
  workspace_id = "w";
  parent_id = none;
  name = "Inbox";
  slug = some "inbox";
  path = "/n1";
  depth = 0;
  sort_order = pos 0;
  is_deleted = false;
  created_at = 50;
  updated_at = 50;
}

abbrev shelf : Store
shelf = record empty_store { notebooks = inbox ∷ []; inline_threshold = 2 }

abbrev summary : MemoSummary
summary = record {
  id = "m1";
  notebook_id = "n1";
  title = some "T";
  excerpt = "xxx";
  tags = [];
  is_pinned = false;
  is_archived = false;
  is_deleted = false;
  revision = 1;
  content_hash = "xxx";
  etag = "1:xxx";
  created_at = 100;
  updated_at = 100;
  deleted_at = none;
}

abbrev detail : MemoDetail
detail = record {
  summary = summary;
  content = record { body = some (content_ref "xxx"); content_hash = "xxx"; byte_size = 3 };
}

abbrev created : Store
created = (create example_env "w" "u" "n1" (some "T") "xxx" [] "m1" 100 shelf shelf).1

read_markdown-create_example :
    (read_markdown example_env "w" "m1" created ≡ ok (normalize_markdown "xxx"))
    × ((get_summary example_env "w" "m1" created ≡ some detail.summary)
        × ((detail.summary.etag ≡ format_etag 1 (hash_of example_env (normalize_markdown "xxx")))
            × (detail.summary.revision ≡ 1)))
unfolding create ◌>>=◌ normalize_markdown contains_char replace_char replace_crlf require_notebook
    get create_locked place put upsert_blob_meta insert_note reference insert_memo insert_content
    queue_search log_created Sync.append_unlocked print_u64 format_etag take_chars strip_md_links
    derive_excerpt derive_plain_text get_summary load_content_row is_whitespace join lines
    split_whitespace strip_prefix trim_start without_char
read_markdown-create_example =
    read_markdown-create example_env "w" "u" "n1" (some "T") "xxx" [] "m1" 100 shelf shelf
      {d = detail} {t = created} refl (inl refl) refl
