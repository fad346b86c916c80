-- ===== src/Memos/Save/Tests.antt =====
-- Runs of `save` on concrete input.
use panda_server.Prelude.{leb, true, false, none, some, [], ◌∷◌, ◌≡◌, refl, arith}
use panda_server.Domain.ErrorCode.{ErrorCode}
use panda_server.Domain.Error.{ok, err, new, with_etag}
use panda_server.Prelude.Sql.{order_by}
use panda_server.Prelude.Text.{
  is_whitespace, lines, replace_char, replace_crlf, split_whitespace, join, strip_prefix,
  without_char, contains_char, trim_start,
}
use panda_server.Domain.Etag.{format_etag, etag_matches, parse_etag, split_once, take_chars}
use panda_server.Domain.Etag.Decimal.{parse_u64, print_u64}
use panda_server.Domain.Markdown.{normalize_markdown, derive_excerpt, derive_plain_text}
use panda_server.Domain.Markdown.Links.{strip_md_links}
use panda_server.Store.Rows.{Memo, Content, MemoSaveAck}
use panda_server.Store.State.{Store}
use panda_server.Store.Example.{example_env, empty_store}
use panda_server.Store.Action.{◌>>=◌}
use panda_server.Sync
use panda_server.Memos.Snapshot.{maybe_snapshot}
use panda_server.Memos.Contents.{markdown_full, new_markdown, new_content, place}
use panda_server.Memos.Request.{SaveRequest, check_precondition, check_lease, check_notebook}
use panda_server.Memos.Queries.{get_idempotency, get_summary, load_content_row, read_markdown}
use panda_server.Memos.Save.{save, save_locked, save_new, finish_save, snapshot_if, write_save}
use panda_server.Memos.Save.Once.{IsFresh, Edited, save-Edited, save-once}
use panda_server.Memos.Save.Retry.{save-retry}
use panda_server.Memos.Save.ReadBack.{read_markdown-save}
use panda_server.Store.Env.{byte_len}

abbrev note : Memo
note = record {
  id = "m1";
  workspace_id = "w";
  notebook_id = "n1";
  title = some "plan";
  excerpt = "xx";
  tags_json = "[]";
  is_pinned = false;
  is_archived = false;
  is_deleted = false;
  revision = 1;
  content_hash = "xx";
  etag = format_etag 1 "xx";
  merged_into_memo_id = none;
  created_by = "u";
  updated_by = "u";
  created_at = 50;
  updated_at = 50;
  deleted_at = none;
}

abbrev body : Content
body = record {
  memo_id = "m1";
  revision = 1;
  content_hash = "xx";
  inline_markdown = some "ab";
  blob_ref = none;
  byte_size = 2;
  content_text = "ab";
  updated_at = 50;
}

abbrev shelf : Store
shelf = record empty_store { memos = note ∷ []; memo_contents = body ∷ [] }

abbrev edit : SaveRequest
edit = record {
  if_match_etag = some "1:xx";
  base_revision = none;
  base_content_hash = none;
  lease_id = none;
  idempotency_key = "k1";
  body = some (markdown_full "abc");
  title = none;
  tags = none;
  is_pinned = none;
  is_archived = none;
  notebook_id = none;
}

-- Another editor's change of the same revision.
abbrev rival : SaveRequest
rival = record edit { idempotency_key = "k2"; body = some (markdown_full "b") }

abbrev first_ack : MemoSaveAck
first_ack = record {
  protocol_version = 1;
  revision = 2;
  content_hash = "xxx";
  etag = format_etag 2 "xxx";
  lease_id = none;
  saved_at = 100;
}

abbrev saved : Store
saved = (save example_env "w" "u" "m1" edit 100 "r1" shelf shelf).1

edit-accepted : save example_env "w" "u" "m1" edit 100 "r1" shelf shelf ≡ (ok first_ack, saved)
unfolding save save_locked save_new ◌>>=◌ get_idempotency get_summary check_precondition
    etag_matches parse_etag split_once parse_u64 check_lease check_notebook load_content_row
    new_markdown new_content place print_u64 format_etag take_chars normalize_markdown
    derive_excerpt derive_plain_text strip_md_links finish_save snapshot_if write_save
    maybe_snapshot Sync.append_unlocked order_by is_whitespace lines replace_char replace_crlf
    split_whitespace join strip_prefix without_char contains_char trim_start
edit-accepted = refl

edit-IsFresh : IsFresh example_env "w" edit 100 shelf shelf
unfolding get_idempotency
edit-IsFresh = record { keyed = refl; unseen = refl; unknown = refl }

rival-IsFresh : IsFresh example_env "w" rival 110 shelf saved
unfolding save save_locked save_new ◌>>=◌ get_idempotency get_summary check_precondition
    etag_matches parse_etag split_once parse_u64 check_lease check_notebook load_content_row
    new_markdown new_content place print_u64 format_etag take_chars normalize_markdown
    derive_excerpt derive_plain_text strip_md_links finish_save snapshot_if write_save
    maybe_snapshot Sync.append_unlocked order_by is_whitespace lines replace_char replace_crlf
    split_whitespace join strip_prefix without_char contains_char trim_start
rival-IsFresh = record { keyed = refl; unseen = refl; unknown = refl }

save-Edited_example : Edited example_env "w" "m1" "1:xx" shelf first_ack saved
save-Edited_example =
    save-Edited example_env "w" "u" "m1" edit 100 "r1" shelf shelf "1:xx" (markdown_full "abc")
      edit-IsFresh refl refl edit-accepted

save-once_example :
    save example_env "w" "u2" "m1" rival 110 "r2" shelf saved
    ≡ (err (with_etag (new ErrorCode.revision_conflict "etag mismatch") first_ack.etag), saved)
save-once_example =
    save-once example_env "w" "u" "m1" edit 100 "r1" shelf shelf "1:xx" (markdown_full "abc") "u2"
      rival 110 "r2" shelf edit-IsFresh refl refl edit-accepted rival-IsFresh refl

ack-reads : example_env.ack_from_json (example_env.ack_to_json first_ack) ≡ some first_ack
unfolding parse_etag split_once parse_u64 format_etag print_u64 take_chars
ack-reads = refl

save-retry_example : save example_env "w" "u" "m1" edit 160 "r3" shelf saved ≡ (ok first_ack, saved)
unfolding get_idempotency
save-retry_example =
    save-retry example_env "w" "u" "m1" edit 100 "r1" shelf shelf "u" "m1" edit 160 "r3" shelf
      ack-reads edit-IsFresh refl edit-accepted refl (omega arith) refl

abc-small : leb (byte_len example_env (normalize_markdown "abc")) shelf.inline_threshold ≡ true
unfolding normalize_markdown replace_char replace_crlf without_char contains_char
abc-small = refl

read_markdown-save_example :
    (read_markdown example_env "w" "m1" saved ≡ ok (normalize_markdown "abc"))
    × (first_ack.content_hash
        ≡ example_env.blake3 (example_env.as_bytes (normalize_markdown "abc")))
read_markdown-save_example =
    read_markdown-save example_env "w" "u" "m1" edit 100 "r1" shelf shelf "abc" edit-IsFresh refl
      abc-small edit-accepted
