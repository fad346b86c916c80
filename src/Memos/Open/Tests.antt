-- ===== src/Memos/Open/Tests.antt =====
-- Opening a note on concrete input.
use panda_server.Prelude.{false, none, some, [], ◌∷◌, ◌≡◌, refl, arith}
use panda_server.Domain.Error.{ok}
use panda_server.Store.Rows.{Memo, Content, Lease}
use panda_server.Store.State.{Store}
use panda_server.Store.Action.{◌>>=◌}
use panda_server.Store.Example.{example_env, empty_store}
use panda_server.Memos.Queries.{markdown, get_summary, summary_from_row, load_content_row}
use panda_server.Memos.Request.{check_lease}
use panda_server.Memos.Open.{Opened, new_lease, create_lease, lease_if, open_memo}
use panda_server.Memos.Open.Accepted.{check_lease-open_memo}

abbrev note : Memo
note = record {
  id = "m1";
  workspace_id = "w";
  notebook_id = "n1";
  title = some "T";
  excerpt = "";
  tags_json = "[]";
  is_pinned = false;
  is_archived = false;
  is_deleted = false;
  revision = 1;
  content_hash = "xx";
  etag = "1:xx";
  merged_into_memo_id = none;
  created_by = "u";
  updated_by = "u";
  created_at = 50;
  updated_at = 50;
  deleted_at = none;
}

abbrev body : Content
body = record {
  memo_id = "m1";
  revision = 1;
  content_hash = "xx";
  inline_markdown = some "hi";
  blob_ref = none;
  byte_size = 2;
  content_text = "hi";
  updated_at = 50;
}

abbrev desk : Store
desk = record empty_store { memos = note ∷ []; memo_contents = body ∷ [] }

abbrev lent : Lease
lent = new_lease "w" "m1" "u" (summary_from_row example_env note) "soft" "l1" 100

abbrev opened : Opened
opened = record {
  detail = record {
    summary = summary_from_row example_env note;
    content = record { body = some (markdown "hi"); content_hash = "xx"; byte_size = 2 };
  };
  etag = "1:xx";
  lease = some lent;
}

abbrev open_desk : Store
open_desk = record desk { edit_leases = lent ∷ [] }

check_lease-open_memo_example :
    (check_lease "w" "u" "m1" (some "l1") 200 (summary_from_row example_env note) open_desk ≡ ok tt)
    × ((get_summary example_env "w" "m1" desk ≡ some opened.detail.summary)
        × ((opened.etag ≡ opened.detail.summary.etag)
            × ((lent.base_revision ≡ opened.detail.summary.revision)
                × (lent.base_content_hash ≡ opened.detail.summary.content_hash))))
unfolding open_memo get_summary load_content_row lease_if create_lease ◌>>=◌
check_lease-open_memo_example =
    check_lease-open_memo example_env "w" "m1" "u" "soft" "l1" 100 200
      (summary_from_row example_env note) desk desk desk {o = opened} {l = lent} {t = open_desk}
      refl refl (omega arith)
