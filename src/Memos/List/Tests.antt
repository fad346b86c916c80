-- ===== src/Memos/List/Tests.antt =====
-- Listing notes on concrete input.
use panda_server.Prelude.{ℕ, pos, String, false, none, some, [], ◌∷◌, ◌==◌, ◌≡◌, refl, map}
use panda_server.Prelude.Sql.{select, order_by}
use panda_server.Prelude.Text.{join, split_whitespace}
use panda_server.Prelude.Pages.{follow}
use panda_server.Store.Rows.{Memo}
use panda_server.Store.State.{Store}
use panda_server.Store.Example.{example_env, empty_store}
use panda_server.Memos.Queries.{summary_from_row}
use panda_server.Memos.List.{
  MemoListQuery, sanitize_fts_query, newest_first, is_listed, list, item_of, by_id, inventory_page,
}
use panda_server.Memos.List.Paging.{list-follow, inventory_page-follow}

abbrev note : String → ℕ → Memo
note id time = record {
  id = id;
  workspace_id = "w";
  notebook_id = "n1";
  title = some "T";
  excerpt = "";
  tags_json = "[]";
  is_pinned = false;
  is_archived = false;
  is_deleted = false;
  revision = 1;
  content_hash = "xx";
  etag = "1:xx";
  merged_into_memo_id = none;
  created_by = "u";
  updated_by = "u";
  created_at = 50;
  updated_at = time;
  deleted_at = none;
}

abbrev shelf : Store
shelf = record empty_store { memos = note "m2" 60 ∷ note "m1" 50 ∷ note "m3" 60 ∷ [] }

-- One note to a page.
abbrev singly : MemoListQuery
singly = record { notebook_id = none; q = none; trash = false; cursor = none; limit = pos 1 }

list-follow_example :
    follow (λ c. list example_env "w" (record singly { cursor = c }) shelf) 4 none
    ≡ map
        (summary_from_row example_env)
        (order_by newest_first (select (is_listed example_env "w" singly shelf) shelf.memos))
list-follow_example =
    list-follow example_env "w" singly shelf ((refl, (refl, tt)), ((refl, tt), (tt, tt)))

inventory_page-follow_example :
    follow (λ after. let p = inventory_page "w" after (pos 1) shelf in (p.items, p.next)) 4 none
    ≡ map item_of (order_by by_id (select (λ (m : Memo). m.workspace_id == "w") shelf.memos))
inventory_page-follow_example =
    inventory_page-follow "w" (pos 1) shelf ((refl, (refl, tt)), ((refl, tt), (tt, tt)))

newest : order_by newest_first shelf.memos ≡ note "m3" 60 ∷ note "m2" 60 ∷ note "m1" 50 ∷ []
unfolding order_by
newest = refl

quotes_blanked : sanitize_fts_query "say \"hi\" (now)" ≡ "\"say\"* \"hi\"* \"now\"*"
unfolding sanitize_fts_query join split_whitespace
quotes_blanked = refl
