-- ===== src/Memos/Lifecycle/Tests.antt =====
-- Runs of the trash of the notes on concrete input.
use panda_server.Prelude.{true, false, none, some, [], ◌∷◌, ◌≡◌, refl, pos}
use panda_server.Prelude.Sql.{find}
use panda_server.Domain.Error.{ok}
use panda_server.Domain.Etag.{format_etag}
use panda_server.Store.Rows.{Memo, Content, Notebook}
use panda_server.Store.State.{Store}
use panda_server.Store.Example.{example_env, empty_store}
use panda_server.Notebooks.Queries as Notebooks
use panda_server.Memos.Queries.{is_memo, require_notebook}
use panda_server.Memos.Lifecycle.{soft_delete, restore, batch_move}
use panda_server.Memos.Lifecycle.Trash.{restore-soft_delete}
use panda_server.Memos.Lifecycle.Erase.{IsErased, IsLeft, soft_delete-IsErased}
use panda_server.Memos.Lifecycle.Move.{known, batch_move-known}

abbrev recipe : Memo
recipe = record {
  id = "m1";
  workspace_id = "w";
  notebook_id = "n1";
  title = none;
  excerpt = "";
  tags_json = "[]";
  is_pinned = true;
  is_archived = false;
  is_deleted = false;
  revision = 3;
  content_hash = "xx";
  etag = format_etag 3 "xx";
  merged_into_memo_id = none;
  created_by = "u";
  updated_by = "u";
  created_at = 50;
  updated_at = 50;
  deleted_at = none;
}

abbrev text : Content
text = record {
  memo_id = "m1";
  revision = 3;
  content_hash = "xx";
  inline_markdown = some "ab";
  blob_ref = none;
  byte_size = 2;
  content_text = "ab";
  updated_at = 50;
}

abbrev kitchen : Notebook
kitchen = record {
  id = "n2";
  workspace_id = "w";
  parent_id = none;
  name = "kitchen";
  slug = none;
  path = "/n2";
  depth = 0;
  sort_order = pos 0;
  is_deleted = false;
  created_at = 50;
  updated_at = 50;
}

abbrev shelf : Store
shelf = record empty_store {
  memos = recipe ∷ [];
  memo_contents = text ∷ [];
  notebooks = kitchen ∷ [];
}

restore-soft_delete_example :
    find
      (is_memo "w" "m1")
      (restore example_env "w" "m1" 200
        (soft_delete example_env "w" "m1" false 100 shelf).1).1.memos
    ≡ some (record recipe { is_deleted = false; deleted_at = none; updated_at = 200 })
restore-soft_delete_example = restore-soft_delete example_env "w" "m1" 100 200 shelf refl

soft_delete-IsErased_example :
    IsErased "w" "m1" (soft_delete example_env "w" "m1" true 100 shelf).1
    × IsLeft "m1" shelf (soft_delete example_env "w" "m1" true 100 shelf).1
soft_delete-IsErased_example = soft_delete-IsErased example_env "w" "m1" 100 shelf refl

kitchen-required : require_notebook "w" "n2" shelf ≡ ok tt
unfolding require_notebook Notebooks.get
kitchen-required = refl

batch_move-known_example :
    (batch_move example_env "w" ("m1" ∷ "m9" ∷ []) "n2" 100 shelf shelf).0
    ≡ ok (known "w" ("m1" ∷ "m9" ∷ []) shelf)
batch_move-known_example =
    batch_move-known example_env "w" ("m1" ∷ "m9" ∷ []) "n2" 100 shelf shelf kitchen-required
