-- ===== src/Memos/Index.antt =====
-- crates/store/src/memos.rs: `list_tags`, and `process_search_dirty`, which moves queued notes to the
-- index of the full-text search.
use panda_server.Prelude.{
  ℕ, ◌+◌, String, Bool, not, ◌&&◌, Option, none, some, List, [], ◌∷◌, ◌++◌, ◌==◌, leb, take, map,
  unwrap_or,
}
use panda_server.Prelude.Sql.{find, select, delete, order_by, count}
use panda_server.Domain.Error.{ok}
use panda_server.Store.Rows.{Memo, Content, Dirty}
use panda_server.Store.Messages.{FtsRow}
use panda_server.Store.Env.{Env}
use panda_server.Store.State.{Store}
use panda_server.Store.Action.{Action, ◌>>=◌, ◌>>◌, pure, reads}
use panda_server.Notebooks.Queries.{text_leb}
use panda_server.Memos.Queries.{is_memo}
use panda_server.Memos.Create.{dedup}

-- `proto::TagSummary`
pub record TagSummary : Type 0 where
  pub tag : String
  pub memo_count : ℕ

abbrev pub all_tags : Env → List Memo → List String
all_tags env [] = []
all_tags env (m ∷ ms) = unwrap_or (env.tags_from_json m.tags_json) [] ++ all_tags env ms

abbrev pub tag_summary : List String → String → TagSummary
tag_summary tags tag = record { tag = tag; memo_count = count (λ t. t == tag) tags }

-- The entries of the map of counts, sorted by their tags.
pub list_tags : Env → String → Store → List TagSummary
list_tags env ws s =
    let tags =
      all_tags env (select (λ (m : Memo). m.workspace_id == ws && not m.is_deleted) s.memos) in
    map (tag_summary tags) (dedup (order_by text_leb tags))

abbrev indexed_row : Memo → Option Content → Option FtsRow
indexed_row m none = none
indexed_row m (some c) = some (record {
  memo_id = m.id;
  workspace_id = m.workspace_id;
  title = unwrap_or m.title "";
  content_text = c.content_text;
  tags = m.tags_json;
})

abbrev indexed : Option Memo → Store → Option FtsRow
indexed none s = none
indexed (some m) s = indexed_row m (find (λ (c : Content). c.memo_id == m.id) s.memo_contents)

abbrev reindexed : Option FtsRow → List FtsRow → List FtsRow
reindexed none rows = rows
reindexed (some r) rows = delete (λ (x : FtsRow). x.memo_id == r.memo_id) rows ++ r ∷ []

-- One turn of the loop; a note that is gone is only taken off the queue.
pub index_one : Dirty → Action (Unit {0})
index_one d s =
    let row = indexed (find (is_memo d.workspace_id d.memo_id) s.memos) s in
    let done : Store = record s {
      memos_fts = reindexed row s.memos_fts;
      search_dirty = delete (λ (x : Dirty). x.memo_id == d.memo_id) s.search_dirty;
    } in
    (ok tt, done)

pub index_all : List Dirty → Action ℕ
index_all [] = pure 0
index_all (d ∷ ds) = do index_one d; n ← index_all ds; pure (n + 1)

abbrev oldest : Dirty → Dirty → Bool
oldest a b = leb a.marked_at b.marked_at

-- `process_search_dirty`; the limit is not negative
pub process_search_dirty : ℕ → Action ℕ
process_search_dirty limit = do
  rows ← reads (λ s. ok (take limit (order_by oldest s.search_dirty)))
  index_all rows
