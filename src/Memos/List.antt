-- ===== src/Memos/List.antt =====
-- crates/store/src/memos.rs: `list`, `inventory_page`, the search query and the tags. A cursor is the
-- pair of the time and the id that the text `updated_at|id` has.
mod Order
pub mod Paging
mod Tests
use Prim.Native.String
use Prim.Native.String.{[], ◌∷◌}
use Prim.Native.Nat.{Ordering}
use panda_server.Prelude.{
  ℕ, ◌+◌, ℤ, clamp, String, Char, code, Bool, true, false, not, ◌&&◌, ◌||◌, Option, none, some,
  List, ◌==◌, ltb, eqb, length, take, get_last?, if◌then◌else◌, unwrap_or, map,
}
use panda_server.Prelude.Sql.{select, order_by}
use panda_server.Prelude.Text.{trim, is_empty, split_whitespace, join}
use panda_server.Store.Rows.{Timestamp, Memo}
use panda_server.Store.Env.{Env}
use panda_server.Store.Messages.{FtsRow}
use panda_server.Store.State.{Store}
use panda_server.Notebooks.Queries.{text_leb}
use panda_server.Memos.Queries.{MemoSummary, summary_from_row}

-- `MemoListQuery`
pub record MemoListQuery : Type 0 where
  pub notebook_id : Option String
  pub q : Option String
  pub trash : Bool
  pub cursor : Option (Timestamp × String)
  pub limit : ℤ

abbrev pub text_ltb : String → String → Bool
text_ltb a b = elim (String.compare a b) [ Ordering.lt ↦ true | _ ↦ false ]

-- The row value comparison `(updated_at, id) < (?, ?)`.
abbrev pub is_older : Timestamp × String → Timestamp × String → Bool
is_older a b = ltb a.0 b.0 || eqb a.0 b.0 && text_ltb a.1 b.1

abbrev pub position : Memo → Timestamp × String
position m = (m.updated_at, m.id)

-- `ORDER BY updated_at DESC, id DESC`
abbrev pub newest_first : Memo → Memo → Bool
newest_first a b = not (is_older (position a) (position b))

abbrev pub in_notebook : Option String → Memo → Bool
in_notebook none m = true
in_notebook (some nb) m = m.notebook_id == nb

abbrev pub is_behind : Option (Timestamp × String) → Memo → Bool
is_behind none m = true
is_behind (some c) m = is_older (position m) c

abbrev pub any_text : (String → Bool) → List String → Bool
any_text p List.[] = false
any_text p (List.◌∷◌ x xs) = p x || any_text p xs

-- The operators of FTS that the query blanks out.
abbrev pub is_fts_operator : Char → Bool
is_fts_operator c =
    eqb (code c) 34
    || eqb (code c) 39
    || eqb (code c) 42
    || eqb (code c) 40
    || eqb (code c) 41
    || eqb (code c) 58
    || eqb (code c) 94

blank_operators : String → String
blank_operators [] = ""
blank_operators (c ∷ s) =
    let rest = blank_operators s in if is_fts_operator c then String.◌++◌ " " rest else c ∷ rest

quoted : String → String
quoted token = String.◌++◌ "\"" (String.◌++◌ token "\"*")

unfoldable pub sanitize_fts_query : String → String
unfolding blank_operators quoted
sanitize_fts_query raw = join " " (map quoted (split_whitespace (blank_operators raw)))

fts_id : FtsRow → String
fts_id r = r.memo_id

-- A query that SQLite refuses matches no row.
unfoldable pub search_fts_ids : Env → String → String → Store → List String
unfolding fts_id
search_fts_ids env ws needle s =
    let query = sanitize_fts_query needle in
    if is_empty query
    then List.[]
    else map fts_id (
        take 500
          (select (λ (r : FtsRow). r.workspace_id == ws && env.fts_match query r) s.memos_fts))

-- The condition of the search; the texts of `ids` come from the index.
abbrev pub hits : Env → String → List String → Memo → Bool
hits env needle ids m =
    let pattern = String.◌++◌ "%" (String.◌++◌ needle "%") in
    env.like (unwrap_or m.title "") pattern
    || env.like m.excerpt pattern
    || env.like m.tags_json pattern
    || any_text (λ id. m.id == id) ids

-- The search text that counts: trimmed, and not empty.
abbrev pub needle_of : Option String → Option String
needle_of none = none
needle_of (some q) = if is_empty (trim q) then none else some (trim q)

abbrev pub is_hit : Env → String → Option String → Store → Memo → Bool
is_hit env ws none s m = true
is_hit env ws (some needle) s m = hits env needle (search_fts_ids env ws needle s) m

-- What the query selects, before the cursor.
abbrev pub is_listed : Env → String → MemoListQuery → Store → Memo → Bool
is_listed env ws q s m =
    m.workspace_id == ws
    && (if q.trash then m.is_deleted else not m.is_deleted)
    && is_hit env ws (needle_of q.q) s m
    && in_notebook q.notebook_id m

abbrev pub next_cursor : Option Memo → Option (Timestamp × String)
next_cursor none = none
next_cursor (some m) = some (position m)

-- A page, and where the next one starts. One row more than the page is read, and dropped again.
abbrev pub page : ℕ → List Memo → List Memo × Option (Timestamp × String)
page limit rows =
    if ltb limit (length rows)
    then (take limit rows, next_cursor (get_last? (take limit rows)))
    else (rows, none)

abbrev pub list_rows :
    Env → String → MemoListQuery → Store → List Memo × Option (Timestamp × String)
list_rows env ws q s =
    let limit = clamp q.limit 1 200 in
    page limit (
      take (limit + 1) (
        order_by newest_first
          (select (λ m. is_listed env ws q s m && is_behind q.cursor m) s.memos)))

unfoldable pub list :
    Env → String → MemoListQuery → Store → List MemoSummary × Option (Timestamp × String)
list env ws q s = let (rows, next) = list_rows env ws q s in (map (summary_from_row env) rows, next)

-- `proto::MemoInventoryItem`
pub record MemoInventoryItem : Type 0 where
  pub id : String
  pub notebook_id : String
  pub etag : String
  pub is_pinned : Bool
  pub is_archived : Bool
  pub is_deleted : Bool
  pub updated_at : Timestamp

abbrev pub item_of : Memo → MemoInventoryItem
item_of m = record {
  id = m.id;
  notebook_id = m.notebook_id;
  etag = m.etag;
  is_pinned = m.is_pinned;
  is_archived = m.is_archived;
  is_deleted = m.is_deleted;
  updated_at = m.updated_at;
}

abbrev pub is_after_id : Option String → Memo → Bool
is_after_id none m = true
is_after_id (some a) m = text_ltb a m.id

-- `ORDER BY id ASC`
abbrev pub by_id : Memo → Memo → Bool
by_id a b = text_leb a.id b.id

abbrev pub next_id : Option Memo → Option String
next_id none = none
next_id (some m) = some m.id

-- A page of the inventory, whether there is more, and behind which id.
pub record InventoryPage : Type 0 where
  pub items : List MemoInventoryItem
  pub has_more : Bool
  pub next : Option String

unfoldable pub inventory_page : String → Option String → ℤ → Store → InventoryPage
inventory_page ws after raw_limit s =
    let limit = clamp raw_limit 1 1000 in
    let rows = take (limit + 1) (
      order_by by_id
        (select (λ (m : Memo). m.workspace_id == ws && is_after_id after m) s.memos)) in
    if ltb limit (length rows)
    then record {
      items = map item_of (take limit rows);
      has_more = true;
      next = next_id (get_last? (take limit rows));
    }
    else record { items = map item_of rows; has_more = false; next = none }
