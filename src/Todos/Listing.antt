-- ===== src/Todos/Listing.antt =====
-- crates/store/src/todos.rs: `list` and `inventory`. A cursor is the pair of the time and the id that
-- the text `updated_at|id` has, and the date of today is an argument.
mod Tests
use panda_server.Prelude.{
  ℕ, ◌+◌, ℤ, clamp, String, Bool, true, false, not, ◌&&◌, ◌||◌, Option, none, some, List, ◌==◌, ltb,
  length, take, get_last?, if◌then◌else◌, unwrap_or, is_same,
}
use panda_server.Prelude.Sql.{select, order_by}
use panda_server.Store.Rows.{Timestamp, Todo}
use panda_server.Store.Messages.{TodoMessage}
use panda_server.Store.State.{Store}
use panda_server.Notebooks.Queries.{int_leb}
use panda_server.Memos.List.{text_ltb, is_older}

pub record TodoListQuery : Type 0 where
  pub filter : Option String
  pub limit : ℤ
  pub cursor : Option (Timestamp × String)

-- `Todo::to_proto`
abbrev pub to_proto : Todo → TodoMessage
to_proto t = record {
  id = t.id;
  title = t.title;
  note = t.note;
  status = t.status;
  due_date = t.due_date;
  priority = t.priority;
  linked_memo_id = t.linked_memo_id;
  is_deleted = t.is_deleted;
  revision = t.revision;
  etag = t.etag;
  created_at = t.created_at;
  updated_at = t.updated_at;
  completed_at = t.completed_at;
  deleted_at = t.deleted_at;
}

-- `due_date = ?` and `due_date > ?`; NULL is neither.
abbrev is_due : String → Option String → Bool
is_due today none = false
is_due today (some date) = date == today

abbrev is_due_later : String → Option String → Bool
is_due_later today none = false
is_due_later today (some date) = text_ltb today date

abbrev pub is_filtered : String → String → Todo → Bool
is_filtered filter today t =
    if filter == "trash"
    then t.is_deleted
    else not t.is_deleted
      && (if filter == "completed"
          then t.status == "completed"
          else if filter == "today"
          then not (t.status == "completed") && is_due today t.due_date
          else if filter == "upcoming"
          then not (t.status == "completed") && is_due_later today t.due_date
          else if filter == "all"
          then true
          else t.status == "inbox")

abbrev pub place : Todo → Timestamp × String
place t = (t.updated_at, t.id)

abbrev pub is_behind : Option (Timestamp × String) → Todo → Bool
is_behind none t = true
is_behind (some c) t = is_older (place t) c

-- `updated_at DESC, id DESC`
abbrev pub newest_first : Todo → Todo → Bool
newest_first a b = not (is_older (place a) (place b))

-- `CASE WHEN due_date IS NULL THEN 1 ELSE 0 END, due_date ASC`
abbrev pub is_due_before : Option String → Option String → Bool
is_due_before none d = false
is_due_before (some c) none = true
is_due_before (some c) (some d) = text_ltb c d

-- `ORDER BY` the due date, `priority DESC`, and the rest
abbrev pub due_first : Todo → Todo → Bool
due_first a b =
    is_due_before a.due_date b.due_date
    || is_same a.due_date b.due_date
      && (not (int_leb a.priority b.priority) || int_leb b.priority a.priority && newest_first a b)

abbrev next_cursor : Option Todo → Option (Timestamp × String)
next_cursor none = none
next_cursor (some t) = some (place t)

-- The cursor is the row that is taken back, not the last row of the page.
abbrev pub page : ℕ → List Todo → List Todo × Option (Timestamp × String)
page limit rows =
    if ltb limit (length rows)
    then (take limit rows, next_cursor (get_last? rows))
    else (rows, none)

unfoldable pub list :
    String → TodoListQuery → String → Store → List Todo × Option (Timestamp × String)
list ws q today s =
    let limit = clamp q.limit 1 200 in
    let filter = unwrap_or q.filter "inbox" in
    page limit (
      take (limit + 1) (
        order_by due_first (
          select
            (λ (t : Todo).
              t.workspace_id == ws && is_filtered filter today t && is_behind q.cursor t)
            s.todos)))

unfoldable pub inventory : String → ℤ → Store → List Todo
inventory ws limit s =
    take (clamp limit 1 2000)
      (order_by newest_first (select (λ (t : Todo). t.workspace_id == ws) s.todos))
