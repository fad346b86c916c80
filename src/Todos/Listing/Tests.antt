-- ===== src/Todos/Listing/Tests.antt =====
-- Listing todos on concrete input.
use panda_server.Prelude.{ℕ, pos, String, false, none, some, [], ◌∷◌, ◌≡◌, refl}
use panda_server.Prelude.Sql.{order_by}
use panda_server.Store.Rows.{Todo}
use panda_server.Store.State.{Store}
use panda_server.Store.Example.{empty_store}
use panda_server.Todos.Listing.{TodoListQuery, list}

abbrev task : String → ℕ → Todo
task id time = record {
  id = id;
  workspace_id = "w";
  title = id;
  note = "";
  status = "inbox";
  due_date = none;
  priority = pos 0;
  linked_memo_id = none;
  is_deleted = false;
  revision = 1;
  etag = "";
  created_at = 1;
  updated_at = time;
  completed_at = none;
  deleted_at = none;
}

abbrev tasks : Store
tasks = record empty_store { todos = task "a" 10 ∷ task "b" 20 ∷ task "c" 30 ∷ [] }

abbrev singly : TodoListQuery
singly = record { filter = none; limit = pos 1; cursor = none }

first_page : list "w" singly "" tasks ≡ (task "c" 30 ∷ [], some (20, "b"))
unfolding list order_by
first_page = refl

-- The next page starts behind the todo that the cursor names, which no page has.
next_page : list "w" (record singly { cursor = some (20, "b") }) "" tasks ≡ (task "a" 10 ∷ [], none)
unfolding list order_by
next_page = refl
