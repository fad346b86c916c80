-- ===== src/Todos/Calls.antt =====
-- The methods of crates/store/src/todos.rs that write, as one type of calls.
use panda_server.Prelude.{ℕ, String, Bool, Option}
use panda_server.Store.Rows.{Timestamp}
use panda_server.Store.Env.{Env}
use panda_server.Store.State.{Store}
use panda_server.Todos.{TodoCreate, TodoUpdate, create, update_todo, delete_todo, restore}

-- The calls that a client can make of the todos of a workspace.
pub data Call : Type 0 where
  create_call : TodoCreate → String → Store → Call
  update_call : String → TodoUpdate → Call
  delete_call : String → Option ℕ → Option String → Bool → Call
  restore_call : String → Option ℕ → Option String → Call

unfoldable pub perform : Env → String → Timestamp → Call → Store → Store
perform env ws now (create_call req fresh seen) s = (create env ws req fresh now seen s).1
perform env ws now (update_call id req) s = (update_todo env ws id req now s).1
perform env ws now (delete_call id base etag forever) s =
    (delete_todo env ws id base etag forever now s).1
perform env ws now (restore_call id base etag) s = (restore env ws id base etag now s).1
