-- ===== src/Todos/Tests.antt =====
-- Runs of the todo repository on concrete input.
use panda_server.Prelude.{
  pos, false, none, some, [], ◌∷◌, ◌≡◌, refl, arith, eq_iff, ◌==◌, Bool-cases, inl, inr,
}
use panda_server.Prelude.Text.{trim}
use panda_server.Domain.Error.{ok, err, conflict}
use panda_server.Domain.Etag.{format_etag}
use panda_server.Store.Rows.{Todo}
use panda_server.Store.State.{Store}
use panda_server.Store.Example.{example_env, empty_store}
use panda_server.Todos.{
  TodoUpdate, get, validate, check_base, require_linked_memo, update_todo, delete_todo, restore,
}
use panda_server.Todos.Rows.{HasKeys}
use panda_server.Todos.Calls.{update_call, perform}
use panda_server.Todos.Invariant.{AllGood, perform-AllGood}
use panda_server.Todos.Revisions.{Accepts, update_todo-once}
use panda_server.Todos.Updated.{IsAllowed, IsUpdated, update_todo-IsUpdated}
use panda_server.Todos.Trash.{restore-delete_todo}
use panda_server.Todos.Isolation.{todos_of, todos_of-perform}

abbrev milk : Todo
milk = record {
  id = "t1";
  workspace_id = "w";
  title = "buy milk";
  note = "";
  status = "open";
  due_date = none;
  priority = pos 1;
  linked_memo_id = none;
  is_deleted = false;
  revision = 1;
  etag = format_etag 1 "t1";
  created_at = 100;
  updated_at = 100;
  completed_at = none;
  deleted_at = none;
}

abbrev list : Store
list = record empty_store { todos = milk ∷ [] }

abbrev finish : TodoUpdate
finish = record {
  title = none;
  note = none;
  status = some "completed";
  due_date = none;
  priority = none;
  linked_memo_id = none;
  base_revision = some 1;
  if_match_etag = none;
}

list-HasKeys : HasKeys list
list-HasKeys = record {
  unique = λ id. elim (Bool-cases ("t1" == id)) [
    | inl same ↦ rw same (omega arith)
    | inr other ↦ rw other (omega arith)
  ];
}

list-AllGood : AllGood list
list-AllGood = (
  record {
    status = refl;
    priority = refl;
    titled = refl;
    completed = refl;
    deleted = refl;
    revised = omega arith;
    tagged = refl;
  },
  tt,
)

milk-found : get "w" "t1" list ≡ ok milk
unfolding get
milk-found = refl

milk-Accepts : Accepts "w" finish milk list
unfolding check_base validate require_linked_memo trim
milk-Accepts = record { base = refl; titled = refl; valid = refl; linked = refl }

milk-IsAllowed : IsAllowed "w" finish milk list
unfolding trim
milk-IsAllowed = record {
  base = inr refl;
  etag = inl refl;
  titled = refl;
  status = inr (inr refl);
  priority = (1, refl, omega arith);
  linked = inl refl;
}

update_todo-IsUpdated_example :
    (t : Todo) × ((update_todo example_env "w" "t1" finish 200 list).0 ≡ ok t)
    × (get "w" "t1" (update_todo example_env "w" "t1" finish 200 list).1 ≡ ok t)
    × IsUpdated "t1" finish milk 200 t
update_todo-IsUpdated_example =
    update_todo-IsUpdated example_env "w" "t1" finish 200 list milk list-HasKeys milk-found
      milk-IsAllowed

update_todo-once_example :
    update_todo example_env "w" "t1" finish 300 (update_todo example_env "w" "t1" finish 200 list).1
    ≡ (
      err (conflict "todo revision conflict"),
      (update_todo example_env "w" "t1" finish 200 list).1,
    )
update_todo-once_example =
    update_todo-once example_env "w" "t1" finish finish 200 300 list milk list-HasKeys milk-found
      milk-Accepts refl refl

perform-AllGood_example : AllGood (perform example_env "w" 200 (update_call "t1" finish) list)
perform-AllGood_example =
    perform-AllGood example_env "w" 200 (update_call "t1" finish) list list-AllGood

todos_of-perform_example :
    todos_of "v" (perform example_env "w" 200 (update_call "t1" finish) list) ≡ todos_of "v" list
todos_of-perform_example =
    todos_of-perform example_env "w" "v" 200 (update_call "t1" finish) list
      (ground (arith, eq_iff "v" "w"))

restore-delete_todo_example :
    ((delete_todo example_env "w" "t1" none none false 200 list).0 ≡ ok tt)
    × ((restore example_env "w" "t1" none none 300
          (delete_todo example_env "w" "t1" none none false 200 list).1).0
        ≡ ok (record milk { revision = 3; etag = format_etag 3 "t1"; updated_at = 300 }))
restore-delete_todo_example =
    restore-delete_todo example_env "w" "t1" 200 300 list milk list-HasKeys refl refl refl
