-- ===== src/Todos/Operations.antt =====
-- The methods of crates/store/src/todos.rs do not write the results of pushed operations.
use panda_server.Prelude.{
  ℕ, ℤ, String, Bool, true, Option, List, Bool-cases, Option-cases, inl, inr, is_some, eqb, ◌==◌,
}
use panda_server.Prelude.Sql.{find, count}
use panda_server.Store.Rows.{Timestamp, Todo}
use panda_server.Store.Messages.{SyncOperation}
use panda_server.Store.Env.{Env}
use panda_server.Store.State.{Store}
use panda_server.Store.Action.Keeps.{Keeps, keeps_rules}
use panda_server.Sync.Operations.{HasOperations, append-HasOperations}
use panda_server.Todos.{
  TodoCreate, TodoUpdate, append_unlocked, log_upsert, is_dangling, has_id, insert_todo, create,
  is_current, write_current, update_todo, move_to_trash, erase_current, delete_forever, delete_todo,
  restore,
}

module _ (os : List SyncOperation) (ws : String) where
  write_current-HasOperations :
      (id : String) (deleted : Bool) (old : Todo) (f : Todo → Todo)
      → Keeps (HasOperations os) (write_current ws id deleted old f)
  unfolding write_current
  write_current-HasOperations id deleted old f = record {
    at = λ s h. elim (Bool-cases (eqb (count (is_current ws id deleted old) s.todos) 1)) [
      | inl one ↦ rw one h
      | inr lost ↦ rw lost h
    ];
  }

  erase_current-HasOperations :
      (id : String) (old : Todo) → Keeps (HasOperations os) (erase_current ws id old)
  unfolding erase_current
  erase_current-HasOperations id old = record {
    at = λ s h. elim (Bool-cases (eqb (count (is_current ws id true old) s.todos) 1)) [
      | inl one ↦ rw one h
      | inr lost ↦ rw lost h
    ];
  }

  module _ (env : Env) (now : Timestamp) where
    log-HasOperations :
        (todo : Todo) (operation : String)
        → Keeps (HasOperations os) (append_unlocked env ws todo operation now)
    unfolding append_unlocked
    log-HasOperations todo operation = search (keeps_rules, append-HasOperations) depth 9

    log_upsert-HasOperations : (id : String) → Keeps (HasOperations os) (log_upsert env ws id now)
    unfolding log_upsert
    log_upsert-HasOperations id = search (keeps_rules, log-HasOperations) depth 9

    insert_todo-HasOperations :
        (id : String) (req : TodoCreate) (status : String) (priority : ℤ)
        → Keeps (HasOperations os) (insert_todo env ws id req status priority now)
    unfolding insert_todo
    insert_todo-HasOperations id req status priority = record {
      at = λ s h. elim (Option-cases (find (has_id ws id) s.todos)) [
        | inr (t, known) ↦ rw (known, insert_todo) h
        | inl new ↦ elim (Bool-cases (is_some (find (λ (t : Todo). t.id == id) s.todos))) [
          | inl taken ↦ rw (new, insert_todo, taken) h
          | inr free ↦ elim (Bool-cases (is_dangling req.linked_memo_id s)) [
            | inl lost ↦ rw (new, insert_todo, free, lost) h
            | inr kept ↦ rw (new, insert_todo, free, kept) ((log_upsert-HasOperations id).at _ h)
          ]
        ]
      ];
    }

    pub create-HasOperations :
        (req : TodoCreate) (fresh_id : String) (seen : Store)
        → Keeps (HasOperations os) (create env ws req fresh_id now seen)
    unfolding create
    create-HasOperations req fresh_id seen =
        search (keeps_rules, insert_todo-HasOperations) depth 11

    pub update_todo-HasOperations :
        (id : String) (req : TodoUpdate) → Keeps (HasOperations os) (update_todo env ws id req now)
    unfolding update_todo
    update_todo-HasOperations id req =
        search (keeps_rules, write_current-HasOperations, log_upsert-HasOperations) depth 17

    pub restore-HasOperations :
        (id : String) (base_revision : Option ℕ) (if_match_etag : Option String)
        → Keeps (HasOperations os) (restore env ws id base_revision if_match_etag now)
    unfolding restore
    restore-HasOperations id base_revision if_match_etag =
        search (keeps_rules, write_current-HasOperations, log_upsert-HasOperations) depth 13

    pub delete_todo-HasOperations :
        (id : String) (base_revision : Option ℕ) (if_match_etag : Option String) (permanent : Bool)
        → Keeps (HasOperations os) (delete_todo env ws id base_revision if_match_etag permanent now)
    unfolding delete_todo move_to_trash delete_forever
    delete_todo-HasOperations id base_revision if_match_etag permanent =
        search
          (keeps_rules, write_current-HasOperations, erase_current-HasOperations, log-HasOperations)
          depth 15

pub ruleset todos_operations = (
  create-HasOperations, update_todo-HasOperations, restore-HasOperations, delete_todo-HasOperations,
)
