-- ===== src/Todos/Isolation.antt =====
-- Tenants: a method called for one workspace changes no todo of another (crates/store/src/todos.rs).
use panda_server.Prelude.{
  ℕ, ℤ, String, Bool, true, false, Option, List, [], ◌∷◌, ◌≡◌, ◌≢◌, refl, arith, ◌∙◌, ◌==◌, eq_iff,
  Bool-cases, inl, inr, is_some, Option-cases,
}
use mathlib.Core.List.{append-nil}
use panda_server.Prelude.Sql.{find, select, select-append, select-update_other, select-delete_other}
use panda_server.Store.Rows.{Timestamp, Todo}
use panda_server.Store.Env.{Env}
use panda_server.Store.State.{Store}
use panda_server.Store.Action.{◌>>=◌}
use panda_server.Store.Action.Keeps.{Keeps, keeps_rules}
use panda_server.Sync
use panda_server.Todos.{
  TodoCreate, TodoUpdate, is_dangling, has_id, is_current, append_unlocked, log_upsert, new_todo,
  insert_todo, create, write_current, updated, update_todo, tombstone, erase_current,
  delete_forever, move_to_trash, delete_todo, revived, restore,
}
use panda_server.Todos.Calls.{Call, create_call, update_call, delete_call, restore_call, perform}

-- The todos of a workspace.
abbrev pub todos_of : String → Store → List Todo
todos_of vs s = select (λ (t : Todo). t.workspace_id == vs) s.todos

-- The store shows a workspace the todos that it showed at the start.
abbrev Shows : String → List Todo → Store → Type 0
Shows vs ts s = todos_of vs s ≡ ts

module _ (env : Env) (ws vs : String) (ts : List Todo) (other : vs ≢ ws) (now : Timestamp) where
  append-Shows : (t : Todo) (op : String) → Keeps (Shows vs ts) (append_unlocked env ws t op now)
  unfolding append_unlocked Sync.append_unlocked ◌>>=◌
  append-Shows t op = record { at = λ s h. h }

  log-Shows : (id : String) → Keeps (Shows vs ts) (log_upsert env ws id now)
  unfolding log_upsert
  log-Shows id = search (keeps_rules, append-Shows)

  is_current-other :
      (id : String) (gone : Bool) (old t : Todo)
      → is_current ws id gone old t ≡ true
      → (t.workspace_id == vs) ≡ false
  is_current-other id gone old t h =
      ground (arith, eq_iff t.workspace_id ws, eq_iff t.workspace_id vs)

  write-Shows :
      (id : String) (gone : Bool) (old : Todo) (f : Todo → Todo)
      → ((t : Todo) → (f t).workspace_id ≡ t.workspace_id)
      → Keeps (Shows vs ts) (write_current ws id gone old f)
  unfolding write_current
  write-Shows id gone old f same = record {
    at = λ s h.
        let kept =
          select-update_other (λ (t : Todo). t.workspace_id == vs) (is_current ws id gone old) f
            s.todos
            λ t cur. (
              is_current-other id gone old t cur,
              rw (same t) (is_current-other id gone old t cur),
            ) in
        let kept' = kept ∙ h in ground arith;
  }

  erase-Shows : (id : String) (old : Todo) → Keeps (Shows vs ts) (erase_current ws id old)
  unfolding erase_current
  erase-Shows id old = record {
    at = λ s h.
        let kept =
          select-delete_other (λ (t : Todo). t.workspace_id == vs) (is_current ws id true old)
            s.todos (is_current-other id true old) in
        let kept' = kept ∙ h in ground arith;
  }

  updated-Shows :
      (id : String) (req : TodoUpdate) (old : Todo)
      → Keeps (Shows vs ts) (write_current ws id false old (updated id req old now))
  updated-Shows id req old = write-Shows id false old _ (λ t. refl)

  trash-Shows :
      (id : String) (old : Todo)
      → Keeps (Shows vs ts) (write_current ws id false old (tombstone id old now))
  trash-Shows id old = write-Shows id false old _ (λ t. refl)

  revive-Shows :
      (id : String) (old : Todo)
      → Keeps (Shows vs ts) (write_current ws id true old (revived id old now))
  revive-Shows id old = write-Shows id true old _ (λ t. refl)

  insert-Shows :
      (id : String) (req : TodoCreate) (status : String) (priority : ℤ)
      → Keeps (Shows vs ts) (insert_todo env ws id req status priority now)
  unfolding insert_todo
  insert-Shows id req status priority = record {
    at = λ s h. elim (Option-cases (find (has_id ws id) s.todos)) [
      | inr (old, found) ↦ rw (found, insert_todo) h
      | inl missing ↦ elim (Bool-cases (is_some (find (λ (t : Todo). t.id == id) s.todos))) [
        | inl taken ↦ rw (missing, taken, insert_todo) h
        | inr free ↦ elim (Bool-cases (is_dangling req.linked_memo_id s)) [
          | inl lost ↦ rw (missing, free, lost, insert_todo) h
          | inr kept ↦
              let apart : (ws == vs) ≡ false = ground (arith, eq_iff ws vs) in
              rw (missing, free, kept, insert_todo)
                ((log-Shows id).at _ (
                  select-append _ s.todos (new_todo ws id req status priority now ∷ [])
                  ∙ rw (apart, append-nil) h))
        ]
      ]
    ];
  }

  create-Shows :
      (req : TodoCreate) (fresh : String) (seen : Store)
      → Keeps (Shows vs ts) (create env ws req fresh now seen)
  unfolding create
  create-Shows req fresh seen = search (keeps_rules, insert-Shows) depth 9

  update_todo-Shows :
      (id : String) (req : TodoUpdate) → Keeps (Shows vs ts) (update_todo env ws id req now)
  unfolding update_todo
  update_todo-Shows id req = search (keeps_rules, updated-Shows, log-Shows) depth 13

  module _ (id : String) (base : Option ℕ) (etag : Option String) where
    delete_forever-Shows : Keeps (Shows vs ts) (delete_forever env ws id base etag now)
    unfolding delete_forever
    delete_forever-Shows = search (keeps_rules, erase-Shows, append-Shows) depth 9

    move_to_trash-Shows : Keeps (Shows vs ts) (move_to_trash env ws id base etag now)
    unfolding move_to_trash
    move_to_trash-Shows = search (keeps_rules, trash-Shows, append-Shows) depth 9

    delete_todo-Shows :
        (permanent : Bool) → Keeps (Shows vs ts) (delete_todo env ws id base etag permanent now)
    unfolding delete_todo
    delete_todo-Shows true = delete_forever-Shows
    delete_todo-Shows false = move_to_trash-Shows

    restore-Shows : Keeps (Shows vs ts) (restore env ws id base etag now)
    unfolding restore
    restore-Shows = search (keeps_rules, revive-Shows, log-Shows) depth 9

-- Whatever a member of one workspace calls, the todos of another stay as they are.
pub todos_of-perform :
    (env : Env) (ws vs : String) (now : Timestamp) (call : Call) (s : Store)
    → vs ≢ ws
    → todos_of vs (perform env ws now call s) ≡ todos_of vs s
unfolding perform
todos_of-perform env ws vs now (create_call req fresh seen) s other =
    (create-Shows env ws vs (todos_of vs s) other now req fresh seen).at s refl
todos_of-perform env ws vs now (update_call id req) s other =
    (update_todo-Shows env ws vs (todos_of vs s) other now id req).at s refl
todos_of-perform env ws vs now (delete_call id base etag forever) s other =
    (delete_todo-Shows env ws vs (todos_of vs s) other now id base etag forever).at s refl
todos_of-perform env ws vs now (restore_call id base etag) s other =
    (restore-Shows env ws vs (todos_of vs s) other now id base etag).at s refl
