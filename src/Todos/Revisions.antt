-- ===== src/Todos/Revisions.antt =====
-- Optimistic concurrency of `update` (crates/store/src/todos.rs): an accepted update raises the
-- revision, and a base revision serves once.
use panda_server.Prelude.{
  ℕ, String, false, Option, some, ◌≡◌, ◌≢◌, refl, sym, subst, arith, ◌∙◌, eqb_iff, unwrap_or,
}
use panda_server.Prelude.Sql.{find, update, find-update, find-holds}
use panda_server.Prelude.Text.{trim, is_empty}
use panda_server.Domain.Error.{ok, err, conflict}
use panda_server.Store.Rows.{Timestamp, Todo}
use panda_server.Store.Env.{Env}
use panda_server.Store.State.{Store}
use panda_server.Store.Action.{◌>>=◌}
use panda_server.Sync
use panda_server.Todos.{
  TodoUpdate, validate, require_linked_memo, is_current, get, append_unlocked, log_upsert,
  check_base, updated, update_todo,
}
use panda_server.Todos.Rows.{
  HasKeys, live, get-ok, get-eq-ok, is_current_self, write_current-ok, live-has_id,
  live-not_deleted,
}

-- Writing to the log leaves the todos alone.
todos-log :
    (env : Env) (ws : String) (t : Todo) (op : String) (now : Timestamp) (s : Store)
    → (append_unlocked env ws t op now s).1.todos ≡ s.todos
unfolding append_unlocked Sync.append_unlocked ◌>>=◌
todos-log env ws t op now s = refl

pub log_upsert-ok :
    (env : Env) (ws id : String) (now : Timestamp) (s : Store) (t : Todo)
    → find (live ws id) s.todos ≡ some t
    → (log_upsert env ws id now s).0 ≡ ok t
unfolding log_upsert append_unlocked Sync.append_unlocked ◌>>=◌
log_upsert-ok env ws id now s t h = rw (get-eq-ok ws id s t h)

pub log_upsert-todos :
    (env : Env) (ws id : String) (now : Timestamp) (s : Store)
    → (log_upsert env ws id now s).1.todos ≡ s.todos
unfolding log_upsert append_unlocked Sync.append_unlocked ◌>>=◌
log_upsert-todos env ws id now s = ground arith

-- The checks of `update` on the row that it reads.
pub record Accepts (ws : String) (req : TodoUpdate) (old : Todo) (s : Store) : Type 0 where
  pub base : check_base req.base_revision req.if_match_etag old ≡ ok tt
  pub titled : is_empty (trim (unwrap_or req.title old.title)) ≡ false
  pub valid :
      validate (unwrap_or req.status old.status) (unwrap_or req.priority old.priority) ≡ ok tt
  pub linked : require_linked_memo ws (unwrap_or req.linked_memo_id old.linked_memo_id) s ≡ ok tt

module _ (env : Env) (ws id : String) (req : TodoUpdate) (now : Timestamp) (s : Store)
    (old : Todo) where
  abbrev written : Store
  written = record s {
    todos = update (is_current ws id false old) (updated id req old now) s.todos;
  }

  update_todo-eq-log :
      HasKeys s
      → get ws id s ≡ ok old
      → Accepts ws req old s
      → update_todo env ws id req now s ≡ log_upsert env ws id now written
  unfolding update_todo ◌>>=◌
  update_todo-eq-log keys found a =
      let row = get-ok ws id s found in
      rw (
        found,
        a.base,
        a.titled,
        a.valid,
        a.linked,
        write_current-ok ws id false s old (live ws id) (updated id req old now) keys row
            (live-has_id ws id) (live-not_deleted ws id old (find-holds (live ws id) s.todos row)),
      )

  find-written :
      get ws id s ≡ ok old → find (live ws id) written.todos ≡ some (updated id req old now old)
  find-written found =
      let row = get-ok ws id s found in
      let holds = find-holds (live ws id) s.todos row in
      find-update (live ws id) (live ws id) (is_current ws id false old) (updated id req old now)
        s.todos (λ y h. ground arith) (λ y h. h) row
        (is_current_self ws id false old (live-has_id ws id old holds)
          (live-not_deleted ws id old holds))
        (ground arith)

-- An update of a todo that is not in the trash, whose base revision and etag agree with the row,
-- whose title is not blank, whose status and priority are allowed and whose linked memo exists,
-- returns the row with the new fields, the next revision and its etag, and leaves it in the table.
pub update_todo-Accepts :
    (env : Env) (ws id : String) (req : TodoUpdate) (now : Timestamp) (s : Store) (old : Todo)
    → HasKeys s
    → get ws id s ≡ ok old
    → Accepts ws req old s
    → ((update_todo env ws id req now s).0 ≡ ok (updated id req old now old))
      × (get ws id (update_todo env ws id req now s).1 ≡ ok (updated id req old now old))
update_todo-Accepts env ws id req now s old keys found a =
    let row = find-written env ws id req now s old found in
    let w = written env ws id req now s old in
    rw (update_todo-eq-log env ws id req now s old keys found a) (
      log_upsert-ok env ws id now w _ row,
      get-eq-ok ws id _ _ (
          subst (λ l. find (live ws id) l ≡ some (updated id req old now old))
            (sym (log_upsert-todos env ws id now w)) row),
    )

check_base-stale :
    (r : ℕ) (etag : Option String) (t : Todo)
    → r ≢ t.revision
    → check_base (some r) etag t ≡ err (conflict "todo revision conflict")
unfolding check_base
check_base-stale r etag t h = ground (arith, eqb_iff r t.revision)

-- An update on another base revision than the row's is refused with a conflict and changes nothing.
pub update_todo-stale :
    (env : Env) (ws id : String) (req : TodoUpdate) (now : Timestamp) (s : Store) (old : Todo)
    (r : ℕ)
    → get ws id s ≡ ok old
    → req.base_revision ≡ some r
    → r ≢ old.revision
    → update_todo env ws id req now s ≡ (err (conflict "todo revision conflict"), s)
unfolding update_todo ◌>>=◌
update_todo-stale env ws id req now s old r found base ne =
    rw (found, base, check_base-stale r req.if_match_etag old ne)

-- Of two updates on the same base revision the second is refused with a conflict and changes
-- nothing: no update is lost unseen.
pub update_todo-once :
    (env : Env) (ws id : String) (first second : TodoUpdate) (now later : Timestamp) (s : Store)
    (old : Todo)
    → HasKeys s
    → get ws id s ≡ ok old
    → Accepts ws first old s
    → first.base_revision ≡ second.base_revision
    → first.base_revision ≡ some old.revision
    → update_todo env ws id second later (update_todo env ws id first now s).1
      ≡ (err (conflict "todo revision conflict"), (update_todo env ws id first now s).1)
update_todo-once env ws id first second now later s old keys found a same base =
    update_todo-stale env ws id second later (update_todo env ws id first now s).1
      (updated id first old now old) old.revision
      (update_todo-Accepts env ws id first now s old keys found a).1 (sym same ∙ base) (omega arith)
