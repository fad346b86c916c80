-- ===== src/Todos/Invariant.antt =====
-- The invariant of the todos table (crates/store/src/todos.rs): every method keeps it.
use panda_server.Prelude.{
  ℕ, ◌+◌, ◌≤◌, ℤ, String, Bool, true, false, Option, none, some, ◌≡◌, refl, ap, arith, ◌==◌, eq_iff,
  Bool-cases, Option-cases, inl, inr, pos, is_some, unwrap_or, All, All-append,
}
use panda_server.Prelude.Sql.{find, All-update, All-delete}
use panda_server.Prelude.Text.{trim, is_empty}
use panda_server.Domain.Etag.{format_etag}
use panda_server.Domain.Error.{PandaError, ok, fail_if, invalid}
use panda_server.Store.Rows.{Timestamp, Todo}
use panda_server.Store.Env.{Env}
use panda_server.Store.State.{Store}
use panda_server.Store.Action.{◌>>=◌, lift, reads}
use panda_server.Store.Action.Keeps.{
  Keeps, Keeps-bind-lift, Keeps-bind, Keeps-lift, Keeps-reads, keeps_rules,
}
use panda_server.Sync
use panda_server.Todos.{
  TodoCreate, TodoUpdate, is_priority, is_status, validate, require_linked_memo, is_dangling,
  has_id, is_current, get, append_unlocked, log_upsert, check_base, completion, new_todo,
  insert_todo, create, write_current, updated, update_todo, tombstone, erase_current,
  delete_forever, move_to_trash, delete_todo, revived, restore,
}
use panda_server.Todos.Calls.{Call, create_call, update_call, delete_call, restore_call, perform}

-- A row of the table: its status and priority are of the allowed ones, it has a title, it says when it
-- was completed or deleted exactly when it is, and its etag is the one of its revision.
pub record IsGood (t : Todo) : Type 0 where
  pub status : is_status t.status ≡ true
  pub priority : is_priority t.priority ≡ true
  pub titled : is_empty t.title ≡ false
  pub completed : is_some t.completed_at ≡ (t.status == "completed")
  pub deleted : is_some t.deleted_at ≡ t.is_deleted
  pub revised : 1 ≤ t.revision
  pub tagged : t.etag ≡ format_etag t.revision t.id

abbrev pub AllGood : Store → Type 0
AllGood s = All IsGood s.todos

validate-ok :
    (status : String) (priority : ℤ) (u : Unit {0})
    → validate status priority ≡ ok u
    → (is_status status ≡ true) × (is_priority priority ≡ true)
unfolding validate
validate-ok status priority u h = ground arith

is_some-completion :
    (status : String) (before : Option Timestamp) (now : Timestamp)
    → is_some (completion status before now) ≡ (status == "completed")
unfolding completion
is_some-completion status none now = ground arith
is_some-completion status (some t) now = ground arith

fail_if-ok : (b : Bool) (e : PandaError) (u : Unit {0}) → fail_if b e ≡ ok u → b ≡ false
fail_if-ok true e u h = cc
fail_if-ok false e u h = refl

append_unlocked-AllGood :
    (env : Env) (ws : String) (t : Todo) (op : String) (now : Timestamp)
    → Keeps AllGood (append_unlocked env ws t op now)
unfolding append_unlocked Sync.append_unlocked ◌>>=◌
append_unlocked-AllGood env ws t op now = record { at = λ s h. h }

log_upsert-AllGood :
    (env : Env) (ws id : String) (now : Timestamp) → Keeps AllGood (log_upsert env ws id now)
unfolding log_upsert
log_upsert-AllGood env ws id now = search (keeps_rules, append_unlocked-AllGood)

write_current-AllGood :
    (ws id : String) (gone : Bool) (old : Todo) (f : Todo → Todo)
    → ((t : Todo) → is_current ws id gone old t ≡ true → IsGood t → IsGood (f t))
    → Keeps AllGood (write_current ws id gone old f)
unfolding write_current
write_current-AllGood ws id gone old f keep = record {
  at = λ s h.
      let after = All-update IsGood (is_current ws id gone old) f s.todos keep h in ground arith;
}

module _ (env : Env) (ws id : String) (now : Timestamp) where
  updated-IsGood :
      (req : TodoUpdate) (old t : Todo)
      → is_empty (trim (unwrap_or req.title old.title)) ≡ false
      → is_status (unwrap_or req.status old.status) ≡ true
      → is_priority (unwrap_or req.priority old.priority) ≡ true
      → is_current ws id false old t ≡ true
      → IsGood t
      → IsGood (updated id req old now t)
  updated-IsGood req old t titled status priority cur g = record {
    status = status;
    priority = priority;
    titled = titled;
    completed = is_some-completion (unwrap_or req.status old.status) old.completed_at now;
    deleted = g.deleted;
    revised = omega arith;
    tagged = ap (format_etag (old.revision + 1)) (ground (arith, eq_iff t.id id));
  }

  update_todo-AllGood : (req : TodoUpdate) → Keeps AllGood (update_todo env ws id req now)
  unfolding update_todo
  update_todo-AllGood req = Keeps-bind (reads (get ws id)) _ (Keeps-reads (get ws id)) λ old.
      Keeps-bind (lift (check_base req.base_revision req.if_match_etag old)) _ (Keeps-lift _) λ _.
        Keeps-bind-lift
          (fail_if (is_empty (trim (unwrap_or req.title old.title)))
            (invalid "todo title is required"))
          _
          λ u titled.
            Keeps-bind-lift
              (validate (unwrap_or req.status old.status) (unwrap_or req.priority old.priority)) _
              λ v valid.
                Keeps-bind
                  (reads (require_linked_memo ws (unwrap_or req.linked_memo_id old.linked_memo_id)))
                  _ (Keeps-reads _)
                  λ _.
                    Keeps-bind (write_current ws id false old (updated id req old now)) _
                      (write_current-AllGood ws id false old _ λ t cur g.
                        updated-IsGood req old t (fail_if-ok _ _ u titled)
                          (validate-ok _ _ v valid).0 (validate-ok _ _ v valid).1 cur g)
                      λ _. log_upsert-AllGood env ws id now

  tombstone-IsGood :
      (old t : Todo)
      → is_current ws id false old t ≡ true
      → IsGood t
      → IsGood (tombstone id old now t)
  tombstone-IsGood old t cur g = record {
    status = g.status;
    priority = g.priority;
    titled = g.titled;
    completed = g.completed;
    deleted = refl;
    revised = omega arith;
    tagged = ap (format_etag (old.revision + 1)) (ground (arith, eq_iff t.id id));
  }

  revived-IsGood :
      (old t : Todo) → is_current ws id true old t ≡ true → IsGood t → IsGood (revived id old now t)
  revived-IsGood old t cur g = record {
    status = g.status;
    priority = g.priority;
    titled = g.titled;
    completed = g.completed;
    deleted = refl;
    revised = omega arith;
    tagged = ap (format_etag (old.revision + 1)) (ground (arith, eq_iff t.id id));
  }

  erase_current-AllGood : (old : Todo) → Keeps AllGood (erase_current ws id old)
  unfolding erase_current
  erase_current-AllGood old = record {
    at = λ s h. let after = All-delete IsGood (is_current ws id true old) s.todos h in ground arith;
  }

  trash-AllGood :
      (old : Todo) → Keeps AllGood (write_current ws id false old (tombstone id old now))
  trash-AllGood old = write_current-AllGood ws id false old _ (tombstone-IsGood old)

  revive-AllGood : (old : Todo) → Keeps AllGood (write_current ws id true old (revived id old now))
  revive-AllGood old = write_current-AllGood ws id true old _ (revived-IsGood old)

  module _ (base : Option ℕ) (etag : Option String) where
    delete_forever-AllGood : Keeps AllGood (delete_forever env ws id base etag now)
    unfolding delete_forever
    delete_forever-AllGood =
        search (keeps_rules, erase_current-AllGood, append_unlocked-AllGood) depth 9

    move_to_trash-AllGood : Keeps AllGood (move_to_trash env ws id base etag now)
    unfolding move_to_trash
    move_to_trash-AllGood = search (keeps_rules, trash-AllGood, append_unlocked-AllGood) depth 9

    delete_todo-AllGood :
        (permanent : Bool) → Keeps AllGood (delete_todo env ws id base etag permanent now)
    unfolding delete_todo
    delete_todo-AllGood true = delete_forever-AllGood
    delete_todo-AllGood false = move_to_trash-AllGood

    restore-AllGood : Keeps AllGood (restore env ws id base etag now)
    unfolding restore
    restore-AllGood = search (keeps_rules, revive-AllGood, log_upsert-AllGood) depth 9

new_todo-IsGood :
    (ws id : String) (req : TodoCreate) (status : String) (priority : ℤ) (now : Timestamp)
    → is_empty (trim req.title) ≡ false
    → is_status status ≡ true
    → is_priority priority ≡ true
    → IsGood (new_todo ws id req status priority now)
new_todo-IsGood ws id req status priority now titled st pr = record {
  status = st;
  priority = pr;
  titled = titled;
  completed = is_some-completion status none now;
  deleted = refl;
  revised = omega arith;
  tagged = refl;
}

insert_todo-AllGood :
    (env : Env) (ws id : String) (req : TodoCreate) (status : String) (priority : ℤ)
    (now : Timestamp)
    → is_empty (trim req.title) ≡ false
    → is_status status ≡ true
    → is_priority priority ≡ true
    → Keeps AllGood (insert_todo env ws id req status priority now)
unfolding insert_todo
insert_todo-AllGood env ws id req status priority now titled st pr = record {
  at = λ s h. elim (Option-cases (find (has_id ws id) s.todos)) [
    | inr (old, found) ↦ rw (found, insert_todo) h
    | inl missing ↦ elim (Bool-cases (is_some (find (λ (t : Todo). t.id == id) s.todos))) [
      | inl taken ↦ rw (missing, taken, insert_todo) h
      | inr free ↦ elim (Bool-cases (is_dangling req.linked_memo_id s)) [
        | inl lost ↦ rw (missing, free, lost, insert_todo) h
        | inr kept ↦
            rw (missing, free, kept, insert_todo)
              ((log_upsert-AllGood env ws id now).at _ (
                All-append IsGood s.todos _ h
                  (new_todo-IsGood ws id req status priority now titled st pr, tt)))
      ]
    ]
  ];
}

create-AllGood :
    (env : Env) (ws : String) (req : TodoCreate) (fresh_id : String) (now : Timestamp)
    (seen : Store)
    → Keeps AllGood (create env ws req fresh_id now seen)
unfolding create
create-AllGood env ws req fresh_id now seen =
    Keeps-bind-lift (fail_if (is_empty (trim req.title)) (invalid "todo title is required")) _
      λ u titled.
        Keeps-bind-lift (validate (unwrap_or req.status "inbox") (unwrap_or req.priority (pos 0))) _
          λ v valid. Keeps-bind-lift (require_linked_memo ws req.linked_memo_id seen) _ λ _ _.
            insert_todo-AllGood env ws _ req _ _ now (fail_if-ok _ _ u titled)
              (validate-ok _ _ v valid).0 (validate-ok _ _ v valid).1

-- Whatever is called, and whether the call succeeds or fails, every row of the table keeps a valid
-- status, a priority of 0 to 3, a title, a completion and a deletion time exactly when it is
-- completed or deleted, and the etag of its revision.
pub perform-AllGood :
    (env : Env) (ws : String) (now : Timestamp) (call : Call) (s : Store)
    → AllGood s
    → AllGood (perform env ws now call s)
unfolding perform
perform-AllGood env ws now (create_call req fresh seen) s h =
    (create-AllGood env ws req fresh now seen).at s h
perform-AllGood env ws now (update_call id req) s h = (update_todo-AllGood env ws id now req).at s h
perform-AllGood env ws now (delete_call id base etag forever) s h =
    (delete_todo-AllGood env ws id now base etag forever).at s h
perform-AllGood env ws now (restore_call id base etag) s h =
    (restore-AllGood env ws id now base etag).at s h
