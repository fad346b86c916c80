-- ===== src/Todos/Trash.antt =====
-- The trash (crates/store/src/todos.rs, `delete` and `restore`).
use panda_server.Prelude.{
  ◌+◌, String, true, false, not, Option, none, some, ◌≡◌, refl, ap, arith, ◌∙◌, ◌==◌, inl, inr,
  Option-cases,
}
use panda_server.Prelude.Sql.{find, update, find-update, find-holds, find-narrow, count-update}
use panda_server.Domain.Etag.{format_etag}
use panda_server.Domain.Error.{ok, err, fail_if, invalid}
use panda_server.Store.Rows.{Timestamp, Todo}
use panda_server.Store.Env.{Env}
use panda_server.Store.State.{Store}
use panda_server.Store.Action.{◌>>=◌}
use panda_server.Sync
use panda_server.Todos.{
  has_id, is_current, get_including_deleted, append_unlocked, check_base, tombstone, move_to_trash,
  delete_forever, delete_todo, revived, restore,
}
use panda_server.Todos.Rows.{
  HasKeys, live, get-eq-ok, is_current_self, is_current-has_id, write_current-ok, live-has_id,
}
use panda_server.Todos.Revisions.{log_upsert-ok}

check_base-none : (t : Todo) → check_base none none t ≡ ok tt
unfolding check_base
check_base-none t = refl

any-ok :
    (ws id : String) (s : Store) {t : Todo}
    → get_including_deleted ws id s ≡ ok t
    → find (has_id ws id) s.todos ≡ some t
unfolding get_including_deleted
any-ok ws id s {t} h = elim (Option-cases (find (has_id ws id) s.todos)) [
  | inl missing ↦ absurd (ne missing)
  | inr (x, found) ↦ ground arith
]
  where
    ne : find (has_id ws id) s.todos ≡ none → ⊥
    ne missing = ground arith

-- A permanent deletion of a todo that is not in the trash is refused and changes nothing.
pub delete_forever-needs-trash :
    (env : Env) (ws id : String) (now : Timestamp) (s : Store) (t : Todo)
    → get_including_deleted ws id s ≡ ok t
    → t.is_deleted ≡ false
    → delete_todo env ws id none none true now s
      ≡ (err (invalid "todo must be in trash before permanent deletion"), s)
unfolding delete_todo delete_forever ◌>>=◌
delete_forever-needs-trash env ws id now s t found live = rw (found, check_base-none t, live)

-- The row of a todo in the store, whether or not it is in the trash.
abbrev pub row_of : String → String → Store → Option Todo
row_of ws id s = find (has_id ws id) s.todos

append-todos :
    (env : Env) (ws : String) (t : Todo) (op : String) (now : Timestamp) (s : Store)
    → (append_unlocked env ws t op now s).1.todos ≡ s.todos
unfolding append_unlocked Sync.append_unlocked ◌>>=◌
append-todos env ws t op now s = refl

append-ok :
    (env : Env) (ws : String) (t : Todo) (op : String) (now : Timestamp) (s : Store)
    → (append_unlocked env ws t op now s).0 ≡ ok tt
unfolding append_unlocked Sync.append_unlocked ◌>>=◌
append-ok env ws t op now s = refl

module _ (env : Env) (ws id : String) (now : Timestamp) (s : Store) (t : Todo) where
  abbrev trashed : Store
  trashed = record s { todos = update (is_current ws id false t) (tombstone id t now) s.todos }

  find-trashed :
      row_of ws id s ≡ some t
      → t.is_deleted ≡ false
      → row_of ws id trashed ≡ some (tombstone id t now t)
  find-trashed row d =
      let holds = find-holds (has_id ws id) s.todos row in
      find-update (has_id ws id) (has_id ws id) (is_current ws id false t) (tombstone id t now)
        s.todos (is_current-has_id ws id false t) (λ y h. h) row
        (is_current_self ws id false t holds d) holds

  move_to_trash-eq :
      HasKeys s
      → row_of ws id s ≡ some t
      → t.is_deleted ≡ false
      → move_to_trash env ws id none none now s
        ≡ append_unlocked env ws (tombstone id t now t) "delete" now trashed
  unfolding move_to_trash get_including_deleted ◌>>=◌
  move_to_trash-eq keys row d =
      let holds = find-holds (has_id ws id) s.todos row in
      let alive =
        find-narrow (has_id ws id) (live ws id) s.todos t (live-has_id ws id) row (ground arith) in
      rw (
        get-eq-ok ws id s t alive,
        check_base-none t,
        write_current-ok ws id false s t (has_id ws id) (tombstone id t now) keys row (λ y h. h) d,
        find-trashed row d,
      )

  trashed-HasKeys : HasKeys s → HasKeys trashed
  trashed-HasKeys keys = record {
    unique = λ k.
        rw
          (count-update (λ (x : Todo). x.id == k) (is_current ws id false t) (tombstone id t now)
            s.todos (λ y. refl))
          (keys.unique k);
  }

HasKeys-append :
    (env : Env) (ws : String) (t : Todo) (op : String) (now : Timestamp) (s : Store)
    → HasKeys s
    → HasKeys (append_unlocked env ws t op now s).1
HasKeys-append env ws t op now s keys = record {
  unique = λ k. rw (append-todos env ws t op now s) (keys.unique k);
}

-- What `restore` does with a row of the trash.
restore-eq :
    (env : Env) (ws id : String) (now : Timestamp) (s : Store) (t : Todo)
    → HasKeys s
    → row_of ws id s ≡ some t
    → t.is_deleted ≡ true
    → (restore env ws id none none now s).0 ≡ ok (revived id t now t)
unfolding restore get_including_deleted ◌>>=◌
restore-eq env ws id now s t keys row d =
    let holds = find-holds (has_id ws id) s.todos row in
    let back =
      find-update (has_id ws id) (live ws id) (is_current ws id true t) (revived id t now) s.todos
        (is_current-has_id ws id true t) (live-has_id ws id) row
        (is_current_self ws id true t holds d) (ground arith) in
    let pass : fail_if (not t.is_deleted) (invalid "todo is not deleted") ≡ ok tt = ground arith in
    rw
      (
        row,
        pass,
        check_base-none t,
        write_current-ok ws id true s t (has_id ws id) (revived id t now) keys row (λ y h. h) d,
      )
      (log_upsert-ok env ws id now _ _ back)

revived-tombstone :
    (id : String) (t : Todo) (now later : Timestamp)
    → t.is_deleted ≡ false
    → t.deleted_at ≡ none
    → revived id (tombstone id t now t) later (tombstone id t now t) ≡ record t {
      revision = t.revision + 1 + 1;
      etag = format_etag (t.revision + 1 + 1) id;
      updated_at = later;
    }
revived-tombstone id t now later d never = ground arith

-- Deleting a todo into the trash succeeds, and restoring it from there gives it back with all its
-- fields, but for its revision, which both steps raise, its etag and its time of change.
pub restore-delete_todo :
    (env : Env) (ws id : String) (now later : Timestamp) (s : Store) (t : Todo)
    → HasKeys s
    → row_of ws id s ≡ some t
    → t.is_deleted ≡ false
    → t.deleted_at ≡ none
    → ((delete_todo env ws id none none false now s).0 ≡ ok tt)
      × ((restore env ws id none none later (delete_todo env ws id none none false now s).1).0
          ≡ ok (record t {
            revision = t.revision + 1 + 1;
            etag = format_etag (t.revision + 1 + 1) id;
            updated_at = later;
          }))
unfolding delete_todo
restore-delete_todo env ws id now later s t keys row d never =
    let gone = trashed env ws id now s t in
    let stone = tombstone id t now t in
    rw (move_to_trash-eq env ws id now s t keys row d) (
      append-ok env ws stone "delete" now gone,
      restore-eq env ws id later (append_unlocked env ws stone "delete" now gone).1 stone
            (HasKeys-append env ws stone "delete" now gone (trashed-HasKeys env ws id now s t keys))
            (rw (append-todos env ws stone "delete" now gone)
              (find-trashed env ws id now s t row d))
            refl
          ∙ ap ok (revived-tombstone id t now later d never),
    )
