-- ===== src/Todos/Updated.antt =====
-- What an accepted `update` writes, column by column (crates/store/src/todos.rs).
use panda_server.Prelude.{
  ℕ, ◌+◌, ◌≤◌, ℤ, pos, String, false, Option, none, some, ◌≡◌, ◌⊎◌, inl, inr, refl, arith, ◌==◌,
  ◌&&◌, eq_refl, if◌then◌else◌, unwrap_or, or_option,
}
use panda_server.Prelude.Sql.{find}
use panda_server.Prelude.Text.{trim, is_empty}
use panda_server.Domain.Etag.{format_etag}
use panda_server.Domain.Error.{ok}
use panda_server.Store.Rows.{Timestamp, Memo, Todo}
use panda_server.Store.Env.{Env}
use panda_server.Store.State.{Store}
use panda_server.Todos.{
  TodoUpdate, completion, validate, require_linked_memo, check_base, get, updated, update_todo,
}
use panda_server.Todos.Rows.{HasKeys}
use panda_server.Todos.Revisions.{Accepts, update_todo-Accepts}

-- An update that the API allows: it is based on the row, or on nothing; there is a title; the status
-- and the priority are of the listed ones; and a linked note is one of the workspace.
pub record IsAllowed (ws : String) (req : TodoUpdate) (old : Todo) (s : Store) : Type 0 where
  pub base : (req.base_revision ≡ none) ⊎ (req.base_revision ≡ some old.revision)
  pub etag : (req.if_match_etag ≡ none) ⊎ (req.if_match_etag ≡ some old.etag)
  pub titled : is_empty (trim (unwrap_or req.title old.title)) ≡ false
  pub status :
      (unwrap_or req.status old.status ≡ "inbox")
      ⊎ ((unwrap_or req.status old.status ≡ "open")
          ⊎ (unwrap_or req.status old.status ≡ "completed"))
  pub priority : (n : ℕ) × (unwrap_or req.priority old.priority ≡ pos n) × (n ≤ 3)
  pub linked :
      (unwrap_or req.linked_memo_id old.linked_memo_id ≡ none)
      ⊎ ((memo_id : String) × (m : Memo) × (unwrap_or req.linked_memo_id old.linked_memo_id
            ≡ some memo_id)
          × (find (λ (m : Memo). m.workspace_id == ws && m.id == memo_id) s.memos ≡ some m))

-- The row behind the update: a field of the request where it has one, and else the old one.
pub record IsUpdated (id : String) (req : TodoUpdate) (old : Todo) (now : Timestamp) (t : Todo)
    : Type 0 where
  pub title : t.title ≡ trim (unwrap_or req.title old.title)
  pub note : t.note ≡ unwrap_or req.note old.note
  pub status : t.status ≡ unwrap_or req.status old.status
  pub due_date : t.due_date ≡ unwrap_or req.due_date old.due_date
  pub priority : t.priority ≡ unwrap_or req.priority old.priority
  pub linked : t.linked_memo_id ≡ unwrap_or req.linked_memo_id old.linked_memo_id
  pub revision : t.revision ≡ old.revision + 1
  pub etag : t.etag ≡ format_etag (old.revision + 1) id
  pub updated_at : t.updated_at ≡ now
  pub completed :
      t.completed_at
      ≡ (if t.status == "completed" then or_option old.completed_at (some now) else none)
  pub kept :
      (t.id ≡ old.id)
      × (t.workspace_id ≡ old.workspace_id)
      × (t.is_deleted ≡ old.is_deleted)
      × (t.created_at ≡ old.created_at)
      × (t.deleted_at ≡ old.deleted_at)

check_base-IsAllowed :
    (base : Option ℕ) (etag : Option String) (old : Todo)
    → (base ≡ none) ⊎ (base ≡ some old.revision)
    → (etag ≡ none) ⊎ (etag ≡ some old.etag)
    → check_base base etag old ≡ ok tt
unfolding check_base
check_base-IsAllowed base etag old (inl b) (inl e) = rw (b, e)
check_base-IsAllowed base etag old (inl b) (inr e) = rw (b, e, eq_refl old.etag)
check_base-IsAllowed base etag old (inr b) (inl e) = rw (b, e) (ground arith)
check_base-IsAllowed base etag old (inr b) (inr e) = rw (b, e, eq_refl old.etag) (ground arith)

validate-IsAllowed :
    (status : String) (priority : ℤ)
    → (status ≡ "inbox") ⊎ ((status ≡ "open") ⊎ (status ≡ "completed"))
    → (n : ℕ) × (priority ≡ pos n) × (n ≤ 3)
    → validate status priority ≡ ok tt
unfolding validate
validate-IsAllowed status priority (inl a) (n, p, h) = rw (a, p) (ground arith)
validate-IsAllowed status priority (inr (inl a)) (n, p, h) = rw (a, p) (ground arith)
validate-IsAllowed status priority (inr (inr a)) (n, p, h) = rw (a, p) (ground arith)

require_linked_memo-IsAllowed :
    (ws : String) (linked : Option String) (s : Store)
    → (linked ≡ none)
      ⊎ ((memo_id : String) × (m : Memo) × (linked ≡ some memo_id)
          × (find (λ (m : Memo). m.workspace_id == ws && m.id == memo_id) s.memos ≡ some m))
    → require_linked_memo ws linked s ≡ ok tt
unfolding require_linked_memo
require_linked_memo-IsAllowed ws linked s (inl absent) = rw absent
require_linked_memo-IsAllowed ws linked s (inr (memo_id, m, is_id, found)) = rw (is_id, found)

IsAllowed-Accepts :
    (ws : String) (req : TodoUpdate) (old : Todo) (s : Store)
    → IsAllowed ws req old s
    → Accepts ws req old s
IsAllowed-Accepts ws req old s a = record {
  base = check_base-IsAllowed req.base_revision req.if_match_etag old a.base a.etag;
  titled = a.titled;
  valid =
      validate-IsAllowed (unwrap_or req.status old.status) (unwrap_or req.priority old.priority)
        a.status a.priority;
  linked =
      require_linked_memo-IsAllowed ws (unwrap_or req.linked_memo_id old.linked_memo_id) s a.linked;
}

updated-IsUpdated :
    (id : String) (req : TodoUpdate) (old : Todo) (now : Timestamp)
    → IsUpdated id req old now (updated id req old now old)
unfolding completion
updated-IsUpdated id req old now = record {
  title = refl;
  note = refl;
  status = refl;
  due_date = refl;
  priority = refl;
  linked = refl;
  revision = refl;
  etag = refl;
  updated_at = refl;
  completed = refl;
  kept = (refl, refl, refl, refl, refl);
}

-- An update of a todo that is not in the trash succeeds if it is based on the row's revision and etag
-- or on none, leaves a title that is not blank, asks for one of the three statuses and for a priority
-- of 0 to 3, and links to no note or to one of the workspace. It returns the row that is in the table
-- behind it, which has every field of the request that is there and else the old one, the next
-- revision with its etag, the time of the call, and a completion time exactly if it is completed, the
-- old one if there was one.
pub update_todo-IsUpdated :
    (env : Env) (ws id : String) (req : TodoUpdate) (now : Timestamp) (s : Store) (old : Todo)
    → HasKeys s
    → get ws id s ≡ ok old
    → IsAllowed ws req old s
    → (t : Todo) × ((update_todo env ws id req now s).0 ≡ ok t)
      × (get ws id (update_todo env ws id req now s).1 ≡ ok t)
      × IsUpdated id req old now t
update_todo-IsUpdated env ws id req now s old keys found a =
    let done =
      update_todo-Accepts env ws id req now s old keys found (IsAllowed-Accepts ws req old s a) in
    (updated id req old now old, done.0, done.1, updated-IsUpdated id req old now)
