-- ===== src/Todos/Checks.antt =====
-- crates/store/src/todos.rs: the arguments of the methods, the reads and the checks before a write.
use panda_server.Prelude.{
  ℕ, ℤ, pos, negsuc, String, Bool, false, not, ◌&&◌, ◌||◌, Option, none, some, ◌==◌, eqb, leb,
  if◌then◌else◌, or_option, is_some,
}
use panda_server.Prelude.Sql.{find}
use panda_server.Domain.Error.{Result, ok, err, invalid, conflict, not_found, ok_or}
use panda_server.Store.Rows.{Timestamp, Memo, Todo}
use panda_server.Store.State.{Store}

pub record TodoCreate : Type 0 where
  pub id : Option String
  pub title : String
  pub note : String
  pub status : Option String
  pub due_date : Option String
  pub priority : Option ℤ
  pub linked_memo_id : Option String

pub record TodoUpdate : Type 0 where
  pub title : Option String
  pub note : Option String
  pub status : Option String
  pub due_date : Option (Option String)
  pub priority : Option ℤ
  pub linked_memo_id : Option (Option String)
  pub base_revision : Option ℕ
  pub if_match_etag : Option String

-- `(0..=3).contains(&priority)`
abbrev pub is_priority : ℤ → Bool
is_priority (pos n) = leb n 3
is_priority (negsuc n) = false

abbrev pub is_status : String → Bool
is_status s = s == "inbox" || s == "open" || s == "completed"

unfoldable pub validate : String → ℤ → Result (Unit {0})
validate status priority =
    if not (is_status status)
    then err (invalid "invalid todo status")
    else if not (is_priority priority)
    then err (invalid "priority must be between 0 and 3")
    else ok tt

-- The row of `get_summary(workspace_id, memo_id)`.
abbrev pub memo_exists : String → String → Store → Bool
memo_exists ws memo_id s =
    is_some (find (λ (m : Memo). m.workspace_id == ws && m.id == memo_id) s.memos)

-- `linked_memo_id REFERENCES memos(id)`: a note of any workspace.
abbrev pub is_dangling : Option String → Store → Bool
is_dangling none s = false
is_dangling (some memo_id) s = not (is_some (find (λ (m : Memo). m.id == memo_id) s.memos))

unfoldable pub require_linked_memo : String → Option String → Store → Result (Unit {0})
require_linked_memo ws none s = ok tt
require_linked_memo ws (some memo_id) s =
    if memo_exists ws memo_id s then ok tt else err (not_found "linked memo not found in workspace")

abbrev pub has_id : String → String → Todo → Bool
has_id ws id t = t.workspace_id == ws && t.id == id

unfoldable pub get : String → String → Store → Result Todo
get ws id s =
    ok_or (find (λ t. has_id ws id t && not t.is_deleted) s.todos) (not_found "todo not found")

unfoldable pub get_including_deleted : String → String → Store → Result Todo
get_including_deleted ws id s = ok_or (find (has_id ws id) s.todos) (not_found "todo not found")

-- `if let Some(rev) = base_revision { … } if let Some(etag) = if_match_etag { … }`
abbrev pub differs : Option ℕ → Todo → Bool
differs none old = false
differs (some rev) old = not (eqb rev old.revision)

abbrev pub differs_etag : Option String → Todo → Bool
differs_etag none old = false
differs_etag (some etag) old = not (etag == old.etag)

unfoldable pub check_base : Option ℕ → Option String → Todo → Result (Unit {0})
check_base base_revision if_match_etag old =
    if differs base_revision old
    then err (conflict "todo revision conflict")
    else if differs_etag if_match_etag old
    then err (conflict "todo etag conflict")
    else ok tt

unfoldable pub completion : String → Option Timestamp → Timestamp → Option Timestamp
completion status before now = if status == "completed" then or_option before (some now) else none
