-- ===== src/Memos/Open.antt =====
-- crates/store/src/memos.rs: `open` and `create_lease`.
pub mod Accepted
mod Tests
use panda_server.Prelude.{
  ℕ, ◌+◌, ◌*◌, String, Option, none, some, List, [], ◌∷◌, ◌++◌, ◌==◌, if◌then◌else◌, is_some,
}
use panda_server.Prelude.Sql.{find}
use panda_server.Domain.Error.{Result, ok, err, internal, not_found, ok_or}
use panda_server.Store.Rows.{Timestamp, Lease}
use panda_server.Store.Env.{Env}
use panda_server.Store.State.{Store}
use panda_server.Store.Action.{Action, ◌>>=◌, ◌>>◌, pure, lift, reads}
use panda_server.Todos.Checks.{is_dangling}
use panda_server.Memos.Queries.{MemoSummary, get_summary, load_content_row, content_proto}
use panda_server.Memos.Create.{MemoDetail}

-- `chrono::Duration::days(30)`
abbrev pub thirty_days : ℕ
thirty_days = 30 * 86400

-- `proto::EditLease` is a part of this row.
abbrev pub new_lease : String → String → String → MemoSummary → String → String → Timestamp → Lease
new_lease ws memo_id actor_id summary mode id now = record {
  id = id;
  memo_id = memo_id;
  workspace_id = ws;
  actor_id = actor_id;
  base_revision = summary.revision;
  base_content_hash = summary.content_hash;
  mode = if mode == "exclusive" then "exclusive" else "soft";
  expires_at = now + thirty_days;
  created_at = now;
  updated_at = now;
}

unfoldable pub create_lease :
    String → String → String → MemoSummary → String → String → Timestamp → Action Lease
create_lease ws memo_id actor_id summary mode id now s =
    let row = new_lease ws memo_id actor_id summary mode id now in
    let inserted : Store = record s { edit_leases = s.edit_leases ++ row ∷ [] } in
    if is_some (find (λ (l : Lease). l.id == id) s.edit_leases)
    then (err (internal "UNIQUE constraint failed: edit_leases.id"), s)
    else if is_dangling (some memo_id) s
    then (err (internal "FOREIGN KEY constraint failed"), s)
    else (ok row, inserted)

pub record Opened : Type 0 where
  pub detail : MemoDetail
  pub etag : String
  pub lease : Option Lease

unfoldable pub lease_if :
    String → String → String → MemoSummary → String → String → Timestamp → Action (Option Lease)
lease_if ws memo_id actor_id summary mode id now =
    let taken = (do
      lease ← create_lease ws memo_id actor_id summary mode id now
      pure (some lease)) in
    if mode == "none" then pure none else taken

-- `open`. The row of the note and that of its text are read one after the other before the write lock
-- of the lease: `seen` and `seen_later` are the stores that these reads find.
unfoldable pub open_memo :
    Env → String → String → String → String → String → Timestamp → Store → Store → Action Opened
open_memo env ws memo_id actor_id lease_mode id now seen seen_later = do
  summary ← lift (ok_or (get_summary env ws memo_id seen) (not_found "memo not found"))
  crow ← lift (load_content_row ws memo_id seen_later)
  content ← lift (ok (content_proto crow seen_later.inline_threshold))
  lease ← lease_if ws memo_id actor_id summary lease_mode id now
  pure (record {
    detail = record { summary = summary; content = content };
    etag = summary.etag;
    lease = lease;
  })
