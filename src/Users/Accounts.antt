-- ===== src/Users/Accounts.antt =====
-- crates/store/src/users.rs: `bootstrap_owner` and `create_personal_user`. The fresh ids are
-- arguments. The rows that a new row refers to were inserted by the same transaction.
use Prim.Native.String
use panda_server.Prelude.{
  ℕ, pos, String, Bool, true, false, ◌&&◌, ◌||◌, ◌==◌, none, some, [], ◌∷◌, ◌++◌, is_some,
  if◌then◌else◌,
}
use panda_server.Prelude.Sql.{find}
use panda_server.Domain.Error.{PandaError, ok, err, conflict, internal}
use panda_server.Store.Rows.{Timestamp, Notebook, SyncMeta}
use panda_server.Store.Accounts.{Workspace, User, Member}
use panda_server.Store.State.{Store}
use panda_server.Store.Action.{Action, ◌>>◌, pure, transaction}
use panda_server.Notebooks.Edit.{insert_row}

unfoldable pub insert_workspace : Workspace → Action (Unit {0})
insert_workspace w s =
    let inserted : Store = record s { workspaces = s.workspaces ++ w ∷ [] } in
    if is_some (find (λ (x : Workspace). x.id == w.id) s.workspaces)
    then (err (internal "UNIQUE constraint failed: workspaces.id"), s)
    else (ok tt, inserted)

abbrev pub clashes : User → User → Bool
clashes u x = x.id == u.id || x.username == u.username

-- The error is what the method makes of a broken constraint.
unfoldable pub insert_user : PandaError → User → Action (Unit {0})
insert_user taken u s =
    let inserted : Store = record s { users = s.users ++ u ∷ [] } in
    if is_some (find (clashes u) s.users) then (err taken, s) else (ok tt, inserted)

abbrev pub is_membership : Member → Member → Bool
is_membership m x = x.workspace_id == m.workspace_id && x.user_id == m.user_id

unfoldable pub insert_member : Member → Action (Unit {0})
insert_member m s =
    let inserted : Store = record s { workspace_members = s.workspace_members ++ m ∷ [] } in
    if is_some (find (is_membership m) s.workspace_members)
    then (err (internal "UNIQUE constraint failed: workspace_members"), s)
    else (ok tt, inserted)

unfoldable pub insert_sync_meta : SyncMeta → Action (Unit {0})
insert_sync_meta m s =
    let inserted : Store = record s { sync_meta = s.sync_meta ++ m ∷ [] } in
    if is_some (find (λ (x : SyncMeta). x.workspace_id == m.workspace_id) s.sync_meta)
    then (err (internal "UNIQUE constraint failed: sync_meta.workspace_id"), s)
    else (ok tt, inserted)

abbrev pub personal_workspace : String → Timestamp → Workspace
personal_workspace ws now = record {
  id = ws;
  name = "Personal";
  created_at = now;
  updated_at = now;
}

abbrev pub new_user : String → String → String → Timestamp → User
new_user user_id username password_hash now = record {
  id = user_id;
  username = username;
  password_hash = password_hash;
  is_owner = true;
  is_disabled = false;
  last_login_at = none;
  created_at = now;
  updated_at = now;
}

abbrev pub owner_member : String → String → Timestamp → Member
owner_member ws user_id now = record {
  workspace_id = ws;
  user_id = user_id;
  role = "owner";
  created_at = now;
}

abbrev pub first_epoch : String → Timestamp → SyncMeta
first_epoch ws now = record { workspace_id = ws; sync_epoch = 1; updated_at = now }

abbrev pub top_notebook : String → String → String → String → ℕ → Timestamp → Notebook
top_notebook ws id name slug order now = record {
  id = id;
  workspace_id = ws;
  parent_id = none;
  name = name;
  slug = some slug;
  path = String.◌++◌ "/" id;
  depth = 0;
  sort_order = pos order;
  is_deleted = false;
  created_at = now;
  updated_at = now;
}

abbrev pub child_notebook : String → String → String → String → String → ℕ → Timestamp → Notebook
child_notebook ws parent id name slug order now = record (top_notebook ws id name slug order now) {
  parent_id = some parent;
  path = String.◌++◌ (String.◌++◌ "/" parent) (String.◌++◌ "/" id);
  depth = 1;
}

abbrev pub inbox_notebook : String → String → Timestamp → Notebook
inbox_notebook ws id now = top_notebook ws id "Inbox" "inbox" 0 now

-- The rows that both methods insert: workspace, user, membership, epoch and inbox.
unfoldable pub insert_account :
    PandaError → String → String → String → String → String → Timestamp → Action (Unit {0})
insert_account taken user_id ws inbox username password_hash now = do
  insert_workspace (personal_workspace ws now)
  insert_user taken (new_user user_id username password_hash now)
  insert_member (owner_member ws user_id now)
  insert_sync_meta (first_epoch ws now)
  insert_row (inbox_notebook ws inbox now)

-- The ids of the notebooks of the demo tree.
pub record DemoIds : Type 0 where
  pub work : String
  pub projects : String
  pub meetings : String
  pub personal : String
  pub journal : String
  pub reading : String

unfoldable pub insert_demo : String → DemoIds → Timestamp → Action (Unit {0})
insert_demo ws ids now = do
  insert_row (top_notebook ws ids.work "Work" "work" 1 now)
  insert_row (child_notebook ws ids.work ids.projects "Projects" "projects" 0 now)
  insert_row (child_notebook ws ids.work ids.meetings "Meetings" "meetings" 1 now)
  insert_row (top_notebook ws ids.personal "Personal" "personal" 2 now)
  insert_row (child_notebook ws ids.personal ids.journal "Journal" "journal" 0 now)
  insert_row (child_notebook ws ids.personal ids.reading "Reading" "reading" 1 now)

-- `bootstrap_owner`; the result is the pair of the new user and workspace
unfoldable pub bootstrap_owner :
    String → String → String → String → String → DemoIds → Timestamp → Action (String × String)
bootstrap_owner username password_hash user_id ws inbox ids now = transaction (do
  insert_account (internal "UNIQUE constraint failed: users") user_id ws inbox username
      password_hash now
  insert_demo ws ids now
  pure (user_id, ws))

unfoldable pub create_personal_user :
    String → String → String → String → String → Timestamp → Action (String × String)
create_personal_user username password_hash user_id ws inbox now = transaction (do
  insert_account (conflict "username already taken") user_id ws inbox username password_hash now
  pure (user_id, ws))
