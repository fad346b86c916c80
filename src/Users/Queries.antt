-- ===== src/Users/Queries.antt =====
-- crates/store/src/users.rs: the reads. Ids, usernames and hashes of tokens are unique columns, and so
-- is the pair of a membership, so a query for one of them has one row at most.
use Prim.Native.String
use panda_server.Prelude.{
  ℕ, String, Bool, true, false, not, ◌&&◌, ◌||◌, ◌==◌, Option, none, some, List, [], ◌∷◌, ltb, leb,
  is_some, length, if◌then◌else◌,
}
use Prim.Native.Nat.{Ordering}
use panda_server.Prelude.Sql.{find, select, order_by}
use panda_server.Domain.Error.{Result, not_found, permission_denied, ok_or}
use panda_server.Store.Rows.{Timestamp}
use panda_server.Store.Accounts.{Workspace, User, Member, Session, ApiToken}
use panda_server.Store.Env.{Env}
use panda_server.Store.State.{Store}

abbrev pub count_users : Store → ℕ
count_users s = length s.users

abbrev pub find_by_username : String → Store → Option User
find_by_username username s = find (λ (u : User). u.username == username) s.users

abbrev pub find_by_id : String → Store → Option User
find_by_id id s = find (λ (u : User). u.id == id) s.users

-- `SessionRow`: a session, with the name of its user and its right in its workspace
pub record SessionRow : Type 0 where
  pub session : Session
  pub username : String
  pub is_owner : Bool

abbrev pub is_revoked : Session → Bool
is_revoked x = is_some x.revoked_at

abbrev pub is_open : String → Timestamp → Session → Bool
is_open token_hash now x = x.token_hash == token_hash && not (is_revoked x) && ltb now x.expires_at

abbrev pub is_member : String → String → Member → Bool
is_member user_id ws m = m.user_id == user_id && m.workspace_id == ws

abbrev pub with_member : Session → User → Option Member → Option SessionRow
with_member x u none = none
with_member x u (some m) =
    some (record { session = x; username = u.username; is_owner = m.role == "owner" })

abbrev pub with_user : Session → Option User → Option Member → Option SessionRow
with_user x none member = none
with_user x (some u) member = if u.is_disabled then none else with_member x u member

abbrev pub joined : Store → Option Session → Option SessionRow
joined s none = none
joined s (some x) =
    with_user x (find_by_id x.user_id s)
      (find (is_member x.user_id x.workspace_id) s.workspace_members)

abbrev pub find_session_by_token_hash : String → Timestamp → Store → Option SessionRow
find_session_by_token_hash token_hash now s = joined s (find (is_open token_hash now) s.sessions)

-- `ORDER BY created_at`
abbrev pub by_creation : Member → Member → Bool
by_creation a b = leb a.created_at b.created_at

abbrev pub first_member : List Member → Option Member
first_member [] = none
first_member (m ∷ ms) = some m

abbrev pub oldest_membership : String → Store → Option Member
oldest_membership user_id s =
    first_member
      (order_by by_creation (select (λ (m : Member). m.user_id == user_id) s.workspace_members))

abbrev pub workspace_of : Option Member → Option String
workspace_of none = none
workspace_of (some m) = some m.workspace_id

abbrev pub primary_workspace : String → Store → Result String
primary_workspace user_id s =
    ok_or (workspace_of (oldest_membership user_id s)) (not_found "workspace not found")

abbrev pub membership_for : String → Option String → Store → Option Member
membership_for user_id none s = oldest_membership user_id s
membership_for user_id (some ws) s = find (is_member user_id ws) s.workspace_members

-- The membership row in place of the pair of its workspace and its role.
abbrev pub resolve_workspace : String → Option String → Store → Result Member
resolve_workspace user_id requested s =
    ok_or (membership_for user_id requested s) (permission_denied "workspace membership required")

abbrev pub role_of : Option Member → Option String
role_of none = none
role_of (some m) = some m.role

abbrev pub membership_role : String → String → Store → Option String
membership_role ws user_id s = role_of (find (is_member user_id ws) s.workspace_members)

pub record WorkspaceMembership : Type 0 where
  pub id : String
  pub name : String
  pub role : String

abbrev text_leb : String → String → Bool
text_leb a b = elim (String.compare a b) [ Ordering.gt ↦ false | _ ↦ true ]

-- `ORDER BY wm.created_at, w.id`
abbrev by_creation_then_id : Member → Member → Bool
by_creation_then_id a b =
    leb a.created_at b.created_at
    && (not (leb b.created_at a.created_at) || text_leb a.workspace_id b.workspace_id)

abbrev membership_of :
    Member → Option Workspace → List WorkspaceMembership → List WorkspaceMembership
membership_of m none rest = rest
membership_of m (some w) rest = record { id = w.id; name = w.name; role = m.role } ∷ rest

abbrev with_workspaces : Store → List Member → List WorkspaceMembership
with_workspaces s [] = []
with_workspaces s (m ∷ ms) =
    membership_of m (find (λ (w : Workspace). w.id == m.workspace_id) s.workspaces)
      (with_workspaces s ms)

pub list_workspace_memberships : String → Store → List WorkspaceMembership
list_workspace_memberships user_id s = with_workspaces s (
    order_by by_creation_then_id
      (select (λ (m : Member). m.user_id == user_id) s.workspace_members))

-- The comparison of two texts in SQL.
abbrev pub is_after : String → String → Bool
is_after a b = elim (String.compare a b) [ Ordering.gt ↦ true | _ ↦ false ]

-- `expires_at IS NULL OR expires_at > ?`
abbrev pub is_unexpired : Env → Timestamp → Option String → Bool
is_unexpired env now none = true
is_unexpired env now (some expires_at) = is_after expires_at (env.to_rfc3339 now)

abbrev pub find_api_token : Env → String → Timestamp → Store → Option ApiToken
find_api_token env token_hash now s =
    find (λ (t : ApiToken). t.token_hash == token_hash && is_unexpired env now t.expires_at)
      s.api_tokens

-- `ORDER BY created_at DESC`
abbrev by_newest : ApiToken → ApiToken → Bool
by_newest a b = leb b.created_at a.created_at

pub list_api_tokens : String → Store → List ApiToken
list_api_tokens ws s =
    order_by by_newest (select (λ (t : ApiToken). t.workspace_id == ws) s.api_tokens)
