-- ===== src/Users/Tokens.antt =====
-- crates/store/src/users.rs: sessions, API tokens and the updates of a user's row.
use panda_server.Prelude.{
  String, Bool, not, ◌&&◌, ◌||◌, ◌==◌, Option, none, some, [], ◌∷◌, ◌++◌, is_some, if◌then◌else◌,
}
use panda_server.Prelude.Sql.{find, update, delete}
use panda_server.Domain.Error.{ok, err, internal}
use panda_server.Store.Rows.{Timestamp}
use panda_server.Store.Accounts.{Workspace, User, Session, ApiToken}
use panda_server.Store.State.{Store}
use panda_server.Store.Action.{Action}
use panda_server.Users.Queries.{find_by_id, is_revoked}

-- The foreign keys of a session and of an API token.
abbrev pub has_owner : String → String → Store → Bool
has_owner user_id ws s =
    is_some (find_by_id user_id s) && is_some (find (λ (w : Workspace). w.id == ws) s.workspaces)

abbrev pub new_session :
    String → String → String → Option String → Timestamp → String → Timestamp → Session
new_session user_id ws token_hash device_id expires_at id now = record {
  id = id;
  user_id = user_id;
  workspace_id = ws;
  token_hash = token_hash;
  device_id = device_id;
  expires_at = expires_at;
  revoked_at = none;
  last_seen_at = now;
  created_at = now;
}

abbrev pub same_session : Session → Session → Bool
same_session x y = y.id == x.id || y.token_hash == x.token_hash

unfoldable pub create_session :
    String → String → String → Option String → Timestamp → String → Timestamp → Action String
create_session user_id ws token_hash device_id expires_at id now s =
    let row = new_session user_id ws token_hash device_id expires_at id now in
    let inserted : Store = record s { sessions = s.sessions ++ row ∷ [] } in
    if is_some (find (same_session row) s.sessions) || not (has_owner user_id ws s)
    then (err (internal "constraint failed"), s)
    else (ok id, inserted)

abbrev pub seen : Timestamp → Session → Session
seen now x = record x { last_seen_at = now }

unfoldable pub touch_session : String → Timestamp → Action (Unit {0})
touch_session session_id now s =
    let touched : Store = record s {
      sessions = update (λ (x : Session). x.id == session_id) (seen now) s.sessions;
    } in
    (ok tt, touched)

abbrev pub revoked : Timestamp → Session → Session
revoked now x = record x { revoked_at = some now }

unfoldable pub revoke_session_by_token_hash : String → Timestamp → Action (Unit {0})
revoke_session_by_token_hash token_hash now s =
    let closed : Store = record s {
      sessions =
          update (λ (x : Session). x.token_hash == token_hash && not (is_revoked x)) (revoked now)
            s.sessions;
    } in
    (ok tt, closed)

abbrev pub with_password : String → Timestamp → User → User
with_password password_hash now u = record u { password_hash = password_hash; updated_at = now }

unfoldable pub update_password : String → String → Timestamp → Action (Unit {0})
update_password user_id password_hash now s =
    let changed : Store = record s {
      users = update (λ (u : User). u.id == user_id) (with_password password_hash now) s.users;
    } in
    (ok tt, changed)

abbrev pub logged_in : Timestamp → User → User
logged_in now u = record u { last_login_at = some now; updated_at = now }

unfoldable pub mark_login : String → Timestamp → Action (Unit {0})
mark_login user_id now s =
    let marked : Store = record s {
      users = update (λ (u : User). u.id == user_id) (logged_in now) s.users;
    } in
    (ok tt, marked)

unfoldable pub create_api_token :
    String → String → String → String → String → Option String → String → Timestamp → Action String
create_api_token ws user_id name token_hash scopes_json expires_at id now s =
    let row : ApiToken = record {
      id = id;
      workspace_id = ws;
      user_id = user_id;
      name = name;
      token_hash = token_hash;
      scopes_json = scopes_json;
      expires_at = expires_at;
      created_at = now;
    } in
    let inserted : Store = record s { api_tokens = s.api_tokens ++ row ∷ [] } in
    if is_some (find (λ (t : ApiToken). t.id == id || t.token_hash == token_hash) s.api_tokens)
      || not (has_owner user_id ws s)
    then (err (internal "constraint failed"), s)
    else (ok id, inserted)

unfoldable pub delete_api_token : String → String → Action (Unit {0})
delete_api_token ws id s =
    let rest : Store = record s {
      api_tokens = delete (λ (t : ApiToken). t.workspace_id == ws && t.id == id) s.api_tokens;
    } in
    (ok tt, rest)
