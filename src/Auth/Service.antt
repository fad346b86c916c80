-- ===== src/Auth/Service.antt =====
-- crates/auth/src/lib.rs (`AuthService`). The salts, the random bytes of the tokens (in hexadecimal)
-- and the new ids are arguments, and so is the time to live of a session.
use Prim.Native.String
use panda_server.Prelude.{
  ℕ, ◌+◌, ◌*◌, String, Bool, true, false, not, ◌||◌, ◌==◌, Option, none, some, List, [], ◌∷◌, eqb,
  ltb, is_some, unwrap_or,
}
use panda_server.Prelude.Text.{trim, is_empty}
use panda_server.Domain.Error.{
  Result, ok, invalid, conflict, internal, not_found, unauthenticated, permission_denied, ok_or,
  fail_if, and_then,
}
use panda_server.Store.Rows.{Timestamp}
use panda_server.Store.Accounts.{User, ApiToken}
use panda_server.Store.Env.{Env, byte_len}
use panda_server.Store.State.{Store}
use panda_server.Store.Action.{Action, ◌>>=◌, ◌>>◌, pure, lift, reads}
use panda_server.Users.Queries.{
  count_users, find_by_username, find_by_id, SessionRow, find_session_by_token_hash,
  resolve_workspace, membership_role, find_api_token,
}
use panda_server.Users.Accounts.{DemoIds, bootstrap_owner, create_personal_user}
use panda_server.Users.Tokens.{
  create_session, touch_session, revoke_session_by_token_hash, update_password, mark_login,
}

pub record AuthContext : Type 0 where
  pub user_id : String
  pub username : String
  pub workspace_id : String
  pub is_owner : Bool
  pub device_id : Option String
  pub scopes : Option (List String)
  pub session_id : Option String

abbrev pub hash_token : Env → String → String
hash_token env token = env.blake3 (env.as_bytes token)

abbrev pub mint_token : String → String → String
mint_token prefix random = String.◌++◌ prefix random

-- `verify_password`: a stored hash that does not parse is an error
abbrev pub verify_password : Env → String → String → Result Bool
verify_password env password hash = ok_or (env.verify_password password hash) (internal "bad hash")

unfoldable pub bootstrap_if :
    Bool
    → Env
    → String
    → String
    → String
    → String
    → String
    → String
    → DemoIds
    → Timestamp
    → Action (Unit {0})
bootstrap_if false env username password salt user_id ws inbox ids now = pure tt
bootstrap_if true env username password salt user_id ws inbox ids now = do
  bootstrap_owner username (env.hash_password password salt) user_id ws inbox ids now
  pure tt

unfoldable pub ensure_bootstrap :
    Env
    → String
    → String
    → String
    → String
    → String
    → String
    → DemoIds
    → Timestamp
    → Action (Unit {0})
ensure_bootstrap env username password salt user_id ws inbox ids now = do
  users ← reads (λ s. ok (count_users s))
  bootstrap_if (eqb users 0) env username password salt user_id ws inbox ids now

-- What `register` and `login` return.
pub record Granted : Type 0 where
  pub user : User
  pub token : String
  pub workspace_id : String
  pub expires_at : Timestamp

-- `Utc::now() + Duration::days(session_ttl_days)`
abbrev pub expiry : ℕ → Timestamp → Timestamp
expiry session_ttl_days now = now + session_ttl_days * 86400

-- The end of both methods: a token, its session and the time of the login.
unfoldable pub grant :
    Env → ℕ → User → String → Option String → String → String → Timestamp → Action Granted
grant env ttl user ws device_id random session_id now = do
  create_session user.id ws (hash_token env (mint_token "pnd_" random)) device_id (expiry ttl now)
      session_id now
  mark_login user.id now
  pure (record {
    user = user;
    token = mint_token "pnd_" random;
    workspace_id = ws;
    expires_at = expiry ttl now;
  })

-- What a call draws at random.
pub record Fresh : Type 0 where
  pub user_id : String
  pub workspace_id : String
  pub inbox_id : String
  pub session_id : String
  pub salt : String
  pub random : String

abbrev pub check_registration : Env → String → String → Store → Result (Unit {0})
check_registration env username password s =
    and_then (fail_if (is_empty username) (invalid "username required")) λ _.
      and_then (fail_if (ltb (byte_len env password) 8) (invalid "password too short"))
        λ _. fail_if (is_some (find_by_username username s)) (conflict "username already taken")

abbrev pub as_owner : Bool → User → User
as_owner owns u = record u { is_owner = owns }

unfoldable pub register :
    Env → ℕ → String → String → Option String → Fresh → Timestamp → Action Granted
register env ttl raw_username password device_id fresh now = do
  reads (check_registration env (trim raw_username) password)
  ids ←
      create_personal_user (trim raw_username) (env.hash_password password fresh.salt) fresh.user_id
        fresh.workspace_id fresh.inbox_id now
  user ← reads (λ s. ok_or (find_by_id ids.0 s) (internal "registered user missing"))
  grant env ttl (as_owner true user) ids.1 device_id fresh.random fresh.session_id now

unfoldable pub login :
    Env
    → ℕ
    → String
    → String
    → Option String
    → Option String
    → String
    → String
    → Timestamp
    → Action Granted
login env ttl username password device_id workspace_id random session_id now = do
  user ← reads (λ s. ok_or (find_by_username username s) (unauthenticated "invalid credentials"))
  lift (fail_if user.is_disabled (unauthenticated "account disabled"))
  verified ← lift (verify_password env password user.password_hash)
  lift (fail_if (not verified) (unauthenticated "invalid credentials"))
  member ← reads (resolve_workspace user.id workspace_id)
  grant env ttl (as_owner (member.role == "owner") user) member.workspace_id device_id random
      session_id now

abbrev pub session_context : SessionRow → AuthContext
session_context r = record {
  user_id = r.session.user_id;
  username = r.username;
  workspace_id = r.session.workspace_id;
  is_owner = r.is_owner;
  device_id = r.session.device_id;
  scopes = none;
  session_id = some r.session.id;
}

unfoldable pub touched_context : Option SessionRow → Timestamp → Action (Option AuthContext)
touched_context none now = pure none
touched_context (some r) now = do touch_session r.session.id now; pure (some (session_context r))

unfoldable pub try_session : Env → String → Timestamp → Action (Option AuthContext)
try_session env token now = do
  row ← reads (λ s. ok (find_session_by_token_hash (hash_token env token) now s))
  touched_context row now

abbrev pub token_context : Env → ApiToken → User → String → AuthContext
token_context env t u role = record {
  user_id = t.user_id;
  username = u.username;
  workspace_id = t.workspace_id;
  is_owner = role == "owner";
  device_id = none;
  scopes = some (unwrap_or (env.tags_from_json t.scopes_json) []);
  session_id = none;
}

abbrev pub api_context : Env → Option ApiToken → Store → Result (Option AuthContext)
api_context env none s = ok none
api_context env (some t) s =
    and_then (ok_or (find_by_id t.user_id s) (unauthenticated "token user missing")) λ u.
      and_then
        (ok_or (membership_role t.workspace_id t.user_id s)
          (unauthenticated "token workspace membership no longer exists"))
        λ role. ok (some (token_context env t u role))

abbrev pub try_api_token : Env → String → Timestamp → Store → Result (Option AuthContext)
try_api_token env token now s = api_context env (find_api_token env (hash_token env token) now s) s

unfoldable pub or_api_token : Env → String → Timestamp → Option AuthContext → Action AuthContext
or_api_token env token now (some ctx) = pure ctx
or_api_token env token now none = do
  api ← reads (try_api_token env token now)
  lift (ok_or api (unauthenticated "invalid token"))

unfoldable pub authenticate_bearer : Env → String → Timestamp → Action AuthContext
authenticate_bearer env token now = do
  session ← try_session env token now
  or_api_token env token now session

unfoldable pub logout : Env → String → Timestamp → Action (Unit {0})
logout env token now = revoke_session_by_token_hash (hash_token env token) now

unfoldable pub change_password :
    Env → String → String → String → String → Timestamp → Action (Unit {0})
change_password env user_id current new_password salt now = do
  user ← reads (λ s. ok_or (find_by_id user_id s) (not_found "user"))
  verified ← lift (verify_password env current user.password_hash)
  lift (fail_if (not verified) (unauthenticated "current password incorrect"))
  lift (fail_if (ltb (byte_len env new_password) 8) (invalid "password too short"))
  update_password user_id (env.hash_password new_password salt) now

abbrev pub has_scope : String → List String → Bool
has_scope scope [] = false
has_scope scope (x ∷ xs) = x == scope || x == "admin" || has_scope scope xs

abbrev pub allows : Option (List String) → String → Bool
allows none scope = true
allows (some scopes) scope = has_scope scope scopes

abbrev pub require_scope : AuthContext → String → Result (Unit {0})
require_scope ctx scope =
    fail_if (not (allows ctx.scopes scope)) (permission_denied (String.◌++◌ "missing scope " scope))
