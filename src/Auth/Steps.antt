-- ===== src/Auth/Steps.antt =====
-- The requests of crates/auth/src/lib.rs and crates/server/src/routes/auth_routes.rs as steps, and what
-- an invariant of the accounts has to meet.
use panda_server.Prelude.{ℕ, String, Bool, true, false, Option, none, some, List, [], ◌∷◌}
use panda_server.Store.Rows.{Timestamp}
use panda_server.Store.Accounts.{User}
use panda_server.Store.Env.{Env}
use panda_server.Store.State.{Store}
use panda_server.Store.Action.Keeps.{Keeps, Keeps-pure, keeps_rules}
use panda_server.Users.Accounts.{DemoIds, bootstrap_owner, create_personal_user}
use panda_server.Users.Tokens.{
  touch_session, revoke_session_by_token_hash, update_password, mark_login, create_session,
  create_api_token, delete_api_token,
}
use panda_server.Users.Queries.{SessionRow}
use panda_server.Auth.Service.{
  AuthContext, bootstrap_if, ensure_bootstrap, grant, Fresh, register, login, touched_context,
  try_session, or_api_token, authenticate_bearer, logout, change_password,
}
use panda_server.Auth.Requests.{CreateApiTokenRequest, create_token, delete_token}

-- A call of the service or of a request.
pub data Step : Type 0 where
  bootstrap_step : String → String → String → String → String → String → DemoIds → Step
  register_step : ℕ → String → String → Option String → Fresh → Step
  login_step : ℕ → String → String → Option String → Option String → String → String → Step
  authenticate_step logout_step : String → Step
  password_step : String → String → String → String → Step
  create_token_step : AuthContext → CreateApiTokenRequest → String → String → Step
  delete_token_step : AuthContext → String → Step

unfoldable pub run : Env → Timestamp → Step → Store → Store
run env now (bootstrap_step username password salt user_id ws inbox ids) s =
    (ensure_bootstrap env username password salt user_id ws inbox ids now s).1
run env now (register_step ttl username password device_id fresh) s =
    (register env ttl username password device_id fresh now s).1
run env now (login_step ttl username password device_id ws random session_id) s =
    (login env ttl username password device_id ws random session_id now s).1
run env now (authenticate_step token) s = (authenticate_bearer env token now s).1
run env now (logout_step token) s = (logout env token now s).1
run env now (password_step user_id current new_password salt) s =
    (change_password env user_id current new_password salt now s).1
run env now (create_token_step ctx req random id) s = (create_token env ctx req random id now s).1
run env now (delete_token_step ctx id) s = (delete_token ctx id s).1

-- Calls, one behind the other, each with its time.
unfoldable pub run_all : Env → List (Timestamp × Step) → Store → Store
run_all env [] s = s
run_all env (step ∷ steps) s = run_all env steps (run env step.0 step.1 s)

-- `P` holds behind each method of the accounts.
pub record KeptByUsers (P : Store → Type 0) : Type 0 where
  pub touch : (id : String) (now : Timestamp) → Keeps P (touch_session id now)
  pub revoke : (hash : String) (now : Timestamp) → Keeps P (revoke_session_by_token_hash hash now)
  pub mark : (id : String) (now : Timestamp) → Keeps P (mark_login id now)
  pub password : (id hash : String) (now : Timestamp) → Keeps P (update_password id hash now)
  pub session :
      (user_id ws token_hash : String) (device_id : Option String) (expires_at : Timestamp)
      (id : String) (now : Timestamp)
      → Keeps P (create_session user_id ws token_hash device_id expires_at id now)
  pub token :
      (ws user_id name token_hash scopes_json : String) (expires_at : Option String) (id : String)
      (now : Timestamp)
      → Keeps P (create_api_token ws user_id name token_hash scopes_json expires_at id now)
  pub untoken : (ws id : String) → Keeps P (delete_api_token ws id)
  pub bootstrap :
      (username password_hash user_id ws inbox : String) (ids : DemoIds) (now : Timestamp)
      → Keeps P (bootstrap_owner username password_hash user_id ws inbox ids now)
  pub personal :
      (username password_hash user_id ws inbox : String) (now : Timestamp)
      → Keeps P (create_personal_user username password_hash user_id ws inbox now)

module _ {P : Store → Type 0} (laws : KeptByUsers P) (env : Env) (now : Timestamp) where
  bootstrap_if-Keeps :
      (b : Bool) (username password salt user_id ws inbox : String) (ids : DemoIds)
      → Keeps P (bootstrap_if b env username password salt user_id ws inbox ids now)
  unfolding bootstrap_if
  bootstrap_if-Keeps false username password salt user_id ws inbox ids = Keeps-pure tt
  bootstrap_if-Keeps true username password salt user_id ws inbox ids =
      search (keeps_rules, laws.bootstrap) depth 9

  ensure_bootstrap-Keeps :
      (username password salt user_id ws inbox : String) (ids : DemoIds)
      → Keeps P (ensure_bootstrap env username password salt user_id ws inbox ids now)
  unfolding ensure_bootstrap
  ensure_bootstrap-Keeps username password salt user_id ws inbox ids =
      search (keeps_rules, bootstrap_if-Keeps) depth 9

  grant-Keeps :
      (ttl : ℕ) (user : User) (ws : String) (device_id : Option String) (random session_id : String)
      → Keeps P (grant env ttl user ws device_id random session_id now)
  unfolding grant
  grant-Keeps ttl user ws device_id random session_id =
      search (keeps_rules, laws.mark, laws.session) depth 9

  register-Keeps :
      (ttl : ℕ) (username password : String) (device_id : Option String) (fresh : Fresh)
      → Keeps P (register env ttl username password device_id fresh now)
  unfolding register
  register-Keeps ttl username password device_id fresh =
      search (keeps_rules, laws.personal, grant-Keeps) depth 11

  login-Keeps :
      (ttl : ℕ) (username password : String) (device_id workspace_id : Option String)
      (random session_id : String)
      → Keeps P (login env ttl username password device_id workspace_id random session_id now)
  unfolding login
  login-Keeps ttl username password device_id workspace_id random session_id =
      search (keeps_rules, grant-Keeps) depth 13

  touched_context-Keeps : (row : Option SessionRow) → Keeps P (touched_context row now)
  unfolding touched_context
  touched_context-Keeps none = Keeps-pure none
  touched_context-Keeps (some r) = search (keeps_rules, laws.touch) depth 9

  or_api_token-Keeps :
      (token : String) (ctx : Option AuthContext) → Keeps P (or_api_token env token now ctx)
  unfolding or_api_token
  or_api_token-Keeps token none = search (keeps_rules) depth 9
  or_api_token-Keeps token (some ctx) = Keeps-pure ctx

  authenticate_bearer-Keeps : (token : String) → Keeps P (authenticate_bearer env token now)
  unfolding authenticate_bearer try_session
  authenticate_bearer-Keeps token =
      search (keeps_rules, touched_context-Keeps, or_api_token-Keeps) depth 11

  logout-Keeps : (token : String) → Keeps P (logout env token now)
  unfolding logout
  logout-Keeps token = search (keeps_rules, laws.revoke) depth 5

  change_password-Keeps :
      (user_id current new_password salt : String)
      → Keeps P (change_password env user_id current new_password salt now)
  unfolding change_password
  change_password-Keeps user_id current new_password salt =
      search (keeps_rules, laws.password) depth 13

  create_token-Keeps :
      (ctx : AuthContext) (req : CreateApiTokenRequest) (random id : String)
      → Keeps P (create_token env ctx req random id now)
  unfolding create_token
  create_token-Keeps ctx req random id = search (keeps_rules, laws.token) depth 9

  delete_token-Keeps : (ctx : AuthContext) (id : String) → Keeps P (delete_token ctx id)
  unfolding delete_token
  delete_token-Keeps ctx id = search (keeps_rules, laws.untoken) depth 9

  -- What every method of the accounts keeps, every call keeps.
  pub run-Keeps : (step : Step) (s : Store) → P s → P (run env now step s)
  unfolding run
  run-Keeps (bootstrap_step username password salt user_id ws inbox ids) s h =
      (ensure_bootstrap-Keeps username password salt user_id ws inbox ids).at s h
  run-Keeps (register_step ttl username password device_id fresh) s h =
      (register-Keeps ttl username password device_id fresh).at s h
  run-Keeps (login_step ttl username password device_id ws random session_id) s h =
      (login-Keeps ttl username password device_id ws random session_id).at s h
  run-Keeps (authenticate_step token) s h = (authenticate_bearer-Keeps token).at s h
  run-Keeps (logout_step token) s h = (logout-Keeps token).at s h
  run-Keeps (password_step user_id current new_password salt) s h =
      (change_password-Keeps user_id current new_password salt).at s h
  run-Keeps (create_token_step ctx req random id) s h =
      (create_token-Keeps ctx req random id).at s h
  run-Keeps (delete_token_step ctx id) s h = (delete_token-Keeps ctx id).at s h

module _ {P : Store → Type 0} (laws : KeptByUsers P) (env : Env) where
  pub run_all-Keeps : (steps : List (Timestamp × Step)) (s : Store) → P s → P (run_all env steps s)
  unfolding run_all
  run_all-Keeps [] s h = h
  run_all-Keeps (step ∷ steps) s h =
      run_all-Keeps steps (run env step.0 step.1 s) (run-Keeps laws env step.0 step.1 s h)
