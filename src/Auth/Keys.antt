-- ===== src/Auth/Keys.antt =====
-- The requests of crates/auth/src/lib.rs and crates/server/src/routes/auth_routes.rs keep the unique
-- columns of the accounts unique.
use panda_server.Store.Rows.{Timestamp}
use panda_server.Store.Env.{Env}
use panda_server.Store.State.{Store}
use panda_server.Users.Keys.{
  HasKeys, touch_session-HasKeys, revoke-HasKeys, mark_login-HasKeys, update_password-HasKeys,
  create_session-HasKeys, create_api_token-HasKeys, delete_api_token-HasKeys,
  bootstrap_owner-HasKeys, create_personal_user-HasKeys,
}
use panda_server.Auth.Steps.{Step, run, KeptByUsers, run-Keeps}

keys_kept : KeptByUsers HasKeys
keys_kept = record {
  touch = λ id now. touch_session-HasKeys now id;
  revoke = λ hash now. revoke-HasKeys now hash;
  mark = λ id now. mark_login-HasKeys now id;
  password = λ id hash now. update_password-HasKeys now id hash;
  session = create_session-HasKeys;
  token = create_api_token-HasKeys;
  untoken = delete_api_token-HasKeys;
  bootstrap = bootstrap_owner-HasKeys;
  personal = create_personal_user-HasKeys;
}

-- Whatever is called, and whether the call succeeds or fails, no two users have one id or one name, no
-- two memberships one user and workspace, and no two sessions, nor two API tokens, one hash: each row
-- is the one that is found under its key.
run-HasKeys :
    (env : Env) (now : Timestamp) (step : Step) (s : Store)
    → HasKeys s
    → HasKeys (run env now step s)
run-HasKeys env now = run-Keeps keys_kept env now
