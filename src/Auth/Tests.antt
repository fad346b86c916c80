-- ===== src/Auth/Tests.antt =====
-- Runs of the authentication service on concrete input.
use panda_server.Prelude.{true, false, none, some, List, [], ◌∷◌, ◌≡◌, refl, arith, eq_iff}
use panda_server.Domain.Error.{ok, err, unauthenticated, conflict}
use panda_server.Store.Rows.{Timestamp}
use panda_server.Store.Accounts.{Workspace, User, Member, Session}
use panda_server.Store.State.{Store}
use panda_server.Store.Action.{◌>>=◌}
use panda_server.Store.Example.{example_env, empty_store}
use panda_server.Prelude.Sql.{order_by}
use panda_server.Prelude.Text.{trim}
use panda_server.Users.Keys.{HasKeys}
use panda_server.Notebooks.Edit.{insert_row}
use panda_server.Users.Accounts.{
  insert_workspace, insert_user, insert_member, insert_sync_meta, insert_account,
  create_personal_user,
}
use panda_server.Users.Tokens.{create_session, mark_login, touch_session}
use panda_server.Auth.Service.{
  Granted, Fresh, authenticate_bearer, logout, login, grant, register, try_session, touched_context,
  or_api_token,
}
use panda_server.Auth.Sessions.{context_of, authenticate_bearer-login}
use panda_server.Auth.Access.{IsBacked, authenticate_bearer-logout, authenticate_bearer-IsBacked}
use panda_server.Auth.Registration.{HasAccount, register-HasAccount}
use panda_server.Auth.Steps.{Step, authenticate_step, password_step, run_all}
use panda_server.Auth.Retaken.{register_once}

abbrev ann : User
ann = record {
  id = "u1";
  username = "ann";
  password_hash = "long secret";
  is_owner = true;
  is_disabled = false;
  last_login_at = none;
  created_at = 50;
  updated_at = 50;
}

abbrev ann_member : Member
ann_member = record { workspace_id = "w"; user_id = "u1"; role = "owner"; created_at = 50 }

abbrev home : Workspace
home = record { id = "w"; name = "Personal"; created_at = 50; updated_at = 50 }

abbrev house : Store
house = record empty_store {
  users = ann ∷ [];
  workspaces = home ∷ [];
  workspace_members = ann_member ∷ [];
}

house-HasKeys : HasKeys house
house-HasKeys = record {
  users_by_id = (refl, tt);
  users_by_name = (refl, tt);
  members = (refl, tt);
  sessions = tt;
  tokens = tt;
}

abbrev ann_session : Session
ann_session = record {
  id = "s1";
  user_id = "u1";
  workspace_id = "w";
  token_hash = "xxxxx";
  device_id = none;
  expires_at = 86500;
  revoked_at = none;
  last_seen_at = 100;
  created_at = 100;
}

abbrev ann_granted : Granted
ann_granted = record { user = ann; token = "pnd_1"; workspace_id = "w"; expires_at = 86500 }

abbrev open_house : Store
open_house = record house {
  users = record ann { last_login_at = some 100; updated_at = 100 } ∷ [];
  sessions = ann_session ∷ [];
}

authenticate_bearer-login_example :
    ((authenticate_bearer example_env "pnd_1" 200 open_house).0
      ≡ ok (context_of ann_granted none "s1"))
    × (ann_granted.user.username ≡ "ann")
unfolding login grant create_session mark_login ◌>>=◌ order_by
authenticate_bearer-login_example =
    authenticate_bearer-login example_env 1 "ann" "long secret" none none "1" "s1" 100 200 house
      {g = ann_granted} {t = open_house} house-HasKeys refl (omega arith)

authenticate_bearer-logout_example :
    (authenticate_bearer example_env "pnd_1" 300 (logout example_env "pnd_1" 200 open_house).1).0
    ≡ err (unauthenticated "invalid token")
authenticate_bearer-logout_example =
    authenticate_bearer-logout example_env "pnd_1" 200 300 open_house refl

authenticate_bearer-IsBacked_example :
    IsBacked example_env "pnd_1" 200 open_house (context_of ann_granted none "s1")
unfolding authenticate_bearer try_session touched_context touch_session or_api_token ◌>>=◌
authenticate_bearer-IsBacked_example =
    authenticate_bearer-IsBacked example_env "pnd_1" 200 open_house
      (context_of ann_granted none "s1") refl

abbrev bob_fresh : Fresh
bob_fresh = record {
  user_id = "u2";
  workspace_id = "w2";
  inbox_id = "n2";
  session_id = "s2";
  salt = "salt";
  random = "2";
}

abbrev bob_granted : Granted
bob_granted = record {
  user = record {
    id = "u2";
    username = "bob";
    password_hash = "a long one";
    is_owner = true;
    is_disabled = false;
    last_login_at = none;
    created_at = 100;
    updated_at = 100;
  };
  token = "pnd_2";
  workspace_id = "w2";
  expires_at = 86500;
}

abbrev bob_house : Store
bob_house = (register example_env 1 " bob" "a long one" none bob_fresh 100 house).1

register-HasAccount_example :
    HasAccount example_env 1 " bob" "a long one" none bob_fresh 100 200 "w" house bob_house
      bob_granted
unfolding register grant create_session mark_login ◌>>=◌ trim create_personal_user insert_account
    insert_workspace insert_user insert_member insert_sync_meta insert_row
register-HasAccount_example =
    register-HasAccount example_env 1 " bob" "a long one" none bob_fresh 100 200 "w" house
      {g = bob_granted} {t = bob_house} refl refl (omega arith) (ground (arith, eq_iff "w" "w2"))

abbrev carol_fresh : Fresh
carol_fresh = record {
  user_id = "u3";
  workspace_id = "w3";
  inbox_id = "n3";
  session_id = "s3";
  salt = "pepper";
  random = "3";
}

abbrev bob_calls : List (Timestamp × Step)
bob_calls =
    (110, authenticate_step "pnd_2")
    ∷ (120, password_step "u2" "a long one" "a longer one" "salt")
    ∷ []

abbrev later_house : Store
later_house = run_all example_env bob_calls bob_house

register_once_example :
    register example_env 7 "bob " "another one" none carol_fresh 130 later_house
    ≡ (err (conflict "username already taken"), later_house)
unfolding register grant create_session mark_login ◌>>=◌ trim create_personal_user insert_account
    insert_workspace insert_user insert_member insert_sync_meta insert_row
register_once_example =
    register_once example_env 1 " bob" "a long one" none bob_fresh 100 house {g = bob_granted}
      {t = bob_house} refl bob_calls 7 "bob " "another one" none carol_fresh 130 refl (omega arith)
