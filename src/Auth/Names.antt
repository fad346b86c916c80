-- ===== src/Auth/Names.antt =====
-- A user name that is taken stays taken (crates/store/src/users.rs, crates/auth/src/lib.rs).
use panda_server.Prelude.{
  String, Bool, ◌==◌, ◌||◌, Option, some, List, [], ◌∷◌, ◌≡◌, refl, Bool-cases, inl, inr, is_some,
}
use panda_server.Prelude.Sql.{find, update}
use panda_server.Prelude.Keys.{find-append, find-update_kept}
use panda_server.Domain.Error.{PandaError}
use panda_server.Store.Rows.{Timestamp, Notebook, SyncMeta}
use panda_server.Store.Accounts.{Workspace, User, Member, ApiToken}
use panda_server.Store.State.{Store}
use panda_server.Store.Action.Keeps.{Keeps, keeps_rules}
use panda_server.Notebooks.Edit.{insert_row}
use panda_server.Users.Queries.{find_by_username}
use panda_server.Users.Accounts.{
  insert_workspace, clashes, insert_user, is_membership, insert_member, insert_sync_meta,
  insert_account, DemoIds, insert_demo, bootstrap_owner, create_personal_user,
}
use panda_server.Users.Tokens.{
  has_owner, new_session, same_session, create_session, touch_session, revoke_session_by_token_hash,
  with_password, update_password, logged_in, mark_login, create_api_token, delete_api_token,
}
use panda_server.Auth.Steps.{KeptByUsers}

module _ (name : String) where
  -- Some user has the name.
  abbrev pub IsTaken : Store → Type 0
  IsTaken s = (u : User) × (find_by_username name s ≡ some u)

  insert_workspace-IsTaken : (w : Workspace) → Keeps IsTaken (insert_workspace w)
  unfolding insert_workspace
  insert_workspace-IsTaken w = record {
    at = λ s h. elim (Bool-cases (is_some (find (λ (x : Workspace). x.id == w.id) s.workspaces))) [
      | inl taken ↦ rw taken h
      | inr free ↦ rw free h
    ];
  }

  insert_sync_meta-IsTaken : (m : SyncMeta) → Keeps IsTaken (insert_sync_meta m)
  unfolding insert_sync_meta
  insert_sync_meta-IsTaken m = record {
    at = λ s h.
        elim (Bool-cases
          (is_some (find (λ (x : SyncMeta). x.workspace_id == m.workspace_id) s.sync_meta))) [
            | inl taken ↦ rw taken h
            | inr free ↦ rw free h
          ];
  }

  insert_row-IsTaken : (n : Notebook) → Keeps IsTaken (insert_row n)
  unfolding insert_row
  insert_row-IsTaken n = record {
    at = λ s h. elim (Bool-cases (is_some (find (λ (m : Notebook). m.id == n.id) s.notebooks))) [
      | inl taken ↦ rw taken h
      | inr free ↦ rw free h
    ];
  }

  insert_member-IsTaken : (m : Member) → Keeps IsTaken (insert_member m)
  unfolding insert_member
  insert_member-IsTaken m = record {
    at = λ s h. elim (Bool-cases (is_some (find (is_membership m) s.workspace_members))) [
      | inl taken ↦ rw taken h
      | inr free ↦ rw free h
    ];
  }

  insert_user-IsTaken : (taken : PandaError) (u : User) → Keeps IsTaken (insert_user taken u)
  unfolding insert_user
  insert_user-IsTaken taken u = record {
    at = λ s h. elim (Bool-cases (is_some (find (clashes u) s.users))) [
      | inl clash ↦ rw clash h
      | inr free ↦
          rw free (h.0, find-append (λ (x : User). x.username == name) s.users (u ∷ []) h.1)
    ];
  }

  create_session-IsTaken :
      (user_id ws token_hash : String) (device_id : Option String) (expires_at : Timestamp)
      (id : String) (now : Timestamp)
      → Keeps IsTaken (create_session user_id ws token_hash device_id expires_at id now)
  unfolding create_session
  create_session-IsTaken user_id ws token_hash device_id expires_at id now = record {
    at = λ s h.
        let row = new_session user_id ws token_hash device_id expires_at id now in
        elim (Bool-cases (is_some (find (same_session row) s.sessions))) [
          | inl taken ↦ rw taken h
          | inr free ↦ elim (Bool-cases (has_owner user_id ws s)) [
            | inr orphan ↦ rw (free, orphan) h
            | inl owned ↦ rw (free, owned) h
          ]
        ];
  }

  create_api_token-IsTaken :
      (ws user_id token_name token_hash scopes_json : String) (expires_at : Option String)
      (id : String) (now : Timestamp)
      → Keeps IsTaken
          (create_api_token ws user_id token_name token_hash scopes_json expires_at id now)
  unfolding create_api_token
  create_api_token-IsTaken ws user_id token_name token_hash scopes_json expires_at id now = record {
    at = λ s h.
        let taken = λ (t : ApiToken). t.id == id || t.token_hash == token_hash in
        elim (Bool-cases (is_some (find taken s.api_tokens))) [
          | inl clash ↦ rw clash h
          | inr free ↦ elim (Bool-cases (has_owner user_id ws s)) [
            | inr orphan ↦ rw (free, orphan) h
            | inl owned ↦ rw (free, owned) h
          ]
        ];
  }

  found_updated :
      (q : User → Bool) (f : User → User) (us : List User) {u : User}
      → ((y : User) → (f y).username ≡ y.username)
      → find (λ (x : User). x.username == name) us ≡ some u
      → (v : User) × (find (λ (x : User). x.username == name) (update q f us) ≡ some v)
  found_updated q f us keep h =
      (_, find-update_kept (λ (x : User). x.username == name) q f us (λ y. rw (keep y) refl) h)

  mark_login-IsTaken : (id : String) (now : Timestamp) → Keeps IsTaken (mark_login id now)
  unfolding mark_login
  mark_login-IsTaken id now = record {
    at = λ s h. found_updated (λ u. u.id == id) (logged_in now) s.users (λ y. refl) h.1;
  }

  update_password-IsTaken :
      (id hash : String) (now : Timestamp) → Keeps IsTaken (update_password id hash now)
  unfolding update_password
  update_password-IsTaken id hash now = record {
    at = λ s h. found_updated (λ u. u.id == id) (with_password hash now) s.users (λ y. refl) h.1;
  }

  touch_session-IsTaken : (id : String) (now : Timestamp) → Keeps IsTaken (touch_session id now)
  unfolding touch_session
  touch_session-IsTaken id now = record { at = λ s h. h }

  revoke-IsTaken :
      (hash : String) (now : Timestamp) → Keeps IsTaken (revoke_session_by_token_hash hash now)
  unfolding revoke_session_by_token_hash
  revoke-IsTaken hash now = record { at = λ s h. h }

  delete_api_token-IsTaken : (ws id : String) → Keeps IsTaken (delete_api_token ws id)
  unfolding delete_api_token
  delete_api_token-IsTaken ws id = record { at = λ s h. h }

  insert_account-IsTaken :
      (taken : PandaError) (user_id ws inbox username password_hash : String) (now : Timestamp)
      → Keeps IsTaken (insert_account taken user_id ws inbox username password_hash now)
  unfolding insert_account
  insert_account-IsTaken taken user_id ws inbox username password_hash now =
      search
        (
          keeps_rules, insert_workspace-IsTaken, insert_user-IsTaken, insert_member-IsTaken,
          insert_sync_meta-IsTaken, insert_row-IsTaken,
        )
        depth 11

  insert_demo-IsTaken :
      (ws : String) (ids : DemoIds) (now : Timestamp) → Keeps IsTaken (insert_demo ws ids now)
  unfolding insert_demo
  insert_demo-IsTaken ws ids now = search (keeps_rules, insert_row-IsTaken) depth 13

  bootstrap_owner-IsTaken :
      (username password_hash user_id ws inbox : String) (ids : DemoIds) (now : Timestamp)
      → Keeps IsTaken (bootstrap_owner username password_hash user_id ws inbox ids now)
  unfolding bootstrap_owner
  bootstrap_owner-IsTaken username password_hash user_id ws inbox ids now =
      search (keeps_rules, insert_account-IsTaken, insert_demo-IsTaken) depth 11

  create_personal_user-IsTaken :
      (username password_hash user_id ws inbox : String) (now : Timestamp)
      → Keeps IsTaken (create_personal_user username password_hash user_id ws inbox now)
  unfolding create_personal_user
  create_personal_user-IsTaken username password_hash user_id ws inbox now =
      search (keeps_rules, insert_account-IsTaken) depth 11

  pub names_kept : KeptByUsers IsTaken
  names_kept = record {
    touch = touch_session-IsTaken;
    revoke = revoke-IsTaken;
    mark = mark_login-IsTaken;
    password = update_password-IsTaken;
    session = create_session-IsTaken;
    token = create_api_token-IsTaken;
    untoken = delete_api_token-IsTaken;
    bootstrap = bootstrap_owner-IsTaken;
    personal = create_personal_user-IsTaken;
  }
