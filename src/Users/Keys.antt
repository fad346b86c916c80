-- ===== src/Users/Keys.antt =====
-- The UNIQUE columns of crates/store/src/users.rs: ids, usernames, memberships and the hashes of
-- tokens each stand at one row, whatever its methods insert.
use panda_server.Prelude.{
  String, Bool, not, ◌&&◌, ◌||◌, ◌==◌, Option, List, refl, arith, eq_refl, Bool-cases, inl, inr,
  is_some,
}
use panda_server.Prelude.Sql.{find}
use panda_server.Prelude.Keys.{
  Keyed, Keyed-append, Keyed-update, Keyed-delete, find-none, is_some-none,
}
use panda_server.Domain.Error.{PandaError}
use panda_server.Store.Rows.{Timestamp, Notebook, SyncMeta}
use panda_server.Store.Accounts.{Workspace, User, Member, Session, ApiToken}
use panda_server.Store.State.{Store}
use panda_server.Store.Action.Keeps.{Keeps, keeps_rules}
use panda_server.Notebooks.Edit.{insert_row}
use panda_server.Users.Queries.{is_revoked, is_member}
use panda_server.Users.Accounts.{
  insert_workspace, clashes, insert_user, is_membership, insert_member, insert_sync_meta,
  insert_account, DemoIds, insert_demo, bootstrap_owner, create_personal_user,
}
use panda_server.Users.Tokens.{
  has_owner, new_session, same_session, create_session, seen, touch_session, revoked,
  revoke_session_by_token_hash, with_password, update_password, logged_in, mark_login,
  create_api_token, delete_api_token,
}

abbrev pub same_id : User → User → Bool
same_id u x = x.id == u.id

abbrev pub same_name : User → User → Bool
same_name u x = x.username == u.username

abbrev pub same_member : Member → Member → Bool
same_member m x = is_member m.user_id m.workspace_id x

abbrev pub same_hash : Session → Session → Bool
same_hash x y = y.token_hash == x.token_hash

abbrev pub same_token : ApiToken → ApiToken → Bool
same_token x y = y.token_hash == x.token_hash

pub record AreKeyed (us : List User) (ms : List Member) (xs : List Session) (ts : List ApiToken)
    : Type 0 where
  pub users_by_id : Keyed same_id us
  pub users_by_name : Keyed same_name us
  pub members : Keyed same_member ms
  pub sessions : Keyed same_hash xs
  pub tokens : Keyed same_token ts

abbrev pub HasKeys : Store → Type 0
HasKeys s = AreKeyed s.users s.workspace_members s.sessions s.api_tokens

insert_workspace-HasKeys : (w : Workspace) → Keeps HasKeys (insert_workspace w)
unfolding insert_workspace
insert_workspace-HasKeys w = record {
  at = λ s h. elim (Bool-cases (is_some (find (λ (x : Workspace). x.id == w.id) s.workspaces))) [
    | inl taken ↦ rw taken h
    | inr free ↦ rw free h
  ];
}

insert_sync_meta-HasKeys : (m : SyncMeta) → Keeps HasKeys (insert_sync_meta m)
unfolding insert_sync_meta
insert_sync_meta-HasKeys m = record {
  at = λ s h.
      elim (Bool-cases
        (is_some (find (λ (x : SyncMeta). x.workspace_id == m.workspace_id) s.sync_meta))) [
          | inl taken ↦ rw taken h
          | inr free ↦ rw free h
        ];
}

insert_row-HasKeys : (n : Notebook) → Keeps HasKeys (insert_row n)
unfolding insert_row
insert_row-HasKeys n = record {
  at = λ s h. elim (Bool-cases (is_some (find (λ (m : Notebook). m.id == n.id) s.notebooks))) [
    | inl taken ↦ rw taken h
    | inr free ↦ rw free h
  ];
}

insert_user-HasKeys : (taken : PandaError) (u : User) → Keeps HasKeys (insert_user taken u)
unfolding insert_user
insert_user-HasKeys taken u = record {
  at = λ s h. elim (Bool-cases (is_some (find (clashes u) s.users))) [
    | inl clash ↦ rw clash h
    | inr free ↦
        let none_clashes = is_some-none (find (clashes u) s.users) free in
        rw free (record {
          users_by_id =
              Keyed-append same_id s.users u
                (find-none (clashes u) (same_id u) s.users (λ y hit. ground arith) none_clashes)
                (eq_refl u.id) h.users_by_id;
          users_by_name =
              Keyed-append same_name s.users u
                (find-none (clashes u) (same_name u) s.users (λ y hit. ground arith) none_clashes)
                (eq_refl u.username) h.users_by_name;
          members = h.members;
          sessions = h.sessions;
          tokens = h.tokens;
        })
  ];
}

insert_member-HasKeys : (m : Member) → Keeps HasKeys (insert_member m)
unfolding insert_member
insert_member-HasKeys m = record {
  at = λ s h. elim (Bool-cases (is_some (find (is_membership m) s.workspace_members))) [
    | inl taken ↦ rw taken h
    | inr free ↦ rw free (record {
      members =
          Keyed-append same_member s.workspace_members m
            (find-none (is_membership m) (same_member m) s.workspace_members (λ y hit. ground arith)
              (is_some-none _ free))
            (rw (eq_refl m.user_id, eq_refl m.workspace_id)) h.members;
      users_by_id = h.users_by_id;
      users_by_name = h.users_by_name;
      sessions = h.sessions;
      tokens = h.tokens;
    })
  ];
}

pub create_session-HasKeys :
    (user_id ws token_hash : String) (device_id : Option String) (expires_at : Timestamp)
    (id : String) (now : Timestamp)
    → Keeps HasKeys (create_session user_id ws token_hash device_id expires_at id now)
unfolding create_session
create_session-HasKeys user_id ws token_hash device_id expires_at id now = record {
  at = λ s h.
      let row = new_session user_id ws token_hash device_id expires_at id now in
      elim (Bool-cases (is_some (find (same_session row) s.sessions))) [
        | inl taken ↦ rw taken h
        | inr free ↦ elim (Bool-cases (has_owner user_id ws s)) [
          | inr orphan ↦ rw (free, orphan) h
          | inl owned ↦
              rw (free, owned)
                (record {
                  sessions =
                      Keyed-append same_hash s.sessions row
                        (find-none (same_session row) (same_hash row) s.sessions
                          (λ y hit. ground arith) (is_some-none _ free))
                        (eq_refl token_hash) h.sessions;
                  users_by_id = h.users_by_id;
                  users_by_name = h.users_by_name;
                  members = h.members;
                  tokens = h.tokens;
                })
        ]
      ];
}

module _ (now : Timestamp) where
  pub touch_session-HasKeys : (id : String) → Keeps HasKeys (touch_session id now)
  unfolding touch_session
  touch_session-HasKeys id = record {
    at = λ s h. record {
      sessions =
          Keyed-update same_hash (λ x. x.id == id) (seen now) (λ x y. refl) (λ x y. refl) s.sessions
            h.sessions;
      users_by_id = h.users_by_id;
      users_by_name = h.users_by_name;
      members = h.members;
      tokens = h.tokens;
    };
  }

  pub revoke-HasKeys : (hash : String) → Keeps HasKeys (revoke_session_by_token_hash hash now)
  unfolding revoke_session_by_token_hash
  revoke-HasKeys hash = record {
    at = λ s h. record {
      sessions =
          Keyed-update same_hash (λ x. x.token_hash == hash && not (is_revoked x)) (revoked now)
            (λ x y. refl) (λ x y. refl) s.sessions h.sessions;
      users_by_id = h.users_by_id;
      users_by_name = h.users_by_name;
      members = h.members;
      tokens = h.tokens;
    };
  }

  pub mark_login-HasKeys : (id : String) → Keeps HasKeys (mark_login id now)
  unfolding mark_login
  mark_login-HasKeys id = record {
    at = λ s h. record {
      users_by_id =
          Keyed-update same_id (λ u. u.id == id) (logged_in now) (λ x y. refl) (λ x y. refl) s.users
            h.users_by_id;
      users_by_name =
          Keyed-update same_name (λ u. u.id == id) (logged_in now) (λ x y. refl) (λ x y. refl)
            s.users h.users_by_name;
      members = h.members;
      sessions = h.sessions;
      tokens = h.tokens;
    };
  }

  pub update_password-HasKeys : (id hash : String) → Keeps HasKeys (update_password id hash now)
  unfolding update_password
  update_password-HasKeys id hash = record {
    at = λ s h. record {
      users_by_id =
          Keyed-update same_id (λ u. u.id == id) (with_password hash now) (λ x y. refl)
            (λ x y. refl) s.users h.users_by_id;
      users_by_name =
          Keyed-update same_name (λ u. u.id == id) (with_password hash now) (λ x y. refl)
            (λ x y. refl) s.users h.users_by_name;
      members = h.members;
      sessions = h.sessions;
      tokens = h.tokens;
    };
  }

pub create_api_token-HasKeys :
    (ws user_id name token_hash scopes_json : String) (expires_at : Option String) (id : String)
    (now : Timestamp)
    → Keeps HasKeys (create_api_token ws user_id name token_hash scopes_json expires_at id now)
unfolding create_api_token
create_api_token-HasKeys ws user_id name token_hash scopes_json expires_at id now = record {
  at = λ s h.
      let taken = λ (t : ApiToken). t.id == id || t.token_hash == token_hash in
      elim (Bool-cases (is_some (find taken s.api_tokens))) [
        | inl clash ↦ rw clash h
        | inr free ↦ elim (Bool-cases (has_owner user_id ws s)) [
          | inr orphan ↦ rw (free, orphan) h
          | inl owned ↦
              rw (free, owned)
                (record {
                  tokens =
                      Keyed-append same_token s.api_tokens _
                        (find-none taken (λ y. y.token_hash == token_hash) s.api_tokens
                          (λ y hit. ground arith) (is_some-none _ free))
                        (eq_refl token_hash) h.tokens;
                  users_by_id = h.users_by_id;
                  users_by_name = h.users_by_name;
                  members = h.members;
                  sessions = h.sessions;
                })
        ]
      ];
}

pub delete_api_token-HasKeys : (ws id : String) → Keeps HasKeys (delete_api_token ws id)
unfolding delete_api_token
delete_api_token-HasKeys ws id = record {
  at = λ s h. record {
    tokens =
        Keyed-delete same_token (λ t. t.workspace_id == ws && t.id == id) s.api_tokens h.tokens;
    users_by_id = h.users_by_id;
    users_by_name = h.users_by_name;
    members = h.members;
    sessions = h.sessions;
  };
}

insert_account-HasKeys :
    (taken : PandaError) (user_id ws inbox username password_hash : String) (now : Timestamp)
    → Keeps HasKeys (insert_account taken user_id ws inbox username password_hash now)
unfolding insert_account
insert_account-HasKeys taken user_id ws inbox username password_hash now =
    search
      (
        keeps_rules, insert_workspace-HasKeys, insert_user-HasKeys, insert_member-HasKeys,
        insert_sync_meta-HasKeys, insert_row-HasKeys,
      )
      depth 11

insert_demo-HasKeys :
    (ws : String) (ids : DemoIds) (now : Timestamp) → Keeps HasKeys (insert_demo ws ids now)
unfolding insert_demo
insert_demo-HasKeys ws ids now = search (keeps_rules, insert_row-HasKeys) depth 13

pub bootstrap_owner-HasKeys :
    (username password_hash user_id ws inbox : String) (ids : DemoIds) (now : Timestamp)
    → Keeps HasKeys (bootstrap_owner username password_hash user_id ws inbox ids now)
unfolding bootstrap_owner
bootstrap_owner-HasKeys username password_hash user_id ws inbox ids now =
    search (keeps_rules, insert_account-HasKeys, insert_demo-HasKeys) depth 11

pub create_personal_user-HasKeys :
    (username password_hash user_id ws inbox : String) (now : Timestamp)
    → Keeps HasKeys (create_personal_user username password_hash user_id ws inbox now)
unfolding create_personal_user
create_personal_user-HasKeys username password_hash user_id ws inbox now =
    search (keeps_rules, insert_account-HasKeys) depth 11
