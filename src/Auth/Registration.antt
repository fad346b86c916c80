-- ===== src/Auth/Registration.antt =====
-- What a registration leaves behind (crates/auth/src/lib.rs, crates/store/src/users.rs).
use panda_server.Prelude.{
  ℕ, ◌<◌, String, Bool, true, false, ◌==◌, Option, none, some, List, [], ◌∷◌, ◌++◌, ◌≡◌, ◌≢◌, refl,
  sym, ◌∙◌, arith, eq_refl, eq_iff, Bool-cases, inl, inr, is_some,
}
use panda_server.Prelude.Sql.{find, select}
use panda_server.Prelude.Text.{trim}
use panda_server.Prelude.Keys.{find-append_last, is_some-none, find-none}
use panda_server.Domain.Error.{ok}
use panda_server.Store.Rows.{Timestamp, Notebook}
use panda_server.Store.Accounts.{User}
use panda_server.Store.Env.{Env}
use panda_server.Store.State.{Store}
use panda_server.Store.Action.{reads-eq-ok, bind-eq-ok}
use panda_server.Notebooks.Queries.{is_inbox_of, default_inbox_id}
use panda_server.Notebooks.Inbox.{default_inbox_id-HasInbox}
use panda_server.Users.Queries.{find_by_id, is_member}
use panda_server.Users.Accounts.{clashes, is_membership, new_user, owner_member, inbox_notebook}
use panda_server.Users.Inserted.{with_account, create_personal_user-eq-ok}
use panda_server.Auth.Service.{Granted, Fresh, as_owner, grant, register, authenticate_bearer}
use panda_server.Auth.Sessions.{
  context_of, grant-eq-ok, granted_row, authenticate_bearer-with_session, ok_or-inj,
}

some-inj : {A : Type 0} (x y : A) → some x ≡ some y → x ≡ y
some-inj x y h = ground arith

-- A row that no other workspace's queries meet.
select-append_other :
    {A : Type 0} (p : A → Bool) (xs : List A) (x : A)
    → p x ≡ false
    → select p (xs ++ x ∷ []) ≡ select p xs
select-append_other p [] x other = rw other
select-append_other p (y ∷ xs) x other = rw (select-append_other p xs x other)

inbox-none :
    (ws : String) (ns : List Notebook)
    → select (λ (n : Notebook). n.workspace_id == ws) ns ≡ []
    → find (is_inbox_of ws) ns ≡ none
inbox-none ws [] h = refl
inbox-none ws (n ∷ ns) h = elim (Bool-cases (n.workspace_id == ws)) [
  | inl here ↦ absurd (cc (rw here at h))
  | inr other ↦ rw other (inbox-none ws ns (rw other at h))
]

module _ (env : Env) (ttl : ℕ) (username password : String) (device_id : Option String)
    (fresh : Fresh) (now later : Timestamp) (vs : String) where
  -- The token of an owner in a workspace of its own, which has an inbox.
  pub record HasAccount (s t : Store) (g : Granted) : Type 0 where
    pub own_workspace : g.workspace_id ≡ fresh.workspace_id
    pub named : g.user.username ≡ trim username
    pub owner : g.user.is_owner ≡ true
    pub serves :
        (authenticate_bearer env g.token later t).0 ≡ ok (context_of g device_id fresh.session_id)
    pub inbox : default_inbox_id g.workspace_id t ≡ ok fresh.inbox_id
    pub apart :
        select (λ (n : Notebook). n.workspace_id == vs) t.notebooks
        ≡ select (λ (n : Notebook). n.workspace_id == vs) s.notebooks
    pub notes : t.memos ≡ s.memos

  account_served :
      (s : Store) (user : User) {g : Granted} {t : Store}
      → select (λ (n : Notebook). n.workspace_id == fresh.workspace_id) s.notebooks ≡ []
      → is_some (
          find
            (clashes
              (new_user fresh.user_id (trim username) (env.hash_password password fresh.salt) now))
            s.users)
        ≡ false
      → is_some (
          find
            (is_membership (owner_member fresh.workspace_id fresh.user_id now))
            s.workspace_members)
        ≡ false
      → find_by_id fresh.user_id (
          with_account fresh.user_id fresh.workspace_id fresh.inbox_id
            (trim username)
            (env.hash_password password fresh.salt)
            now
            s)
        ≡ some user
      → grant env ttl
          (as_owner true user)
          fresh.workspace_id
          device_id
          fresh.random
          fresh.session_id
          now
          (with_account fresh.user_id fresh.workspace_id fresh.inbox_id
            (trim username)
            (env.hash_password password fresh.salt)
            now
            s)
        ≡ (ok g, t)
      → later < g.expires_at
      → vs ≢ fresh.workspace_id
      → HasAccount s t g
  account_served s user {g} {t} new_ws name_free member_free found granted early other =
      let hash = env.hash_password password fresh.salt in
      let row = new_user fresh.user_id (trim username) hash now in
      let member = owner_member fresh.workspace_id fresh.user_id now in
      let before =
        with_account fresh.user_id fresh.workspace_id fresh.inbox_id (trim username) hash now s in
      let by_id : find_by_id fresh.user_id before ≡ some row =
        find-append_last (λ (x : User). x.id == fresh.user_id) s.users row
          (find-none (clashes row) (λ (x : User). x.id == fresh.user_id) s.users
            (λ y hit. ground arith) (is_some-none _ name_free))
          (eq_refl fresh.user_id) in
      let by_member : find (is_member fresh.user_id fresh.workspace_id) before.workspace_members
          ≡ some member =
        find-append_last (is_member fresh.user_id fresh.workspace_id) s.workspace_members member
          (find-none (is_membership member) (is_member fresh.user_id fresh.workspace_id)
            s.workspace_members (λ y hit. ground arith) (is_some-none _ member_free))
          (rw (eq_refl fresh.user_id, eq_refl fresh.workspace_id)) in
      let same_user : row ≡ user = some-inj _ _ (sym by_id ∙ found) in
      let (free, (g_is, t_is)) =
        grant-eq-ok env ttl device_id fresh.random fresh.session_id now (as_owner true row)
          fresh.workspace_id before (rw (← same_user) at granted) in
      let session =
        granted_row env ttl device_id fresh.random fresh.session_id now (as_owner true row)
          fresh.workspace_id in
      let own_inbox : find (is_inbox_of fresh.workspace_id) before.notebooks
          ≡ some (inbox_notebook fresh.workspace_id fresh.inbox_id now) =
        find-append_last (is_inbox_of fresh.workspace_id) s.notebooks
          (inbox_notebook fresh.workspace_id fresh.inbox_id now)
          (inbox-none fresh.workspace_id s.notebooks new_ws) (rw (eq_refl fresh.workspace_id)) in
      rw (← g_is, ← t_is)
        (record {
          own_workspace = refl;
          named = refl;
          owner = refl;
          serves =
              authenticate_bearer-with_session env later now _ session row member before refl refl
                (rw (← g_is) at early) free by_id refl by_member;
          inbox =
              default_inbox_id-HasInbox fresh.workspace_id fresh.inbox_id _
                (record { row = _; found = own_inbox; named = refl });
          apart =
              select-append_other (λ (n : Notebook). n.workspace_id == vs) s.notebooks _
                (ground (arith, eq_iff fresh.workspace_id vs));
          notes = refl;
        })

  -- A registration that succeeds, under a workspace id that no notebook has yet, returns a token which
  -- serves, until it expires, as a session of the owner of the new workspace under the trimmed name. The
  -- default inbox there is the notebook that was created with it. The notebooks of any other workspace,
  -- and all notes, are what they were.
  pub register-HasAccount :
      (s : Store) {g : Granted} {t : Store}
      → select (λ (n : Notebook). n.workspace_id == fresh.workspace_id) s.notebooks ≡ []
      → register env ttl username password device_id fresh now s ≡ (ok g, t)
      → later < g.expires_at
      → vs ≢ fresh.workspace_id
      → HasAccount s t g
  unfolding register
  register-HasAccount s {g} {t} new_ws registered early other =
      let (x, checked, next) = reads-eq-ok _ _ s registered in
      let (ids, created, next) = bind-eq-ok _ _ s next in
      let (pair, (name_free, (member_free, stored))) =
        create_personal_user-eq-ok fresh.user_id fresh.workspace_id fresh.inbox_id (trim username)
          (env.hash_password password fresh.salt) now s created in
      let (user, found, next) = reads-eq-ok _ _ _ next in
      account_served s user new_ws name_free member_free
        (rw (← pair, ← stored) at (ok_or-inj _ _ user found)) (rw (← pair, ← stored) at next) early
        other
