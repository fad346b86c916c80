-- ===== src/Users/Inserted.antt =====
-- The store behind the inserts of crates/store/src/users.rs that succeed.
use panda_server.Prelude.{
  String, false, ◌==◌, [], ◌∷◌, ◌++◌, ◌≡◌, refl, ap, sym, ◌∙◌, Bool-cases, inl, inr, is_some,
}
use panda_server.Prelude.Sql.{find}
use panda_server.Domain.Error.{PandaError, Result, ok, err, conflict}
use panda_server.Store.Rows.{Timestamp, Notebook, SyncMeta}
use panda_server.Store.Accounts.{Workspace, User, Member}
use panda_server.Store.State.{Store}
use panda_server.Store.Action.{Action, ◌>>=◌, ◌>>◌, pure, committed, bind-eq-ok, pure-eq-ok}
use panda_server.Notebooks.Edit.{insert_row}
use panda_server.Users.Accounts.{
  insert_workspace, clashes, insert_user, is_membership, insert_member, insert_sync_meta,
  personal_workspace, new_user, owner_member, first_epoch, inbox_notebook, insert_account,
  create_personal_user,
}

module _ {B : Type 0} (next : Action B) (s : Store) {b : B} {t : Store} where
  insert_workspace-then :
      (w : Workspace)
      → (insert_workspace w >> next) s ≡ (ok b, t)
      → next (record s { workspaces = s.workspaces ++ w ∷ [] }) ≡ (ok b, t)
  unfolding insert_workspace ◌>>=◌
  insert_workspace-then w done =
      elim (Bool-cases (is_some (find (λ (x : Workspace). x.id == w.id) s.workspaces))) [
        | inl taken ↦ absurd (cc (rw taken at done))
        | inr free ↦ rw free at done
      ]

  insert_user-then :
      (e : PandaError) (u : User)
      → (insert_user e u >> next) s ≡ (ok b, t)
      → (is_some (find (clashes u) s.users) ≡ false)
        × (next (record s { users = s.users ++ u ∷ [] }) ≡ (ok b, t))
  unfolding insert_user ◌>>=◌
  insert_user-then e u done = elim (Bool-cases (is_some (find (clashes u) s.users))) [
    | inl taken ↦ absurd (cc (rw taken at done))
    | inr free ↦ (free, rw free at done)
  ]

  insert_member-then :
      (m : Member)
      → (insert_member m >> next) s ≡ (ok b, t)
      → (is_some (find (is_membership m) s.workspace_members) ≡ false)
        × (next (record s { workspace_members = s.workspace_members ++ m ∷ [] }) ≡ (ok b, t))
  unfolding insert_member ◌>>=◌
  insert_member-then m done =
      elim (Bool-cases (is_some (find (is_membership m) s.workspace_members))) [
        | inl taken ↦ absurd (cc (rw taken at done))
        | inr free ↦ (free, rw free at done)
      ]

  insert_sync_meta-then :
      (m : SyncMeta)
      → (insert_sync_meta m >> next) s ≡ (ok b, t)
      → next (record s { sync_meta = s.sync_meta ++ m ∷ [] }) ≡ (ok b, t)
  unfolding insert_sync_meta ◌>>=◌
  insert_sync_meta-then m done =
      elim (Bool-cases
        (is_some (find (λ (x : SyncMeta). x.workspace_id == m.workspace_id) s.sync_meta))) [
          | inl taken ↦ absurd (cc (rw taken at done))
          | inr free ↦ rw free at done
        ]

insert_row-done :
    (n : Notebook) (s : Store) {x : Unit {0}} {t : Store}
    → insert_row n s ≡ (ok x, t)
    → record s { notebooks = s.notebooks ++ n ∷ [] } ≡ t
unfolding insert_row
insert_row-done n s done =
    elim (Bool-cases (is_some (find (λ (m : Notebook). m.id == n.id) s.notebooks))) [
      | inl taken ↦ absurd (cc (rw taken at done))
      | inr free ↦ ap (λ p. p.1) (rw free at done)
    ]

module _ (user_id ws inbox username password_hash : String) (now : Timestamp) where
  -- The store with the rows of a new account.
  abbrev pub with_account : Store → Store
  with_account s = record s {
    workspaces = s.workspaces ++ personal_workspace ws now ∷ [];
    users = s.users ++ new_user user_id username password_hash now ∷ [];
    workspace_members = s.workspace_members ++ owner_member ws user_id now ∷ [];
    sync_meta = s.sync_meta ++ first_epoch ws now ∷ [];
    notebooks = s.notebooks ++ inbox_notebook ws inbox now ∷ [];
  }

  pub insert_account-eq-ok :
      (taken : PandaError) (s : Store) {x : Unit {0}} {t : Store}
      → insert_account taken user_id ws inbox username password_hash now s ≡ (ok x, t)
      → (is_some (find (clashes (new_user user_id username password_hash now)) s.users) ≡ false)
        × ((is_some (find (is_membership (owner_member ws user_id now)) s.workspace_members)
              ≡ false)
            × (with_account s ≡ t))
  unfolding insert_account
  insert_account-eq-ok taken s done =
      let after_workspace = insert_workspace-then _ s (personal_workspace ws now) done in
      let (name_free, after_user) =
        insert_user-then _ _ taken (new_user user_id username password_hash now) after_workspace in
      let (member_free, after_member) =
        insert_member-then _ _ (owner_member ws user_id now) after_user in
      let after_meta = insert_sync_meta-then _ _ (first_epoch ws now) after_member in
      (name_free, (member_free, insert_row-done (inbox_notebook ws inbox now) _ after_meta))

committed-eq-ok :
    {A : Type 0} (s : Store) (r : Result A) (u : Store) {a : A}
    → (committed s r u).0 ≡ ok a
    → (r ≡ ok a) × ((committed s r u).1 ≡ u)
committed-eq-ok s (ok b) u done = (done, refl)
committed-eq-ok s (err e) u done = cc

module _ (user_id ws inbox username password_hash : String) (now : Timestamp) where
  account_rows : Action (String × String)
  account_rows =
      insert_account (conflict "username already taken") user_id ws inbox username password_hash now
      >> pure (user_id, ws)

  -- A registration that succeeds has found the name free and leaves the rows of its account.
  pub create_personal_user-eq-ok :
      (s : Store) {ids : String × String}
      → (create_personal_user username password_hash user_id ws inbox now s).0 ≡ ok ids
      → ((user_id, ws) ≡ ids)
        × ((is_some (find (clashes (new_user user_id username password_hash now)) s.users) ≡ false)
            × ((is_some (find (is_membership (owner_member ws user_id now)) s.workspace_members)
                  ≡ false)
                × (with_account user_id ws inbox username password_hash now s
                    ≡ (create_personal_user username password_hash user_id ws inbox now s).1)))
  unfolding create_personal_user account_rows
  create_personal_user-eq-ok s done =
      let insert =
        insert_account (conflict "username already taken") user_id ws inbox username password_hash
          now in
      let (returned, same) = committed-eq-ok s (account_rows s).0 (account_rows s).1 done in
      let (x, inserted, last) = bind-eq-ok _ _ s (ap (λ r. (r, (account_rows s).1)) returned) in
      let (pair, end) = pure-eq-ok _ _ last in
      let (name_free, (member_free, stored)) =
        insert_account-eq-ok user_id ws inbox username password_hash now
          (conflict "username already taken") s (ap (λ r. (r, (insert s).1)) inserted) in
      (pair, (name_free, (member_free, stored ∙ end ∙ sym same)))
