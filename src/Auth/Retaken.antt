-- ===== src/Auth/Retaken.antt =====
-- A second registration under a name that has one (crates/auth/src/lib.rs, crates/store/src/users.rs).
use panda_server.Prelude.{
  subst, ℕ, ◌≤◌, String, Bool, true, false, ◌==◌, Option, some, List, ◌≡◌, refl, arith, eq_refl,
  Bool-cases, inl, inr, ltb, [], ◌∷◌, ◌++◌,
}
use panda_server.Prelude.Sql.{find}
use panda_server.Prelude.Text.{trim, is_empty}
use panda_server.Prelude.Keys.{find-append_last, find-none, find-update_kept, is_some-none}
use panda_server.Domain.Error.{ok, err, conflict}
use panda_server.Store.Rows.{Timestamp}
use panda_server.Store.Accounts.{User, Session}
use panda_server.Store.Env.{Env, byte_len}
use panda_server.Store.State.{Store}
use panda_server.Store.Action.{◌>>=◌, reads-eq-ok, bind-eq-ok}
use panda_server.Users.Queries.{find_by_username}
use panda_server.Users.Accounts.{create_personal_user, clashes, new_user}
use panda_server.Users.Tokens.{logged_in}
use panda_server.Users.Inserted.{with_account, create_personal_user-eq-ok}
use panda_server.Auth.Service.{Granted, Fresh, as_owner, check_registration, register}
use panda_server.Auth.Sessions.{grant-eq-ok, granted_row, with_session}
use panda_server.Auth.Steps.{Step, run_all, run_all-Keeps}
use panda_server.Auth.Names.{IsTaken, names_kept}

with_session-IsTaken :
    (name : String) (row : Session) (now : Timestamp) (s : Store)
    → IsTaken name s
    → IsTaken name (with_session row now s)
with_session-IsTaken name row now s (u, found) = (
  _,
  find-update_kept (λ (x : User). x.username == name) (λ (x : User). x.id == row.user_id)
      (logged_in now) s.users (λ y. refl) found,
)

module _ (env : Env) (name : String) where
  check_registration-named :
      (password : String) (s : Store) {x : Unit {0}}
      → check_registration env name password s ≡ ok x
      → is_empty name ≡ false
  check_registration-named password s checked = elim (Bool-cases (is_empty name)) [
    | inl none_given ↦ absurd (cc (rw none_given at checked))
    | inr given ↦ given
  ]

  check_registration-taken :
      (password : String) (s : Store) (u : User)
      → is_empty name ≡ false
      → ltb (byte_len env password) 8 ≡ false
      → find_by_username name s ≡ some u
      → check_registration env name password s ≡ err (conflict "username already taken")
  check_registration-taken password s u given long found = rw (given, long, found)

module _ (env : Env) (ttl : ℕ) (username password : String) (device_id : Option String)
    (fresh : Fresh) (now : Timestamp) where
  register-IsTaken :
      (s : Store) {g : Granted} {t : Store}
      → register env ttl username password device_id fresh now s ≡ (ok g, t)
      → (is_empty (trim username) ≡ false) × IsTaken (trim username) t
  unfolding register
  register-IsTaken s registered =
      let hash = env.hash_password password fresh.salt in
      let row = new_user fresh.user_id (trim username) hash now in
      let named : User → Bool = λ x. x.username == trim username in
      let (x, checked, next) = reads-eq-ok _ _ s registered in
      let (ids, created, next) = bind-eq-ok _ _ s next in
      let (pair, (name_free, (member_free, stored))) =
        create_personal_user-eq-ok fresh.user_id fresh.workspace_id fresh.inbox_id (trim username)
          hash now s created in
      let (user, found, next) = reads-eq-ok _ _ _ next in
      let (free, (g_is, t_is)) =
        grant-eq-ok env ttl device_id fresh.random fresh.session_id now (as_owner true user) ids.1 _
          next in
      let here : find named (s.users ++ row ∷ []) ≡ some row =
        find-append_last named s.users row
          (find-none (clashes row) named s.users (λ y hit. ground arith) (is_some-none _ name_free))
          (eq_refl (trim username)) in
      let session =
        granted_row env ttl device_id fresh.random fresh.session_id now (as_owner true user)
          ids.1 in
      let before : IsTaken (trim username) (
          with_account fresh.user_id fresh.workspace_id fresh.inbox_id (trim username) hash now s) =
        (row, here) in
      let after =
        with_session-IsTaken (trim username) session now
          (create_personal_user (trim username) hash fresh.user_id fresh.workspace_id fresh.inbox_id
            now s).1
          (subst (λ v. IsTaken (trim username) v) stored before) in
      (check_registration-named env (trim username) password s checked, rw (← t_is) after)

  -- After a registration that succeeds, and any calls of the service and its requests behind it, which
  -- may succeed or fail, a registration under a name that is the same when both are trimmed, with a
  -- password of eight bytes or more, whatever else it is called with, fails with the conflict "username
  -- already taken" and leaves the store as it finds it.
  pub register_once :
      (s : Store) {g : Granted} {t : Store}
      → register env ttl username password device_id fresh now s ≡ (ok g, t)
      → (steps : List (Timestamp × Step)) (ttl' : ℕ) (username' password' : String)
        (device_id' : Option String) (fresh' : Fresh) (now' : Timestamp)
      → trim username' ≡ trim username
      → 8 ≤ byte_len env password'
      → register env ttl' username' password' device_id' fresh' now' (run_all env steps t)
        ≡ (err (conflict "username already taken"), run_all env steps t)
  unfolding register ◌>>=◌
  register_once s {t = t} registered steps ttl' username' password' device_id' fresh' now' same
        long =
      let (given, found) = register-IsTaken s registered in
      let (u, still) = run_all-Keeps (names_kept (trim username)) env steps t found in
      rw (
        same,
        check_registration-taken env (trim username) password' (run_all env steps t) u given
            (ground arith) still,
      )
