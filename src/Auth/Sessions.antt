-- ===== src/Auth/Sessions.antt =====
-- Sessions from login to logout (crates/auth/src/lib.rs).
use panda_server.Prelude.{
  ℕ, ◌<◌, String, Bool, true, false, not, ◌||◌, ◌==◌, Option, none, some, List, [], ◌∷◌, ◌++◌, ◌≡◌,
  refl, ap, arith, eq_refl, eq_iff, All, ltb, Bool-cases, inl, inr, is_some,
}
use panda_server.Prelude.Sql.{find, select, update, All-find, All-order_by, All-select, find-holds}
use panda_server.Prelude.Keys.{find-none, find-append_last, find-update_kept, is_some-none}
use panda_server.Domain.Error.{PandaError, ok, fail_if, ok_or}
use panda_server.Store.Rows.{Timestamp}
use panda_server.Store.Accounts.{User, Member, Session}
use panda_server.Store.Env.{Env}
use panda_server.Store.State.{Store}
use panda_server.Store.Action.{ok-inj, ◌>>=◌, reads-eq-ok, lift-eq-ok}
use panda_server.Users.Queries.{
  find_by_id, find_by_username, is_revoked, is_open, is_member, resolve_workspace, by_creation,
  first_member,
}
use panda_server.Users.Tokens.{
  has_owner, new_session, same_session, create_session, touch_session, logged_in, mark_login,
}
use panda_server.Users.Keys.{HasKeys, same_member}
use panda_server.Auth.Service.{
  AuthContext, hash_token, mint_token, Granted, expiry, grant, as_owner, login, touched_context,
  try_session, or_api_token, authenticate_bearer,
}

-- What a session token that `grant` returned stands for.
abbrev pub context_of : Granted → Option String → String → AuthContext
context_of g device_id session_id = record {
  user_id = g.user.id;
  username = g.user.username;
  workspace_id = g.workspace_id;
  is_owner = g.user.is_owner;
  device_id = device_id;
  scopes = none;
  session_id = some session_id;
}

-- The test of `create_session` that refuses a row.
abbrev refuses : Session → Store → Bool
refuses row s =
    is_some (find (same_session row) s.sessions) || not (has_owner row.user_id row.workspace_id s)

-- The store with a session appended and its user's login noted.
abbrev pub with_session : Session → Timestamp → Store → Store
with_session row now s = record s {
  sessions = s.sessions ++ row ∷ [];
  users = update (λ (x : User). x.id == row.user_id) (logged_in now) s.users;
}

module _ (env : Env) (ttl : ℕ) (device_id : Option String) (random session_id : String)
    (now : Timestamp) where
  abbrev pub granted_row : User → String → Session
  granted_row user ws =
      new_session user.id ws (hash_token env (mint_token "pnd_" random)) device_id (expiry ttl now)
        session_id now

  abbrev pub granted_result : User → String → Granted
  granted_result user ws = record {
    user = user;
    token = mint_token "pnd_" random;
    workspace_id = ws;
    expires_at = expiry ttl now;
  }

  pub grant-eq-ok :
      (user : User) (ws : String) (s : Store) {g : Granted} {t : Store}
      → grant env ttl user ws device_id random session_id now s ≡ (ok g, t)
      → (is_some (find (same_session (granted_row user ws)) s.sessions) ≡ false)
        × ((granted_result user ws ≡ g) × (with_session (granted_row user ws) now s ≡ t))
  unfolding grant create_session mark_login ◌>>=◌
  grant-eq-ok user ws s {g} {t} granted =
      elim (Bool-cases (is_some (find (same_session (granted_row user ws)) s.sessions))) [
        | inl taken ↦ absurd (cc (rw taken at granted))
        | inr free ↦ elim (Bool-cases (has_owner user.id ws s)) [
          | inr orphan ↦ absurd (cc (rw (free, orphan) at granted))
          | inl owned ↦
              let e = rw (free, owned) at granted in
              (free, (ok-inj _ _ (ap (λ p. p.0) e), ap (λ p. p.1) e))
        ]
      ]

module _ (env : Env) (later now : Timestamp) (token : String) (row : Session) (u : User)
    (m : Member) (s : Store) where
  -- A session that is open serves its token.
  pub authenticate_bearer-with_session :
      row.token_hash ≡ hash_token env token
      → is_revoked row ≡ false
      → later < row.expires_at
      → is_some (find (same_session row) s.sessions) ≡ false
      → find_by_id row.user_id s ≡ some u
      → u.is_disabled ≡ false
      → find (is_member row.user_id row.workspace_id) s.workspace_members ≡ some m
      → (authenticate_bearer env token later (with_session row now s)).0
        ≡ ok (record {
          user_id = row.user_id;
          username = u.username;
          workspace_id = row.workspace_id;
          is_owner = m.role == "owner";
          device_id = row.device_id;
          scopes = none;
          session_id = some row.id;
        })
  unfolding authenticate_bearer try_session touched_context touch_session or_api_token ◌>>=◌
  authenticate_bearer-with_session hashed alive early free found enabled member =
      let opens = is_open (hash_token env token) later in
      let hash_same : (row.token_hash == hash_token env token) ≡ true =
        rw hashed (eq_refl (hash_token env token)) in
      let on_time : ltb later row.expires_at ≡ true = ground arith in
      let not_yet : find opens s.sessions ≡ none =
        find-none (same_session row) opens s.sessions (λ y hit. rw hashed (ground arith))
          (is_some-none _ free) in
      let session : find opens (s.sessions ++ row ∷ []) ≡ some row =
        find-append_last opens s.sessions row not_yet (rw (hash_same, alive, on_time)) in
      let login_noted =
        find-update_kept (λ (x : User). x.id == row.user_id) (λ (x : User). x.id == row.user_id)
          (logged_in now) s.users (λ y. refl) found in
      let own : (u.id == row.user_id) ≡ true =
        find-holds (λ (x : User). x.id == row.user_id) s.users found in
      rw (session, rw own at login_noted, enabled, member)

IsOwn : String → Store → Member → Type 0
IsOwn user_id s m = find (is_member user_id m.workspace_id) s.workspace_members ≡ some m

pub ok_or-inj : {A : Type 0} (o : Option A) (e : PandaError) (a : A) → ok_or o e ≡ ok a → o ≡ some a
ok_or-inj none e a h = cc
ok_or-inj (some b) e a h = ap some (ok-inj b a h)

first_member-All :
    (P : Member → Type 0) (ms : List Member) (m : Member)
    → All P ms
    → first_member ms ≡ some m
    → P m
first_member-All P [] m h first = cc
first_member-All P (n ∷ ms) m (h, t) first = let e : n ≡ m = ground arith in rw (← e) h

membership_found :
    (user_id : String) (s : Store) (m : Member)
    → find (same_member m) s.workspace_members ≡ some m
    → (m.user_id == user_id) ≡ true
    → IsOwn user_id s m
unfolding IsOwn
membership_found user_id s m keyed same =
    let e : m.user_id ≡ user_id = (eq_iff m.user_id user_id).0 same in rw (← e) keyed

-- The membership that a login resolves is the one of the user in its workspace.
resolve_workspace-IsOwn :
    (user_id : String) (requested : Option String) (s : Store) (m : Member)
    → HasKeys s
    → resolve_workspace user_id requested s ≡ ok m
    → IsOwn user_id s m
resolve_workspace-IsOwn user_id none s m keys resolved =
    let here =
      first_member-All
        (λ x. (find (same_member x) s.workspace_members ≡ some x) × ((x.user_id == user_id) ≡ true))
        _ m
        (All-order_by _ by_creation (select (λ x. x.user_id == user_id) s.workspace_members)
          (All-select _ (λ x. x.user_id == user_id) s.workspace_members keys.members))
        (ok_or-inj _ _ m resolved) in
    membership_found user_id s m here.0 here.1
resolve_workspace-IsOwn user_id (some ws) s m keys resolved =
    let found = ok_or-inj (find (is_member user_id ws) s.workspace_members) _ m resolved in
    let holds = find-holds (is_member user_id ws) s.workspace_members found in
    membership_found user_id s m
      (All-find (λ x. find (same_member x) s.workspace_members ≡ some x) (is_member user_id ws)
        s.workspace_members keys.members found)
      (ground arith)

fail_if-ok : (b : Bool) (e : PandaError) (x : Unit {0}) → fail_if b e ≡ ok x → b ≡ false
fail_if-ok true e x h = cc
fail_if-ok false e x h = refl

module _ (env : Env) (ttl : ℕ) (username password : String) (device_id workspace_id : Option String)
    (random session_id : String) (now later : Timestamp) where
  serves_granted :
      (s : Store) (u : User) (m : Member) {g : Granted} {t : Store}
      → HasKeys s
      → find_by_username username s ≡ some u
      → u.is_disabled ≡ false
      → IsOwn u.id s m
      → grant env ttl
          (as_owner (m.role == "owner") u)
          m.workspace_id
          device_id
          random
          session_id
          now
          s
        ≡ (ok g, t)
      → later < g.expires_at
      → ((authenticate_bearer env g.token later t).0 ≡ ok (context_of g device_id session_id))
        × (g.user.username ≡ username)
  unfolding IsOwn
  serves_granted s u m {g} {t} keys found enabled member granted early =
      let user = as_owner (m.role == "owner") u in
      let (free, (g_is, t_is)) =
        grant-eq-ok env ttl device_id random session_id now user m.workspace_id s granted in
      let by_id =
        All-find (λ x. find_by_id x.id s ≡ some x) (λ (x : User). x.username == username) s.users
          keys.users_by_id found in
      let row = granted_row env ttl device_id random session_id now user m.workspace_id in
      let serves =
        authenticate_bearer-with_session env later now (mint_token "pnd_" random) row u m s refl
          refl (rw (← g_is) at early) free by_id enabled member in
      (
        rw (← g_is, ← t_is) serves,
        rw (← g_is) (
            (eq_iff u.username username).0
              (find-holds (λ (x : User). x.username == username) s.users found)),
      )

  -- The token that a login returns serves, until it expires, as a session of the user with the name that
  -- was given, in the workspace that the login returned, with the right that the user has there.
  pub authenticate_bearer-login :
      (s : Store) {g : Granted} {t : Store}
      → HasKeys s
      → login env ttl username password device_id workspace_id random session_id now s ≡ (ok g, t)
      → later < g.expires_at
      → ((authenticate_bearer env g.token later t).0 ≡ ok (context_of g device_id session_id))
        × (g.user.username ≡ username)
  unfolding login
  authenticate_bearer-login s keys logged_in_as early =
      let (u, found, next) = reads-eq-ok _ _ s logged_in_as in
      let (x, enabled, next) = lift-eq-ok _ _ s next in
      let (b, parsed, next) = lift-eq-ok _ _ s next in
      let (y, verified, next) = lift-eq-ok _ _ s next in
      let (m, resolved, next) = reads-eq-ok _ _ s next in
      serves_granted s u m keys (ok_or-inj (find_by_username username s) _ u found)
        (fail_if-ok u.is_disabled _ x enabled)
        (resolve_workspace-IsOwn u.id workspace_id s m keys resolved) next early
