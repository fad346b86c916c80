-- ===== src/Auth/Access.antt =====
-- Who is let in (crates/auth/src/lib.rs): a token is refused after its logout, and a context is always
-- that of a member.
use panda_server.Prelude.{
  String, false, not, ◌&&◌, ◌==◌, Option, none, some, List, [], ◌∷◌, ◌≡◌, refl, arith, Bool-cases,
  Option-cases, inl, inr, unwrap_or,
}
use panda_server.Prelude.Sql.{find, update}
use panda_server.Domain.Error.{Result, ok, err, unauthenticated, ok_or}
use panda_server.Store.Rows.{Timestamp}
use panda_server.Store.Accounts.{User, Session, ApiToken}
use panda_server.Store.Env.{Env}
use panda_server.Store.State.{Store}
use panda_server.Store.Action.{ok-inj, ◌>>=◌, continue, lift}
use panda_server.Users.Queries.{
  find_by_id, SessionRow, is_revoked, is_open, is_member, joined, find_api_token, membership_role,
}
use panda_server.Users.Tokens.{touch_session, revoked, revoke_session_by_token_hash}
use panda_server.Auth.Service.{
  AuthContext, hash_token, session_context, touched_context, try_session, api_context, or_api_token,
  authenticate_bearer, logout,
}

is_open-revoked :
    (hash : String) (now later : Timestamp) (xs : List Session)
    → find
        (is_open hash later)
        (update (λ x. x.token_hash == hash && not (is_revoked x)) (revoked now) xs)
      ≡ none
is_open-revoked hash now later [] = refl
is_open-revoked hash now later (x ∷ xs) =
    elim (Bool-cases (x.token_hash == hash && not (is_revoked x))) [
      | inl hit ↦ rw hit (ground (arith, is_open-revoked hash now later xs))
      | inr miss ↦
          let closed : is_open hash later x ≡ false = ground arith in
          rw (miss, closed) (is_open-revoked hash now later xs)
    ]

-- After a logout the token is refused as an invalid one, at whatever time, unless it is an API token
-- too.
pub authenticate_bearer-logout :
    (env : Env) (token : String) (now later : Timestamp) (s : Store)
    → find_api_token env (hash_token env token) later s ≡ none
    → (authenticate_bearer env token later (logout env token now s).1).0
      ≡ err (unauthenticated "invalid token")
unfolding authenticate_bearer logout revoke_session_by_token_hash try_session touched_context
    or_api_token ◌>>=◌
authenticate_bearer-logout env token now later s no_api =
    rw (is_open-revoked (hash_token env token) now later s.sessions, no_api)

-- The row of the database that a context comes from.
pub data IsFrom (env : Env) (token : String) (now : Timestamp) (s : Store) (ctx : AuthContext)
    : Type 0 where
  from_session :
      (x : Session) (u : User)
      → find (is_open (hash_token env token) now) s.sessions ≡ some x
      → find_by_id x.user_id s ≡ some u
      → u.is_disabled ≡ false
      → ctx.user_id ≡ x.user_id
      → ctx.workspace_id ≡ x.workspace_id
      → ctx.scopes ≡ none
      → IsFrom env token now s ctx
  from_api_token :
      (t : ApiToken)
      → find_api_token env (hash_token env token) now s ≡ some t
      → ctx.user_id ≡ t.user_id
      → ctx.workspace_id ≡ t.workspace_id
      → ctx.scopes ≡ some (unwrap_or (env.tags_from_json t.scopes_json) [])
      → ctx.session_id ≡ none
      → IsFrom env token now s ctx

-- The context of a member: the workspace knows the user, in the role that makes an owner or not.
pub record IsBacked (env : Env) (token : String) (now : Timestamp) (s : Store) (ctx : AuthContext)
    : Type 0 where
  pub user : User
  pub role : String
  pub found : find_by_id ctx.user_id s ≡ some user
  pub named : ctx.username ≡ user.username
  pub member : membership_role ctx.workspace_id ctx.user_id s ≡ some role
  pub owner : ctx.is_owner ≡ (role == "owner")
  pub source : IsFrom env token now s ctx

some-inj : {A : Type 0} (x y : A) → some x ≡ some y → x ≡ y
some-inj x y h = ground arith

only_context :
    (ctx : AuthContext) (r : Result (Option AuthContext)) (s : Store)
    → (continue r (λ api. lift (ok_or api (unauthenticated "invalid token"))) s).0 ≡ ok ctx
    → r ≡ ok (some ctx)
unfolding ◌>>=◌
only_context ctx (err e) s h = cc
only_context ctx (ok none) s h = cc
only_context ctx (ok (some c)) s h = rw (ok-inj c ctx h)

module _ (env : Env) (token : String) (now : Timestamp) (s : Store) where
  session_context-IsBacked :
      (x : Session) (r : SessionRow)
      → find (is_open (hash_token env token) now) s.sessions ≡ some x
      → joined s (some x) ≡ some r
      → IsBacked env token now s (session_context r)
  session_context-IsBacked x r opened row = elim (Option-cases (find_by_id x.user_id s)) [
    | inl missing ↦ absurd (cc (rw missing at row))
    | inr (u, found) ↦ elim (Bool-cases u.is_disabled) [
      | inl disabled ↦ absurd (cc (rw (found, disabled) at row))
      | inr enabled ↦
          elim (Option-cases (find (is_member x.user_id x.workspace_id) s.workspace_members)) [
            | inl outside ↦ absurd (cc (rw (found, enabled, outside) at row))
            | inr (m, member) ↦ rw (← some-inj _ r (rw (found, enabled, member) at row)) (record {
              user = u;
              role = m.role;
              found = found;
              named = refl;
              member = rw member;
              owner = refl;
              source = from_session x u opened found enabled refl refl refl;
            })
          ]
    ]
  ]

  api_context-IsBacked :
      (t : ApiToken) (ctx : AuthContext)
      → find_api_token env (hash_token env token) now s ≡ some t
      → api_context env (some t) s ≡ ok (some ctx)
      → IsBacked env token now s ctx
  api_context-IsBacked t ctx found served = elim (Option-cases (find_by_id t.user_id s)) [
    | inl missing ↦ absurd (cc (rw missing at served))
    | inr (u, known) ↦ elim (Option-cases (membership_role t.workspace_id t.user_id s)) [
      | inl outside ↦ absurd (cc (rw (known, outside) at served))
      | inr (role, member) ↦
          rw (← some-inj _ ctx (ok-inj _ _ (rw (known, member) at served))) (record {
            user = u;
            role = role;
            found = known;
            named = refl;
            member = member;
            owner = refl;
            source = from_api_token t found refl refl refl refl;
          })
    ]
  ]

  -- Whoever is let in is a user of the table and a member of the workspace, with the right that the
  -- membership gives. The context is either that of an open session of a user who is not disabled,
  -- without scopes, or that of an API token that has not expired, with its scopes and no session.
  pub authenticate_bearer-IsBacked :
      (ctx : AuthContext)
      → (authenticate_bearer env token now s).0 ≡ ok ctx
      → IsBacked env token now s ctx
  unfolding authenticate_bearer try_session touched_context touch_session or_api_token ◌>>=◌
  authenticate_bearer-IsBacked ctx served =
      elim (Option-cases (find (is_open (hash_token env token) now) s.sessions)) [
        | inr (x, opened) ↦ elim (Option-cases (joined s (some x))) [
          | inr (r, row) ↦
              rw (← ok-inj _ ctx (rw (opened, row) at served))
                (session_context-IsBacked x r opened row)
          | inl stranger ↦ from_api (rw (opened, stranger) at served)
        ]
        | inl closed ↦ from_api (rw closed at served)
      ]
    where
      from_api : (or_api_token env token now none s).0 ≡ ok ctx → IsBacked env token now s ctx
      from_api h = elim (Option-cases (find_api_token env (hash_token env token) now s)) [
        | inl unknown ↦ absurd (cc (rw unknown at h))
        | inr (t, found) ↦
            api_context-IsBacked t ctx found
              (only_context ctx (api_context env (some t) s) s (rw found at h))
      ]
