-- ===== src/Auth/Requests.antt =====
-- The requests of crates/server/src/routes/auth_routes.rs and the extractors of
-- crates/server/src/extract.rs. Reading a body and printing an answer are left out: a request is a
-- record, and a response too.
use panda_server.Prelude.{
  ℕ, String, Bool, not, ◌||◌, ◌==◌, Option, none, some, List, [], ◌∷◌, is_some, unwrap_or,
  or_option, if◌then◌else◌, map,
}
use panda_server.Prelude.Sql.{select}
use panda_server.Prelude.Text.{strip_prefix}
use panda_server.Domain.Error.{Result, ok, err, unauthenticated, permission_denied, ok_or, fail_if}
use panda_server.Store.Rows.{Timestamp}
use panda_server.Store.Accounts.{ApiToken}
use panda_server.Store.Env.{Env}
use panda_server.Store.State.{Store}
use panda_server.Store.Action.{Action, ◌>>=◌, ◌>>◌, pure, lift, reads}
use panda_server.Users.Queries.{WorkspaceMembership, list_workspace_memberships, list_api_tokens}
use panda_server.Users.Tokens.{create_api_token, delete_api_token}
use panda_server.Auth.Service.{
  AuthContext, hash_token, mint_token, Granted, Fresh, register, authenticate_bearer, logout,
}

-- The token behind `Bearer ` or `bearer `.
abbrev pub bearer : String → Option String
bearer header = or_option (strip_prefix "Bearer " header) (strip_prefix "bearer " header)

-- `AuthUser::from_request_parts`
unfoldable pub auth_user : Env → Option String → Timestamp → Action AuthContext
auth_user env header now = do
  value ← lift (ok_or header (unauthenticated "missing Authorization"))
  token ← lift (ok_or (bearer value) (unauthenticated "expected Bearer token"))
  authenticate_bearer env token now

abbrev and_bearer : Option String → Option String
and_bearer none = none
and_bearer (some header) = bearer header

abbrev accepted : Result AuthContext × Store → Result (Option AuthContext) × Store
accepted (ok ctx, s) = (ok (some ctx), s)
accepted (err e, s) = (ok none, s)

abbrev context_if : Env → Option String → Timestamp → Action (Option AuthContext)
context_if env none now s = (ok none, s)
context_if env (some token) now s = accepted (authenticate_bearer env token now s)

-- `OptionalAuth::from_request_parts`
unfoldable pub optional_auth : Env → Option String → Timestamp → Action (Option AuthContext)
optional_auth env header now = context_if env (and_bearer header) now

abbrev pub require_token_admin : AuthContext → Result (Unit {0})
require_token_admin ctx =
    fail_if (not ctx.is_owner || not (is_some ctx.session_id))
      (permission_denied "API token management requires a workspace owner session")

-- `register`, with the setting `allow_registration`
unfoldable pub register_user :
    Env → Bool → ℕ → String → String → Option String → Fresh → Timestamp → Action Granted
register_user env allow_registration ttl username password device_id fresh now = do
  lift (fail_if (not allow_registration) (permission_denied "registration disabled"))
  register env ttl username password device_id fresh now

abbrev logout_if : Env → Option String → Timestamp → Action (Unit {0})
logout_if env none now s = (ok tt, s)
logout_if env (some token) now s = logout env token now s

-- `logout`
unfoldable pub logout_request : Env → Option String → Timestamp → Action (Unit {0})
logout_request env header now = logout_if env (and_bearer header) now

-- `list_workspaces`: an API token sees its own workspace only
abbrev pub list_workspaces : AuthContext → Store → List WorkspaceMembership
list_workspaces ctx s =
    let items = list_workspace_memberships ctx.user_id s in
    if is_some ctx.session_id
    then items
    else select (λ (w : WorkspaceMembership). w.id == ctx.workspace_id) items

pub record ApiTokenInfo : Type 0 where
  pub id : String
  pub name : String
  pub scopes : List String
  pub token : Option String
  pub expires_at : Option String
  pub created_at : Timestamp

abbrev pub listed_token : Env → ApiToken → ApiTokenInfo
listed_token env t = record {
  id = t.id;
  name = t.name;
  scopes = unwrap_or (env.tags_from_json t.scopes_json) [];
  token = none;
  expires_at = t.expires_at;
  created_at = t.created_at;
}

unfoldable pub list_tokens : Env → AuthContext → Action (List ApiTokenInfo)
list_tokens env ctx = do
  lift (require_token_admin ctx)
  rows ← reads (λ s. ok (list_api_tokens ctx.workspace_id s))
  pure (map (listed_token env) rows)

-- `CreateApiTokenRequest`
pub record CreateApiTokenRequest : Type 0 where
  pub name : String
  pub scopes : List String
  pub expires_at : Option String

abbrev pub scopes_or_default : List String → List String
scopes_or_default [] =
    "memos:read" ∷ "memos:write" ∷ "notebooks:read" ∷ "notebooks:write" ∷ "resources:read"
    ∷ "resources:write" ∷ []
scopes_or_default (x ∷ xs) = x ∷ xs

abbrev pub created_token : CreateApiTokenRequest → String → String → Timestamp → ApiTokenInfo
created_token req id random now = record {
  id = id;
  name = req.name;
  scopes = scopes_or_default req.scopes;
  token = some (mint_token "pnda_" random);
  expires_at = req.expires_at;
  created_at = now;
}

unfoldable pub create_token :
    Env → AuthContext → CreateApiTokenRequest → String → String → Timestamp → Action ApiTokenInfo
create_token env ctx req random id now = do
  lift (require_token_admin ctx)
  create_api_token ctx.workspace_id ctx.user_id req.name
      (hash_token env (mint_token "pnda_" random)) (env.tags_to_json (scopes_or_default req.scopes))
      req.expires_at id now
  pure (created_token req id random now)

unfoldable pub delete_token : AuthContext → String → Action (Unit {0})
delete_token ctx id = do lift (require_token_admin ctx); delete_api_token ctx.workspace_id id
