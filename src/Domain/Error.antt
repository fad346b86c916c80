-- ===== src/Domain/Error.antt =====
-- crates/domain/src/error.rs: the errors, and the monad of the repository methods.
use panda_server.Prelude.{String, Bool, true, false, Option, none, some}
use panda_server.Domain.ErrorCode.{ErrorCode}

-- `details_json` is set by no constructor function and is left out.
pub record PandaError : Type 0 where
  pub code : ErrorCode
  pub message : String
  pub current_etag : Option String

abbrev pub new : ErrorCode → String → PandaError
new c msg = record { code = c; message = msg; current_etag = none }

abbrev pub with_etag : PandaError → String → PandaError
with_etag e etag = record e { current_etag = some etag }

abbrev pub invalid : String → PandaError
invalid msg = new ErrorCode.invalid_argument msg

abbrev pub conflict : String → PandaError
conflict msg = new ErrorCode.conflict msg

abbrev pub not_found : String → PandaError
not_found msg = new ErrorCode.not_found msg

abbrev pub unauthenticated : String → PandaError
unauthenticated msg = new ErrorCode.unauthenticated msg

abbrev pub permission_denied : String → PandaError
permission_denied msg = new ErrorCode.permission_denied msg

abbrev pub internal : String → PandaError
internal msg = new ErrorCode.internal msg

-- `PandaResult<T>`
pub data Result {ℓ} (A : Type ℓ) : Type ℓ where
  ok : A → Result A
  err : PandaError → Result A

infixl 5 ◌>>=◌ ◌>>◌
-- `?` on a result
abbrev pub ◌>>=◌ {ℓ κ} : {A : Type ℓ} {B : Type κ} → Result A → (A → Result B) → Result B
ok a >>= f = f a
err e >>= f = err e

abbrev pub ◌>>◌ {ℓ κ} : {A : Type ℓ} {B : Type κ} → Result A → Result B → Result B
m >> n = m >>= λ _. n

-- `o.ok_or_else(|| e)`
abbrev pub ok_or {ℓ} : {A : Type ℓ} → Option A → PandaError → Result A
ok_or none e = err e
ok_or (some a) e = ok a

-- `if b { return Err(e) }`
abbrev pub fail_if : Bool → PandaError → Result (Unit {0})
fail_if true e = err e
fail_if false e = ok tt

-- `?` where the binding operator of the actions is in scope
abbrev pub and_then {ℓ κ} : {A : Type ℓ} {B : Type κ} → Result A → (A → Result B) → Result B
and_then m f = m >>= f
