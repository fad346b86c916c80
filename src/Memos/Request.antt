-- ===== src/Memos/Request.antt =====
-- crates/store/src/memos.rs: the arguments of `save` and its checks before anything is written.
use panda_server.Prelude.{
  ℕ, String, Bool, not, ◌&&◌, ◌||◌, Option, none, some, List, ◌==◌, eqb, ltb, if◌then◌else◌,
  is_some,
}
use panda_server.Prelude.Sql.{find}
use panda_server.Domain.ErrorCode.{ErrorCode}
use panda_server.Domain.Error.{Result, ok, err, new, with_etag, fail_if}
use panda_server.Domain.Etag.{etag_matches}
use panda_server.Store.Rows.{Timestamp, Lease}
use panda_server.Store.State.{Store}
use panda_server.Memos.Queries.{MemoSummary, require_notebook}
use panda_server.Memos.Contents.{SaveBody}

-- The arguments of `save` but for the workspace, the actor and the note.
pub record SaveRequest : Type 0 where
  pub if_match_etag : Option String
  pub base_revision : Option ℕ
  pub base_content_hash : Option String
  pub lease_id : Option String
  pub idempotency_key : String
  pub body : Option SaveBody
  pub title : Option String
  pub tags : Option (List String)
  pub is_pinned : Option Bool
  pub is_archived : Option Bool
  pub notebook_id : Option String

-- The precondition by base revision and hash, or by none.
unfoldable pub check_base : Option ℕ → Option String → Bool → MemoSummary → Result (Unit {0})
check_base (some rev) (some hash) has_body summary =
    if not (eqb rev summary.revision) || not (hash == summary.content_hash)
    then err (with_etag (new ErrorCode.content_conflict "base revision/hash mismatch") summary.etag)
    else ok tt
check_base (some rev) none has_body summary = fail_if has_body (
    new ErrorCode.precondition_failed
      "if_match_etag or base_revision+base_content_hash required for content save")
check_base none hash has_body summary = fail_if has_body (
    new ErrorCode.precondition_failed
      "if_match_etag or base_revision+base_content_hash required for content save")

unfoldable pub check_precondition : SaveRequest → MemoSummary → Result (Unit {0})
unfolding check_base
check_precondition req summary = elim req.if_match_etag [
  | some etag ↦
      if etag_matches etag summary.revision summary.content_hash
      then ok tt
      else err (with_etag (new ErrorCode.revision_conflict "etag mismatch") summary.etag)
  | none ↦ check_base req.base_revision req.base_content_hash (is_some req.body) summary
]

unfoldable pub check_lease :
    String → String → String → Option String → Timestamp → MemoSummary → Store → Result (Unit {0})
check_lease ws actor_id memo_id none now summary s = ok tt
check_lease ws actor_id memo_id (some lid) now summary s =
    let holds = λ (l : Lease).
      l.workspace_id == ws
      && l.id == lid
      && l.memo_id == memo_id
      && l.actor_id == actor_id
      && ltb now l.expires_at in
    if is_some (find holds s.edit_leases)
    then ok tt
    else err (with_etag (new ErrorCode.lease_conflict "invalid or expired lease") summary.etag)

unfoldable pub check_notebook : String → Option String → Store → Result (Unit {0})
check_notebook ws none s = ok tt
check_notebook ws (some notebook_id) s = require_notebook ws notebook_id s

abbrev pub has_meta : SaveRequest → Bool
has_meta req =
    is_some req.title
    || is_some req.tags
    || is_some req.is_pinned
    || is_some req.is_archived
    || is_some req.notebook_id
