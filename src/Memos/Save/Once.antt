-- ===== src/Memos/Save/Once.antt =====
-- Optimistic concurrency of `save` (crates/store/src/memos.rs): an etag serves for one edit.
use panda_server.Prelude.{
  ℕ, ◌+◌, String, true, false, Option, none, some, ◌≡◌, refl, sym, ap, ◌∙◌, subst, arith,
  Bool-cases, inl, inr, is_some,
}
use panda_server.Prelude.Sql.{find}
use panda_server.Prelude.Text.{is_empty}
use panda_server.Domain.ErrorCode.{ErrorCode}
use panda_server.Domain.Error.{ok, err, new, with_etag}
use panda_server.Domain.Etag.{format_etag, etag_matches}
use panda_server.Domain.Etag.RoundTrip.{etag_matches_unique}
use panda_server.Store.Rows.{Timestamp, Memo, Content, MemoSaveAck}
use panda_server.Store.Env.{Env}
use panda_server.Store.State.{Store}
use panda_server.Store.Action.{◌>>=◌}
use panda_server.Memos.Queries.{
  MemoSummary, is_memo, get_summary, summary_from_row, get_idempotency,
}
use panda_server.Memos.Contents.{
  SaveBody, markdown_full, markdown_patch, content_hash_only, new_markdown,
}
use panda_server.Memos.Request.{SaveRequest, check_precondition}
use panda_server.Memos.Save.{saved_memo, save, save_locked, save_new}
use panda_server.Memos.Save.Outcome.{save_new-Saved, Saved-ack, Saved-row, Saved-find}

-- The call is not a retry: it has a key, and no acknowledgement is stored under it.
pub record IsFresh (env : Env) (ws : String) (req : SaveRequest) (now : Timestamp) (seen s : Store)
    : Type 0 where
  pub keyed : is_empty req.idempotency_key ≡ false
  pub unseen : get_idempotency env ws req.idempotency_key now seen ≡ none
  pub unknown : get_idempotency env ws req.idempotency_key now s ≡ none

pub save_of_IsFresh :
    (env : Env) (ws actor_id memo_id : String) (req : SaveRequest) (now : Timestamp) (id : String)
    (seen s : Store)
    → IsFresh env ws req now seen s
    → save env ws actor_id memo_id req now id seen s ≡ save_new env ws actor_id memo_id req now id s
unfolding save save_locked
save_of_IsFresh env ws actor_id memo_id req now id seen s f =
    rw (f.keyed, f.unseen) (rw (f.unknown, save_locked))

-- With a body there is a new text.
pub is_some-new_markdown :
    (env : Env) (ws : String) (crow : Content) (b : SaveBody) (s : Store) {md : Option String}
    → new_markdown env ws crow (some b) s ≡ ok md
    → is_some md ≡ true
unfolding new_markdown
is_some-new_markdown env ws crow (markdown_full md) s h = ground arith
is_some-new_markdown env ws crow (markdown_patch p) s h = ground arith
is_some-new_markdown env ws crow (content_hash_only hash) s h = ground arith

precondition-etag :
    (req : SaveRequest) (etag : String) (summary : MemoSummary)
    → req.if_match_etag ≡ some etag
    → check_precondition req summary ≡ ok tt
    → etag_matches etag summary.revision summary.content_hash ≡ true
unfolding check_precondition
precondition-etag req etag summary given h = ground arith

precondition-refused :
    (req : SaveRequest) (etag : String) (summary : MemoSummary)
    → req.if_match_etag ≡ some etag
    → etag_matches etag summary.revision summary.content_hash ≡ false
    → check_precondition req summary
      ≡ err (with_etag (new ErrorCode.revision_conflict "etag mismatch") summary.etag)
unfolding check_precondition
precondition-refused req etag summary given h = rw (given, h)

-- The row that a save with an etag and a body found, and the row that it left.
pub record Edited (env : Env) (ws memo_id etag : String) (s : Store) (ack : MemoSaveAck) (t : Store)
    : Type 0 where
  pub old : Memo
  pub new : Memo
  pub found : find (is_memo ws memo_id) s.memos ≡ some old
  pub matched : etag_matches etag old.revision old.content_hash ≡ true
  pub left : find (is_memo ws memo_id) t.memos ≡ some new
  pub raised : new.revision ≡ old.revision + 1
  pub tagged : new.etag ≡ format_etag new.revision new.content_hash
  pub told_revision : ack.revision ≡ new.revision
  pub told_hash : ack.content_hash ≡ new.content_hash
  pub told_etag : ack.etag ≡ new.etag

-- A save with an etag and a body that returns, and is no retry, found the note at a revision and hash
-- that the etag matches, left it at the next revision with the etag of its new revision and hash, and
-- its acknowledgement names these.
pub save-Edited :
    (env : Env) (ws actor_id memo_id : String) (req : SaveRequest) (now : Timestamp) (id : String)
    (seen s : Store) (etag : String) (b : SaveBody) {ack : MemoSaveAck} {t : Store}
    → IsFresh env ws req now seen s
    → req.if_match_etag ≡ some etag
    → req.body ≡ some b
    → save env ws actor_id memo_id req now id seen s ≡ (ok ack, t)
    → Edited env ws memo_id etag s ack t
save-Edited env ws actor_id memo_id req now id seen s etag b {ack} {t} fresh given body h =
    let saved =
      save_new-Saved env ws actor_id memo_id req now id s
        (sym (save_of_IsFresh env ws actor_id memo_id req now id seen s fresh) ∙ h) in
    let (m, row, read) = Saved-row env ws actor_id memo_id req now s saved in
    let told = Saved-ack env ws actor_id memo_id req now s saved in
    let changed : is_some saved.edit.markdown ≡ true =
      is_some-new_markdown env ws saved.crow b s (
        subst (λ o. new_markdown env ws saved.crow o s ≡ ok saved.edit.markdown) body saved.text) in
    let revision = ap (λ (x : MemoSummary). x.revision) read in
    record {
      old = m;
      new = saved_memo env actor_id req saved.edit now m;
      found = row;
      matched =
          subst (λ x. etag_matches etag x.revision x.content_hash ≡ true) read
            (precondition-etag req etag saved.edit.summary given saved.checked);
      left = Saved-find env ws actor_id memo_id req now s saved m row;
      raised = rw changed (ap (λ n. n + 1) revision);
      tagged = refl;
      told_revision = ap (λ (a : MemoSaveAck). a.revision) told;
      told_hash = ap (λ (a : MemoSaveAck). a.content_hash) told;
      told_etag = ap (λ (a : MemoSaveAck). a.etag) told;
    }

save_new-refused :
    (env : Env) (ws actor_id memo_id : String) (req : SaveRequest) (now : Timestamp) (id : String)
    (t : Store) (m : Memo) (etag : String)
    → req.if_match_etag ≡ some etag
    → find (is_memo ws memo_id) t.memos ≡ some m
    → etag_matches etag m.revision m.content_hash ≡ false
    → save_new env ws actor_id memo_id req now id t
      ≡ (err (with_etag (new ErrorCode.revision_conflict "etag mismatch") m.etag), t)
unfolding save_new get_summary ◌>>=◌
save_new-refused env ws actor_id memo_id req now id t m etag given row h =
    rw (row, precondition-refused req etag (summary_from_row env m) given h)

not-matched-again :
    (etag : String) (r r' : ℕ) (h h' : String)
    → etag_matches etag r h ≡ true
    → r' ≡ r + 1
    → etag_matches etag r' h' ≡ false
not-matched-again etag r r' h h' p next = elim (Bool-cases (etag_matches etag r' h')) [
  | inl again ↦ absurd (let same = etag_matches_unique etag r r' h h' p again in omega arith)
  | inr never ↦ never
]

-- Of two edits with the same etag only one is accepted: behind an accepted one, the other is refused
-- with a revision conflict that names the etag of the first, and changes nothing.
pub save-once :
    (env : Env) (ws actor_id memo_id : String) (req : SaveRequest) (now : Timestamp) (id : String)
    (seen s : Store) (etag : String) (b : SaveBody) {ack : MemoSaveAck} {t : Store}
    (other_actor : String) (other : SaveRequest) (later : Timestamp) (other_id : String)
    (other_seen : Store)
    → IsFresh env ws req now seen s
    → req.if_match_etag ≡ some etag
    → req.body ≡ some b
    → save env ws actor_id memo_id req now id seen s ≡ (ok ack, t)
    → IsFresh env ws other later other_seen t
    → other.if_match_etag ≡ some etag
    → save env ws other_actor memo_id other later other_id other_seen t
      ≡ (err (with_etag (new ErrorCode.revision_conflict "etag mismatch") ack.etag), t)
save-once env ws actor_id memo_id req now id seen s etag b {ack} {t} other_actor other later
      other_id other_seen fresh given body h other_fresh other_given =
    let e = save-Edited env ws actor_id memo_id req now id seen s etag b fresh given body h in
    save_of_IsFresh env ws other_actor memo_id other later other_id other_seen t other_fresh
    ∙ save_new-refused env ws other_actor memo_id other later other_id t e.new etag other_given
        e.left
        (not-matched-again etag e.old.revision e.new.revision e.old.content_hash e.new.content_hash
          e.matched e.raised)
    ∙ ap (λ tag. (err (with_etag (new ErrorCode.revision_conflict "etag mismatch") tag), t))
        (sym e.told_etag)
