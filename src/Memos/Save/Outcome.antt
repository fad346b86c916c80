-- ===== src/Memos/Save/Outcome.antt =====
-- What a `save` that returns has done (crates/store/src/memos.rs).
use panda_server.Prelude.{
  String, Bool, true, false, not, ◌&&◌, Option, none, some, List, ◌≡◌, refl, sym, ap, ◌∙◌, subst,
  arith, ◌==◌, if◌then◌else◌, Option-cases, inl, inr, is_some,
}
use panda_server.Prelude.Sql.{find, update, find-update, find-holds}
use panda_server.Domain.Error.{PandaError, Result, ok, ok_or, not_found, fail_if, invalid}
use panda_server.Store.Rows.{Timestamp, Memo, Content, MemoSaveAck}
use panda_server.Store.Env.{Env}
use panda_server.Store.State.{Store}
use panda_server.Store.Action.{Action, ◌>>=◌, lift, reads, bind-eq-ok}
use panda_server.Sync
use panda_server.Memos.Queries.{
  MemoSummary, is_memo, get_summary, summary_from_row, load_content_row,
}
use panda_server.Memos.Contents.{new_markdown, new_content}
use panda_server.Memos.Request.{
  SaveRequest, check_precondition, check_lease, check_notebook, has_meta,
}
use panda_server.Memos.Snapshot.{maybe_snapshot}
use panda_server.Memos.Save.{
  Edit, ack_of, saved_memo, saved_content, content_changed, remember, finish_save, snapshot_if,
  save_new,
}
use panda_server.Memos.Save.Frame.{
  SameNotes, SameNotes-refl, new_content-SameNotes, snapshot_if-SameNotes,
}

-- The steps of a save of the store `s` that returned `ack` and left the store `t`.
pub record Saved (env : Env) (ws actor_id memo_id : String) (req : SaveRequest) (now : Timestamp)
    (s : Store) (ack : MemoSaveAck) (t : Store) : Type 0 where
  pub edit : Edit
  pub crow : Content
  pub before : Store
  pub found : get_summary env ws memo_id s ≡ some edit.summary
  pub checked : check_precondition req edit.summary ≡ ok tt
  pub row : load_content_row ws memo_id s ≡ ok crow
  pub text : new_markdown env ws crow req.body s ≡ ok edit.markdown
  pub content : (new_content env ws edit.summary crow edit.markdown now s).0 ≡ ok edit.content
  pub files : before.files ≡ (new_content env ws edit.summary crow edit.markdown now s).1.files
  pub same : SameNotes s before
  pub finished : finish_save env ws actor_id memo_id req edit now before ≡ (ok ack, t)

lift-eq :
    {A B : Type 0} (r : Result A) (f : A → Action B) (s : Store) {b : B} {t : Store}
    → (lift r >>= f) s ≡ (ok b, t)
    → (a : A) × (r ≡ ok a) × (f a s ≡ (ok b, t))
unfolding ◌>>=◌
lift-eq r f s h = bind-eq-ok (lift r) f s h

reads-eq :
    {A B : Type 0} (r : Store → Result A) (f : A → Action B) (s : Store) {b : B} {t : Store}
    → (reads r >>= f) s ≡ (ok b, t)
    → (a : A) × (r s ≡ ok a) × (f a s ≡ (ok b, t))
unfolding ◌>>=◌
reads-eq r f s h = bind-eq-ok (reads r) f s h

ok_or-eq : {A : Type 0} (o : Option A) (e : PandaError) {a : A} → ok_or o e ≡ ok a → o ≡ some a
ok_or-eq none e h = cc
ok_or-eq (some a) e h = ground arith

unit-eq : (r : Result (Unit {0})) (u : Unit {0}) → r ≡ ok u → r ≡ ok tt
unit-eq r tt h = h

snapshot-files :
    (changed : Bool) (env : Env) (memo_id : String) (summary : MemoSummary) (actor_id : String)
    (now : Timestamp) (id : String) (s : Store)
    → (snapshot_if changed env memo_id summary actor_id now id s).1.files ≡ s.files
unfolding snapshot_if maybe_snapshot ◌>>=◌
snapshot-files true env memo_id summary actor_id now id s = ground arith
snapshot-files false env memo_id summary actor_id now id s = refl

pub save_new-Saved :
    (env : Env) (ws actor_id memo_id : String) (req : SaveRequest) (now : Timestamp) (id : String)
    (s : Store) {ack : MemoSaveAck} {t : Store}
    → save_new env ws actor_id memo_id req now id s ≡ (ok ack, t)
    → Saved env ws actor_id memo_id req now s ack t
unfolding save_new
save_new-Saved env ws actor_id memo_id req now id s h =
    let (summary, found, h) =
      reads-eq (λ s. ok_or (get_summary env ws memo_id s) (not_found "memo not found")) _ s h in
    let (u, checked, h) = lift-eq (check_precondition req summary) _ s h in
    let (_, leased, h) =
      reads-eq (check_lease ws actor_id memo_id req.lease_id now summary) _ s h in
    let (_, shelved, h) = reads-eq (check_notebook ws req.notebook_id) _ s h in
    let (crow, row, h) = reads-eq (load_content_row ws memo_id) _ s h in
    let (md, text, h) = reads-eq (new_markdown env ws crow req.body) _ s h in
    let (_, some_work, h) =
      lift-eq (fail_if (not (is_some md) && not (has_meta req)) (invalid "nothing to save")) _ s
        h in
    let (content, made, h) = bind-eq-ok (new_content env ws summary crow md now) _ s h in
    let mid = (new_content env ws summary crow md now s).1 in
    let (_, snapped, h) =
      bind-eq-ok (snapshot_if (is_some md) env memo_id summary actor_id now id) _ mid h in
    record {
      edit = record { summary = summary; content = content; markdown = md };
      crow = crow;
      before = (snapshot_if (is_some md) env memo_id summary actor_id now id mid).1;
      found = ok_or-eq (get_summary env ws memo_id s) (not_found "memo not found") found;
      checked = unit-eq _ u checked;
      row = row;
      text = text;
      content = made;
      files = snapshot-files (is_some md) env memo_id summary actor_id now id mid;
      same =
          (snapshot_if-SameNotes s env ws now (is_some md) memo_id summary actor_id id).at mid
            ((new_content-SameNotes s env ws now summary crow md).at s (SameNotes-refl s));
      finished = h;
    }

module _ (env : Env) (ws actor_id memo_id : String) (req : SaveRequest) (now : Timestamp)
    (s : Store) {ack : MemoSaveAck} {t : Store}
    (saved : Saved env ws actor_id memo_id req now s ack t) where
  pub Saved-ack : ack ≡ ack_of req saved.edit now
  unfolding finish_save
  Saved-ack = cc (saved.finished)

  after : t ≡ (finish_save env ws actor_id memo_id req saved.edit now saved.before).1
  after = ap (λ (p : Result MemoSaveAck × Store). p.1) (sym saved.finished)

  pub Saved-memos :
      t.memos ≡ update (is_memo ws memo_id) (saved_memo env actor_id req saved.edit now) s.memos
  unfolding finish_save Sync.append_unlocked
  Saved-memos =
      ap (λ (u : Store). u.memos) after
      ∙ ap (update (is_memo ws memo_id) (saved_memo env actor_id req saved.edit now))
          saved.same.memos

  pub Saved-memo_contents : t.memo_contents ≡ (
      if content_changed saved.edit
      then update (λ r. r.memo_id == memo_id) (saved_content saved.edit now) s.memo_contents
      else s.memo_contents)
  unfolding finish_save Sync.append_unlocked
  Saved-memo_contents =
      ap (λ (u : Store). u.memo_contents) after
      ∙ ap
          (λ (cs : List Content).
            if content_changed saved.edit
            then update (λ r. r.memo_id == memo_id) (saved_content saved.edit now) cs
            else cs)
          saved.same.memo_contents

  pub Saved-idempotency_keys :
      t.idempotency_keys
      ≡ remember env ws req.idempotency_key memo_id
          (ack_of req saved.edit now)
          now
          s.idempotency_keys
  unfolding finish_save Sync.append_unlocked
  Saved-idempotency_keys =
      ap (λ (u : Store). u.idempotency_keys) after
      ∙ ap (remember env ws req.idempotency_key memo_id (ack_of req saved.edit now) now)
          saved.same.idempotency_keys

  pub Saved-files :
      t.files ≡ (new_content env ws saved.edit.summary saved.crow saved.edit.markdown now s).1.files
  unfolding finish_save Sync.append_unlocked
  Saved-files = ap (λ (u : Store). u.files) after ∙ saved.files

  -- The row that the save read.
  pub Saved-row :
      (m : Memo) × (find (is_memo ws memo_id) s.memos ≡ some m)
      × (saved.edit.summary ≡ summary_from_row env m)
  unfolding get_summary
  Saved-row = elim (Option-cases (find (is_memo ws memo_id) s.memos)) [
    | inl missing ↦ absurd (none_found missing saved.found)
    | inr (m, row) ↦ (m, row, summary_found m row saved.found)
  ]
    where
      none_found :
          find (is_memo ws memo_id) s.memos ≡ none
          → get_summary env ws memo_id s ≡ some saved.edit.summary
          → ⊥
      none_found missing found = ground arith

      summary_found :
          (m : Memo)
          → find (is_memo ws memo_id) s.memos ≡ some m
          → get_summary env ws memo_id s ≡ some saved.edit.summary
          → saved.edit.summary ≡ summary_from_row env m
      summary_found m row found = ground arith

  -- The note is found with the columns that the transaction wrote.
  pub Saved-find :
      (m : Memo)
      → find (is_memo ws memo_id) s.memos ≡ some m
      → find (is_memo ws memo_id) t.memos ≡ some (saved_memo env actor_id req saved.edit now m)
  Saved-find m row =
      subst
        (λ ms. find (is_memo ws memo_id) ms ≡ some (saved_memo env actor_id req saved.edit now m))
        (sym Saved-memos)
        (find-update (is_memo ws memo_id) (is_memo ws memo_id) (is_memo ws memo_id) _ s.memos
          (λ y h. h) (λ y h. h) row (find-holds (is_memo ws memo_id) s.memos row)
          (find-holds (is_memo ws memo_id) s.memos row))
