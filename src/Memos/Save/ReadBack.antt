-- ===== src/Memos/Save/ReadBack.antt =====
-- Reading a note back behind `save` (crates/store/src/memos.rs, `read_markdown`).
use panda_server.Prelude.{
  String, Bool, true, Option, none, some, ◌≡◌, refl, sym, ap, ◌∙◌, subst, arith, ◌==◌,
  if◌then◌else◌, Option-cases, inl, inr, is_some, leb,
}
use panda_server.Prelude.Sql.{find, update, find-update, find-holds}
use panda_server.Domain.Error.{ok}
use panda_server.Domain.Markdown.{normalize_markdown, derive_excerpt}
use panda_server.Store.Rows.{Timestamp, Memo, Content, MemoSaveAck}
use panda_server.Store.Env.{Env, byte_len}
use panda_server.Store.State.{Store}
use panda_server.Store.Action.{◌>>=◌}
use panda_server.Memos.Queries.{MemoSummary, is_memo, is_content, load_content_row, read_markdown}
use panda_server.Memos.Contents.{
  markdown_full, place, placed, NewContent, new_markdown, new_content,
}
use panda_server.Memos.Request.{SaveRequest}
use panda_server.Memos.Save.{saved_content, content_changed, save}
use panda_server.Memos.Save.Outcome.{
  Saved, save_new-Saved, Saved-ack, Saved-row, Saved-find, Saved-memo_contents,
}
use panda_server.Memos.Save.Once.{IsFresh, save_of_IsFresh}

full-text :
    (env : Env) (ws : String) (crow : Content) (md : String) (s : Store) {out : Option String}
    → new_markdown env ws crow (some (markdown_full md)) s ≡ ok out
    → out ≡ some (normalize_markdown md)
unfolding new_markdown
full-text env ws crow md s h = ground arith

ok-inj : {A : Type 0} (a b : A) → ok a ≡ ok b → a ≡ b
ok-inj a b h = ground arith

new_content-small :
    (env : Env) (ws : String) (summary : MemoSummary) (crow : Content) (text : String)
    (now : Timestamp) (s : Store)
    → leb (byte_len env text) s.inline_threshold ≡ true
    → (new_content env ws summary crow (some text) now s).0 ≡ ok (placed env text (some text, none))
unfolding new_content place derive_excerpt ◌>>=◌
new_content-small env ws summary crow text now s small = rw (small, place)

row-found :
    (ws memo_id : String) (s : Store) {c : Content}
    → load_content_row ws memo_id s ≡ ok c
    → find (is_content ws memo_id s) s.memo_contents ≡ some c
unfolding load_content_row
row-found ws memo_id s {c} h =
    elim (Option-cases (find (is_content ws memo_id s) s.memo_contents)) [
      | inl missing ↦ absurd (cc (rw missing at h))
      | inr (x, found) ↦ let same = rw found at h in found ∙ ap some (ok-inj x c same)
    ]

rewritten-found :
    (ws memo_id : String) (s t : Store) (f : Content → Content) {c : Content} {m n : Memo}
    → ((x : Content) → (f x).memo_id ≡ x.memo_id)
    → find (is_memo ws memo_id) s.memos ≡ some m
    → find (is_memo ws memo_id) t.memos ≡ some n
    → find (is_content ws memo_id s) s.memo_contents ≡ some c
    → t.memo_contents ≡ update (λ r. r.memo_id == memo_id) f s.memo_contents
    → find (is_content ws memo_id t) t.memo_contents ≡ some (f c)
rewritten-found ws memo_id s t f {c} keep before after found written =
    let holds = find-holds (is_content ws memo_id s) s.memo_contents found in
    ap (find (is_content ws memo_id t)) written
    ∙ find-update (is_content ws memo_id s) (is_content ws memo_id t) (λ r. r.memo_id == memo_id) f
        s.memo_contents (λ y h. rw before (ground arith)) (λ y h. rw before (ground arith)) found
        (ground arith) (rw (keep c, after) (ground arith))

if-true : {A : Type 0} (b : Bool) (x y : A) → b ≡ true → (if b then x else y) ≡ x
if-true b x y h = rw h

read_markdown-inline :
    (env : Env) (ws memo_id text : String) (s : Store) {c : Content}
    → find (is_content ws memo_id s) s.memo_contents ≡ some c
    → c.inline_markdown ≡ some text
    → read_markdown env ws memo_id s ≡ ok text
unfolding load_content_row
read_markdown-inline env ws memo_id text s found inline = rw (found, inline)

module _ (env : Env) (ws actor_id memo_id : String) (req : SaveRequest) (now : Timestamp)
    (s : Store) {ack : MemoSaveAck} {t : Store} (md : String)
    (small : leb (byte_len env (normalize_markdown md)) s.inline_threshold ≡ true)
    (body : req.body ≡ some (markdown_full md))
    (saved : Saved env ws actor_id memo_id req now s ack t) where
  saved-text : saved.edit.markdown ≡ some (normalize_markdown md)
  saved-text =
      full-text env ws saved.crow md s
        (subst (λ o. new_markdown env ws saved.crow o s ≡ ok saved.edit.markdown) body saved.text)

  saved-placed :
      saved.edit.content ≡ placed env (normalize_markdown md) (some (normalize_markdown md), none)
  saved-placed = ok-inj _ _ (
      sym (
        subst
          (λ o.
            (new_content env ws saved.edit.summary saved.crow o now s).0 ≡ ok saved.edit.content)
          saved-text saved.content)
      ∙ new_content-small env ws saved.edit.summary saved.crow (normalize_markdown md) now s small)

  saved-written :
      t.memo_contents
      ≡ update (λ r. r.memo_id == memo_id) (saved_content saved.edit now) s.memo_contents
  saved-written =
      Saved-memo_contents env ws actor_id memo_id req now s saved
      ∙ if-true (content_changed saved.edit) _ _ (ap is_some saved-text)

  saved-read : read_markdown env ws memo_id t ≡ ok (normalize_markdown md)
  saved-read =
      let (m, row, _) = Saved-row env ws actor_id memo_id req now s saved in
      read_markdown-inline env ws memo_id (normalize_markdown md) t
        (rewritten-found ws memo_id s t (saved_content saved.edit now) (λ x. refl) row
          (Saved-find env ws actor_id memo_id req now s saved m row)
          (row-found ws memo_id s saved.row) saved-written)
        (ap (λ (c : NewContent). c.inline) saved-placed)

  saved-hash : ack.content_hash ≡ env.blake3 (env.as_bytes (normalize_markdown md))
  saved-hash =
      ap (λ (a : MemoSaveAck). a.content_hash) (Saved-ack env ws actor_id memo_id req now s saved)
      ∙ ap (λ (c : NewContent). c.hash) saved-placed

-- A save of a whole text that returns, and is no retry, is read back: the note's Markdown is the
-- normalised text, and the acknowledgement has its hash. The normalised text fits the threshold up to
-- which a text is kept in the row.
pub read_markdown-save :
    (env : Env) (ws actor_id memo_id : String) (req : SaveRequest) (now : Timestamp) (id : String)
    (seen s : Store) (md : String) {ack : MemoSaveAck} {t : Store}
    → IsFresh env ws req now seen s
    → req.body ≡ some (markdown_full md)
    → leb (byte_len env (normalize_markdown md)) s.inline_threshold ≡ true
    → save env ws actor_id memo_id req now id seen s ≡ (ok ack, t)
    → (read_markdown env ws memo_id t ≡ ok (normalize_markdown md))
      × (ack.content_hash ≡ env.blake3 (env.as_bytes (normalize_markdown md)))
read_markdown-save env ws actor_id memo_id req now id seen s md fresh body small h =
    let saved =
      save_new-Saved env ws actor_id memo_id req now id s
        (sym (save_of_IsFresh env ws actor_id memo_id req now id seen s fresh) ∙ h) in
    (
      saved-read env ws actor_id memo_id req now s md small body saved,
      saved-hash env ws actor_id memo_id req now s md small body saved,
    )
