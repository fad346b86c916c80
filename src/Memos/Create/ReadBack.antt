-- ===== src/Memos/Create/ReadBack.antt =====
-- Reading a new note back (crates/store/src/memos.rs, `create` and `read_markdown`).
use panda_server.Prelude.{
  ℕ, String, false, Option, none, some, List, [], ◌∷◌, ◌++◌, ◌≡◌, refl, sym, ap, ◌∙◌, arith, ◌==◌,
  ◌⊎◌, eq_refl, Bool-cases, inl, inr, is_some, leb,
}
use panda_server.Prelude.Sql.{find}
use panda_server.Prelude.Keys.{find-append_last, find-none, is_some-none}
use panda_server.Domain.Error.{PandaError, Result, ok, err, ok_or, and_then}
use panda_server.Domain.Etag.{format_etag}
use panda_server.Domain.Markdown.{normalize_markdown}
use panda_server.Store.Rows.{Timestamp, Memo, Content, BlobMeta}
use panda_server.Store.Env.{Env, byte_len}
use panda_server.Store.State.{Store}
use panda_server.Store.Action.{
  Action, ◌>>=◌, ◌>>◌, bind-eq-ok, lift-eq-ok, reads-done, ok-inj, reads, transaction, committed,
}
use panda_server.Sync
use panda_server.Blob.{path_for_hash, file, content, get, put}
use panda_server.Blob.Laws.{get-put}
use panda_server.Memos.Queries.{
  summary_from_row, content_proto, is_memo, is_content, get_summary, load_content_row, read_body,
  read_markdown,
}
use panda_server.Memos.Contents.{upsert_blob_meta, place}
use panda_server.Memos.Create.{
  MemoDetail, hash_of, new_memo, first_content, reference, insert_memo, insert_content,
  queue_search, insert_note, log_created, detail_of, create_locked, create,
}

-- The file of a text's hash is not there yet, or holds the text's bytes.
abbrev pub IsAddressed : Env → String → Store → Type 0
IsAddressed env md s =
    let held = content (file (path_for_hash (hash_of env md)) s) in
    (held ≡ none) ⊎ (held ≡ some (env.as_bytes md))

some-inj : {A : Type 0} (x y : A) → some x ≡ some y → x ≡ y
some-inj x y h = ground arith

addressed-bytes :
    {A : Type 0} (held : Option A) (bytes old : A)
    → (held ≡ none) ⊎ (held ≡ some bytes)
    → held ≡ some old
    → old ≡ bytes
addressed-bytes held bytes old (inl e) h = absurd (cc (rw e at h))
addressed-bytes held bytes old (inr e) h = some-inj old bytes (sym h ∙ e)

upsert-files :
    (ws hash : String) (size : ℕ) (key : String) (now : Timestamp) (s : Store)
    → (upsert_blob_meta ws hash size key now s).1.files ≡ s.files
unfolding upsert_blob_meta
upsert-files ws hash size key now s =
    elim (Bool-cases (is_some (find (λ (b : BlobMeta). b.hash == hash) s.content_blobs))) [
      | inl known ↦ rw known
      | inr new ↦ rw new
    ]

read_body-files :
    (env : Env) (inline href : Option String) (s t : Store)
    → t.files ≡ s.files
    → read_body env inline href t ≡ read_body env inline href s
unfolding get
read_body-files env (some md) href s t same = refl
read_body-files env none (some hash) s t same = rw same
read_body-files env none none s t same = refl

-- What `place` answers leads back to the text.
read_body-place :
    (env : Env) (ws md : String) (now : Timestamp) (s : Store) {p : Option String × Option String}
    → env.from_utf8 (env.as_bytes md) ≡ some md
    → IsAddressed env md s
    → (place env ws md now s).0 ≡ ok p
    → read_body env p.0 p.1 (place env ws md now s).1 ≡ ok md
unfolding place upsert_blob_meta ◌>>=◌
read_body-place env ws md now s {p} utf8 addressed placed =
    let (stored, served) =
      get-put env (env.as_bytes md) s (λ old. addressed-bytes _ _ old addressed) in
    elim (Bool-cases (leb (byte_len env md) s.inline_threshold)) [
      | inl small ↦ let e : (some md, none) ≡ p = ok-inj _ p (rw small at placed) in rw (small, ← e)
      | inr large ↦
          let e : (none, some (hash_of env md)) ≡ p = ok-inj _ p (rw (large, stored) at placed) in
          let hash = hash_of env md in
          let put_store = (put env (env.as_bytes md) s).1 in
          let done = (upsert_blob_meta ws hash (byte_len env md) hash now put_store).1 in
          let kept =
            read_body-files env none (some hash) put_store done
              (upsert-files ws hash (byte_len env md) hash now put_store) in
          let read : read_body env none (some hash) put_store ≡ ok md = rw (served, utf8) in
          rw (large, ← e, stored) (kept ∙ read)
    ]

module _ {B : Type 0} (next : Action B) (s : Store) {b : B} {t : Store} where
  insert_memo-then :
      (m : Memo)
      → (insert_memo m >> next) s ≡ (ok b, t)
      → (is_some (find (λ (x : Memo). x.id == m.id) s.memos) ≡ false)
        × (next (record s { memos = s.memos ++ m ∷ [] }) ≡ (ok b, t))
  unfolding insert_memo ◌>>=◌
  insert_memo-then m done =
      elim (Bool-cases (is_some (find (λ (x : Memo). x.id == m.id) s.memos))) [
        | inl taken ↦ absurd (cc (rw taken at done))
        | inr free ↦ (free, rw free at done)
      ]

  insert_content-then :
      (c : Content)
      → (insert_content c >> next) s ≡ (ok b, t)
      → (is_some (find (λ (x : Content). x.memo_id == c.memo_id) s.memo_contents) ≡ false)
        × (next (record s { memo_contents = s.memo_contents ++ c ∷ [] }) ≡ (ok b, t))
  unfolding insert_content ◌>>=◌
  insert_content-then c done =
      elim (Bool-cases (is_some (find (λ (x : Content). x.memo_id == c.memo_id) s.memo_contents))) [
        | inl taken ↦ absurd (cc (rw taken at done))
        | inr free ↦ (free, rw free at done)
      ]

-- The tables behind the transaction.
pub record HasNote (s : Store) (m : Memo) (c : Content) (t : Store) : Type 0 where
  pub memo_free : is_some (find (λ (x : Memo). x.id == m.id) s.memos) ≡ false
  pub content_free :
      is_some (find (λ (x : Content). x.memo_id == c.memo_id) s.memo_contents) ≡ false
  pub memos : t.memos ≡ s.memos ++ m ∷ []
  pub memo_contents : t.memo_contents ≡ s.memo_contents ++ c ∷ []
  pub files : t.files ≡ s.files

queued-HasNote :
    (ws id : String) (now : Timestamp) (s u : Store) (m : Memo) (c : Content) {x : Unit {0}}
    {t : Store}
    → is_some (find (λ (x : Memo). x.id == m.id) s.memos) ≡ false
    → is_some (find (λ (x : Content). x.memo_id == c.memo_id) s.memo_contents) ≡ false
    → u.memos ≡ s.memos ++ m ∷ []
    → u.memo_contents ≡ s.memo_contents ++ c ∷ []
    → u.files ≡ s.files
    → queue_search ws id now u ≡ (ok x, t)
    → HasNote s m c t
unfolding queue_search
queued-HasNote ws id now s u m c memo_free content_free memos contents files queued =
    let same = ap (λ p. p.1) queued in
    rw (← same) (record {
      memo_free = memo_free;
      content_free = content_free;
      memos = memos;
      memo_contents = contents;
      files = files;
    })

insert_note-HasNote :
    (ws : String) (m : Memo) (c : Content) (now : Timestamp) (s : Store) {x : Unit {0}} {t : Store}
    → insert_note ws m c now s ≡ (ok x, t)
    → HasNote s m c t
unfolding insert_note reference
insert_note-HasNote ws m c now s done =
    let (_, _, inserting) = bind-eq-ok (reference c.blob_ref) _ s done in
    let (memo_free, inserting) = insert_memo-then _ _ m inserting in
    let (content_free, queueing) = insert_content-then _ _ c inserting in
    queued-HasNote ws m.id now s _ m c memo_free content_free refl refl refl queueing

committed-ok :
    {A : Type 0} (s : Store) (r : Result A) (u : Store) {a : A}
    → (committed s r u).0 ≡ ok a
    → (r ≡ ok a) × ((committed s r u).1 ≡ u)
committed-ok s (ok b) u done = (done, refl)
committed-ok s (err e) u done = cc

transaction-HasNote :
    (ws : String) (m : Memo) (c : Content) (now : Timestamp) (s : Store) {x : Unit {0}}
    → (transaction (insert_note ws m c now) s).0 ≡ ok x
    → HasNote s m c (transaction (insert_note ws m c now) s).1
transaction-HasNote ws m c now s done =
    let ran = insert_note ws m c now s in
    let (returned, same) = committed-ok s ran.0 ran.1 done in
    rw same (insert_note-HasNote ws m c now s (ap (λ r. (r, ran.1)) returned))

module _ (env : Env) (ws : String) (m : Memo) (c : Content) (s t : Store) (noted : HasNote s m c t)
    (here : m.workspace_id ≡ ws) (own : c.memo_id ≡ m.id) where
  memo_found : find (is_memo ws m.id) t.memos ≡ some m
  memo_found = rw noted.memos (
      find-append_last (is_memo ws m.id) s.memos m
        (find-none (λ x. x.id == m.id) (is_memo ws m.id) s.memos (λ y hit. ground arith)
          (is_some-none _ noted.memo_free))
        (rw (here, eq_refl ws, eq_refl m.id)))

  content_found : find (is_content ws m.id t) t.memo_contents ≡ some c
  content_found = rw noted.memo_contents (
      find-append_last (is_content ws m.id t) s.memo_contents c
        (find-none (λ x. x.memo_id == c.memo_id) (is_content ws m.id t) s.memo_contents
          (λ y hit. rw own (ground arith)) (is_some-none _ noted.content_free))
        (rw (own, eq_refl m.id, memo_found)))

log_created-keeps :
    (env : Env) (ws id etag : String) (now : Timestamp) (s : Store) (m : Memo) (c : Content)
    (u : Store)
    → HasNote s m c u
    → HasNote s m c (log_created env ws id etag now u).1
unfolding log_created Sync.append_unlocked ◌>>=◌
log_created-keeps env ws id etag now s m c u h = record {
  memo_free = h.memo_free;
  content_free = h.content_free;
  memos = h.memos;
  memo_contents = h.memo_contents;
  files = h.files;
}

ok_or-inj : {A : Type 0} (o : Option A) (e : PandaError) (a : A) → ok_or o e ≡ ok a → o ≡ some a
ok_or-inj none e a h = cc
ok_or-inj (some b) e a h = ap some (ok-inj b a h)

detail_of-summary :
    (env : Env) (ws id : String) (s : Store) (m : Memo) {d : MemoDetail}
    → find (is_memo ws id) s.memos ≡ some m
    → detail_of env ws id s ≡ ok d
    → summary_from_row env m ≡ d.summary
unfolding get_summary
detail_of-summary env ws id s m {d} found answered =
    from_rows (load_content_row ws id s) (rw found at answered)
  where
    from_rows :
        (r : Result Content)
        → and_then r (λ crow. ok (record {
          summary = summary_from_row env m;
          content = content_proto crow s.inline_threshold;
        }))
          ≡ ok d
        → summary_from_row env m ≡ d.summary
    from_rows (ok crow) h = ap (λ (x : MemoDetail). x.summary) (ok-inj _ d h)
    from_rows (err e) h = cc

module _ (env : Env) (ws actor_id notebook_id : String) (title : Option String) (markdown : String)
    (tags : List String) (id : String) (now : Timestamp) where
  IsReadBack : MemoDetail → Store → Type 0
  IsReadBack d t =
      (read_markdown env ws id t ≡ ok (normalize_markdown markdown))
      × ((get_summary env ws id t ≡ some d.summary)
          × ((d.summary.etag ≡ format_etag 1 (hash_of env (normalize_markdown markdown)))
              × (d.summary.revision ≡ 1)))

  row : Memo
  row = new_memo env ws actor_id notebook_id title (normalize_markdown markdown) tags id now

  text : Option String × Option String → Content
  text p = first_content env (normalize_markdown markdown) p id now

  noted_answer :
      (s u : Store) (p : Option String × Option String) {d : MemoDetail} {t : Store}
      → HasNote s row (text p) u
      → read_body env p.0 p.1 s ≡ ok (normalize_markdown markdown)
      → reads (detail_of env ws id) u ≡ (ok d, t)
      → IsReadBack d t
  unfolding IsReadBack row text get_summary load_content_row
  noted_answer s u p {d} {t} noted read answered =
      let (served, same) = reads-done (detail_of env ws id) u answered in
      let memo = memo_found env ws row (text p) s u noted refl refl in
      let contents = content_found env ws row (text p) s u noted refl refl in
      let body = read_body-files env p.0 p.1 s u noted.files in
      let summary = detail_of-summary env ws id u row memo served in
      rw (← same)
        (rw contents (body ∙ read), (rw memo (ap some summary), (rw (← summary), rw (← summary))))

  stored_answer :
      (s : Store) (p : Option String × Option String) {d : MemoDetail} {t : Store}
      → read_body env p.0 p.1 s ≡ ok (normalize_markdown markdown)
      → (transaction (insert_note ws row (text p) now)
            >> (log_created env ws id
                  (format_etag 1 (hash_of env (normalize_markdown markdown)))
                  now
                >> reads (detail_of env ws id)))
          s
        ≡ (ok d, t)
      → IsReadBack d t
  stored_answer s p read created =
      let (_, stored, created) =
        bind-eq-ok (transaction (insert_note ws row (text p) now)) _ s created in
      let (_, _, answered) =
        bind-eq-ok
          (log_created env ws id (format_etag 1 (hash_of env (normalize_markdown markdown))) now) _
          _ created in
      noted_answer s _ p
        (log_created-keeps env ws id _ now s row (text p) _
          (transaction-HasNote ws row (text p) now s stored))
        read answered

  -- A creation that returns is read back, whether the text went to the row or to a blob: the note's
  -- Markdown is the normalised text, and the summary that is returned is the one of the note, at
  -- revision 1. A blob that the text's hash names already, holds that text, and the bytes of the text
  -- decode to it.
  pub read_markdown-create :
      (seen s : Store) {d : MemoDetail} {t : Store}
      → env.from_utf8 (env.as_bytes (normalize_markdown markdown))
        ≡ some (normalize_markdown markdown)
      → IsAddressed env (normalize_markdown markdown) s
      → create env ws actor_id notebook_id title markdown tags id now seen s ≡ (ok d, t)
      → (read_markdown env ws id t ≡ ok (normalize_markdown markdown))
        × ((get_summary env ws id t ≡ some d.summary)
            × ((d.summary.etag ≡ format_etag 1 (hash_of env (normalize_markdown markdown)))
                × (d.summary.revision ≡ 1)))
  unfolding create create_locked IsReadBack row text
  read_markdown-create seen s {d} {t} utf8 addressed created =
      let md = normalize_markdown markdown in
      let (_, _, created) = lift-eq-ok _ _ s created in
      let (p, placed, created) = bind-eq-ok (place env ws md now) _ s created in
      stored_answer _ p (read_body-place env ws md now s utf8 addressed placed) created
