-- ===== src/Memos/Lifecycle/Erase.antt =====
-- Permanent deletion of a note (crates/store/src/memos.rs, `soft_delete`).
use panda_server.Prelude.{
  String, Bool, true, false, none, some, List, [], ◌∷◌, ◌++◌, ◌≡◌, refl, ◌==◌, Bool-cases, inl, inr,
  is_same,
}
use panda_server.Prelude.Sql.{find, update, delete}
use panda_server.Store.Rows.{
  Timestamp, Memo, Content, Revision, Lease, Dirty, Todo, Resource, Change,
}
use panda_server.Store.Env.{Env}
use panda_server.Store.State.{Store}
use panda_server.Store.Action.{◌>>=◌}
use panda_server.Sync
use panda_server.Memos.Queries.{is_memo}
use panda_server.Memos.Lifecycle.{erase, erased_links, delete_forever, soft_delete}

-- No row of a table with a foreign key to the notes names the note.
pub record IsErased (ws memo_id : String) (s : Store) : Type 0 where
  pub memo : find (is_memo ws memo_id) s.memos ≡ none
  pub content : find (λ (c : Content). c.memo_id == memo_id) s.memo_contents ≡ none
  pub revision : find (λ (r : Revision). r.memo_id == memo_id) s.memo_revisions ≡ none
  pub lease : find (λ (l : Lease). l.memo_id == memo_id) s.edit_leases ≡ none
  pub dirty : find (λ (d : Dirty). d.memo_id == memo_id) s.search_dirty ≡ none
  pub todo : find (λ (t : Todo). is_same t.linked_memo_id (some memo_id)) s.todos ≡ none
  pub resource : find (λ (r : Resource). is_same r.memo_id (some memo_id)) s.resources ≡ none

find-delete {ℓ} : {A : Type ℓ} (p : A → Bool) (xs : List A) → find p (delete p xs) ≡ none
find-delete p [] = refl
find-delete p (x ∷ xs) = elim (Bool-cases (p x)) [
  | inl gone ↦ rw gone (find-delete p xs)
  | inr kept ↦ rw (kept, kept) (find-delete p xs)
]

find-update_out {ℓ} :
    {A : Type ℓ} (p : A → Bool) (f : A → A) (xs : List A)
    → ((x : A) → p (f x) ≡ false)
    → find p (update p f xs) ≡ none
find-update_out p f [] out = refl
find-update_out p f (x ∷ xs) out = elim (Bool-cases (p x)) [
  | inl hit ↦ rw (hit, out x) (find-update_out p f xs out)
  | inr miss ↦ rw (miss, miss) (find-update_out p f xs out)
]

soft_delete-eq :
    (env : Env) (ws memo_id : String) (now : Timestamp) (s : Store) {m : Memo}
    → find (is_memo ws memo_id) s.memos ≡ some m
    → IsErased ws memo_id
        (erased_links memo_id (record s { memos = delete (is_memo ws memo_id) s.memos }))
    → IsErased ws memo_id (soft_delete env ws memo_id true now s).1
unfolding soft_delete delete_forever erase Sync.append_unlocked ◌>>=◌
soft_delete-eq env ws memo_id now s row h = rw row (record {
  memo = h.memo;
  content = h.content;
  revision = h.revision;
  lease = h.lease;
  dirty = h.dirty;
  todo = h.todo;
  resource = h.resource;
})

-- What the deletion leaves: the index of the search and the acknowledgements of saves, which have no
-- foreign key, the blobs, and the log, which names the note once more.
pub record IsLeft (memo_id : String) (s t : Store) : Type 0 where
  pub index : t.memos_fts ≡ s.memos_fts
  pub acknowledgements : t.idempotency_keys ≡ s.idempotency_keys
  pub blobs : (t.content_blobs ≡ s.content_blobs) × (t.files ≡ s.files)
  pub log :
      (row : Change) × (t.sync_changes ≡ s.sync_changes ++ row ∷ []) × (row.entity_id ≡ memo_id)

soft_delete-IsLeft :
    (env : Env) (ws memo_id : String) (now : Timestamp) (s : Store) {m : Memo}
    → find (is_memo ws memo_id) s.memos ≡ some m
    → IsLeft memo_id s (soft_delete env ws memo_id true now s).1
unfolding soft_delete delete_forever erase Sync.append_unlocked ◌>>=◌
soft_delete-IsLeft env ws memo_id now s row =
    rw row (record {
      index = refl;
      acknowledgements = refl;
      blobs = (refl, refl);
      log = (_, refl, refl);
    })

-- After the permanent deletion of a note that the workspace has, no table with a foreign key to the
-- notes has a row that names it: not the note, its text, its snapshots, its leases or its place in the
-- search queue, and no todo or resource. The index of the search, which has the title and the text,
-- the acknowledgements of saves, and the blobs stay as they were, and the log has one more row, for the
-- note.
pub soft_delete-IsErased :
    (env : Env) (ws memo_id : String) (now : Timestamp) (s : Store) {m : Memo}
    → find (is_memo ws memo_id) s.memos ≡ some m
    → IsErased ws memo_id (soft_delete env ws memo_id true now s).1
      × IsLeft memo_id s (soft_delete env ws memo_id true now s).1
soft_delete-IsErased env ws memo_id now s row = (
  soft_delete-eq env ws memo_id now s row (record {
    memo = find-delete (is_memo ws memo_id) s.memos;
    content = find-delete _ s.memo_contents;
    revision = find-delete _ s.memo_revisions;
    lease = find-delete _ s.edit_leases;
    dirty = find-delete _ s.search_dirty;
    todo =
        find-update_out (λ t. is_same t.linked_memo_id (some memo_id))
          (λ t. record t { linked_memo_id = none }) s.todos (λ t. refl);
    resource =
        find-update_out (λ r. is_same r.memo_id (some memo_id)) (λ r. record r { memo_id = none })
          s.resources (λ r. refl);
  }),
  soft_delete-IsLeft env ws memo_id now s row,
)
