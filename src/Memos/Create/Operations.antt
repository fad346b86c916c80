-- ===== src/Memos/Create/Operations.antt =====
-- `create` of crates/store/src/memos.rs does not write the results of pushed operations.
use panda_server.Prelude.{String, Option, List, Bool-cases, inl, inr, is_some, ◌==◌}
use panda_server.Prelude.Sql.{find}
use panda_server.Store.Rows.{Timestamp, Memo, Content}
use panda_server.Store.Messages.{SyncOperation}
use panda_server.Store.Env.{Env}
use panda_server.Store.State.{Store}
use panda_server.Store.Action.Keeps.{Keeps, keeps_rules}
use panda_server.Sync.Operations.{HasOperations, append-HasOperations}
use panda_server.Memos.Save.Operations.{place-HasOperations}
use panda_server.Memos.Create.{
  reference, insert_memo, insert_content, queue_search, insert_note, log_created, create_locked,
  create,
}

module _ (os : List SyncOperation) where
  reference-HasOperations : (href : Option String) → Keeps (HasOperations os) (reference href)
  unfolding reference
  reference-HasOperations href = record { at = λ s h. h }

  insert_memo-HasOperations : (m : Memo) → Keeps (HasOperations os) (insert_memo m)
  unfolding insert_memo
  insert_memo-HasOperations m = record {
    at = λ s h. elim (Bool-cases (is_some (find (λ (x : Memo). x.id == m.id) s.memos))) [
      | inl taken ↦ rw taken h
      | inr free ↦ rw free h
    ];
  }

  insert_content-HasOperations : (c : Content) → Keeps (HasOperations os) (insert_content c)
  unfolding insert_content
  insert_content-HasOperations c = record {
    at = λ s h.
        elim (Bool-cases
          (is_some (find (λ (x : Content). x.memo_id == c.memo_id) s.memo_contents))) [
            | inl taken ↦ rw taken h
            | inr free ↦ rw free h
          ];
  }

  queue_search-HasOperations :
      (ws id : String) (now : Timestamp) → Keeps (HasOperations os) (queue_search ws id now)
  unfolding queue_search
  queue_search-HasOperations ws id now = record { at = λ s h. h }

  insert_note-HasOperations :
      (ws : String) (m : Memo) (c : Content) (now : Timestamp)
      → Keeps (HasOperations os) (insert_note ws m c now)
  unfolding insert_note
  insert_note-HasOperations ws m c now =
      search
        (
          keeps_rules, reference-HasOperations, insert_memo-HasOperations,
          insert_content-HasOperations, queue_search-HasOperations,
        )
        depth 11

  log_created-HasOperations :
      (env : Env) (ws id etag : String) (now : Timestamp)
      → Keeps (HasOperations os) (log_created env ws id etag now)
  unfolding log_created
  log_created-HasOperations env ws id etag now = search (keeps_rules, append-HasOperations) depth 9

  pub create-HasOperations :
      (env : Env) (ws actor_id notebook_id : String) (title : Option String) (markdown : String)
      (tags : List String) (id : String) (now : Timestamp) (seen : Store)
      → Keeps
          (HasOperations os)
          (create env ws actor_id notebook_id title markdown tags id now seen)
  unfolding create create_locked
  create-HasOperations env ws actor_id notebook_id title markdown tags id now seen =
      search
        (keeps_rules, place-HasOperations, insert_note-HasOperations, log_created-HasOperations)
        depth 13
