-- ===== src/Memos/Lifecycle/Operations.antt =====
-- `soft_delete` of crates/store/src/memos.rs does not write the results of pushed operations.
use panda_server.Prelude.{String, Bool, List, Bool-cases, inl, inr, is_some}
use panda_server.Prelude.Sql.{find}
use panda_server.Store.Rows.{Timestamp, Memo}
use panda_server.Store.Messages.{SyncOperation}
use panda_server.Store.Env.{Env, Json}
use panda_server.Store.Action.Keeps.{Keeps, keeps_rules}
use panda_server.Sync.Operations.{HasOperations, append-HasOperations}
use panda_server.Memos.Queries.{is_memo}
use panda_server.Memos.Lifecycle.{
  log_meta, erase, write_memo, delete_forever, move_to_trash, soft_delete,
}

module _ (os : List SyncOperation) (ws : String) where
  erase-HasOperations : (memo_id : String) → Keeps (HasOperations os) (erase ws memo_id)
  unfolding erase
  erase-HasOperations memo_id = record {
    at = λ s h. elim (Bool-cases (is_some (find (is_memo ws memo_id) s.memos))) [
      | inl known ↦ rw known h
      | inr unknown ↦ rw unknown h
    ];
  }

  write_memo-HasOperations :
      (memo_id : String) (f : Memo → Memo) → Keeps (HasOperations os) (write_memo ws memo_id f)
  unfolding write_memo
  write_memo-HasOperations memo_id f = record { at = λ s h. h }

  log_meta-HasOperations :
      (env : Env) (memo_id : String) (field : String × Json) (now : Timestamp)
      → Keeps (HasOperations os) (log_meta env ws memo_id field now)
  unfolding log_meta
  log_meta-HasOperations env memo_id field now = search (keeps_rules, append-HasOperations) depth 9

  pub soft_delete-HasOperations :
      (env : Env) (memo_id : String) (permanent : Bool) (now : Timestamp)
      → Keeps (HasOperations os) (soft_delete env ws memo_id permanent now)
  unfolding soft_delete move_to_trash delete_forever
  soft_delete-HasOperations env memo_id permanent now =
      search
        (
          keeps_rules, append-HasOperations, erase-HasOperations, write_memo-HasOperations,
          log_meta-HasOperations,
        )
        depth 13
