-- ===== src/Sync/Operations.antt =====
-- The results of pushed operations (table sync_operations) are not written by the change log.
use panda_server.Prelude.{String, Option, List, ◌≡◌}
use panda_server.Store.Rows.{Timestamp}
use panda_server.Store.Messages.{SyncOperation}
use panda_server.Store.State.{Store}
use panda_server.Store.Action.Keeps.{Keeps}
use panda_server.Sync

abbrev pub HasOperations : List SyncOperation → Store → Type 0
HasOperations os s = s.sync_operations ≡ os

pub append-HasOperations :
    (os : List SyncOperation) (ws entity_type entity_id operation kind : String)
    (payload : Option String) (fold_key : String) (now : Timestamp)
    → Keeps
        (HasOperations os)
        (Sync.append_unlocked ws entity_type entity_id operation kind payload fold_key now)
unfolding Sync.append_unlocked
append-HasOperations os ws entity_type entity_id operation kind payload fold_key now = record {
  at = λ s h. h;
}
