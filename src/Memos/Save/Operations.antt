-- ===== src/Memos/Save/Operations.antt =====
-- `save` of crates/store/src/memos.rs does not write the results of pushed operations.
use panda_server.Prelude.{
  ℕ, String, Bool, true, false, Option, none, some, List, arith, Bool-cases, Option-cases, inl, inr,
  leb,
}
use panda_server.Prelude.Text.{is_empty}
use panda_server.Store.Rows.{Timestamp, Content}
use panda_server.Store.Messages.{SyncOperation}
use panda_server.Store.Env.{Env, byte_len}
use panda_server.Store.State.{Store}
use panda_server.Store.Action.Keeps.{Keeps, Keeps-pure, Keeps-bind, keeps_rules}
use panda_server.Blob
use panda_server.Sync
use panda_server.Sync.Operations.{HasOperations}
use panda_server.Memos.Queries.{MemoSummary, get_idempotency}
use panda_server.Memos.Contents.{upsert_blob_meta, place, new_content}
use panda_server.Memos.Request.{SaveRequest}
use panda_server.Memos.Snapshot.{maybe_snapshot}
use panda_server.Memos.Save.{
  Edit, write_save, finish_save, snapshot_if, save_new, save_locked, save,
}

module _ (os : List SyncOperation) (env : Env) (ws : String) (now : Timestamp) where
  put-HasOperations : (bytes : List ℕ) → Keeps (HasOperations os) (Blob.put env bytes)
  unfolding Blob.put
  put-HasOperations bytes = record { at = λ s h. ground arith }

  upsert-HasOperations :
      (hash : String) (size : ℕ) (key : String)
      → Keeps (HasOperations os) (upsert_blob_meta ws hash size key now)
  unfolding upsert_blob_meta
  upsert-HasOperations hash size key = record { at = λ s h. ground arith }

  pub place-HasOperations : (md : String) → Keeps (HasOperations os) (place env ws md now)
  unfolding place
  place-HasOperations md = record {
    at = λ s h. elim (Bool-cases (leb (byte_len env md) s.inline_threshold)) [
      | inl small ↦ rw (small, place) h
      | inr big ↦
          rw (big, place)
            ((Keeps-bind (Blob.put env (env.as_bytes md)) _ (put-HasOperations _) λ p.
                Keeps-bind (upsert_blob_meta ws p.0 (byte_len env md) p.0 now) _
                  (upsert-HasOperations p.0 _ p.0) λ _. Keeps-pure _).at
              s h)
    ];
  }

  new_content-HasOperations :
      (summary : MemoSummary) (crow : Content) (md : Option String)
      → Keeps (HasOperations os) (new_content env ws summary crow md now)
  unfolding new_content
  new_content-HasOperations summary crow none = Keeps-pure _
  new_content-HasOperations summary crow (some md) =
      Keeps-bind (place env ws md now) _ (place-HasOperations md) λ p. Keeps-pure _

  snapshot_if-HasOperations :
      (changed : Bool) (memo_id : String) (summary : MemoSummary) (actor_id id : String)
      → Keeps (HasOperations os) (snapshot_if changed env memo_id summary actor_id now id)
  unfolding snapshot_if maybe_snapshot
  snapshot_if-HasOperations true memo_id summary actor_id id = record { at = λ s h. ground arith }
  snapshot_if-HasOperations false memo_id summary actor_id id = Keeps-pure tt

  module _ (actor_id memo_id : String) (req : SaveRequest) where
    finish_save-HasOperations :
        (c : Edit) → Keeps (HasOperations os) (finish_save env ws actor_id memo_id req c now)
    unfolding finish_save write_save Sync.append_unlocked
    finish_save-HasOperations c = record { at = λ s h. h }

    save_new-HasOperations :
        (id : String) → Keeps (HasOperations os) (save_new env ws actor_id memo_id req now id)
    unfolding save_new
    save_new-HasOperations id =
        search
          (
            keeps_rules, new_content-HasOperations, snapshot_if-HasOperations,
            finish_save-HasOperations,
          )
          depth 25

    save_locked-HasOperations :
        (id : String) → Keeps (HasOperations os) (save_locked env ws actor_id memo_id req now id)
    unfolding save_locked
    save_locked-HasOperations id = record {
      at = λ s h. elim (Option-cases (get_idempotency env ws req.idempotency_key now s)) [
        | inr (ack, known) ↦ rw (known, save_locked) h
        | inl new ↦ rw (new, save_locked) ((save_new-HasOperations id).at s h)
      ];
    }

    pub save-HasOperations :
        (id : String) (seen s : Store)
        → HasOperations os s
        → HasOperations os (save env ws actor_id memo_id req now id seen s).1
    unfolding save
    save-HasOperations id seen s h = elim (Bool-cases (is_empty req.idempotency_key)) [
      | inl missing ↦ rw missing h
      | inr given ↦ elim (Option-cases (get_idempotency env ws req.idempotency_key now seen)) [
        | inr (ack, known) ↦ rw (given, save, known) h
        | inl new ↦ rw (given, save, new) ((save_locked-HasOperations id).at s h)
      ]
    ]
