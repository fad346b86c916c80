-- ===== src/Memos/Save/Frame.antt =====
-- What the steps of `save` (crates/store/src/memos.rs) before its transaction leave alone.
use panda_server.Prelude.{
  ℕ, String, Bool, true, false, Option, none, some, List, ◌≡◌, refl, arith, leb, Bool-cases, inl,
  inr,
}
use panda_server.Store.Rows.{Timestamp, Content}
use panda_server.Store.Env.{Env, byte_len}
use panda_server.Store.State.{Store}
use panda_server.Store.Action.Keeps.{Keeps, Keeps-pure, Keeps-bind}
use panda_server.Blob
use panda_server.Memos.Queries.{MemoSummary}
use panda_server.Memos.Contents.{upsert_blob_meta, place, new_content}
use panda_server.Memos.Snapshot.{maybe_snapshot}
use panda_server.Memos.Save.{snapshot_if}

-- The tables of the notes, the leases, the acknowledgements and the change log are the same.
pub record SameNotes (s t : Store) : Type 0 where
  pub memos : t.memos ≡ s.memos
  pub memo_contents : t.memo_contents ≡ s.memo_contents
  pub edit_leases : t.edit_leases ≡ s.edit_leases
  pub idempotency_keys : t.idempotency_keys ≡ s.idempotency_keys
  pub sync_changes : t.sync_changes ≡ s.sync_changes
  pub last_change_id : t.last_change_id ≡ s.last_change_id

pub SameNotes-refl : (s : Store) → SameNotes s s
SameNotes-refl s = record {
  memos = refl;
  memo_contents = refl;
  edit_leases = refl;
  idempotency_keys = refl;
  sync_changes = refl;
  last_change_id = refl;
}

module _ (s : Store) (env : Env) (ws : String) (now : Timestamp) where
  put-SameNotes : (bytes : List ℕ) → Keeps (SameNotes s) (Blob.put env bytes)
  unfolding Blob.put
  put-SameNotes bytes = record { at = λ t h. ground arith }

  upsert-SameNotes :
      (hash : String) (size : ℕ) (key : String)
      → Keeps (SameNotes s) (upsert_blob_meta ws hash size key now)
  unfolding upsert_blob_meta
  upsert-SameNotes hash size key = record { at = λ t h. ground arith }

  place-SameNotes : (md : String) → Keeps (SameNotes s) (place env ws md now)
  unfolding place
  place-SameNotes md = record {
    at = λ t h. elim (Bool-cases (leb (byte_len env md) t.inline_threshold)) [
      | inl small ↦ rw (small, place) h
      | inr big ↦
          rw (big, place)
            ((Keeps-bind (Blob.put env (env.as_bytes md)) _ (put-SameNotes _) λ p.
                Keeps-bind (upsert_blob_meta ws p.0 (byte_len env md) p.0 now) _
                  (upsert-SameNotes p.0 _ p.0) λ _. Keeps-pure _).at
              t h)
    ];
  }

  pub new_content-SameNotes :
      (summary : MemoSummary) (crow : Content) (md : Option String)
      → Keeps (SameNotes s) (new_content env ws summary crow md now)
  unfolding new_content
  new_content-SameNotes summary crow none = Keeps-pure _
  new_content-SameNotes summary crow (some md) =
      Keeps-bind (place env ws md now) _ (place-SameNotes md) λ p. Keeps-pure _

  pub snapshot_if-SameNotes :
      (changed : Bool) (memo_id : String) (summary : MemoSummary) (actor_id id : String)
      → Keeps (SameNotes s) (snapshot_if changed env memo_id summary actor_id now id)
  unfolding snapshot_if maybe_snapshot
  snapshot_if-SameNotes true memo_id summary actor_id id = record { at = λ t h. ground arith }
  snapshot_if-SameNotes false memo_id summary actor_id id = Keeps-pure tt
