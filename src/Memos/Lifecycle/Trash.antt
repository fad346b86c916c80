-- ===== src/Memos/Lifecycle/Trash.antt =====
-- Notes in the trash (crates/store/src/memos.rs, `soft_delete` and `restore`).
use panda_server.Prelude.{String, true, false, none, some, ◌≡◌, refl, ap, ◌∙◌}
use panda_server.Prelude.Sql.{find, update, find-update, find-holds}
use panda_server.Store.Rows.{Timestamp, Memo}
use panda_server.Store.Env.{Env}
use panda_server.Store.State.{Store}
use panda_server.Store.Action.{◌>>=◌}
use panda_server.Sync
use panda_server.Memos.Queries.{is_memo}
use panda_server.Memos.Lifecycle.{
  log_meta, write_memo, trashed, recovered, move_to_trash, soft_delete, restore,
}

find-rewritten :
    (ws memo_id : String) (f : Memo → Memo) (s : Store) {m : Memo}
    → ((x : Memo) → is_memo ws memo_id x ≡ true → is_memo ws memo_id (f x) ≡ true)
    → find (is_memo ws memo_id) s.memos ≡ some m
    → find (is_memo ws memo_id) (update (is_memo ws memo_id) f s.memos) ≡ some (f m)
find-rewritten ws memo_id f s {m} keep row =
    find-update (is_memo ws memo_id) (is_memo ws memo_id) (is_memo ws memo_id) f s.memos (λ y h. h)
      (λ y h. h) row (find-holds (is_memo ws memo_id) s.memos row)
      (keep m (find-holds (is_memo ws memo_id) s.memos row))

soft_delete-memos :
    (env : Env) (ws memo_id : String) (now : Timestamp) (s : Store)
    → (soft_delete env ws memo_id false now s).1.memos
      ≡ update (is_memo ws memo_id) (trashed now) s.memos
unfolding soft_delete move_to_trash write_memo log_meta Sync.append_unlocked ◌>>=◌
soft_delete-memos env ws memo_id now s = refl

restore-memos :
    (env : Env) (ws memo_id : String) (now : Timestamp) (s : Store)
    → (restore env ws memo_id now s).1.memos ≡ update (is_memo ws memo_id) (recovered now) s.memos
unfolding restore write_memo log_meta Sync.append_unlocked ◌>>=◌
restore-memos env ws memo_id now s = refl

-- A note that is moved to the trash and restored from it is found with all its columns, but for the
-- time of its change and the time of its deletion, which is empty.
pub restore-soft_delete :
    (env : Env) (ws memo_id : String) (now later : Timestamp) (s : Store) {m : Memo}
    → find (is_memo ws memo_id) s.memos ≡ some m
    → find
        (is_memo ws memo_id)
        (restore env ws memo_id later (soft_delete env ws memo_id false now s).1).1.memos
      ≡ some (record m { is_deleted = false; deleted_at = none; updated_at = later })
restore-soft_delete env ws memo_id now later s {m} row =
    let gone = (soft_delete env ws memo_id false now s).1 in
    let in_trash : find (is_memo ws memo_id) gone.memos ≡ some (trashed now m) =
      ap (find (is_memo ws memo_id)) (soft_delete-memos env ws memo_id now s)
      ∙ find-rewritten ws memo_id (trashed now) s (λ x h. h) row in
    ap (find (is_memo ws memo_id)) (restore-memos env ws memo_id later gone)
    ∙ find-rewritten ws memo_id (recovered later) gone (λ x h. h) in_trash
