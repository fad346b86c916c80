-- ===== src/Sync/Tests.antt =====
-- Runs of the change log on concrete input.
use panda_server.Prelude.{
  ℕ, ◌+◌, pos, String, none, [], ◌∷◌, ◌≡◌, refl, arith, eq_iff, ltb, if◌then◌else◌, take, length,
  get_last?, map,
}
use mathlib.Core.List.{Memᴰ}
use panda_server.Store.Rows.{Change, DeviceCursor, SyncMeta}
use panda_server.Store.State.{Store}
use panda_server.Store.Example.{empty_store}
use panda_server.Sync.{epoch, last_id, to_message, pull, compact}
use panda_server.Sync.Fold.{newest}
use panda_server.Sync.Page.{IsLog, pending, pull-eq-newest}
use panda_server.Sync.CatchUp.{catch_up, catch_up-converges}
use panda_server.Sync.Compact.{pull-compact, pull-compact_other, epoch-compact}

abbrev entry : ℕ → String → String → Change
entry id ws key = record {
  id = id;
  workspace_id = ws;
  entity_type = "memo";
  entity_id = key;
  operation = "upsert";
  payload_kind = "meta";
  payload_json = none;
  fold_key = key;
  created_at = 100;
}

abbrev phone : DeviceCursor
phone = record {
  workspace_id = "w";
  device_id = "phone";
  user_id = "u";
  cursor = pos 2;
  sync_epoch = 1;
  last_seen_at = 200000;
  created_at = 100;
}

abbrev laptop : DeviceCursor
laptop = record phone { device_id = "laptop"; cursor = pos 1; last_seen_at = 0 }

abbrev meta : SyncMeta
meta = record { workspace_id = "w"; sync_epoch = 1; updated_at = 100 }

-- Three changes of one workspace and one of another; the laptop has not been seen for two days.
abbrev log : Store
log = record empty_store {
  sync_changes =
      entry 1 "w" "memo:a"
      ∷ entry 2 "w" "memo:b"
      ∷ entry 3 "v" "memo:c"
      ∷ entry 4 "w" "memo:a"
      ∷ [];
  last_change_id = 4;
  sync_meta = meta ∷ [];
  device_cursors = phone ∷ laptop ∷ [];
}

log-IsLog : IsLog log
log-IsLog = record { ascending = omega arith; given = omega arith; fits = omega arith }

pull-eq-newest_example : pull "w" 0 (pos 2) log ≡ (
  map to_message (newest (take 2 (pending "w" 0 log))),
  last_id (get_last? (take 2 (pending "w" 0 log))) 0,
  ltb 2 (length (pending "w" 0 log)),
)
pull-eq-newest_example = pull-eq-newest "w" 0 (pos 2) log log-IsLog

catch_up-converges_example : newest (catch_up 4 "w" 0 (pos 1) log) ≡ newest (pending "w" 0 log)
catch_up-converges_example =
    catch_up-converges 4 "w" 0 (pos 1) log log-IsLog (omega arith) (omega arith)

pull-compact_example : pull "w" 2 (pos 10) (compact "w" 1 200000 log).1 ≡ pull "w" 2 (pos 10) log
unfolding compact
pull-compact_example = pull-compact "w" 1 200000 log phone 2 (pos 10) (Memᴰ.head refl) refl

pull-compact_other_example :
    pull "v" 0 (pos 10) (compact "w" 1 200000 log).1 ≡ pull "v" 0 (pos 10) log
pull-compact_other_example =
    pull-compact_other "w" "v" 1 200000 log 0 (pos 10) (ground (arith, eq_iff "v" "w"))

epoch-compact_example :
    epoch "w" (compact "w" 1 200000 log).1
    ≡ epoch "w" log + (if ltb 0 (compact "w" 1 200000 log).0 then 1 else 0)
epoch-compact_example = epoch-compact "w" 1 200000 log meta refl
