-- ===== src/Sync.antt =====
-- crates/store/src/sync_repo.rs: the append-only change log, its reading in folded pages, the
-- cursors of the devices and the compaction of the log.
pub mod Fold
pub mod Page
pub mod Append
pub mod CatchUp
pub mod Compact
pub mod Operations
pub mod Inventory
pub mod Tests
use panda_server.Prelude.{
  ℕ, zero, suc, ◌+◌, ◌-◌, ◌*◌, ◌^◌, ℤ, pos, negsuc, String, Bool, true, false, ◌&&◌, Option, none,
  some, List, [], ◌∷◌, ◌++◌, ◌==◌, eqb, ltb, leb, if◌then◌else◌, unwrap_or, clamp, length, take,
  get_last?, map,
}
use Prim.Native.Nat.{min, max}
use panda_server.Prelude.Sql.{find, select, update, delete, count, order_by}
use panda_server.Domain.Error.{Result, ok, err}
use panda_server.Store.Rows.{Timestamp, Change, SyncMeta, DeviceCursor}
use panda_server.Store.State.{Store}
use panda_server.Store.Action.{Action}
use panda_server.Notebooks.Queries.{int_leb}

-- `last_insert_rowid` of an AUTOINCREMENT key is one more than any key that was ever used.
unfoldable pub append_unlocked :
    String → String → String → String → String → Option String → String → Timestamp → Action ℕ
append_unlocked ws entity_type entity_id operation payload_kind payload_json fold_key now s =
    let id = s.last_change_id + 1 in
    let row : Change = record {
      id = id;
      workspace_id = ws;
      entity_type = entity_type;
      entity_id = entity_id;
      operation = operation;
      payload_kind = payload_kind;
      payload_json = payload_json;
      fold_key = fold_key;
      created_at = now;
    } in
    (ok id, record s { sync_changes = s.sync_changes ++ row ∷ []; last_change_id = id })

meta_epoch : Option SyncMeta → ℕ
meta_epoch none = 1
meta_epoch (some m) = m.sync_epoch

unfoldable pub epoch : String → Store → ℕ
unfolding meta_epoch
epoch ws s = meta_epoch (find (λ m. m.workspace_id == ws) s.sync_meta)

-- `MAX(id)`, or 0 where there is no row
abbrev pub max_id : List Change → ℕ
max_id [] = 0
max_id (c ∷ cs) = max c.id (max_id cs)

abbrev pub max_cursor : String → Store → ℕ
max_cursor ws s = max_id (select (λ c. c.workspace_id == ws) s.sync_changes)

-- `v as i64` of a `u64`
abbrev pub as_i64 : ℕ → ℤ
as_i64 v = if ltb v (2 ^ 63) then pos v else negsuc (2 ^ 64 - 1 - v)

abbrev pub is_below : ℤ → ℕ → Bool
is_below (pos m) id = ltb m id
is_below (negsuc m) id = true

-- `id > after as i64`: a cursor from 2^63 on is negative as an `i64`, and every id is above it.
abbrev pub is_above : ℕ → ℕ → Bool
is_above after id = is_below (as_i64 after) id

-- `latest.insert(row.fold_key, row)`. A HashMap has no order of its own: here an entry that is
-- written again moves to the end, and the values are sorted by id when they are taken out.
abbrev pub put_latest : Change → List Change → List Change
put_latest row m = delete (λ c. c.fold_key == row.fold_key) m ++ row ∷ []

pub latest : List Change → List Change → List Change
latest m [] = m
latest m (row ∷ rows) = latest (put_latest row m) rows

abbrev pub by_id : Change → Change → Bool
by_id a b = leb a.id b.id

pub fold_page : List Change → List Change
unfolding latest
fold_page rows = order_by by_id (latest [] rows)

abbrev pub last_id : Option Change → ℕ → ℕ
last_id none after = after
last_id (some c) after = c.id

abbrev pub Page : Type 0
Page = List Change × ℕ × Bool

-- The rows of a page, folded. `rows.pop()` of the row that was read beyond the limit leaves the first
-- `limit` rows.
pub pull_rows : String → ℕ → ℤ → Store → Page
pull_rows ws after limit s =
    let limit = clamp limit 1 500 in
    let rows =
      take (limit + 1) (
        order_by by_id
          (select (λ c. c.workspace_id == ws && is_above after c.id) s.sync_changes)) in
    let has_more = ltb limit (length rows) in
    let rows = if has_more then take limit rows else rows in
    (fold_page rows, last_id (get_last? rows) after, has_more)

-- `proto::SyncChange`
pub record SyncChange : Type 0 where
  pub id : ℕ
  pub entity_type : String
  pub entity_id : String
  pub operation : String
  pub payload_kind : String
  pub payload_json : Option String
  pub created_at : Timestamp

abbrev pub to_message : Change → SyncChange
to_message c = record {
  id = c.id;
  entity_type = c.entity_type;
  entity_id = c.entity_id;
  operation = c.operation;
  payload_kind = c.payload_kind;
  payload_json = c.payload_json;
  created_at = c.created_at;
}

unfoldable pub pull : String → ℕ → ℤ → Store → List SyncChange × ℕ × Bool
pull ws after limit s =
    let page = pull_rows ws after limit s in (map to_message page.0, page.1, page.2)

abbrev pub upsert_device_cursor : String → String → String → ℕ → Timestamp → Store → Store
upsert_device_cursor ws device_id user_id cursor now s =
    let epoch = epoch ws s in
    let same = λ (d : DeviceCursor). d.workspace_id == ws && d.device_id == device_id in
    let fresh : DeviceCursor = record {
      workspace_id = ws;
      device_id = device_id;
      user_id = user_id;
      cursor = as_i64 cursor;
      sync_epoch = epoch;
      last_seen_at = now;
      created_at = now;
    } in
    let seen = λ (d : DeviceCursor).
      let r : DeviceCursor = record d {
        cursor = as_i64 cursor;
        sync_epoch = epoch;
        last_seen_at = now;
        user_id = user_id;
      } in
      r in
    elim (find same s.device_cursors) [
      | none ↦ record s { device_cursors = s.device_cursors ++ fresh ∷ [] }
      | some d ↦ record s { device_cursors = update same seen s.device_cursors }
    ]

-- `MIN(cursor)`, or 0 where there is no row (`unwrap_or(0)`)
min_int : ℤ → ℤ → ℤ
min_int a b = if int_leb a b then a else b

min_cursor : List DeviceCursor → ℤ
unfolding min_int
min_cursor [] = pos 0
min_cursor (d ∷ []) = d.cursor
min_cursor (d ∷ e ∷ ds) = min_int d.cursor (min_cursor (e ∷ ds))

-- `chrono::Duration::days`
abbrev pub days : ℕ → ℕ
days n = n * 86400

drop_stale : String → Timestamp → Store → Store
drop_stale ws cutoff s = record s {
  device_cursors = delete (λ d. d.workspace_id == ws && ltb d.last_seen_at cutoff) s.device_cursors;
}

drop_changes : String → ℕ → Timestamp → Store → ℕ × Store
drop_changes ws watermark now s =
    let old = λ (c : Change). c.workspace_id == ws && ltb c.id watermark in
    let deleted = count old s.sync_changes in
    let kept : Store = record s { sync_changes = delete old s.sync_changes } in
    let bumped = λ (m : SyncMeta).
      let r : SyncMeta = record m { sync_epoch = m.sync_epoch + 1; updated_at = now } in r in
    let next : Store = record kept {
      sync_meta = update (λ m. m.workspace_id == ws) bumped s.sync_meta;
    } in
    (deleted, if ltb 0 deleted then next else kept)

-- `if watermark <= 0 { return Ok(0) }`
compact_below : String → ℤ → Timestamp → Store → ℕ × Store
unfolding drop_changes
compact_below ws (negsuc n) now live = (0, live)
compact_below ws (pos n) now live = if eqb n 0 then (0, live) else drop_changes ws n now live

compact_live : String → Timestamp → Store → ℕ × Store
unfolding min_cursor compact_below
compact_live ws now live =
    compact_below ws (min_cursor (select (λ d. d.workspace_id == ws) live.device_cursors)) now live

-- The deleted rows are counted in the result.
pub compact : String → ℕ → Timestamp → Store → ℕ × Store
unfolding compact_live drop_stale
compact ws device_ttl_days now s =
    compact_live ws now (drop_stale ws (now - days device_ttl_days) s)
