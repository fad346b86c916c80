-- ===== src/Memos/Snapshot.antt =====
-- crates/store/src/memos.rs, `maybe_snapshot`: the row of the revision that a save supersedes.
use panda_server.Prelude.{
  ℕ, ◌-◌, String, Bool, true, ◌&&◌, ◌||◌, Option, none, some, List, [], ◌∷◌, ◌++◌, ◌==◌, leb, eqb,
  if◌then◌else◌, is_some,
}
use panda_server.Prelude.Sql.{find, select, order_by}
use panda_server.Domain.Error.{ok, err, internal}
use panda_server.Store.Rows.{Timestamp, Revision}
use panda_server.Store.Env.{Env}
use panda_server.Store.State.{Store}
use panda_server.Store.Action.{Action}
use panda_server.Memos.Queries.{MemoSummary}

first_created : List Revision → Option Timestamp
first_created [] = none
first_created (r ∷ rs) = some r.created_at

-- `ORDER BY revision DESC LIMIT 1`
last_snapshot : String → Store → Option Timestamp
last_snapshot memo_id s = first_created (
    order_by (λ a b. leb b.revision a.revision)
      (select (λ r. r.memo_id == memo_id) s.memo_revisions))

-- A snapshot is due when there is none, when its time does not parse, or after 300 seconds. The
-- difference of times is signed: a time that lies ahead is no age.
is_old : Timestamp → Option ℕ → Bool
is_old now none = true
is_old now (some t) = leb 300 (now - t)

is_due : Env → Timestamp → Option Timestamp → Bool
is_due env now none = true
is_due env now (some ts) = is_old now (env.parse_from_rfc3339 ts)

-- The INSERT runs outside the transaction of the save; a memo has one row for a revision.
unfoldable pub maybe_snapshot :
    Env → String → MemoSummary → String → Timestamp → String → Action (Unit {0})
unfolding first_created last_snapshot is_old is_due
maybe_snapshot env memo_id summary actor_id now id s =
    let row : Revision = record {
      id = id;
      memo_id = memo_id;
      revision = summary.revision;
      title = summary.title;
      tags_json = env.tags_to_json summary.tags;
      content_hash = summary.content_hash;
      created_by = actor_id;
      created_at = now;
    } in
    let taken =
      λ (r : Revision). r.id == id || r.memo_id == memo_id && eqb r.revision summary.revision in
    let inserted : Store = record s { memo_revisions = s.memo_revisions ++ row ∷ [] } in
    if is_due env now (last_snapshot memo_id s)
    then (if is_some (find taken s.memo_revisions)
        then (err (internal "UNIQUE constraint failed: memo_revisions"), s)
        else (ok tt, inserted))
    else (ok tt, s)
