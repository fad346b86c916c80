-- ===== src/Sync/Append.antt =====
-- Writing to the change log keeps it well.
use panda_server.Prelude.{◌<◌, String, Option, [], ◌∷◌, ◌++◌, ◌≡◌, All}
use panda_server.Store.Rows.{Change}
use panda_server.Store.State.{Store}
use panda_server.Sync.Page.{IsLog}

-- What stands behind a log that has one more row than another.
pub record IsAppended (ws entity_type entity_id operation kind : String) (payload : Option String)
    (key : String) (s : Store) (row : Change) (t : Store) : Type 0 where
  pub last : t.sync_changes ≡ s.sync_changes ++ row ∷ []
  pub above : All (λ c. c.id < row.id) s.sync_changes
  pub workspace : row.workspace_id ≡ ws
  pub entity : (row.entity_type ≡ entity_type) × (row.entity_id ≡ entity_id)
  pub change : row.operation ≡ operation
  pub content : (row.payload_kind ≡ kind) × (row.payload_json ≡ payload)
  pub folded : row.fold_key ≡ key
  pub well_kept : IsLog t
