-- ===== src/Notebooks/Steps.antt =====
-- The methods of crates/store/src/notebooks.rs that write, as one type of steps.
use panda_server.Prelude.{ℤ, String, Option, List}
use panda_server.Store.Rows.{Timestamp}
use panda_server.Store.Env.{Env}
use panda_server.Store.State.{Store}
use panda_server.Notebooks.Edit.{create, rename, soft_delete}
use panda_server.Notebooks.Order.{reorder}

-- The methods that write, with their arguments.
pub data Step : Type 0 where
  create_step : String → Option String → Option ℤ → String → Step
  rename_step : String → String → Step
  reorder_step : Option String → List String → Step
  delete_step : String → Step

unfoldable pub run : Env → String → Timestamp → Step → Store → Store
run env ws now (create_step name parent_id sort_order id) s =
    (create env ws name parent_id sort_order id now s).1
run env ws now (rename_step id name) s = (rename env ws id name now s).1
run env ws now (reorder_step parent_id ids) s = (reorder env ws parent_id ids now s).1
run env ws now (delete_step id) s = (soft_delete ws id now s).1
