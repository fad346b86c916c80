-- ===== src/Notebooks/Tree/Methods.antt =====
-- Every method of crates/store/src/notebooks.rs keeps the tree of notebooks.
use panda_server.Prelude.{ℕ, ◌+◌, ℤ, String, Option, List, [], ◌∷◌, refl, unwrap_or}
use panda_server.Store.Rows.{Timestamp}
use panda_server.Store.Env.{Env}
use panda_server.Store.State.{Store}
use panda_server.Store.Action.{◌>>=◌}
use panda_server.Store.Action.Keeps.{
  Keeps, Keeps-bind, Keeps-pure, Keeps-after, Keeps-bind-reads, keeps_rules,
}
use panda_server.Notebooks.Queries.{has_key}
use panda_server.Notebooks.Edit.{
  place_of, next_order, log_notebook, insert_row, write_rows, new_notebook, create, is_live,
  renamed, rename, removed, soft_delete,
}
use panda_server.Notebooks.Order.{ordered, write_orders, log_orders, reorder}
use panda_server.Notebooks.Steps.{Step, create_step, rename_step, reorder_step, delete_step, run}
use panda_server.Notebooks.Tree.{
  IsTree, write_rows-IsTree, log_notebook-IsTree, place_of-IsAt, insert_row-IsTree,
}

module _ (env : Env) (ws : String) (now : Timestamp) where
  create-IsTree :
      (name : String) (parent_id : Option String) (sort_order : Option ℤ) (id : String)
      → Keeps IsTree (create env ws name parent_id sort_order id now)
  unfolding create ◌>>=◌
  create-IsTree name parent_id sort_order id =
      Keeps-bind-reads {P = IsTree} (place_of ws parent_id id) _ λ s h place at_place.
        let row =
          new_notebook ws name parent_id place id (unwrap_or sort_order (next_order ws parent_id s))
            now in
        Keeps-after {P = IsTree} (insert_row row) _ s
          (insert_row-IsTree row s h (place_of-IsAt ws parent_id id s place at_place))
          λ _.
            Keeps-bind (log_notebook ws id "upsert" "meta" _ now) _
              (log_notebook-IsTree ws id "upsert" "meta" _ now) λ _. Keeps-pure _

  renamed-IsTree : (id name : String) → Keeps IsTree (write_rows (is_live ws id) (renamed name now))
  renamed-IsTree id name =
      write_rows-IsTree _ _
        λ n. record { id = refl; workspace_id = refl; parent_id = refl; path = refl; depth = refl }

  rename-IsTree : (id raw_name : String) → Keeps IsTree (rename env ws id raw_name now)
  unfolding rename
  rename-IsTree id raw_name = search (keeps_rules, log_notebook-IsTree, renamed-IsTree) depth 13

  removed-IsTree : (id : String) → Keeps IsTree (write_rows (has_key ws id) (removed now))
  removed-IsTree id =
      write_rows-IsTree _ _
        λ n. record { id = refl; workspace_id = refl; parent_id = refl; path = refl; depth = refl }

  soft_delete-IsTree : (id : String) → Keeps IsTree (soft_delete ws id now)
  unfolding soft_delete
  soft_delete-IsTree id = search (keeps_rules, log_notebook-IsTree, removed-IsTree) depth 11

  write_orders-IsTree : (i : ℕ) (ids : List String) → Keeps IsTree (write_orders ws i ids now)
  unfolding write_orders
  write_orders-IsTree i [] = Keeps-pure tt
  write_orders-IsTree i (id ∷ ids) =
      Keeps-bind (write_rows (has_key ws id) (ordered i now)) _
        (write_rows-IsTree (has_key ws id) (ordered i now) λ n. record {
          id = refl;
          workspace_id = refl;
          parent_id = refl;
          path = refl;
          depth = refl;
        })
        λ _. write_orders-IsTree (i + 1) ids

  log_orders-IsTree :
      (parent_id : Option String) (i : ℕ) (ids : List String)
      → Keeps IsTree (log_orders env ws parent_id i ids now)
  unfolding log_orders
  log_orders-IsTree parent_id i [] = Keeps-pure tt
  log_orders-IsTree parent_id i (id ∷ ids) =
      Keeps-bind (log_notebook ws id "upsert" "meta" _ now) _
        (log_notebook-IsTree ws id "upsert" "meta" _ now)
        λ _. log_orders-IsTree parent_id (i + 1) ids

  reorder-IsTree :
      (parent_id : Option String) (ids : List String)
      → Keeps IsTree (reorder env ws parent_id ids now)
  unfolding reorder
  reorder-IsTree parent_id ids =
      search (keeps_rules, write_orders-IsTree, log_orders-IsTree) depth 11

-- Whatever is called, and whether the call succeeds or fails, the path and the depth of every notebook
-- stay those that its parent's, or its place as a root, give it.
pub run-IsTree :
    (env : Env) (ws : String) (now : Timestamp) (step : Step) (s : Store)
    → IsTree s
    → IsTree (run env ws now step s)
unfolding run
run-IsTree env ws now (create_step name parent_id sort_order id) s h =
    (create-IsTree env ws now name parent_id sort_order id).at s h
run-IsTree env ws now (rename_step id name) s h = (rename-IsTree env ws now id name).at s h
run-IsTree env ws now (reorder_step parent_id ids) s h =
    (reorder-IsTree env ws now parent_id ids).at s h
run-IsTree env ws now (delete_step id) s h = (soft_delete-IsTree env ws now id).at s h
