-- ===== src/Notebooks/Tests.antt =====
-- Runs of the notebook repository on concrete input.
use panda_server.Prelude.{
  pos, false, none, some, [], ◌∷◌, ◌≡◌, refl, arith, ◌==◌, eq_iff, Bool-cases, inl, inr,
}
use panda_server.Domain.Error.{ok}
use panda_server.Store.Rows.{Notebook}
use panda_server.Store.State.{Store}
use panda_server.Store.Example.{example_env, empty_store}
use panda_server.Notebooks.Queries.{default_inbox_id}
use panda_server.Notebooks.Steps.{run, create_step, delete_step}
use panda_server.Notebooks.Tree.Methods.{run-IsTree}
use panda_server.Notebooks.Tree.{IsTree}
use panda_server.Notebooks.Inbox.{HasKeys, default_inbox_id-run}

abbrev inbox : Notebook
inbox = record {
  id = "n1";
  workspace_id = "w";
  parent_id = none;
  name = "Inbox";
  slug = some "inbox";
  path = "/n1";
  depth = 0;
  sort_order = pos 0;
  is_deleted = false;
  created_at = 50;
  updated_at = 50;
}

abbrev work : Notebook
work = record inbox {
  id = "n2";
  name = "Work";
  slug = none;
  parent_id = some "n1";
  path = "/n1/n2";
  depth = 1;
}

abbrev shelf : Store
shelf = record empty_store { notebooks = inbox ∷ work ∷ [] }

shelf-IsTree : IsTree shelf
shelf-IsTree = ((refl, refl), ((refl, refl), tt))

shelf-HasKeys : HasKeys shelf
shelf-HasKeys = record {
  unique = λ id. elim (Bool-cases ("n1" == id)) [
    | inl same ↦ ground (arith, eq_iff "n1" id, eq_iff "n2" id, eq_iff "n1" "n2")
    | inr other ↦ ground arith
  ];
}

run-IsTree_example :
    IsTree (run example_env "w" 100 (create_step "Plans" (some "n2") none "n3") shelf)
run-IsTree_example =
    run-IsTree example_env "w" 100 (create_step "Plans" (some "n2") none "n3") shelf shelf-IsTree

default_inbox_id-run_example :
    default_inbox_id "w" (run example_env "w" 100 (delete_step "n1") shelf) ≡ ok "n1"
default_inbox_id-run_example =
    default_inbox_id-run example_env "w" "w" "n1" 100 (delete_step "n1") shelf shelf-HasKeys
      (record { row = inbox; found = refl; named = refl })
