-- ===== src/Sync/Inventory/Tests.antt =====
-- Starting a device from an inventory on concrete input.
use panda_server.Prelude.{ℕ, pos, String, none, List, [], ◌∷◌, ◌++◌, ◌==◌, ◌≡◌, refl, arith}
use panda_server.Prelude.Sql.{select}
use panda_server.Store.Rows.{Change}
use panda_server.Store.State.{Store}
use panda_server.Store.Example.{empty_store}
use panda_server.Sync.Fold.{newest}
use panda_server.Sync.CatchUp.{catch_up}
use panda_server.Sync.Inventory.{Reads, inventory}
use panda_server.Sync.Inventory.Start.{catch_up-inventory}

abbrev entry : ℕ → String → String → Change
entry id ws key = record {
  id = id;
  workspace_id = ws;
  entity_type = "memo";
  entity_id = key;
  operation = "upsert";
  payload_kind = "meta";
  payload_json = none;
  fold_key = key;
  created_at = 100;
}

abbrev early : Store
early = record empty_store {
  sync_changes = entry 1 "w" "memo:a" ∷ entry 2 "v" "memo:b" ∷ [];
  last_change_id = 2;
}

abbrev added : List Change
added = entry 3 "w" "memo:c" ∷ entry 4 "w" "memo:a" ∷ []

abbrev grown : Store
grown = record early { sync_changes = early.sync_changes ++ added; last_change_id = 4 }

abbrev reads : Reads
reads = record { notebooks = early; memos = early; todos = early; epoch = early; cursor = early }

catch_up-inventory_example :
    newest (catch_up 3 "w" (inventory "w" none (pos 10) reads).cursor (pos 1) grown)
    ≡ newest (select (λ c. c.workspace_id == "w") added)
catch_up-inventory_example =
    catch_up-inventory 3 "w" none (pos 10) (pos 1) reads grown added
      record {
        ascending = (
          (omega arith, (omega arith, (omega arith, tt))),
          ((omega arith, (omega arith, tt)), ((omega arith, tt), (tt, tt))),
        );
        given = (omega arith, (omega arith, (omega arith, (omega arith, tt))));
        fits = omega arith;
      }
      refl (omega arith, (omega arith, tt)) (omega arith)
