-- ===== src/Sync/Inventory.antt =====
-- crates/store/src/sync_repo.rs: `inventory`, from which a device starts. Its reads are not in a
-- transaction, so each has the store that it finds.
pub mod Start
mod Tests
use panda_server.Prelude.{ℕ, ℤ, pos, String, Bool, Option, List, map}
use panda_server.Store.Messages.{TodoMessage}
use panda_server.Store.State.{Store}
use panda_server.Notebooks.Queries as Notebooks
use panda_server.Notebooks.Queries.{Listed}
use panda_server.Memos.List.{MemoInventoryItem, inventory_page}
use panda_server.Todos.Listing as Todos
use panda_server.Todos.Listing.{to_proto}
use panda_server.Sync.{epoch, max_cursor}

-- `PROTOCOL_VERSION`
abbrev pub protocol_version : ℕ
protocol_version = 1

pub record SyncInventoryResponse : Type 0 where
  pub protocol_version : ℕ
  pub sync_epoch : ℕ
  pub cursor : ℕ
  pub notebooks : List Listed
  pub memos : List MemoInventoryItem
  pub has_more : Bool
  pub next_memo_cursor : Option String
  pub todos : List TodoMessage

-- The stores that the five reads find, in their order.
pub record Reads : Type 0 where
  pub notebooks : Store
  pub memos : Store
  pub todos : Store
  pub epoch : Store
  pub cursor : Store

unfoldable pub inventory : String → Option String → ℤ → Reads → SyncInventoryResponse
inventory ws memo_after limit reads =
    let page = inventory_page ws memo_after limit reads.memos in
    record {
      protocol_version = protocol_version;
      sync_epoch = epoch ws reads.epoch;
      cursor = max_cursor ws reads.cursor;
      notebooks = Notebooks.list ws reads.notebooks;
      memos = page.items;
      has_more = page.has_more;
      next_memo_cursor = page.next;
      todos = map to_proto (Todos.inventory ws (pos 2000) reads.todos);
    }
