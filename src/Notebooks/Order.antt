-- ===== src/Notebooks/Order.antt =====
-- crates/store/src/notebooks.rs: `reorder`.
use panda_server.Prelude.{
  ℕ, ◌+◌, pos, String, Bool, true, not, ◌&&◌, ◌||◌, ◌==◌, Option, some, List, [], ◌∷◌, eqb,
  if◌then◌else◌, is_some, length,
}
use panda_server.Prelude.Sql.{find, select, order_by}
use panda_server.Domain.Error.{Result, ok, invalid, fail_if}
use panda_server.Store.Rows.{Timestamp, Notebook}
use panda_server.Store.Env.{Env, str, num}
use panda_server.Store.State.{Store}
use panda_server.Store.Action.{Action, ◌>>=◌, ◌>>◌, pure, lift, reads}
use panda_server.Notebooks.Queries.{Listed, has_key, by_order, list}
use panda_server.Notebooks.Edit.{opt_str, is_sibling, log_notebook, write_rows}

abbrev pub contains : String → List String → Bool
contains id ids = is_some (find (λ x. x == id) ids)

-- `collect::<HashSet<_>>()`
abbrev pub distinct : List String → List String
distinct [] = []
distinct (id ∷ ids) = let rest = distinct ids in if contains id rest then rest else id ∷ rest

abbrev ids_of : List Notebook → List String
ids_of [] = []
ids_of (n ∷ ns) = n.id ∷ ids_of ns

abbrev pub all_in : List String → List String → Bool
all_in [] supplied = true
all_in (id ∷ ids) supplied = contains id supplied && all_in ids supplied

pub sibling_ids : String → Option String → Store → List String
sibling_ids ws parent_id s =
    ids_of (order_by by_order (select (is_sibling ws parent_id) s.notebooks))

abbrev pub check_siblings : List String → List String → Result (Unit {0})
check_siblings ids siblings =
    let supplied = distinct ids in
    fail_if
      (not (eqb (length supplied) (length ids))
        || not (eqb (length supplied) (length siblings))
        || not (all_in siblings supplied))
      (invalid "notebook_ids must contain every sibling exactly once")

abbrev pub ordered : ℕ → Timestamp → Notebook → Notebook
ordered i now n = record n { sort_order = pos i; updated_at = now }

-- The UPDATEs of the transaction, from the position `i` on.
unfoldable pub write_orders : String → ℕ → List String → Timestamp → Action (Unit {0})
write_orders ws i [] now = pure tt
write_orders ws i (id ∷ ids) now = do
  write_rows (has_key ws id) (ordered i now)
  write_orders ws (i + 1) ids now

unfoldable pub log_orders :
    Env → String → Option String → ℕ → List String → Timestamp → Action (Unit {0})
log_orders env ws parent_id i [] now = pure tt
log_orders env ws parent_id i (id ∷ ids) now = do
  log_notebook ws id "upsert" "meta"
      (some (
        env.object_to_json
          (("id", str id) ∷ ("parent_id", opt_str parent_id) ∷ ("sort_order", num i) ∷ [])))
      now
  log_orders env ws parent_id (i + 1) ids now

unfoldable pub reorder :
    Env → String → Option String → List String → Timestamp → Action (List Listed)
reorder env ws parent_id ids now = do
  siblings ← reads (λ s. ok (sibling_ids ws parent_id s))
  lift (check_siblings ids siblings)
  write_orders ws 0 ids now
  log_orders env ws parent_id 0 ids now
  reads (λ s. ok (list ws s))
