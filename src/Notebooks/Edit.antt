-- ===== src/Notebooks/Edit.antt =====
-- crates/store/src/notebooks.rs: `create`, `rename` and `soft_delete`.
use Prim.Native.String
use panda_server.Prelude.{
  ℕ, zero, suc, ◌+◌, ℤ, pos, negsuc, String, Bool, true, false, not, ◌&&◌, ◌==◌, Option, none, some,
  List, [], ◌∷◌, ◌++◌, ltb, if◌then◌else◌, is_some, is_same, unwrap_or,
}
use panda_server.Prelude.Sql.{find, select, update, count}
use panda_server.Prelude.Text.{trim, is_empty}
use panda_server.Domain.Error.{
  Result, ok, err, invalid, internal, not_found, ok_or, and_then, fail_if,
}
use panda_server.Store.Rows.{Timestamp, Memo, Notebook}
use panda_server.Store.Env.{Env, Json, str, null}
use panda_server.Store.State.{Store}
use panda_server.Store.Action.{Action, ◌>>=◌, ◌>>◌, pure, lift, reads}
use panda_server.Sync
use panda_server.Notebooks.Queries.{has_key, get, Listed, memo_count, int_leb, is_inbox}

-- The path and the depth of a notebook under its parent, which may be a deleted one.
unfoldable pub place_of : String → Option String → String → Store → Result (String × ℕ)
place_of ws none id s = ok (String.◌++◌ "/" id, 0)
place_of ws (some pid) id s =
    and_then (ok_or (get ws pid s) (not_found "parent notebook not found"))
      λ parent. ok (String.◌++◌ parent.path (String.◌++◌ "/" id), parent.depth + 1)

-- `COALESCE(MAX(sort_order), -1)`
last_order : List Notebook → ℤ
last_order [] = negsuc 0
last_order (n ∷ []) = n.sort_order
last_order (n ∷ m ∷ ns) =
    let rest = last_order (m ∷ ns) in if int_leb rest n.sort_order then n.sort_order else rest

after_order : ℤ → ℤ
after_order (pos n) = pos (n + 1)
after_order (negsuc zero) = pos 0
after_order (negsuc (suc n)) = negsuc n

-- The live notebooks under one parent.
abbrev pub is_sibling : String → Option String → Notebook → Bool
is_sibling ws parent_id n =
    n.workspace_id == ws && is_same n.parent_id parent_id && not n.is_deleted

pub next_order : String → Option String → Store → ℤ
unfolding last_order after_order
next_order ws parent_id s = after_order (last_order (select (is_sibling ws parent_id) s.notebooks))

-- An optional text in a `json!` literal.
abbrev pub opt_str : Option String → Json
opt_str none = null
opt_str (some t) = str t

unfoldable pub log_notebook :
    String → String → String → String → Option String → Timestamp → Action (Unit {0})
log_notebook ws id operation kind payload now = do
  Sync.append_unlocked ws "notebook" id operation kind payload (String.◌++◌ "notebook:" id) now
  pure tt

unfoldable pub insert_row : Notebook → Action (Unit {0})
insert_row row s =
    let inserted : Store = record s { notebooks = s.notebooks ++ row ∷ [] } in
    if is_some (find (λ (n : Notebook). n.id == row.id) s.notebooks)
    then (err (internal "UNIQUE constraint failed: notebooks.id"), s)
    else (ok tt, inserted)

unfoldable pub write_rows : (Notebook → Bool) → (Notebook → Notebook) → Action (Unit {0})
write_rows which f s =
    let written : Store = record s { notebooks = update which f s.notebooks } in (ok tt, written)

abbrev pub new_notebook :
    String → String → Option String → String × ℕ → String → ℤ → Timestamp → Notebook
new_notebook ws name parent_id place id order now = record {
  id = id;
  workspace_id = ws;
  parent_id = parent_id;
  name = name;
  slug = none;
  path = place.0;
  depth = place.1;
  sort_order = order;
  is_deleted = false;
  created_at = now;
  updated_at = now;
}

unfoldable pub create :
    Env → String → String → Option String → Option ℤ → String → Timestamp → Action Listed
create env ws name parent_id sort_order id now = do
  place ← reads (place_of ws parent_id id)
  order ← reads (λ s. ok (unwrap_or sort_order (next_order ws parent_id s)))
  insert_row (new_notebook ws name parent_id place id order now)
  log_notebook ws id "upsert" "meta"
      (some (
        env.object_to_json
          (("id", str id) ∷ ("name", str name) ∷ ("parent_id", opt_str parent_id) ∷ [])))
      now
  pure (record { notebook = new_notebook ws name parent_id place id order now; memo_count = 0 })

abbrev pub is_live : String → String → Notebook → Bool
is_live ws id n = has_key ws id n && not n.is_deleted

abbrev pub renamed : String → Timestamp → Notebook → Notebook
renamed name now n = record n { name = name; updated_at = now }

unfoldable pub rename : Env → String → String → String → Timestamp → Action Listed
rename env ws id raw_name now = do
  row ← reads (λ s. ok_or (find (is_live ws id) s.notebooks) (not_found "notebook not found"))
  notes ← reads (λ s. ok (memo_count row.id s))
  lift (fail_if (is_inbox row) (invalid "cannot rename inbox"))
  lift (fail_if (is_empty (trim raw_name)) (invalid "name required"))
  write_rows (is_live ws id) (renamed (trim raw_name) now)
  log_notebook ws id "upsert" "meta"
      (some (env.object_to_json (("id", str id) ∷ ("name", str (trim raw_name)) ∷ []))) now
  pure (record { notebook = renamed (trim raw_name) now row; memo_count = notes })

abbrev pub removed : Timestamp → Notebook → Notebook
removed now n = record n { is_deleted = true; updated_at = now }

-- The notes that keep a notebook from being deleted.
abbrev pub notes_in : String → String → Store → ℕ
notes_in ws id s =
    count (λ (m : Memo). m.workspace_id == ws && m.notebook_id == id && not m.is_deleted) s.memos

unfoldable pub soft_delete : String → String → Timestamp → Action (Unit {0})
soft_delete ws id now = do
  row ← reads (λ s. ok_or (get ws id s) (not_found "notebook not found"))
  lift (fail_if (is_inbox row) (invalid "cannot delete inbox"))
  reads (λ s. fail_if (ltb 0 (notes_in ws id s)) (invalid "notebook not empty"))
  write_rows (has_key ws id) (removed now)
  log_notebook ws id "delete" "delete" none now
