-- ===== src/Notebooks/Tree.antt =====
-- The tree of notebooks (crates/store/src/notebooks.rs): each notebook's path and depth extend those
-- of its parent.
pub mod Methods
use Prim.Native.String
use panda_server.Prelude.{
  ℕ, ◌+◌, ℤ, String, Bool, true, false, Option, none, some, List, [], ◌∷◌, ◌++◌, ◌≡◌, refl, arith,
  ◌==◌, if◌then◌else◌, Bool-cases, Option-cases, inl, inr, is_some, All, All-append, unwrap_or,
}
use panda_server.Prelude.Sql.{find, update}
use panda_server.Prelude.Keys.{find-append, find-update_kept}
use panda_server.Domain.Error.{ok}
use panda_server.Store.Rows.{Timestamp, Notebook}
use panda_server.Store.Env.{Env}
use panda_server.Store.State.{Store}
use panda_server.Store.Action.{◌>>=◌}
use panda_server.Store.Action.Keeps.{
  Keeps, Keeps-bind, Keeps-pure, Keeps-after, Keeps-bind-reads, keeps_rules,
}
use panda_server.Sync
use panda_server.Notebooks.Queries.{has_key, get}
use panda_server.Notebooks.Edit.{
  place_of, next_order, log_notebook, insert_row, write_rows, new_notebook, create, is_live,
  renamed, rename, removed, soft_delete,
}
use panda_server.Notebooks.Order.{ordered, write_orders, log_orders, reorder}

-- A child's path is its parent's with its own id behind it, one level deeper.
abbrev pub IsUnder : Option Notebook → String → String → ℕ → Type 0
IsUnder none id path depth = ⊥
IsUnder (some p) id path depth =
    (path ≡ String.◌++◌ p.path (String.◌++◌ "/" id)) × (depth ≡ p.depth + 1)

-- A root has its id for a path, and depth 0.
abbrev pub IsAt : List Notebook → String → Option String → String → String → ℕ → Type 0
IsAt ns ws none id path depth = (path ≡ String.◌++◌ "/" id) × (depth ≡ 0)
IsAt ns ws (some pid) id path depth = IsUnder (find (has_key ws pid) ns) id path depth

abbrev pub IsPlaced : List Notebook → Notebook → Type 0
IsPlaced ns n = IsAt ns n.workspace_id n.parent_id n.id n.path n.depth

-- Every notebook of the table is placed in it.
abbrev pub IsTree : Store → Type 0
IsTree s = All (IsPlaced s.notebooks) s.notebooks

-- What no method changes in a notebook.
pub record SamePlace (m n : Notebook) : Type 0 where
  pub id : n.id ≡ m.id
  pub workspace_id : n.workspace_id ≡ m.workspace_id
  pub parent_id : n.parent_id ≡ m.parent_id
  pub path : n.path ≡ m.path
  pub depth : n.depth ≡ m.depth

IsAt-append :
    (ns ms : List Notebook) (ws : String) (parent_id : Option String) (id path : String) (depth : ℕ)
    → IsAt ns ws parent_id id path depth
    → IsAt (ns ++ ms) ws parent_id id path depth
IsAt-append ns ms ws none id path depth h = h
IsAt-append ns ms ws (some pid) id path depth h = elim (Option-cases (find (has_key ws pid) ns)) [
  | inl missing ↦ absurd (rw missing at h)
  | inr (p, found) ↦ rw (find-append (has_key ws pid) ns ms found) (rw found at h)
]

module _ (q : Notebook → Bool) (f : Notebook → Notebook)
    (keep : (n : Notebook) → SamePlace n (f n)) where
  has_key-kept : (ws id : String) (n : Notebook) → has_key ws id (f n) ≡ has_key ws id n
  has_key-kept ws id n = rw ((keep n).workspace_id, (keep n).id)

  IsUnder-kept :
      (b : Bool) (p : Notebook) (id path : String) (depth : ℕ)
      → IsUnder (some p) id path depth
      → IsUnder (some (if b then f p else p)) id path depth
  IsUnder-kept true p id path depth h = rw ((keep p).path, (keep p).depth) h
  IsUnder-kept false p id path depth h = h

  IsAt-update :
      (ns : List Notebook) (ws : String) (parent_id : Option String) (id path : String) (depth : ℕ)
      → IsAt ns ws parent_id id path depth
      → IsAt (update q f ns) ws parent_id id path depth
  IsAt-update ns ws none id path depth h = h
  IsAt-update ns ws (some pid) id path depth h = elim (Option-cases (find (has_key ws pid) ns)) [
    | inl missing ↦ absurd (rw missing at h)
    | inr (p, found) ↦
        rw (find-update_kept (has_key ws pid) q f ns (has_key-kept ws pid) found)
          (IsUnder-kept (q p) p id path depth (rw found at h))
  ]

  All-IsPlaced-update :
      (all ns : List Notebook)
      → All (IsPlaced all) ns
      → All (IsPlaced (update q f all)) (update q f ns)
  All-IsPlaced-update all [] h = tt
  All-IsPlaced-update all (n ∷ ns) (h, t) =
      let here = IsAt-update all n.workspace_id n.parent_id n.id n.path n.depth h in
      let k = keep n in
      elim (Bool-cases (q n)) [
        | inl hit ↦ rw hit (
          rw (k.workspace_id, k.parent_id, k.id, k.path, k.depth) here,
          All-IsPlaced-update all ns t,
        )
        | inr miss ↦ rw miss (here, All-IsPlaced-update all ns t)
      ]

  write_rows-IsTree : Keeps IsTree (write_rows q f)
  unfolding write_rows
  write_rows-IsTree = record { at = λ s h. All-IsPlaced-update s.notebooks s.notebooks h }

All-IsPlaced-append :
    (all ms ns : List Notebook) → All (IsPlaced all) ns → All (IsPlaced (all ++ ms)) ns
All-IsPlaced-append all ms [] h = tt
All-IsPlaced-append all ms (n ∷ ns) (h, t) = (
  IsAt-append all ms n.workspace_id n.parent_id n.id n.path n.depth h,
  All-IsPlaced-append all ms ns t,
)

log_notebook-IsTree :
    (ws id operation kind : String) (payload : Option String) (now : Timestamp)
    → Keeps IsTree (log_notebook ws id operation kind payload now)
unfolding log_notebook Sync.append_unlocked ◌>>=◌
log_notebook-IsTree ws id operation kind payload now = record { at = λ s h. h }

place_of-IsAt :
    (ws : String) (parent_id : Option String) (id : String) (s : Store) (place : String × ℕ)
    → place_of ws parent_id id s ≡ ok place
    → IsAt s.notebooks ws parent_id id place.0 place.1
unfolding place_of get
place_of-IsAt ws none id s place h = ground arith
place_of-IsAt ws (some pid) id s place h = elim (Option-cases (find (has_key ws pid) s.notebooks)) [
  | inl missing ↦ absurd (cc (rw missing at h))
  | inr (p, found) ↦ let at_p = rw found at h in rw found (ground arith)
]

insert_row-IsTree :
    (row : Notebook) (s : Store) → IsTree s → IsPlaced s.notebooks row → IsTree (insert_row row s).1
unfolding insert_row
insert_row-IsTree row s h placed =
    elim (Bool-cases (is_some (find (λ (n : Notebook). n.id == row.id) s.notebooks))) [
      | inl taken ↦ rw taken h
      | inr free ↦ rw free (
          All-append (IsPlaced (s.notebooks ++ row ∷ [])) s.notebooks (row ∷ [])
            (All-IsPlaced-append s.notebooks (row ∷ []) s.notebooks h)
            (
              IsAt-append s.notebooks (row ∷ []) row.workspace_id row.parent_id row.id row.path
                  row.depth placed,
              tt,
            ))
    ]
