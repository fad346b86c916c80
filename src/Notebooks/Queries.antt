-- ===== src/Notebooks/Queries.antt =====
-- crates/store/src/notebooks.rs: `get`, `list` and `default_inbox_id`. A sort order is one that was
-- written as an `i32`, so the casts to `i32` of what is read are the identity.
use Prim.Native.String
use panda_server.Prelude.{
  ℕ, ℤ, pos, negsuc, String, Bool, true, false, not, ◌&&◌, ◌||◌, ◌==◌, Option, none, some, List, [],
  ◌∷◌, eqb, ltb, leb, is_same,
}
use Prim.Native.Nat.{Ordering}
use panda_server.Prelude.Sql.{find, select, count, order_by}
use panda_server.Domain.Error.{Result, ok, err, not_found}
use panda_server.Store.Rows.{Memo, Notebook}
use panda_server.Store.State.{Store}

abbrev pub has_key : String → String → Notebook → Bool
has_key ws id n = n.workspace_id == ws && n.id == id

-- `get`: a deleted notebook is found too
unfoldable pub get : String → String → Store → Option Notebook
get ws id s = find (has_key ws id) s.notebooks

-- A notebook as the queries return it, with the count of its notes.
pub record Listed : Type 0 where
  pub notebook : Notebook
  pub memo_count : ℕ

abbrev pub memo_count : String → Store → ℕ
memo_count id s = count (λ (m : Memo). m.notebook_id == id && not m.is_deleted) s.memos

-- The order of `INTEGER`s.
abbrev pub int_leb : ℤ → ℤ → Bool
int_leb (pos m) (pos n) = leb m n
int_leb (pos m) (negsuc n) = false
int_leb (negsuc m) (pos n) = true
int_leb (negsuc m) (negsuc n) = leb n m

-- The order of texts by their bytes, which is that of their characters' codes.
abbrev pub text_leb : String → String → Bool
text_leb a b = elim (String.compare a b) [ Ordering.gt ↦ false | _ ↦ true ]

-- `ORDER BY sort_order, name`
abbrev pub by_order : Notebook → Notebook → Bool
by_order a b =
    int_leb a.sort_order b.sort_order
    && (not (int_leb b.sort_order a.sort_order) || text_leb a.name b.name)

-- `ORDER BY depth, sort_order, name`
abbrev by_place : Notebook → Notebook → Bool
by_place a b = ltb a.depth b.depth || eqb a.depth b.depth && by_order a b

-- `ORDER BY depth, sort_order`
abbrev by_depth : Notebook → Notebook → Bool
by_depth a b = ltb a.depth b.depth || eqb a.depth b.depth && int_leb a.sort_order b.sort_order

abbrev pub with_counts : Store → List Notebook → List Listed
with_counts s [] = []
with_counts s (n ∷ ns) = record { notebook = n; memo_count = memo_count n.id s } ∷ with_counts s ns

pub list : String → Store → List Listed
list ws s =
    with_counts s
      (order_by by_place (select (λ n. n.workspace_id == ws && not n.is_deleted) s.notebooks))

abbrev pub is_inbox : Notebook → Bool
is_inbox n = is_same n.slug (some "inbox")

abbrev pub is_inbox_of : String → Notebook → Bool
is_inbox_of ws n = n.workspace_id == ws && is_inbox n && not n.is_deleted

first_id : List Notebook → Result String
first_id [] = err (not_found "no notebook")
first_id (n ∷ ns) = ok n.id

unfoldable pub default_inbox_id : String → Store → Result String
unfolding first_id
default_inbox_id ws s = elim (find (is_inbox_of ws) s.notebooks) [
  | some n ↦ ok n.id
  | none ↦
      first_id
        (order_by by_depth (select (λ n. n.workspace_id == ws && not n.is_deleted) s.notebooks))
]
