-- ===== src/Memos/List/Paging.antt =====
-- Following the cursors of `list` and `inventory_page` (crates/store/src/memos.rs) to the end.

use panda_server.Prelude.{
  ℕ, ◌+◌, ◌<◌, ℤ, pos, negsuc, if◌then◌else◌, clamp, String, Bool, true, false, ◌&&◌, Option, none,
  some, List, ◌==◌, ◌≡◌, refl, sym, ap, ◌∙◌, arith, Bool-cases, inl, inr, ltb, length, take, drop,
  get_last?, map,
}
use panda_server.Prelude.Sql.{select, order_by}
use panda_server.Prelude.Sorted.{Decides, order_by-IsSorted, order_by-select, select-lt_page}
use panda_server.Prelude.Pages.{
  follow, cursor_of, cut, cut-take, follow-cut, length-select_le, length-order_by, select-and,
  select_same, select_always,
}
use panda_server.Store.Rows.{Timestamp, Memo}
use panda_server.Store.Env.{Env}
use panda_server.Store.State.{Store}
use panda_server.Memos.Queries.{summary_from_row}
use panda_server.Memos.List.Order.{
  text_ltb_trans, text_ltb_irrefl, is_older_trans, is_older_irrefl, IsKeyed, lt_id, is_newer,
  by_id-Decides, newest_first-Decides, is_behind-newer, is_after_id-lt_id, select-IsApart,
}
use panda_server.Memos.List.{
  MemoListQuery, position, newest_first, is_behind, is_listed, page, list, MemoInventoryItem,
  item_of, is_after_id, by_id, next_id, InventoryPage, inventory_page,
}

-- The pages of a query that sorts by `before` and starts behind the place that a cursor names.
module _ {ℓ κ} {B : Type ℓ} {C : Type κ} (f : Memo → B) (next : Memo → C)
    (lt before : Memo → Memo → Bool) (p : Memo → Bool) (behind : Option C → Memo → Bool)
    (trans : (x y z : Memo) → lt x y ≡ true → lt y z ≡ true → lt x z ≡ true)
    (irrefl : (x : Memo) → lt x x ≡ false)
    (decide : (m n : Memo) → (m.id == n.id) ≡ false → Decides lt before m n)
    (start : (m : Memo) → behind none m ≡ true)
    (after : (m n : Memo) → behind (some (next m)) n ≡ lt m n)
    (up : (c : Option C) (m n : Memo) → behind c m ≡ true → lt m n ≡ true → behind c n ≡ true)
    (ms : List Memo) (h : IsKeyed ms) where
  abbrev whole : List Memo
  whole = order_by before (select p ms)

  abbrev rows : Option C → List Memo
  rows c = order_by before (select (λ m. p m && behind c m) ms)

  rows-behind : (c : Option C) → rows c ≡ select (behind c) whole
  rows-behind c =
      ap (order_by before) (select-and p (behind c) ms)
      ∙ order_by-select lt before trans irrefl (behind c) (select p ms)
          (select-IsApart lt before decide p ms h)

  rows-none : rows none ≡ whole
  rows-none = rows-behind none ∙ select_always (behind none) whole start

  rows-tail :
      (k : ℕ) (c : Option C) (x : Memo)
      → get_last? (take k (rows c)) ≡ some x
      → rows (some (next x)) ≡ drop k (rows c)
  rows-tail k c x e =
      rows-behind (some (next x))
      ∙ select_same (behind (some (next x))) (lt x) whole (after x)
      ∙ select-lt_page lt before trans irrefl (behind c) k whole (up c)
          (order_by-IsSorted lt before trans (select p ms) (select-IsApart lt before decide p ms h))
          (ap (λ xs. get_last? (take k xs)) (sym (rows-behind c)) ∙ e)
      ∙ ap (drop k) (sym (rows-behind c))

  follow-whole :
      (pg : Option C → List B × Option C) (k : ℕ)
      → 0 < k
      → ((c : Option C) → pg c ≡ cut f next k (rows c))
      → follow pg (length ms + 1) none ≡ map f whole
  follow-whole pg k nonzero law =
      follow-cut f next pg rows k nonzero law (rows-tail k) (length ms + 1) none (
        omega
          (arith, ap length rows-none, length-order_by before (select p ms), length-select_le p ms))
      ∙ ap (map f) rows-none

clamp-pos : (v : ℤ) (hi : ℕ) → 0 < clamp v 1 hi
clamp-pos (negsuc n) hi = omega arith
clamp-pos (pos n) hi = omega arith

page-map :
    {B : Type 0} (g : Memo → B) (k : ℕ) (ms : List Memo)
    → ◌≡◌ {A = List B × Option (Timestamp × String)}
        (map g (page k ms).0, (page k ms).1)
        (if ltb k (length ms)
          then (map g (take k ms), cursor_of g position (get_last? (take k ms)))
          else (map g ms, none))
page-map g k ms = elim (Bool-cases (ltb k (length ms))) [ inl more ↦ rw more | inr last ↦ rw last ]

inventory_cut : ℕ → List Memo → InventoryPage
inventory_cut k ms =
    if ltb k (length ms)
    then record {
      items = map item_of (take k ms);
      has_more = true;
      next = next_id (get_last? (take k ms));
    }
    else record { items = map item_of ms; has_more = false; next = none }

inventory_cut-map :
    (k : ℕ) (ms : List Memo)
    → ◌≡◌ {A = List MemoInventoryItem × Option String}
        ((inventory_cut k ms).items, (inventory_cut k ms).next)
        (if ltb k (length ms)
          then (map item_of (take k ms), cursor_of item_of (λ m. m.id) (get_last? (take k ms)))
          else (map item_of ms, none))
unfolding inventory_cut
inventory_cut-map k ms = elim (Bool-cases (ltb k (length ms))) [
  | inl more ↦ rw more
  | inr last ↦ rw last
]

-- Asking `list` for one page after the other, each with the cursor that came with the page before,
-- gives every note of the query once, the newest first, for any limit, where no two notes have the
-- same id and nothing is written in between; one page more than there are notes is enough.
pub list-follow :
    (env : Env) (ws : String) (q : MemoListQuery) (s : Store)
    → IsKeyed s.memos
    → follow (λ c. list env ws (record q { cursor = c }) s) (length s.memos + 1) none
      ≡ map (summary_from_row env) (order_by newest_first (select (is_listed env ws q s) s.memos))
unfolding list
list-follow env ws q s h =
    follow-whole (summary_from_row env) position is_newer newest_first (is_listed env ws q s)
      is_behind (λ l m n f g. is_older_trans (position n) (position m) (position l) g f)
      (λ m. is_older_irrefl (position m)) newest_first-Decides (λ m. refl) (λ m n. refl)
      is_behind-newer s.memos h (λ c. list env ws (record q { cursor = c }) s) (clamp q.limit 1 200)
      (clamp-pos q.limit 200)
      (λ c.
        let k = clamp q.limit 1 200 in
        let xs =
          order_by newest_first (select (λ m. is_listed env ws q s m && is_behind c m) s.memos) in
        page-map (summary_from_row env) k (take (k + 1) xs)
        ∙ cut-take (summary_from_row env) position k xs)

-- Asking `inventory_page` for one page after the other, each behind the id that came with the page
-- before, gives every note of the workspace once, in the order of the ids, for any limit, where no two
-- notes have the same id and nothing is written in between.
pub inventory_page-follow :
    (ws : String) (limit : ℤ) (s : Store)
    → IsKeyed s.memos
    → follow
        (λ after. let p = inventory_page ws after limit s in (p.items, p.next))
        (length s.memos + 1)
        none
      ≡ map item_of (order_by by_id (select (λ m. m.workspace_id == ws) s.memos))
unfolding inventory_page inventory_cut
inventory_page-follow ws limit s h =
    follow-whole item_of (λ m. m.id) lt_id by_id (λ m. m.workspace_id == ws) is_after_id
      (λ l m n. text_ltb_trans l.id m.id n.id) (λ m. text_ltb_irrefl m.id) by_id-Decides (λ m. refl)
      (λ m n. refl) is_after_id-lt_id s.memos h
      (λ after. let p = inventory_page ws after limit s in (p.items, p.next)) (clamp limit 1 1000)
      (clamp-pos limit 1000)
      (λ c.
        let k = clamp limit 1 1000 in
        let xs =
          order_by by_id (select (λ (m : Memo). m.workspace_id == ws && is_after_id c m) s.memos) in
        inventory_cut-map k (take (k + 1) xs) ∙ cut-take item_of (λ m. m.id) k xs)
