-- ===== src/Memos/List/Order.antt =====
-- The orders of `list` and of `inventory_page` (crates/store/src/memos.rs), in which the notes of a table
-- with a primary key have one place each.

use text.Mathlib.TextPositions.{compare_refl}
use panda_server.Prelude.{
  String, Bool, true, false, not, Option, none, some, List, [], ◌∷◌, ◌==◌, ◌≡◌, refl, arith,
  Bool-cases, inl, inr, All,
}
use panda_server.Prelude.Sql.{select}
use panda_server.Prelude.TextOrder.{compare_trans, compare_swap}
use panda_server.Prelude.Sorted.{Decides, IsApart}
use panda_server.Store.Rows.{Timestamp, Memo}
use panda_server.Notebooks.Queries.{text_leb}
use panda_server.Memos.List.{
  text_ltb, is_older, position, newest_first, is_behind, is_after_id, by_id,
}

pub text_ltb_trans :
    (a b c : String) → text_ltb a b ≡ true → text_ltb b c ≡ true → text_ltb a c ≡ true
text_ltb_trans a b c h h' = ground (arith, compare_trans a b c)

pub text_ltb_irrefl : (a : String) → text_ltb a a ≡ false
text_ltb_irrefl a = rw (text_ltb, compare_refl a)

pub is_older_trans :
    (a b c : Timestamp × String) → is_older a b ≡ true → is_older b c ≡ true → is_older a c ≡ true
is_older_trans a b c h h' = ground (arith, text_ltb_trans a.1 b.1 c.1)

pub is_older_irrefl : (a : Timestamp × String) → is_older a a ≡ false
is_older_irrefl a = ground (arith, text_ltb_irrefl a.1)

text_ltb_total :
    (a b : String)
    → (a == b) ≡ false
    → (text_leb a b ≡ true → text_ltb a b ≡ true) × (text_leb a b ≡ false → text_ltb b a ≡ true)
text_ltb_total a b h = (λ g. ground arith, λ g. ground (arith, compare_swap a b))

is_older_total :
    (a b : Timestamp × String)
    → (a.1 == b.1) ≡ false
    → (not (is_older a b) ≡ true → is_older b a ≡ true)
      × (not (is_older a b) ≡ false → is_older a b ≡ true)
is_older_total a b h = (λ g. ground (arith, compare_swap a.1 b.1), λ g. ground arith)

-- No two notes have the same id, which is the primary key of the table.
abbrev pub IsKeyed : List Memo → Type 0
IsKeyed [] = Unit
IsKeyed (m ∷ ms) = All (λ n. (m.id == n.id) ≡ false) ms × IsKeyed ms

-- The order of the inventory, and that of the list.
abbrev pub lt_id : Memo → Memo → Bool
lt_id m n = text_ltb m.id n.id

abbrev pub is_newer : Memo → Memo → Bool
is_newer m n = is_older (position n) (position m)

pub by_id-Decides : (m n : Memo) → (m.id == n.id) ≡ false → Decides lt_id by_id m n
by_id-Decides m n h = text_ltb_total m.id n.id h

pub newest_first-Decides : (m n : Memo) → (m.id == n.id) ≡ false → Decides is_newer newest_first m n
newest_first-Decides m n h = is_older_total (position m) (position n) h

module _ (lt before : Memo → Memo → Bool)
    (decide : (m n : Memo) → (m.id == n.id) ≡ false → Decides lt before m n) where
  All-Decides :
      (p : Memo → Bool) (m : Memo) (ms : List Memo)
      → All (λ n. (m.id == n.id) ≡ false) ms
      → All (Decides lt before m) (select p ms)
  All-Decides p m [] h = tt
  All-Decides p m (n ∷ ns) (h, t) = elim (Bool-cases (p n)) [
    | inl kept ↦ rw kept (decide m n h, All-Decides p m ns t)
    | inr dropped ↦ rw dropped (All-Decides p m ns t)
  ]

  pub select-IsApart :
      (p : Memo → Bool) (ms : List Memo) → IsKeyed ms → IsApart lt before (select p ms)
  select-IsApart p [] h = tt
  select-IsApart p (m ∷ ms) (h, t) = elim (Bool-cases (p m)) [
    | inl kept ↦ rw kept (All-Decides p m ms h, select-IsApart p ms t)
    | inr dropped ↦ rw dropped (select-IsApart p ms t)
  ]

pub is_behind-newer :
    (c : Option (Timestamp × String)) (m n : Memo)
    → is_behind c m ≡ true
    → is_newer m n ≡ true
    → is_behind c n ≡ true
is_behind-newer none m n h g = refl
is_behind-newer (some c) m n h g = is_older_trans (position n) (position m) c g h

pub is_after_id-lt_id :
    (c : Option String) (m n : Memo)
    → is_after_id c m ≡ true
    → lt_id m n ≡ true
    → is_after_id c n ≡ true
is_after_id-lt_id none m n h g = refl
is_after_id-lt_id (some a) m n h g = text_ltb_trans a m.id n.id h g
