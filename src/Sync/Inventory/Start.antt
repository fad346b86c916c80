-- ===== src/Sync/Inventory/Start.antt =====
-- What a device misses that starts from an inventory (crates/store/src/sync_repo.rs).
use Prim.Native.Nat.{max}
use panda_server.Prelude.{
  ℕ, ◌^◌, ◌<◌, ◌≤◌, ℤ, String, true, false, ◌&&◌, Option, List, [], ◌∷◌, ◌++◌, ◌≡◌, refl, ap, subst,
  ◌∙◌, arith, ◌==◌, ltb, Bool-cases, inl, inr, All, length,
}
use panda_server.Prelude.Sql.{select, select-append, select-cons_of_false}
use panda_server.Prelude.Pages.{length-select_le}
use panda_server.Store.Rows.{Change}
use panda_server.Store.State.{Store}
use panda_server.Sync.{is_above, max_id, max_cursor}
use panda_server.Sync.Fold.{newest, IsAscending}
use panda_server.Sync.Page.{IsLog, pending, All-select}
use panda_server.Sync.CatchUp.{catch_up, catch_up-converges}
use panda_server.Sync.Inventory.{Reads, inventory}

All-append_right : (P : Change → Type 0) (xs ys : List Change) → All P (xs ++ ys) → All P ys
All-append_right P [] ys h = h
All-append_right P (x ∷ xs) ys h = All-append_right P xs ys h.1

All-max :
    (m n : ℕ) (ys : List Change)
    → All (λ c. m < c.id) ys
    → All (λ c. n < c.id) ys
    → All (λ c. max m n < c.id) ys
All-max m n [] h k = tt
All-max m n (y ∷ ys) (h, hs) (k, ks) = (omega arith, All-max m n ys hs ks)

-- What is appended has an id above all that the log has.
above-max_id :
    (ws : String) (xs ys : List Change)
    → IsAscending (xs ++ ys)
    → All (λ c. 0 < c.id) ys
    → All (λ c. max_id (select (λ c. c.workspace_id == ws) xs) < c.id) ys
above-max_id ws [] ys up h = h
above-max_id ws (x ∷ xs) ys (first, up) h = elim (Bool-cases (x.workspace_id == ws)) [
  | inl own ↦ rw own (
      All-max x.id (max_id (select (λ c. c.workspace_id == ws) xs)) ys
        (All-append_right (λ c. x.id < c.id) xs ys first) (above-max_id ws xs ys up h))
  | inr other ↦ rw other (above-max_id ws xs ys up h)
]

max_id-le : (n : ℕ) (xs : List Change) → All (λ c. c.id ≤ n) xs → max_id xs ≤ n
max_id-le n [] h = omega arith
max_id-le n (x ∷ xs) (h, t) = omega (arith, max_id-le n xs t)

is_above_small : (m id : ℕ) → m < 2 ^ 63 → is_above m id ≡ ltb m id
is_above_small m id h = ground arith

ltb_of_lt : (m n : ℕ) → m < n → ltb m n ≡ true
ltb_of_lt m n h = ground arith

ltb_of_le : (m n : ℕ) → n ≤ m → ltb m n ≡ false
ltb_of_le m n h = ground arith

abbrev own_changes : String → List Change → List Change
own_changes ws cs = select (λ c. c.workspace_id == ws) cs

own_changes-cons :
    (ws : String) (x : Change) (xs : List Change)
    → x.workspace_id == ws ≡ true
    → own_changes ws (x ∷ xs) ≡ x ∷ own_changes ws xs
own_changes-cons ws x xs h = rw h

select_below :
    (ws : String) (m : ℕ) (xs : List Change)
    → m < 2 ^ 63
    → max_id (own_changes ws xs) ≤ m
    → select (λ c. c.workspace_id == ws && is_above m c.id) xs ≡ []
select_below ws m [] small h = refl
select_below ws m (x ∷ xs) small h = elim (Bool-cases (x.workspace_id == ws)) [
  | inl own ↦
      let e : max_id (own_changes ws (x ∷ xs)) ≡ max x.id (max_id (own_changes ws xs)) =
        ap max_id (own_changes-cons ws x xs own) in
      let low : is_above m x.id ≡ false =
        is_above_small m x.id small ∙ ltb_of_le m x.id (omega (arith, e, h)) in
      rw (own, low) (select_below ws m xs small (omega (arith, e, h)))
  | inr other ↦
      let e : own_changes ws (x ∷ xs) ≡ own_changes ws xs =
        select-cons_of_false (λ c. c.workspace_id == ws) x xs other in
      rw other (select_below ws m xs small (omega (arith, ap max_id e, h)))
]

select_above :
    (ws : String) (m : ℕ) (ys : List Change)
    → m < 2 ^ 63
    → All (λ c. m < c.id) ys
    → select (λ c. c.workspace_id == ws && is_above m c.id) ys ≡ own_changes ws ys
select_above ws m [] small h = refl
select_above ws m (y ∷ ys) small (h, t) =
    let above : is_above m y.id ≡ true = is_above_small m y.id small ∙ ltb_of_lt m y.id h in
    elim (Bool-cases (y.workspace_id == ws)) [
      | inl own ↦ rw (own, above, select_above ws m ys small t)
      | inr other ↦ rw (other, select_above ws m ys small t)
    ]

All-append_left : (P : Change → Type 0) (xs ys : List Change) → All P (xs ++ ys) → All P xs
All-append_left P [] ys h = tt
All-append_left P (x ∷ xs) ys h = (h.0, All-append_left P xs ys h.1)

max_cursor-fits :
    (ws : String) (s t : Store) (later : List Change)
    → IsLog t
    → t.sync_changes ≡ s.sync_changes ++ later
    → max_cursor ws s < 2 ^ 63
max_cursor-fits ws s t later log grown =
    let given : All (λ c. c.id ≤ t.last_change_id) s.sync_changes =
      All-append_left (λ c. c.id ≤ t.last_change_id) s.sync_changes later
        (subst (All (λ c. c.id ≤ t.last_change_id)) grown log.given) in
    let low = max_id-le t.last_change_id (own_changes ws s.sync_changes) (
      All-select (λ c. c.id ≤ t.last_change_id) (λ c. c.workspace_id == ws) s.sync_changes given) in
    omega (arith, low, log.fits)

-- A log that has grown behind the cursor of an inventory.
pending-max_cursor :
    (ws : String) (s t : Store) (later : List Change)
    → IsLog t
    → t.sync_changes ≡ s.sync_changes ++ later
    → All (λ c. 0 < c.id) later
    → pending ws (max_cursor ws s) t ≡ own_changes ws later
pending-max_cursor ws s t later log grown positive =
    let m = max_cursor ws s in
    let small = max_cursor-fits ws s t later log grown in
    let behind =
      above-max_id ws s.sync_changes later (subst IsAscending grown log.ascending) positive in
    ap (select (λ c. c.workspace_id == ws && is_above m c.id)) grown
    ∙ select-append (λ c. c.workspace_id == ws && is_above m c.id) s.sync_changes later
    ∙ ap (λ xs. xs ++ select (λ c. c.workspace_id == ws && is_above m c.id) later)
        (select_below ws m s.sync_changes small (omega arith))
    ∙ select_above ws m later small behind

-- A device that starts from an inventory and then pulls from its cursor, until a page says that
-- nothing is left, gets the newest change of every fold key of what the workspace has logged since the
-- cursor was read, however the log has grown; a log's ids start at 1.
pub catch_up-inventory :
    (fuel : ℕ) (ws : String) (after : Option String) (items limit : ℤ) (reads : Reads) (t : Store)
    (later : List Change)
    → IsLog t
    → t.sync_changes ≡ reads.cursor.sync_changes ++ later
    → All (λ c. 0 < c.id) later
    → length later < fuel
    → newest (catch_up fuel ws (inventory ws after items reads).cursor limit t)
      ≡ newest (select (λ c. c.workspace_id == ws) later)
unfolding inventory
catch_up-inventory fuel ws after items limit reads t later log grown positive enough =
    let p = pending-max_cursor ws reads.cursor t later log grown positive in
    catch_up-converges fuel ws (max_cursor ws reads.cursor) limit t log
      (max_cursor-fits ws reads.cursor t later log grown)
      (omega (arith, ap length p, length-select_le (λ c. c.workspace_id == ws) later, enough))
    ∙ ap newest p
