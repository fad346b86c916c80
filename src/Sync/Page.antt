-- ===== src/Sync/Page.antt =====
-- What one `pull` returns (crates/store/src/sync_repo.rs).
use Prim.Native.Nat.{min}
use panda_server.Prelude.{
  ℕ, zero, suc, ◌+◌, ◌^◌, ◌<◌, ◌≤◌, ℤ, String, Bool, ◌&&◌, List, [], ◌∷◌, ◌≡◌, arith, ◌==◌, ltb,
  if◌then◌else◌, Bool-cases, inl, inr, All, clamp, length, take, length-take, take_all,
  take-take-suc, get_last?, map,
}
use panda_server.Prelude.Sql.{select, order_by_of_IsOrdered}
use native.Mathlib.Numerals.{add-one}
use panda_server.Store.Rows.{Change}
use panda_server.Store.State.{Store}
use panda_server.Sync.{by_id, is_above, last_id, pull_rows, to_message, pull}
use panda_server.Sync.Fold.{newest, IsAscending, IsAscending-IsOrdered, fold_page-eq-newest}

-- The log as AUTOINCREMENT keeps it: ids grow, none is above the last one given out, and that one is
-- an `i64`.
pub record IsLog (s : Store) : Type 0 where
  pub ascending : IsAscending s.sync_changes
  pub given : All (λ c. c.id ≤ s.last_change_id) s.sync_changes
  pub fits : s.last_change_id < 2 ^ 63

pub All-select {ℓ} :
    (P : Change → Type ℓ) (p : Change → Bool) (cs : List Change) → All P cs → All P (select p cs)
All-select P p [] h = tt
All-select P p (c ∷ cs) (h, t) = elim (Bool-cases (p c)) [
  | inl take ↦ rw take (h, All-select P p cs t)
  | inr skip ↦ rw skip (All-select P p cs t)
]

pub select-IsAscending :
    (p : Change → Bool) (cs : List Change) → IsAscending cs → IsAscending (select p cs)
select-IsAscending p [] h = tt
select-IsAscending p (c ∷ cs) (h, t) = elim (Bool-cases (p c)) [
  | inl take ↦ rw take (All-select (λ d. c.id < d.id) p cs h, select-IsAscending p cs t)
  | inr skip ↦ rw skip (select-IsAscending p cs t)
]

pub All-take {ℓ} : (P : Change → Type ℓ) (n : ℕ) (cs : List Change) → All P cs → All P (take n cs)
All-take P zero cs h = tt
All-take P (suc n) [] h = tt
All-take P (suc n) (c ∷ cs) (h, t) = (h, All-take P n cs t)

pub take-IsAscending : (n : ℕ) (cs : List Change) → IsAscending cs → IsAscending (take n cs)
take-IsAscending zero cs h = tt
take-IsAscending (suc n) [] h = tt
take-IsAscending (suc n) (c ∷ cs) (h, t) =
    (All-take (λ d. c.id < d.id) n cs h, take-IsAscending n cs t)

-- The rows that a cursor has still to see.
abbrev pub pending : String → ℕ → Store → List Change
pending ws after s = select (λ c. c.workspace_id == ws && is_above after c.id) s.sync_changes

-- Reading one row more than the limit tells whether there are more, and is taken back.
page_rows :
    (n : ℕ) (rows : List Change)
    → (if ltb n (length (take (n + 1) rows)) then take n (take (n + 1) rows) else take (n + 1) rows)
      ≡ take n rows
page_rows n rows =
    rw (add-one, length-take (suc n) rows)
      (elim (Bool-cases (ltb n (min (suc n) (length rows)))) [
        | inl more ↦ rw more (take-take-suc n rows)
        | inr all ↦ rw (all, take_all (suc n) rows (ground arith), take_all n rows (ground arith))
      ])

has_more-eq : (n m : ℕ) → ltb n (min (n + 1) m) ≡ ltb n m
has_more-eq n m = ground arith

pub pull_rows-eq-newest :
    (ws : String) (after : ℕ) (limit : ℤ) (s : Store)
    → IsLog s
    → pull_rows ws after limit s ≡ (
      newest (take (clamp limit 1 500) (pending ws after s)),
      last_id (get_last? (take (clamp limit 1 500) (pending ws after s))) after,
      ltb (clamp limit 1 500) (length (pending ws after s)),
    )
unfolding pull_rows
pull_rows-eq-newest ws after limit s log =
    let n = clamp limit 1 500 in
    let rows = pending ws after s in
    let up =
      select-IsAscending (λ c. c.workspace_id == ws && is_above after c.id) s.sync_changes
        log.ascending in
    rw (
      order_by_of_IsOrdered by_id rows (IsAscending-IsOrdered rows up),
      page_rows n rows,
      length-take (n + 1) rows,
      has_more-eq n (length rows),
      fold_page-eq-newest (take n rows) (take-IsAscending n rows up),
    )

-- A pull of a well-kept log returns, of the first rows above the cursor, up to the limit, those that
-- no later one of them supersedes, with the id of the last row read as the new cursor, and says
-- whether rows are left. A limit outside 1..500 is clamped.
pub pull-eq-newest :
    (ws : String) (after : ℕ) (limit : ℤ) (s : Store)
    → IsLog s
    → pull ws after limit s ≡ (
      map to_message (newest (take (clamp limit 1 500) (pending ws after s))),
      last_id (get_last? (take (clamp limit 1 500) (pending ws after s))) after,
      ltb (clamp limit 1 500) (length (pending ws after s)),
    )
unfolding pull
pull-eq-newest ws after limit s log = rw (pull_rows-eq-newest ws after limit s log)
