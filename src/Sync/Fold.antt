-- ===== src/Sync/Fold.antt =====
-- The fold of a page (crates/store/src/sync_repo.rs, `pull`) against its plain description: the rows
-- that no later row of the page supersedes.
use panda_server.Prelude.{
  ◌<◌, String, Bool, false, ◌||◌, List, [], ◌∷◌, ◌++◌, ◌≡◌, refl, sym, ap, ◌∙◌, arith, ◌==◌, eq_iff,
  if◌then◌else◌, Bool-cases, inl, inr, All, subst,
}
use mathlib.Core.List.{append_assoc, append-nil}
use panda_server.Prelude.Sql.{delete, delete-append, IsOrdered, order_by_of_IsOrdered}
use panda_server.Store.Rows.{Change}
use panda_server.Sync.{latest, put_latest, by_id, fold_page}

abbrev pub has_key : String → List Change → Bool
has_key k [] = false
has_key k (c ∷ cs) = c.fold_key == k || has_key k cs

-- Of each fold key the last row, in the order of the log.
pub newest : List Change → List Change
newest [] = []
newest (c ∷ cs) = let rest = newest cs in if has_key c.fold_key cs then rest else c ∷ rest

without_keys : List Change → List Change → List Change
without_keys rows m = delete (λ c. has_key c.fold_key rows) m

without_keys-nil : (m : List Change) → without_keys [] m ≡ m
unfolding without_keys
without_keys-nil [] = refl
without_keys-nil (c ∷ m) = ap (λ l. c ∷ l) (without_keys-nil m)

without_keys-cons :
    (row : Change) (rows m : List Change)
    → without_keys rows (delete (λ c. c.fold_key == row.fold_key) m) ≡ without_keys (row ∷ rows) m
unfolding without_keys
without_keys-cons row rows [] = refl
without_keys-cons row rows (c ∷ m) = ground (
  arith,
  without_keys-cons row rows m,
  eq_iff c.fold_key row.fold_key,
  eq_iff row.fold_key c.fold_key,
)

newest-cons :
    (row : Change) (rows : List Change)
    → without_keys rows (row ∷ []) ++ newest rows ≡ newest (row ∷ rows)
unfolding without_keys newest
newest-cons row rows = ground arith

without_keys-append :
    (rows m n : List Change)
    → without_keys rows (m ++ n) ≡ without_keys rows m ++ without_keys rows n
unfolding without_keys
without_keys-append rows m n = delete-append _ m n

-- Inserting a row into the map first, or counting it among the rows to come.
without_keys-put_latest :
    (row : Change) (rows m : List Change)
    → without_keys rows (put_latest row m) ++ newest rows
      ≡ without_keys (row ∷ rows) m ++ newest (row ∷ rows)
without_keys-put_latest row rows m = rw (
  without_keys-append rows (delete (λ c. c.fold_key == row.fold_key) m) (row ∷ []),
  without_keys-cons row rows m,
  append_assoc (without_keys (row ∷ rows) m) (without_keys rows (row ∷ [])) (newest rows),
  newest-cons row rows,
)

latest-eq-newest : (m rows : List Change) → latest m rows ≡ without_keys rows m ++ newest rows
unfolding latest
latest-eq-newest m [] = rw (without_keys-nil m) (unfold newest in sym (append-nil m))
latest-eq-newest m (row ∷ rows) =
    latest-eq-newest (put_latest row m) rows ∙ without_keys-put_latest row rows m

-- Ids grow strictly along the rows.
abbrev pub IsAscending : List Change → Type 0
IsAscending [] = Unit
IsAscending (c ∷ cs) = All (λ d. c.id < d.id) cs × IsAscending cs

pub All-newest {ℓ} : (P : Change → Type ℓ) (cs : List Change) → All P cs → All P (newest cs)
unfolding newest
All-newest P [] h = tt
All-newest P (c ∷ cs) (h, t) = elim (Bool-cases (has_key c.fold_key cs)) [
  | inl old ↦ rw old (All-newest P cs t)
  | inr new ↦ rw new (h, All-newest P cs t)
]

pub newest-IsAscending : (cs : List Change) → IsAscending cs → IsAscending (newest cs)
unfolding newest
newest-IsAscending [] h = tt
newest-IsAscending (c ∷ cs) (h, t) = elim (Bool-cases (has_key c.fold_key cs)) [
  | inl old ↦ rw old (newest-IsAscending cs t)
  | inr new ↦ rw new (All-newest (λ d. c.id < d.id) cs h, newest-IsAscending cs t)
]

pub IsAscending-IsOrdered : (cs : List Change) → IsAscending cs → IsOrdered by_id cs
IsAscending-IsOrdered [] h = tt
IsAscending-IsOrdered (c ∷ []) h = tt
IsAscending-IsOrdered (c ∷ d ∷ cs) h = (ground arith, IsAscending-IsOrdered (d ∷ cs) h.1)

-- The fold of a page whose ids grow is the list of the rows that no later row supersedes.
pub fold_page-eq-newest : (rows : List Change) → IsAscending rows → fold_page rows ≡ newest rows
unfolding fold_page
fold_page-eq-newest rows h =
    let folded = latest-eq-newest [] rows in
    rw folded (
      unfold without_keys in
      order_by_of_IsOrdered by_id (newest rows)
        (IsAscending-IsOrdered (newest rows) (newest-IsAscending rows h)))

has_key-append :
    (k : String) (xs ys : List Change) → has_key k (xs ++ ys) ≡ (has_key k xs || has_key k ys)
has_key-append k [] ys = refl
has_key-append k (x ∷ xs) ys = ground (arith, has_key-append k xs ys)

has_key-newest : (k : String) (cs : List Change) → has_key k (newest cs) ≡ has_key k cs
unfolding newest
has_key-newest k [] = refl
has_key-newest k (c ∷ cs) = elim (Bool-cases (has_key c.fold_key cs)) [
  | inl old ↦ rw old (ground (arith, has_key-newest k cs, eq_iff c.fold_key k))
  | inr new ↦ rw new (ground (arith, has_key-newest k cs))
]

-- Folding a first part early does not change what the whole folds to.
pub newest-append-newest : (xs ys : List Change) → newest (newest xs ++ ys) ≡ newest (xs ++ ys)
unfolding newest
newest-append-newest [] ys = refl
newest-append-newest (x ∷ xs) ys = elim (Bool-cases (has_key x.fold_key xs)) [
  | inl old ↦ rw (old, has_key-append x.fold_key xs ys, old) (newest-append-newest xs ys)
  | inr new ↦ rw (
    new,
    has_key-append x.fold_key (newest xs) ys,
    has_key-append x.fold_key xs ys,
    has_key-newest x.fold_key xs,
    newest-append-newest xs ys,
  )
]

pub newest_idem : (ys : List Change) → newest (newest ys) ≡ newest ys
newest_idem ys =
    subst (λ l. newest l ≡ newest ys) (append-nil (newest ys))
      (newest-append-newest ys [] ∙ ap newest (append-nil ys))

newest-append_right : (xs ys : List Change) → newest (xs ++ newest ys) ≡ newest (xs ++ ys)
unfolding newest
newest-append_right [] ys = newest_idem ys
newest-append_right (x ∷ xs) ys = rw (
  has_key-append x.fold_key xs (newest ys),
  has_key-append x.fold_key xs ys,
  has_key-newest x.fold_key ys,
  newest-append_right xs ys,
)

-- Parts that fold alike make wholes that fold alike.
pub newest-append_congr :
    (xs ys zs : List Change) → newest ys ≡ newest zs → newest (newest xs ++ ys) ≡ newest (xs ++ zs)
newest-append_congr xs ys zs e =
    newest-append-newest xs ys
    ∙ sym (newest-append_right xs ys)
    ∙ ap (λ l. newest (xs ++ l)) e
    ∙ newest-append_right xs zs
