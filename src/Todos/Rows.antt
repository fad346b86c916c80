-- ===== src/Todos/Rows.antt =====
-- Reading the todos table back behind a write (crates/store/src/todos.rs).
use panda_server.Prelude.{
  ◌≤◌, String, Bool, true, false, not, ◌&&◌, none, some, ◌≡◌, arith, ◌==◌, eq_refl, eqb, eqb_iff,
  inl, inr, Option-cases,
}
use panda_server.Prelude.Sql.{find, update, count, find-holds, count_mono, count-pos}
use panda_server.Domain.Error.{ok}
use panda_server.Store.Rows.{Todo}
use panda_server.Store.State.{Store}
use panda_server.Todos.{has_id, is_current, get, write_current}

-- The primary key: an id stands at one row.
pub record HasKeys (s : Store) : Type 0 where
  pub unique : (id : String) → count (λ (t : Todo). t.id == id) s.todos ≤ 1

abbrev pub live : String → String → Todo → Bool
live ws id t = has_id ws id t && not t.is_deleted

pub get-ok :
    (ws id : String) (s : Store) {t : Todo}
    → get ws id s ≡ ok t
    → find (live ws id) s.todos ≡ some t
unfolding get
get-ok ws id s {t} h = elim (Option-cases (find (live ws id) s.todos)) [
  | inl missing ↦ absurd (ne missing)
  | inr (x, found) ↦ ground arith
]
  where
    ne : find (live ws id) s.todos ≡ none → ⊥
    ne missing = ground arith

-- A row is the current one of itself.
pub is_current_self :
    (ws id : String) (gone : Bool) (t : Todo)
    → has_id ws id t ≡ true
    → t.is_deleted ≡ gone
    → is_current ws id gone t t ≡ true
is_current_self ws id true t h d = ground (arith, eq_refl t.etag, eqb_iff t.revision t.revision)
is_current_self ws id false t h d = ground (arith, eq_refl t.etag, eqb_iff t.revision t.revision)

pub is_current-has_id :
    (ws id : String) (gone : Bool) (old t : Todo)
    → is_current ws id gone old t ≡ true
    → has_id ws id t ≡ true
is_current-has_id ws id gone old t h = ground arith

-- With unique keys exactly one row is current.
pub count-is_current :
    (ws id : String) (gone : Bool) (s : Store) (t : Todo) (p : Todo → Bool)
    → HasKeys s
    → find p s.todos ≡ some t
    → ((y : Todo) → p y ≡ true → has_id ws id y ≡ true)
    → t.is_deleted ≡ gone
    → eqb (count (is_current ws id gone t) s.todos) 1 ≡ true
count-is_current ws id gone s t p keys found narrow d =
    let cur = is_current_self ws id gone t (narrow t (find-holds p s.todos found)) d in
    let most =
      count_mono (λ (x : Todo). x.id == id) (is_current ws id gone t) s.todos
        (λ y h. ground (arith, is_current-has_id ws id gone t y h)) in
    let least = count-pos p (is_current ws id gone t) s.todos t found cur in
    let bound = keys.unique id in (eqb_iff _ 1).1 (omega arith)

-- The compare-and-swap writes when the row is the one that was read.
pub write_current-ok :
    (ws id : String) (gone : Bool) (s : Store) (t : Todo) (p : Todo → Bool) (f : Todo → Todo)
    → HasKeys s
    → find p s.todos ≡ some t
    → ((y : Todo) → p y ≡ true → has_id ws id y ≡ true)
    → t.is_deleted ≡ gone
    → write_current ws id gone t f s
      ≡ (ok tt, record s { todos = update (is_current ws id gone t) f s.todos })
unfolding write_current
write_current-ok ws id gone s t p f keys found narrow d =
    rw (count-is_current ws id gone s t p keys found narrow d)

pub live-has_id : (ws id : String) (t : Todo) → live ws id t ≡ true → has_id ws id t ≡ true
live-has_id ws id t h = ground arith

pub live-not_deleted : (ws id : String) (t : Todo) → live ws id t ≡ true → t.is_deleted ≡ false
live-not_deleted ws id t h = ground arith

pub get-eq-ok :
    (ws id : String) (s : Store) (t : Todo)
    → find (live ws id) s.todos ≡ some t
    → get ws id s ≡ ok t
unfolding get
get-eq-ok ws id s t h = rw h
