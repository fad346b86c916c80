-- ===== src/Notebooks/Inbox.antt =====
-- The inbox of a workspace (crates/store/src/notebooks.rs): no method takes it away.
use panda_server.Prelude.{
  ℕ, ◌+◌, ◌≤◌, ℤ, String, Bool, true, false, Option, some, List, [], ◌∷◌, ◌≡◌, refl, ap, ◌∙◌, arith,
  ◌==◌, if◌then◌else◌, Bool-cases, Option-cases, inl, inr, is_some, ltb,
}
use panda_server.Prelude.Sql.{find, update, count, count-pos, find-holds}
use panda_server.Domain.Error.{ok}
use panda_server.Store.Rows.{Timestamp, Notebook}
use panda_server.Store.Env.{Env}
use panda_server.Store.State.{Store}
use panda_server.Store.Action.{◌>>=◌}
use panda_server.Store.Action.Keeps.{Keeps, Keeps-bind, Keeps-pure, keeps_rules}
use panda_server.Sync
use panda_server.Notebooks.Queries.{has_key, get, is_inbox, is_inbox_of, default_inbox_id}
use panda_server.Notebooks.Edit.{
  log_notebook, insert_row, write_rows, create, is_live, renamed, rename, removed, notes_in,
  soft_delete,
}
use panda_server.Notebooks.Order.{ordered, write_orders, log_orders, reorder}
use panda_server.Notebooks.Steps.{Step, create_step, rename_step, reorder_step, delete_step, run}
use panda_server.Prelude.Keys.{find-append, find-update_kept}

-- The primary key: an id stands at one row.
pub record HasKeys (s : Store) : Type 0 where
  pub unique : (id : String) → count (λ (n : Notebook). n.id == id) s.notebooks ≤ 1

find_unique :
    (p q r : Notebook → Bool) (ns : List Notebook) {m n : Notebook}
    → ((x : Notebook) → q x ≡ true → p x ≡ true)
    → count p ns ≤ 1
    → find q ns ≡ some m
    → find r ns ≡ some n
    → q n ≡ true
    → m ≡ n
find_unique p q r [] qp one found also hq = cc
find_unique p q r (x ∷ ns) {m} {n} qp one found also hq = elim (Bool-cases (q x)) [
  | inl here ↦ elim (Bool-cases (r x)) [
    | inl same ↦ ground arith
    | inr later ↦
        let behind : find r ns ≡ some n = ground arith in
        let px = qp x here in
        absurd (omega (arith, count-pos r p ns n behind (qp n hq), rw px at one))
  ]
  | inr not_here ↦ elim (Bool-cases (r x)) [
    | inl same ↦ let e : x ≡ n = ground arith in absurd (cc (rw e at not_here))
    | inr later ↦ find_unique p q r ns qp (ground arith) (ground arith) (ground arith) hq
  ]
]

find-update_skip :
    (p q : Notebook → Bool) (f : Notebook → Notebook) (ns : List Notebook) {n : Notebook}
    → ((x : Notebook) → p (f x) ≡ false)
    → find p ns ≡ some n
    → q n ≡ false
    → find p (update q f ns) ≡ some n
find-update_skip p q f [] out found hq = cc
find-update_skip p q f (x ∷ ns) {n} out found hq = elim (Bool-cases (p x)) [
  | inl here ↦ let e : x ≡ n = ground arith in rw (e, hq) (ground arith)
  | inr later ↦ elim (Bool-cases (q x)) [
    | inl hit ↦ rw (hit, out x) (find-update_skip p q f ns out (ground arith) hq)
    | inr miss ↦ rw (miss, later) (find-update_skip p q f ns out (ground arith) hq)
  ]
]

-- The workspace has an inbox, with this id.
pub record HasInbox (vs inbox : String) (s : Store) : Type 0 where
  pub row : Notebook
  pub found : find (is_inbox_of vs) s.notebooks ≡ some row
  pub named : row.id ≡ inbox

pub default_inbox_id-HasInbox :
    (vs inbox : String) (s : Store) → HasInbox vs inbox s → default_inbox_id vs s ≡ ok inbox
unfolding default_inbox_id
default_inbox_id-HasInbox vs inbox s h = rw (h.found, default_inbox_id) (ap ok h.named)

module _ (vs inbox : String) where
  write_rows-HasInbox :
      (q : Notebook → Bool) (f : Notebook → Notebook)
      → ((x : Notebook) → is_inbox_of vs (f x) ≡ is_inbox_of vs x)
      → ((x : Notebook) → (f x).id ≡ x.id)
      → Keeps (HasInbox vs inbox) (write_rows q f)
  unfolding write_rows
  write_rows-HasInbox q f keep same = record {
    at = λ s h. record {
      row = if q h.row then f h.row else h.row;
      found = find-update_kept (is_inbox_of vs) q f s.notebooks keep h.found;
      named = elim (Bool-cases (q h.row)) [
        | inl hit ↦ rw hit (same h.row ∙ h.named)
        | inr miss ↦ rw miss (h.named)
      ];
    };
  }

  insert_row-HasInbox : (n : Notebook) → Keeps (HasInbox vs inbox) (insert_row n)
  unfolding insert_row
  insert_row-HasInbox n = record {
    at = λ s h. elim (Bool-cases (is_some (find (λ (m : Notebook). m.id == n.id) s.notebooks))) [
      | inl taken ↦ rw taken h
      | inr free ↦ rw free (record {
        row = h.row;
        found = find-append (is_inbox_of vs) s.notebooks (n ∷ []) h.found;
        named = h.named;
      })
    ];
  }

  log-HasInbox :
      (ws id operation kind : String) (payload : Option String) (now : Timestamp)
      → Keeps (HasInbox vs inbox) (log_notebook ws id operation kind payload now)
  unfolding log_notebook Sync.append_unlocked ◌>>=◌
  log-HasInbox ws id operation kind payload now = record {
    at = λ s h. record { row = h.row; found = h.found; named = h.named };
  }

  module _ (env : Env) (ws : String) (now : Timestamp) where
    create-HasInbox :
        (name : String) (parent_id : Option String) (sort_order : Option ℤ) (id : String)
        → Keeps (HasInbox vs inbox) (create env ws name parent_id sort_order id now)
    unfolding create
    create-HasInbox name parent_id sort_order id =
        search (keeps_rules, log-HasInbox, insert_row-HasInbox) depth 11

    renamed-HasInbox :
        (id name : String)
        → Keeps (HasInbox vs inbox) (write_rows (is_live ws id) (renamed name now))
    renamed-HasInbox id name = write_rows-HasInbox _ _ (λ x. refl) (λ x. refl)

    rename-HasInbox :
        (id raw_name : String) → Keeps (HasInbox vs inbox) (rename env ws id raw_name now)
    unfolding rename
    rename-HasInbox id raw_name = search (keeps_rules, log-HasInbox, renamed-HasInbox) depth 13

    write_orders-HasInbox :
        (i : ℕ) (ids : List String) → Keeps (HasInbox vs inbox) (write_orders ws i ids now)
    unfolding write_orders
    write_orders-HasInbox i [] = Keeps-pure tt
    write_orders-HasInbox i (id ∷ ids) =
        Keeps-bind (write_rows (has_key ws id) (ordered i now)) _
          (write_rows-HasInbox (has_key ws id) (ordered i now) (λ x. refl) (λ x. refl))
          λ _. write_orders-HasInbox (i + 1) ids

    log_orders-HasInbox :
        (parent_id : Option String) (i : ℕ) (ids : List String)
        → Keeps (HasInbox vs inbox) (log_orders env ws parent_id i ids now)
    unfolding log_orders
    log_orders-HasInbox parent_id i [] = Keeps-pure tt
    log_orders-HasInbox parent_id i (id ∷ ids) =
        Keeps-bind (log_notebook ws id "upsert" "meta" _ now) _
          (log-HasInbox ws id "upsert" "meta" _ now) λ _. log_orders-HasInbox parent_id (i + 1) ids

    reorder-HasInbox :
        (parent_id : Option String) (ids : List String)
        → Keeps (HasInbox vs inbox) (reorder env ws parent_id ids now)
    unfolding reorder
    reorder-HasInbox parent_id ids =
        search (keeps_rules, write_orders-HasInbox, log_orders-HasInbox) depth 11

    not-inbox :
        (id : String) (s : Store) (row n : Notebook)
        → HasKeys s
        → find (has_key ws id) s.notebooks ≡ some row
        → is_inbox row ≡ false
        → find (is_inbox_of vs) s.notebooks ≡ some n
        → has_key ws id n ≡ false
    not-inbox id s row n keys found other inbox_row = elim (Bool-cases (has_key ws id n)) [
      | inl same ↦
          let e : row ≡ n =
            find_unique (λ m. m.id == id) (has_key ws id) (is_inbox_of vs) s.notebooks
              (λ x h. ground arith) (keys.unique id) found inbox_row same in
          let holds = find-holds (is_inbox_of vs) s.notebooks inbox_row in
          absurd (ground (arith, ap is_inbox e))
      | inr apart ↦ apart
    ]

    soft_delete-HasInbox :
        (id : String) (s : Store)
        → HasKeys s
        → HasInbox vs inbox s
        → HasInbox vs inbox (soft_delete ws id now s).1
    unfolding soft_delete get write_rows log_notebook Sync.append_unlocked ◌>>=◌
    soft_delete-HasInbox id s keys h = elim (Option-cases (find (has_key ws id) s.notebooks)) [
      | inl missing ↦ rw missing h
      | inr (row, found) ↦ elim (Bool-cases (is_inbox row)) [
        | inl refused ↦ rw (found, refused) h
        | inr other ↦ elim (Bool-cases (ltb 0 (notes_in ws id s))) [
          | inl full ↦ rw (found, other, full) h
          | inr empty ↦
              rw (found, other, empty)
                (record {
                  row = h.row;
                  found =
                      find-update_skip (is_inbox_of vs) (has_key ws id) (removed now) s.notebooks
                        (λ x. ground arith) h.found
                        (not-inbox id s row h.row keys found other h.found);
                  named = h.named;
                })
        ]
      ]
    ]

-- Whatever is called for whatever workspace, and whether the call succeeds or fails, a workspace that
-- has an inbox keeps it: new notes go to the same notebook as before.
pub default_inbox_id-run :
    (env : Env) (ws vs inbox : String) (now : Timestamp) (step : Step) (s : Store)
    → HasKeys s
    → HasInbox vs inbox s
    → default_inbox_id vs (run env ws now step s) ≡ ok inbox
unfolding run
default_inbox_id-run env ws vs inbox now (create_step name parent_id sort_order id) s keys h =
    default_inbox_id-HasInbox vs inbox _
      ((create-HasInbox vs inbox env ws now name parent_id sort_order id).at s h)
default_inbox_id-run env ws vs inbox now (rename_step id name) s keys h =
    default_inbox_id-HasInbox vs inbox _ ((rename-HasInbox vs inbox env ws now id name).at s h)
default_inbox_id-run env ws vs inbox now (reorder_step parent_id ids) s keys h =
    default_inbox_id-HasInbox vs inbox _
      ((reorder-HasInbox vs inbox env ws now parent_id ids).at s h)
default_inbox_id-run env ws vs inbox now (delete_step id) s keys h =
    default_inbox_id-HasInbox vs inbox _ (soft_delete-HasInbox vs inbox env ws now id s keys h)
