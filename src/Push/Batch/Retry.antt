-- ===== src/Push/Batch/Retry.antt =====
-- A batch that is pushed again is not executed again (crates/server/src/routes/sync_routes.rs).
use panda_server.Prelude.{
  ℕ, ◌+◌, String, true, false, not, ◌&&◌, Option, none, some, List, [], ◌∷◌, ◌≡◌, refl, sym, ap,
  ◌∙◌, eq_refl, All, ltb, length, Bool-cases, Option-cases, inl, inr, is_some,
}
use panda_server.Prelude.Sql.{find}
use panda_server.Prelude.Keys.{find-append, find-append_last}
use panda_server.Prelude.Text.{is_empty}
use panda_server.Domain.Error.{ok, invalid, fail_if}
use panda_server.Store.Rows.{Timestamp}
use panda_server.Store.Messages.{SyncPushItemResult, SyncOperation}
use panda_server.Store.Env.{Env}
use panda_server.Store.State.{Store}
use panda_server.Store.Action.{
  ◌>>=◌, reads, bind-eq-ok, reads-eq-ok, lift-eq-ok, pure-eq-ok, ok-inj,
}
use panda_server.Store.Action.Keeps.{Keeps, Keeps-pure, Keeps-bind, Keeps-reads, keeps_rules}
use panda_server.Auth.Service.{AuthContext}
use panda_server.Push.Items.{SyncPushItem, Fresh, Pusher, execute}
use panda_server.Push.Batch.{
  is_operation, decoded, cached, store_push_result, store_if, by_others, answer, push_item,
  push_items, SyncHint, hint_after_change, pusher, push,
}
use panda_server.Push.Batch.Frame.{execute-HasOperations}
use panda_server.Push.Batch.Names.{execute-Names}

-- The table keeps this result for the operation.
pub record IsKept (env : Env) (who : Pusher) (op : String) (r : SyncPushItemResult) (s : Store)
    : Type 0 where
  pub row : SyncOperation
  pub found : find (is_operation who op) s.sync_operations ≡ some row
  pub read : env.result_from_json row.response_json ≡ some r

-- Other requests do not touch the results of this device: none of them is a push of the same device.
abbrev pub Quiet : Pusher → (Store → Store) → Type 0
Quiet who f =
    (op : String) (s : Store)
    → find (is_operation who op) (f s).sync_operations
      ≡ find (is_operation who op) s.sync_operations

pub record IsQuiet (who : Pusher) (fresh : Fresh) : Type 0 where
  pub lookup : Quiet who fresh.before_lookup
  pub run : Quiet who fresh.before_run
  pub store : Quiet who fresh.before_store

-- What other requests make of the store while a batch is pushed that writes nothing.
abbrev pub after_others : (ℕ → Fresh) → ℕ → List SyncPushItem → Store → Store
after_others fresh i [] s = (fresh i).before_lookup s
after_others fresh i (item ∷ items) s = after_others fresh (i + 1) items ((fresh i).before_lookup s)

module _ (env : Env) (who : Pusher) where
  module _ (op : String) (r : SyncPushItemResult) (now : Timestamp) where
    execute-IsKept :
        (item : SyncPushItem) (fresh : Fresh)
        → Keeps (IsKept env who op r) (execute env who item fresh now)
    execute-IsKept item fresh = record {
      at = λ s h. record {
        row = h.row;
        found =
            ap (find (is_operation who op))
              ((execute-HasOperations s.sync_operations env who now item fresh).at s refl)
            ∙ h.found;
        read = h.read;
      };
    }

    quiet-IsKept :
        (f : Store → Store) (s : Store)
        → Quiet who f
        → IsKept env who op r s
        → IsKept env who op r (f s)
    quiet-IsKept f s quiet h = record { row = h.row; found = quiet op s ∙ h.found; read = h.read }

    by_others-IsKept : (f : Store → Store) → Quiet who f → Keeps (IsKept env who op r) (by_others f)
    by_others-IsKept f quiet = record { at = λ s h. quiet-IsKept f s quiet h }

    store_push_result-IsKept :
        (x : SyncPushItemResult) → Keeps (IsKept env who op r) (store_push_result env who x now)
    unfolding store_push_result
    store_push_result-IsKept x = record {
      at = λ s h.
          elim (Bool-cases (is_some (find (is_operation who x.client_op_id) s.sync_operations))) [
            | inl known ↦ rw known h
            | inr new ↦ rw new (record {
              row = h.row;
              found = find-append (is_operation who op) s.sync_operations _ h.found;
              read = h.read;
            })
          ];
    }

    store_if-IsKept :
        (x : SyncPushItemResult) → Keeps (IsKept env who op r) (store_if env who x now)
    unfolding store_if
    store_if-IsKept x = search (keeps_rules, store_push_result-IsKept) depth 7

    answer-IsKept :
        (item : SyncPushItem) (fresh : Fresh) (known : Option SyncPushItemResult)
        → IsQuiet who fresh
        → Keeps (IsKept env who op r) (answer env who item fresh now known)
    unfolding answer
    answer-IsKept item fresh (some x) quiet = Keeps-pure x
    answer-IsKept item fresh none quiet =
        Keeps-bind _ _ (by_others-IsKept fresh.before_run quiet.run) λ _.
          Keeps-bind _ _ (execute-IsKept item fresh) λ x.
            Keeps-bind _ _ (by_others-IsKept fresh.before_store quiet.store)
              λ _. Keeps-bind _ _ (store_if-IsKept x) λ _. Keeps-pure x

    push_items-IsKept :
        (i : ℕ) (items : List SyncPushItem) (fresh : ℕ → Fresh)
        → ((j : ℕ) → IsQuiet who (fresh j))
        → Keeps (IsKept env who op r) (push_items env who i items fresh now)
    unfolding push_items push_item
    push_items-IsKept i [] fresh quiet =
        Keeps-bind _ _ (by_others-IsKept (fresh i).before_lookup (quiet i).lookup) λ _. Keeps-pure _
    push_items-IsKept i (item ∷ items) fresh quiet =
        Keeps-bind _ _
          (Keeps-bind _ _ (by_others-IsKept (fresh i).before_lookup (quiet i).lookup) λ _.
            Keeps-bind _ _ (Keeps-reads _) λ known. answer-IsKept item (fresh i) known (quiet i))
          λ x. Keeps-bind _ _ (push_items-IsKept (i + 1) items fresh quiet) λ xs. Keeps-pure _

  -- A result that is kept answers its operation, and nothing is written.
  push_item-known :
      (item : SyncPushItem) (fresh : Fresh) (now : Timestamp) (s : Store) (r : SyncPushItemResult)
      → is_empty item.client_op_id ≡ false
      → Quiet who fresh.before_lookup
      → IsKept env who item.client_op_id r s
      → push_item env who item fresh now s ≡ (ok r, fresh.before_lookup s)
  unfolding push_item answer ◌>>=◌
  push_item-known item fresh now s r named quiet h =
      rw (named, quiet item.client_op_id s, h.found, decoded, h.read)

  store_if-stored :
      (r : SyncPushItemResult) (now : Timestamp) (s : Store)
      → env.result_from_json (env.result_to_json r) ≡ some r
      → (r.ok && not (is_empty r.client_op_id)) ≡ true
      → find (is_operation who r.client_op_id) s.sync_operations ≡ none
      → IsKept env who r.client_op_id r (store_if env who r now s).1
  unfolding store_if store_push_result
  store_if-stored r now s json stored new =
      rw (stored, new)
        (record {
          row = _;
          found =
              find-append_last (is_operation who r.client_op_id) s.sync_operations _ new
                (rw (eq_refl who.workspace_id, eq_refl who.device_id, eq_refl r.client_op_id));
          read = json;
        })

  same_result :
      {op op' : String} {r r' : SyncPushItemResult} {s s' : Store}
      → op ≡ op'
      → r ≡ r'
      → s ≡ s'
      → IsKept env who op r s
      → IsKept env who op' r' s'
  same_result a b c h = rw (← a, ← b, ← c) h

  answer-stored :
      (item : SyncPushItem) (fresh : Fresh) (now : Timestamp) (s : Store) {r : SyncPushItemResult}
      {t : Store}
      → env.result_from_json (env.result_to_json r) ≡ some r
      → r.ok ≡ true
      → is_empty item.client_op_id ≡ false
      → IsQuiet who fresh
      → find (is_operation who item.client_op_id) s.sync_operations ≡ none
      → answer env who item fresh now none s ≡ (ok r, t)
      → IsKept env who item.client_op_id r t
  unfolding answer
  answer-stored item fresh now s {r} {t} json succeeded named quiet new answered =
      let (_, _, answered) = bind-eq-ok (by_others fresh.before_run) _ s answered in
      let start = fresh.before_run s in
      let (x, executed, next) = bind-eq-ok (execute env who item fresh now) _ start answered in
      let ran = (execute env who item fresh now start).1 in
      let (_, _, next) = bind-eq-ok (by_others fresh.before_store) _ ran next in
      let mid = fresh.before_store ran in
      let (_, _, last) = bind-eq-ok (store_if env who x now) _ mid next in
      let (same, end) = pure-eq-ok x _ last in
      let own : x.client_op_id ≡ item.client_op_id =
        (execute-Names env who now item fresh).at start x ran (ap (λ y. (y, ran)) executed) in
      let unwritten =
        (execute-HasOperations start.sync_operations env who now item fresh).at start refl in
      let still_new =
        quiet.store item.client_op_id ran
        ∙ ap (find (is_operation who item.client_op_id)) unwritten
        ∙ quiet.run item.client_op_id s
        ∙ new in
      let kept =
        store_if-stored x now mid (rw (← same) at json)
          (rw (own, named, ap (λ (y : SyncPushItemResult). y.ok) same, succeeded))
          (rw own still_new) in
      same_result own same end kept

  looked_up-stored :
      (item : SyncPushItem) (fresh : Fresh) (now : Timestamp) (s : Store) {r : SyncPushItemResult}
      {t : Store}
      → env.result_from_json (env.result_to_json r) ≡ some r
      → r.ok ≡ true
      → is_empty item.client_op_id ≡ false
      → IsQuiet who fresh
      → (reads (cached env who item.client_op_id) >>= answer env who item fresh now) s ≡ (ok r, t)
      → IsKept env who item.client_op_id r t
  unfolding answer
  looked_up-stored item fresh now s {r} {t} json succeeded named quiet pushed =
      let (known, looked_up, answered) =
        reads-eq-ok (cached env who item.client_op_id) _ s pushed in
      elim (Option-cases (find (is_operation who item.client_op_id) s.sync_operations)) [
        | inl new ↦
            let e : none ≡ known = ok-inj none known (rw (named, new) at looked_up) in
            answer-stored item fresh now s json succeeded named quiet new (rw (← e) at answered)
        | inr (row, found) ↦ elim (Option-cases (env.result_from_json row.response_json)) [
          | inl broken ↦ absurd (cc (rw (named, found, decoded, broken) at looked_up))
          | inr (x, read) ↦
              let e : some x ≡ known =
                ok-inj (some x) known (rw (named, found, decoded, read) at looked_up) in
              let (same, end) = pure-eq-ok x s (rw (← e) at answered) in
              rw (← end, ← same) (record { row = row; found = found; read = read })
        ]
      ]

  push_item-stored :
      (item : SyncPushItem) (fresh : Fresh) (now : Timestamp) (s : Store) {r : SyncPushItemResult}
      {t : Store}
      → env.result_from_json (env.result_to_json r) ≡ some r
      → r.ok ≡ true
      → is_empty item.client_op_id ≡ false
      → IsQuiet who fresh
      → push_item env who item fresh now s ≡ (ok r, t)
      → IsKept env who item.client_op_id r t
  unfolding push_item
  push_item-stored item fresh now s {r} {t} json succeeded named quiet pushed =
      let (_, _, pushed) = bind-eq-ok (by_others fresh.before_lookup) _ s pushed in
      looked_up-stored item fresh now (fresh.before_lookup s) json succeeded named quiet pushed

  -- Each result is kept for its operation.
  AllKept : List SyncPushItem → List SyncPushItemResult → Store → Type 0
  AllKept [] [] s = Unit
  AllKept (item ∷ items) (r ∷ rs) s = IsKept env who item.client_op_id r s × AllKept items rs s
  AllKept [] (r ∷ rs) s = ⊥
  AllKept (item ∷ items) [] s = ⊥

  AllKept-quiet :
      (f : Store → Store)
      → Quiet who f
      → (items : List SyncPushItem) (rs : List SyncPushItemResult) (s : Store) → AllKept items rs s
      → AllKept items rs (f s)
  unfolding AllKept
  AllKept-quiet f quiet [] [] s h = tt
  AllKept-quiet f quiet (item ∷ items) (r ∷ rs) s (h, t) =
      (quiet-IsKept item.client_op_id r 0 f s quiet h, AllKept-quiet f quiet items rs s t)
  AllKept-quiet f quiet [] (r ∷ rs) s h = absurd h
  AllKept-quiet f quiet (item ∷ items) [] s h = absurd h

  push_items-stored :
      (i : ℕ) (items : List SyncPushItem) (fresh : ℕ → Fresh) (now : Timestamp) (s : Store)
      {rs : List SyncPushItemResult} {t : Store}
      → All (λ (r : SyncPushItemResult). env.result_from_json (env.result_to_json r) ≡ some r) rs
      → All (λ (item : SyncPushItem). is_empty item.client_op_id ≡ false) items
      → All (λ (r : SyncPushItemResult). r.ok ≡ true) rs
      → ((j : ℕ) → IsQuiet who (fresh j))
      → push_items env who i items fresh now s ≡ (ok rs, t)
      → AllKept items rs t
  unfolding AllKept push_items
  push_items-stored i [] fresh now s {rs} {t} json named succeeded quiet pushed =
      let (_, _, pushed) = bind-eq-ok (by_others (fresh i).before_lookup) _ s pushed in
      let (same, _) = pure-eq-ok [] ((fresh i).before_lookup s) pushed in rw (← same) tt
  push_items-stored i (item ∷ items) fresh now s {rs} {t} json named succeeded quiet pushed =
      let (r, first, next) = bind-eq-ok (push_item env who item (fresh i) now) _ s pushed in
      let mid = (push_item env who item (fresh i) now s).1 in
      let (rest, others, last) =
        bind-eq-ok (push_items env who (i + 1) items fresh now) _ mid next in
      let (same, end) = pure-eq-ok (r ∷ rest) _ last in
      let fine = rw (← same) at succeeded in
      let read = rw (← same) at json in
      let kept =
        push_item-stored item (fresh i) now s read.0 fine.0 named.0 (quiet i)
          (ap (λ x. (x, mid)) first) in
      let done = (push_items env who (i + 1) items fresh now mid).1 in
      rw (← same, ← end)
        (
          (push_items-IsKept item.client_op_id r now (i + 1) items fresh quiet).at mid kept,
          push_items-stored (i + 1) items fresh now mid read.1 named.1 fine.1 quiet
              (ap (λ x. (x, done)) others),
        )

  push_items-known :
      (i : ℕ) (items : List SyncPushItem) (fresh : ℕ → Fresh) (now : Timestamp) (s : Store)
      (rs : List SyncPushItemResult)
      → All (λ (item : SyncPushItem). is_empty item.client_op_id ≡ false) items
      → ((j : ℕ) → IsQuiet who (fresh j))
      → AllKept items rs s
      → push_items env who i items fresh now s ≡ (ok rs, after_others fresh i items s)
  unfolding AllKept push_items ◌>>=◌
  push_items-known i [] fresh now s [] named quiet kept = refl
  push_items-known i [] fresh now s (r ∷ rs) named quiet kept = absurd kept
  push_items-known i (item ∷ items) fresh now s [] named quiet kept = absurd kept
  push_items-known i (item ∷ items) fresh now s (r ∷ rs) named quiet (here, rest) = rw (
    push_item-known item (fresh i) now s r named.0 (quiet i).lookup here,
    push_items-known (i + 1) items fresh now ((fresh i).before_lookup s) rs named.1 quiet
        (AllKept-quiet (fresh i).before_lookup (quiet i).lookup items rs s rest),
  )

module _ (env : Env) (max_batch_size : ℕ) (ctx : AuthContext) (device_id : String)
    (items : List SyncPushItem) where
  push-known :
      (fresh : ℕ → Fresh) (now : Timestamp) (s u : Store) (x : Unit {0})
      (rs : List SyncPushItemResult)
      → fail_if (ltb max_batch_size (length items)) (invalid "push batch too large") ≡ ok x
      → push_items env (pusher ctx device_id) 0 items fresh now s ≡ (ok rs, u)
      → push env max_batch_size ctx device_id items fresh now s
        ≡ (ok (rs, hint_after_change ctx.workspace_id ("push" ∷ []) u), u)
  unfolding push ◌>>=◌
  push-known fresh now s u x rs small known = rw (small, known)

  -- A batch whose operations have ids and all succeeded may be pushed again, such as when the answer was
  -- lost: it is answered with the same results, whatever ids are drawn then, and writes nothing, so the
  -- store is what other requests made of it, and the hint is that of this store. Other requests may
  -- write between the steps of both pushes, and between the pushes, as long as none of them is a push of
  -- the same device. The JSON that is kept of the results is read back as them.
  pub push-retry :
      (fresh fresh' : ℕ → Fresh) (now later : Timestamp) (s : Store) {rs : List SyncPushItemResult}
      {hint : SyncHint} {t : Store}
      → All (λ (r : SyncPushItemResult). env.result_from_json (env.result_to_json r) ≡ some r) rs
      → All (λ (item : SyncPushItem). is_empty item.client_op_id ≡ false) items
      → ((i : ℕ) → IsQuiet (pusher ctx device_id) (fresh i))
      → ((i : ℕ) → IsQuiet (pusher ctx device_id) (fresh' i))
      → push env max_batch_size ctx device_id items fresh now s ≡ (ok (rs, hint), t)
      → All (λ (r : SyncPushItemResult). r.ok ≡ true) rs
      → (hint ≡ hint_after_change ctx.workspace_id ("push" ∷ []) t)
        × (push env max_batch_size ctx device_id items fresh' later t ≡ (
          ok (rs, hint_after_change ctx.workspace_id ("push" ∷ []) (after_others fresh' 0 items t)),
          after_others fresh' 0 items t,
        ))
  unfolding push
  push-retry fresh fresh' now later s {rs} {hint} {t} json named quiet quiet' pushed succeeded =
      let who = pusher ctx device_id in
      let (x, small, next) = lift-eq-ok _ _ s pushed in
      let (results, ran, next) = bind-eq-ok (push_items env who 0 items fresh now) _ s next in
      let mid = (push_items env who 0 items fresh now s).1 in
      let (h, hinted, last) = reads-eq-ok _ _ mid next in
      let (pair, end) = pure-eq-ok (results, h) mid last in
      let same_results = ap (λ p. p.0) pair in
      let kept =
        push_items-stored env who 0 items fresh now s (rw (← same_results) at json) named
          (rw (← same_results) at succeeded) quiet (ap (λ y. (y, mid)) ran) in
      let known = push_items-known env who 0 items fresh' later mid results named quiet' kept in
      (
        sym (ap (λ p. p.1) pair)
            ∙ sym (ok-inj _ h hinted)
            ∙ ap (hint_after_change ctx.workspace_id ("push" ∷ [])) end,
        push-again
            (push-known fresh' later mid (after_others fresh' 0 items mid) x results small known)
            same_results end,
      )
    where
      push-again :
          {u : Store} {results : List SyncPushItemResult}
          → push env max_batch_size ctx device_id items fresh' later u ≡ (
            ok (
              results,
              hint_after_change ctx.workspace_id ("push" ∷ []) (after_others fresh' 0 items u),
            ),
            after_others fresh' 0 items u,
          )
          → results ≡ rs
          → u ≡ t
          → push env max_batch_size ctx device_id items fresh' later t ≡ (
            ok (
              rs,
              hint_after_change ctx.workspace_id ("push" ∷ []) (after_others fresh' 0 items t),
            ),
            after_others fresh' 0 items t,
          )
      push-again again a b = rw (← a, ← b) again
