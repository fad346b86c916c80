-- ===== src/Memos/Open/Accepted.antt =====
-- A lease that `open` hands out serves a save (crates/store/src/memos.rs).
use panda_server.Prelude.{
  ◌<◌, String, Bool, true, ◌&&◌, Option, none, some, List, [], ◌∷◌, ◌++◌, ◌≡◌, refl, sym, ap, ◌∙◌,
  arith, eq_refl, ltb, ◌==◌, Bool-cases, inl, inr, is_some,
}
use panda_server.Prelude.Sql.{find}
use panda_server.Domain.Error.{PandaError, ok, ok_or}
use panda_server.Store.Rows.{Timestamp, Lease}
use panda_server.Store.Env.{Env}
use panda_server.Store.State.{Store}
use panda_server.Store.Action.{bind-eq-ok, lift-eq-ok, pure-eq-ok, ok-inj}
use panda_server.Memos.Queries.{MemoSummary, MemoContent, get_summary, load_content_row}
use panda_server.Todos.Checks.{is_dangling}
use panda_server.Memos.Request.{check_lease}
use panda_server.Memos.Open.{new_lease, create_lease, lease_if, Opened, open_memo}

is_some-find-append :
    {A : Type 0} (p : A → Bool) (xs : List A) (x : A)
    → p x ≡ true
    → is_some (find p (xs ++ x ∷ [])) ≡ true
is_some-find-append p [] x hit = rw hit
is_some-find-append p (y ∷ xs) x hit = elim (Bool-cases (p y)) [
  | inl here ↦ rw here
  | inr later ↦ rw later (is_some-find-append p xs x hit)
]

some-inj : {A : Type 0} (x y : A) → some x ≡ some y → x ≡ y
some-inj x y h = ground arith

module _ (ws memo_id actor_id : String) (summary shown : MemoSummary) (mode id : String)
    (now later : Timestamp) where
  check_lease-create_lease :
      (s : Store) {l : Lease} {t : Store}
      → create_lease ws memo_id actor_id summary mode id now s ≡ (ok l, t)
      → later < l.expires_at
      → check_lease ws actor_id memo_id (some l.id) later shown t ≡ ok tt
  unfolding create_lease check_lease
  check_lease-create_lease s {l} {t} created early =
      let row = new_lease ws memo_id actor_id summary mode id now in
      let holds = λ (x : Lease).
        x.workspace_id == ws
        && x.id == id
        && x.memo_id == memo_id
        && x.actor_id == actor_id
        && ltb later x.expires_at in
      elim (Bool-cases (is_some (find (λ (x : Lease). x.id == id) s.edit_leases))) [
        | inl taken ↦ absurd (cc (rw taken at created))
        | inr free ↦ elim (Bool-cases (is_dangling (some memo_id) s)) [
          | inl lost ↦ absurd (cc (rw (free, lost) at created))
          | inr kept ↦
              let e = rw (free, kept) at created in
              let same : row ≡ l = ok-inj row l (ap (λ p. p.0) e) in
              let on_time : ltb later row.expires_at ≡ true =
                let soon = rw (← same) at early in ground arith in
              let found =
                is_some-find-append holds s.edit_leases row
                  (rw (eq_refl ws, eq_refl id, eq_refl memo_id, eq_refl actor_id, on_time)) in
              rw (← ap (λ p. p.1) e, ← same) (rw found)
        ]
      ]

  moved_along :
      {x l : Lease} {u t : Store}
      → x ≡ l
      → u ≡ t
      → later < l.expires_at
      → (later < x.expires_at → check_lease ws actor_id memo_id (some x.id) later shown u ≡ ok tt)
      → check_lease ws actor_id memo_id (some l.id) later shown t ≡ ok tt
  moved_along a b early accepted = rw (← b, ← a) (accepted (rw (← a) at early))

  check_lease-lease_if :
      (s : Store) {l : Lease} {t : Store}
      → lease_if ws memo_id actor_id summary mode id now s ≡ (ok (some l), t)
      → later < l.expires_at
      → check_lease ws actor_id memo_id (some l.id) later shown t ≡ ok tt
  unfolding lease_if
  check_lease-lease_if s {l} {t} taken early = elim (Bool-cases (mode == "none")) [
    | inl no_lease ↦
        let (absent, _) = pure-eq-ok none s (rw no_lease at taken) in absurd (cc absent)
    | inr wanted ↦
        let (x, created, last) =
          bind-eq-ok (create_lease ws memo_id actor_id summary mode id now) _ s
            (rw wanted at taken) in
        let (same, end) = pure-eq-ok (some x) _ last in
        let st = (create_lease ws memo_id actor_id summary mode id now s).1 in
        moved_along (some-inj x l same) end early
          (check_lease-create_lease s (ap (λ r. (r, st)) created))
  ]

  based-create_lease :
      (s : Store) {l : Lease} {t : Store}
      → create_lease ws memo_id actor_id summary mode id now s ≡ (ok l, t)
      → l ≡ new_lease ws memo_id actor_id summary mode id now
  unfolding create_lease
  based-create_lease s {l} {t} created =
      let row = new_lease ws memo_id actor_id summary mode id now in
      elim (Bool-cases (is_some (find (λ (x : Lease). x.id == id) s.edit_leases))) [
        | inl taken ↦ absurd (cc (rw taken at created))
        | inr free ↦ elim (Bool-cases (is_dangling (some memo_id) s)) [
          | inl lost ↦ absurd (cc (rw (free, lost) at created))
          | inr kept ↦ sym (ok-inj row l (ap (λ p. p.0) (rw (free, kept) at created)))
        ]
      ]

  based-lease_if :
      (s : Store) {l : Lease} {t : Store}
      → lease_if ws memo_id actor_id summary mode id now s ≡ (ok (some l), t)
      → l ≡ new_lease ws memo_id actor_id summary mode id now
  unfolding lease_if
  based-lease_if s {l} {t} taken = elim (Bool-cases (mode == "none")) [
    | inl no_lease ↦
        let (absent, _) = pure-eq-ok none s (rw no_lease at taken) in absurd (cc absent)
    | inr wanted ↦
        let (x, created, last) =
          bind-eq-ok (create_lease ws memo_id actor_id summary mode id now) _ s
            (rw wanted at taken) in
        let (same, _) = pure-eq-ok (some x) _ last in
        let st = (create_lease ws memo_id actor_id summary mode id now s).1 in
        sym (some-inj x l same) ∙ based-create_lease s (ap (λ r. (r, st)) created)
  ]

ok_or-inj : {A : Type 0} (o : Option A) (e : PandaError) (a : A) → ok_or o e ≡ ok a → o ≡ some a
ok_or-inj none e a h = cc
ok_or-inj (some b) e a h = ap some (ok-inj b a h)

module _ (env : Env) (ws memo_id actor_id mode id : String) (now later : Timestamp)
    (shown : MemoSummary) where
  IsAccepted : Store → Opened → Lease → Store → Type 0
  IsAccepted seen o l t =
      (check_lease ws actor_id memo_id (some l.id) later shown t ≡ ok tt)
      × ((get_summary env ws memo_id seen ≡ some o.detail.summary)
          × ((o.etag ≡ o.detail.summary.etag)
              × ((l.base_revision ≡ o.detail.summary.revision)
                  × (l.base_content_hash ≡ o.detail.summary.content_hash))))

  lease_if-IsAccepted :
      (summary : MemoSummary) (content : MemoContent) (lease : Option Lease) (seen s u : Store)
      {o : Opened} {l : Lease} {t : Store}
      → get_summary env ws memo_id seen ≡ some summary
      → lease_if ws memo_id actor_id summary mode id now s ≡ (ok lease, u)
      → record {
        detail = record { summary = summary; content = content };
        etag = summary.etag;
        lease = lease;
      }
        ≡ o
      → u ≡ t
      → o.lease ≡ some l
      → later < l.expires_at
      → IsAccepted seen o l t
  unfolding IsAccepted
  lease_if-IsAccepted summary content lease seen s u {o} {l} {t} found taken same end leased early =
      let is_l : lease ≡ some l = ap (λ (x : Opened). x.lease) same ∙ leased in
      let row =
        based-lease_if ws memo_id actor_id summary shown mode id now later s (rw is_l at taken) in
      rw (← same, ← end)
        (
          check_lease-lease_if ws memo_id actor_id summary shown mode id now later s
              (rw is_l at taken) early,
          (
            found,
            (
              refl,
              (
                ap (λ (x : Lease). x.base_revision) row,
                ap (λ (x : Lease). x.base_content_hash) row,
              ),
            ),
          ),
        )

  -- The lease that an opened note comes with is accepted by a save of the same actor until it expires.
  -- The summary is the one that the note had when `open` read it, which may be before the lease was
  -- written; the etag, and the revision and the hash on which the lease is based, are those of the
  -- summary.
  pub check_lease-open_memo :
      (seen seen_later s : Store) {o : Opened} {l : Lease} {t : Store}
      → open_memo env ws memo_id actor_id mode id now seen seen_later s ≡ (ok o, t)
      → o.lease ≡ some l
      → later < l.expires_at
      → (check_lease ws actor_id memo_id (some l.id) later shown t ≡ ok tt)
        × ((get_summary env ws memo_id seen ≡ some o.detail.summary)
            × ((o.etag ≡ o.detail.summary.etag)
                × ((l.base_revision ≡ o.detail.summary.revision)
                    × (l.base_content_hash ≡ o.detail.summary.content_hash))))
  unfolding open_memo IsAccepted
  check_lease-open_memo seen seen_later s opened leased early =
      let (summary, found, next) = lift-eq-ok _ _ s opened in
      let (crow, _, next) = lift-eq-ok (load_content_row ws memo_id seen_later) _ s next in
      let (content, _, next) = lift-eq-ok _ _ s next in
      let leasing = lease_if ws memo_id actor_id summary mode id now in
      let (lease, taken, last) = bind-eq-ok leasing _ s next in
      let (same, end) = pure-eq-ok _ (leasing s).1 last in
      lease_if-IsAccepted summary content lease seen s (leasing s).1
        (ok_or-inj (get_summary env ws memo_id seen) _ summary found)
        (ap (λ r. (r, (leasing s).1)) taken) same end leased early
