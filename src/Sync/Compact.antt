-- ===== src/Sync/Compact.antt =====
-- What compaction may delete (crates/store/src/sync_repo.rs, `compact`).
use panda_server.Prelude.{
  ℕ, ◌+◌, ◌-◌, ℤ, pos, negsuc, String, true, false, ◌&&◌, List, [], ◌∷◌, ◌≡◌, ◌≢◌, refl, ◌∙◌, arith,
  ◌==◌, eq_iff, ltb, eqb, if◌then◌else◌, Bool-cases, inl, inr, some,
}
use mathlib.Core.List.Memᴰ
use mathlib.Core.List.{Memᴰ}
use panda_server.Prelude.Sql.{select, delete, update, find}
use panda_server.Store.Rows.{Change, DeviceCursor, Timestamp, SyncMeta}
use panda_server.Store.State.{Store}
use panda_server.Notebooks.Queries.{int_leb}
use panda_server.Sync.{
  is_below, days, epoch, as_i64, min_int, min_cursor, drop_stale, drop_changes, compact_below,
  compact_live, compact, is_above, pull_rows, pull,
}
use panda_server.Sync.Page.{pending}

int_leb_refl : (a : ℤ) → int_leb a a ≡ true
int_leb_refl (pos n) = ground arith
int_leb_refl (negsuc n) = ground arith

int_leb_trans : (a b c : ℤ) → int_leb a b ≡ true → int_leb b c ≡ true → int_leb a c ≡ true
int_leb_trans (pos l) (pos m) (pos n) h k = ground arith
int_leb_trans (pos l) (pos m) (negsuc n) h k = cc
int_leb_trans (pos l) (negsuc m) c h k = cc
int_leb_trans (negsuc l) (pos m) (pos n) h k = refl
int_leb_trans (negsuc l) (negsuc m) (pos n) h k = refl
int_leb_trans (negsuc l) (pos m) (negsuc n) h k = cc
int_leb_trans (negsuc l) (negsuc m) (negsuc n) h k = ground arith

int_leb_total : (a b : ℤ) → int_leb a b ≡ false → int_leb b a ≡ true
int_leb_total (pos m) (pos n) h = ground arith
int_leb_total (pos m) (negsuc n) h = refl
int_leb_total (negsuc m) (pos n) h = cc
int_leb_total (negsuc m) (negsuc n) h = ground arith

min_int-le : (a b : ℤ) → (int_leb (min_int a b) a ≡ true) × (int_leb (min_int a b) b ≡ true)
unfolding min_int
min_int-le a b = elim (Bool-cases (int_leb a b)) [
  | inl less ↦ rw less (int_leb_refl a, less)
  | inr more ↦ rw more (int_leb_total a b more, int_leb_refl b)
]

min_cursor-le :
    (d : DeviceCursor) (ds : List DeviceCursor)
    → Memᴰ d ds
    → int_leb (min_cursor ds) d.cursor ≡ true
unfolding min_cursor
min_cursor-le d [] m = absurd (Memᴰ.not-nil m)
min_cursor-le d (e ∷ []) (Memᴰ.head p) = rw p (int_leb_refl e.cursor)
min_cursor-le d (e ∷ []) (Memᴰ.tail m) = absurd (Memᴰ.not-nil m)
min_cursor-le d (e ∷ f ∷ ds) (Memᴰ.head p) = rw p (min_int-le e.cursor (min_cursor (f ∷ ds))).0
min_cursor-le d (e ∷ f ∷ ds) (Memᴰ.tail m) =
    int_leb_trans (min_int e.cursor (min_cursor (f ∷ ds))) (min_cursor (f ∷ ds)) d.cursor
      (min_int-le e.cursor (min_cursor (f ∷ ds))).1 (min_cursor-le d (f ∷ ds) m)

not_above_watermark :
    (after : ℤ) (watermark id : ℕ)
    → int_leb (pos watermark) after ≡ true
    → ltb id watermark ≡ true
    → is_below after id ≡ false
not_above_watermark (pos a) watermark id h low = ground arith
not_above_watermark (negsuc a) watermark id h low = cc

-- Deleting rows below a watermark takes none of the rows above a cursor that is not below it.
select-delete :
    (ws vs : String) (after watermark : ℕ) (cs : List Change)
    → int_leb (pos watermark) (as_i64 after) ≡ true
    → select
        (λ c. c.workspace_id == ws && is_above after c.id)
        (delete (λ c. c.workspace_id == vs && ltb c.id watermark) cs)
      ≡ select (λ c. c.workspace_id == ws && is_above after c.id) cs
select-delete ws vs after watermark [] h = refl
select-delete ws vs after watermark (c ∷ cs) h =
    let ih = select-delete ws vs after watermark cs h in
    elim (Bool-cases (c.workspace_id == vs && ltb c.id watermark)) [
      | inl gone ↦
          let low : ltb c.id watermark ≡ true = ground arith in
          let skip : (c.workspace_id == ws && is_above after c.id) ≡ false =
            ground (arith, not_above_watermark (as_i64 after) watermark c.id h low) in
          rw (gone, skip) ih
      | inr kept ↦ rw (kept, ih)
    ]

-- A row of another workspace is not deleted.
select-delete_other :
    (ws vs : String) (after watermark : ℕ) (cs : List Change)
    → ws ≢ vs
    → select
        (λ c. c.workspace_id == ws && is_above after c.id)
        (delete (λ c. c.workspace_id == vs && ltb c.id watermark) cs)
      ≡ select (λ c. c.workspace_id == ws && is_above after c.id) cs
select-delete_other ws vs after watermark [] h = refl
select-delete_other ws vs after watermark (c ∷ cs) h =
    let ih = select-delete_other ws vs after watermark cs h in
    elim (Bool-cases (c.workspace_id == vs && ltb c.id watermark)) [
      | inl gone ↦
          let skip : (c.workspace_id == ws && is_above after c.id) ≡ false =
            ground (arith, eq_iff c.workspace_id ws, eq_iff c.workspace_id vs) in
          rw (gone, skip) ih
      | inr kept ↦ rw (kept, ih)
    ]

drop_changes-devices :
    (ws : String) (w : ℕ) (now : Timestamp) (s : Store)
    → (drop_changes ws w now s).1.device_cursors ≡ s.device_cursors
unfolding drop_changes
drop_changes-devices ws w now s = ground arith

drop_changes-changes :
    (ws : String) (w : ℕ) (now : Timestamp) (s : Store)
    → (drop_changes ws w now s).1.sync_changes
      ≡ delete (λ c. c.workspace_id == ws && ltb c.id w) s.sync_changes
unfolding drop_changes
drop_changes-changes ws w now s = ground arith

pull-congr :
    (ws : String) (after : ℕ) (limit : ℤ) (s t : Store)
    → pending ws after s ≡ pending ws after t
    → pull ws after limit s ≡ pull ws after limit t
unfolding pull pull_rows
pull-congr ws after limit s t e = rw e

drop_stale-pending_of :
    (ws vs : String) (cutoff : Timestamp) (after : ℕ) (s : Store)
    → pending vs after (drop_stale ws cutoff s) ≡ pending vs after s
unfolding drop_stale
drop_stale-pending_of ws vs cutoff after s = refl

compact_below-devices :
    (ws : String) (w : ℤ) (now : Timestamp) (live : Store)
    → (compact_below ws w now live).1.device_cursors ≡ live.device_cursors
unfolding compact_below
compact_below-devices ws (negsuc n) now live = refl
compact_below-devices ws (pos n) now live = ground arith

compact_below-pending :
    (ws : String) (w : ℤ) (now : Timestamp) (live : Store) (after : ℕ)
    → int_leb w (as_i64 after) ≡ true
    → pending ws after (compact_below ws w now live).1 ≡ pending ws after live
unfolding compact_below
compact_below-pending ws (negsuc n) now live after h = refl
compact_below-pending ws (pos n) now live after h = elim (Bool-cases (eqb n 0)) [
  | inl none_left ↦ rw none_left
  | inr some_left ↦
      rw (some_left, drop_changes-changes ws n now live)
        (select-delete ws ws after n live.sync_changes h)
]

compact_below-pending_other :
    (ws vs : String) (w : ℤ) (now : Timestamp) (live : Store) (after : ℕ)
    → vs ≢ ws
    → pending vs after (compact_below ws w now live).1 ≡ pending vs after live
unfolding compact_below
compact_below-pending_other ws vs (negsuc n) now live after ne = refl
compact_below-pending_other ws vs (pos n) now live after ne = elim (Bool-cases (eqb n 0)) [
  | inl none_left ↦ rw none_left
  | inr some_left ↦
      rw (some_left, drop_changes-changes ws n now live)
        (select-delete_other vs ws after n live.sync_changes ne)
]

-- For every device that survives the compaction, and every page limit, the next pull from its cursor
-- returns what it would have returned without the compaction; a cursor is kept as the `i64` that its
-- `u64` is cast to.
pub pull-compact :
    (ws : String) (ttl : ℕ) (now : Timestamp) (s : Store) (d : DeviceCursor) (after : ℕ) (limit : ℤ)
    → Memᴰ d (select (λ e. e.workspace_id == ws) (compact ws ttl now s).1.device_cursors)
    → d.cursor ≡ as_i64 after
    → pull ws after limit (compact ws ttl now s).1 ≡ pull ws after limit s
unfolding compact compact_live
pull-compact ws ttl now s d after limit m kept =
    let live = drop_stale ws (now - days ttl) s in
    let w = min_cursor (select (λ e. e.workspace_id == ws) live.device_cursors) in
    let m' = rw (compact_below-devices ws w now live) at m in
    pull-congr ws after limit (compact_below ws w now live).1 s (
      compact_below-pending ws w now live after (rw (← kept) (min_cursor-le d _ m'))
      ∙ drop_stale-pending_of ws ws (now - days ttl) after s)

-- Compacting one workspace changes no pull of another one.
pub pull-compact_other :
    (ws vs : String) (ttl : ℕ) (now : Timestamp) (s : Store) (after : ℕ) (limit : ℤ)
    → vs ≢ ws
    → pull vs after limit (compact ws ttl now s).1 ≡ pull vs after limit s
unfolding compact compact_live
pull-compact_other ws vs ttl now s after limit ne =
    let live = drop_stale ws (now - days ttl) s in
    let w = min_cursor (select (λ e. e.workspace_id == ws) live.device_cursors) in
    pull-congr vs after limit (compact_below ws w now live).1 s (
      compact_below-pending_other ws vs w now live after ne
      ∙ drop_stale-pending_of ws vs (now - days ttl) after s)

epoch-update :
    (ws : String) (now : Timestamp) (ms : List SyncMeta) (m : SyncMeta)
    → find (λ x. x.workspace_id == ws) ms ≡ some m
    → find
        (λ x. x.workspace_id == ws)
        (update
          (λ x. x.workspace_id == ws)
          (λ x. record x { sync_epoch = x.sync_epoch + 1; updated_at = now })
          ms)
      ≡ some (record m { sync_epoch = m.sync_epoch + 1; updated_at = now })
epoch-update ws now [] m h = cc
epoch-update ws now (x ∷ ms) m h = elim (Bool-cases (x.workspace_id == ws)) [
  | inl found ↦ rw (found, found) (ground arith)
  | inr other ↦ rw (other, other) (epoch-update ws now ms m (ground arith))
]

epoch-compact_below :
    (ws : String) (w : ℤ) (now : Timestamp) (s : Store) (m : SyncMeta)
    → find (λ x. x.workspace_id == ws) s.sync_meta ≡ some m
    → epoch ws (compact_below ws w now s).1
      ≡ epoch ws s + (if ltb 0 (compact_below ws w now s).0 then 1 else 0)
unfolding compact_below drop_changes epoch
epoch-compact_below ws (negsuc n) now s m h = ground arith
epoch-compact_below ws (pos n) now s m h = ground (arith, epoch-update ws now s.sync_meta m h)

-- A compaction that deletes a row raises the epoch of its workspace by one, and one that deletes
-- none leaves it; the workspace has its row in sync_meta.
pub epoch-compact :
    (ws : String) (ttl : ℕ) (now : Timestamp) (s : Store) (m : SyncMeta)
    → find (λ x. x.workspace_id == ws) s.sync_meta ≡ some m
    → epoch ws (compact ws ttl now s).1
      ≡ epoch ws s + (if ltb 0 (compact ws ttl now s).0 then 1 else 0)
unfolding compact compact_live drop_stale epoch
epoch-compact ws ttl now s m h =
    let live = drop_stale ws (now - days ttl) s in
    epoch-compact_below ws (min_cursor (select (λ e. e.workspace_id == ws) live.device_cursors)) now
      live m h
