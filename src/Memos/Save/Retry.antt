-- ===== src/Memos/Save/Retry.antt =====
-- Retries of `save` by its idempotency key (crates/store/src/memos.rs).
use panda_server.Prelude.{
  ◌+◌, ◌<◌, String, Bool, true, false, ◌&&◌, none, some, List, [], ◌∷◌, ◌++◌, ◌≡◌, sym, ap, ◌∙◌,
  subst, arith, ◌==◌, eq_refl, Bool-cases, inl, inr,
}
use panda_server.Prelude.Sql.{find}
use panda_server.Prelude.Text.{is_empty}
use panda_server.Domain.Error.{ok}
use panda_server.Store.Rows.{Timestamp, IdempotencyKey, MemoSaveAck}
use panda_server.Store.Env.{Env}
use panda_server.Store.State.{Store}
use panda_server.Memos.Queries.{is_served, get_idempotency}
use panda_server.Memos.Request.{SaveRequest}
use panda_server.Memos.Save.{ack_of, key_row, remember, one_day, save, save_locked}
use panda_server.Memos.Save.Outcome.{save_new-Saved, Saved-ack, Saved-idempotency_keys}
use panda_server.Memos.Save.Once.{IsFresh, save_of_IsFresh}

-- A row under this key, whether or not it has expired.
abbrev pub is_key : String → String → IdempotencyKey → Bool
is_key ws key k = k.workspace_id == ws && k.key == key

find-append_new :
    (ws key : String) (now : Timestamp) (ks : List IdempotencyKey) (row : IdempotencyKey)
    → find (is_key ws key) ks ≡ none
    → is_served ws key now row ≡ true
    → find (is_served ws key now) (ks ++ row ∷ []) ≡ some row
find-append_new ws key now [] row free served = rw served
find-append_new ws key now (k ∷ ks) row free served = elim (Bool-cases (is_key ws key k)) [
  | inl taken ↦ cc (rw taken at free)
  | inr other ↦
      let skip : is_served ws key now k ≡ false = ground arith in
      rw skip (find-append_new ws key now ks row (rw other at free) served)
]

get_idempotency-remember :
    (env : Env) (ws key memo_id : String) (ack : MemoSaveAck) (now later : Timestamp)
    (ks : List IdempotencyKey) (t : Store)
    → env.ack_from_json (env.ack_to_json ack) ≡ some ack
    → find (is_key ws key) ks ≡ none
    → later < now + one_day
    → t.idempotency_keys ≡ remember env ws key memo_id ack now ks
    → get_idempotency env ws key later t ≡ some ack
unfolding get_idempotency
get_idempotency-remember env ws key memo_id ack now later ks t reads free soon kept =
    rw (kept, free)
      (rw
        (find-append_new ws key later ks (key_row env ws key memo_id ack now) free
          (ground (arith, eq_refl ws, eq_refl key)))
        reads)

save-served :
    (env : Env) (ws actor_id memo_id : String) (req : SaveRequest) (now : Timestamp) (id : String)
    (seen s : Store) {ack : MemoSaveAck}
    → is_empty req.idempotency_key ≡ false
    → get_idempotency env ws req.idempotency_key now seen ≡ none
    → get_idempotency env ws req.idempotency_key now s ≡ some ack
    → save env ws actor_id memo_id req now id seen s ≡ (ok ack, s)
unfolding save save_locked
save-served env ws actor_id memo_id req now id seen s keyed unseen known =
    rw (keyed, unseen) (rw (known, save_locked))

-- A save that returned, and found no row under its key, is answered for a day: any later call with that
-- key, which before it took the write lock saw no acknowledgement under it, returns the same
-- acknowledgement and changes nothing, whatever else it asks for. The JSON of the acknowledgement reads
-- back as it was written.
pub save-retry :
    (env : Env) (ws actor_id memo_id : String) (req : SaveRequest) (now : Timestamp) (id : String)
    (seen s : Store) {ack : MemoSaveAck} {t : Store} (other_actor other_memo : String)
    (retry : SaveRequest) (later : Timestamp) (other_id : String) (retry_seen : Store)
    → env.ack_from_json (env.ack_to_json ack) ≡ some ack
    → IsFresh env ws req now seen s
    → find (is_key ws req.idempotency_key) s.idempotency_keys ≡ none
    → save env ws actor_id memo_id req now id seen s ≡ (ok ack, t)
    → retry.idempotency_key ≡ req.idempotency_key
    → later < now + one_day
    → get_idempotency env ws retry.idempotency_key later retry_seen ≡ none
    → save env ws other_actor other_memo retry later other_id retry_seen t ≡ (ok ack, t)
save-retry env ws actor_id memo_id req now id seen s {ack} {t} other_actor other_memo retry later
      other_id retry_seen reads fresh free h same soon unseen =
    let saved =
      save_new-Saved env ws actor_id memo_id req now id s
        (sym (save_of_IsFresh env ws actor_id memo_id req now id seen s fresh) ∙ h) in
    let told = Saved-ack env ws actor_id memo_id req now s saved in
    let kept =
      get_idempotency-remember env ws req.idempotency_key memo_id (ack_of req saved.edit now) now
        later s.idempotency_keys t
        (subst (λ a. env.ack_from_json (env.ack_to_json a) ≡ some a) told reads) free soon
        (Saved-idempotency_keys env ws actor_id memo_id req now s saved) in
    save-served env ws other_actor other_memo retry later other_id retry_seen t
      (ap is_empty same ∙ fresh.keyed) unseen
      (ap (λ key. get_idempotency env ws key later t) same ∙ kept ∙ ap some (sym told))
