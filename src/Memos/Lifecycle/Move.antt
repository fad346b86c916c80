-- ===== src/Memos/Lifecycle/Move.antt =====
-- `batch_move` (crates/store/src/memos.rs).
use panda_server.Prelude.{
  ℕ, ◌+◌, String, List, [], ◌∷◌, ◌≡◌, refl, ap, arith, if◌then◌else◌, Bool-cases, inl, inr, is_some,
}
use panda_server.Prelude.Sql.{find, update}
use panda_server.Domain.Error.{ok}
use panda_server.Store.Rows.{Timestamp, Memo}
use panda_server.Store.Env.{Env}
use panda_server.Store.State.{Store}
use panda_server.Store.Action.{◌>>=◌}
use panda_server.Sync
use panda_server.Memos.Queries.{is_memo, require_notebook}
use panda_server.Memos.Lifecycle.{log_meta, write_memo, moved, move_one, move_all, batch_move}

-- An UPDATE that leaves the keys alone leaves the same notes to be found.
is_some-find-update :
    (ws id key : String) (f : Memo → Memo) (ms : List Memo)
    → ((m : Memo) → is_memo ws key (f m) ≡ is_memo ws key m)
    → is_some (find (is_memo ws key) (update (is_memo ws id) f ms))
      ≡ is_some (find (is_memo ws key) ms)
is_some-find-update ws id key f [] keep = refl
is_some-find-update ws id key f (m ∷ ms) keep = elim (Bool-cases (is_memo ws id m)) [
  | inl hit ↦ rw hit (elim (Bool-cases (is_memo ws key m)) [
    | inl same ↦ rw (keep m, same)
    | inr other ↦ rw (keep m, other) (is_some-find-update ws id key f ms keep)
  ])
  | inr miss ↦ rw miss (elim (Bool-cases (is_memo ws key m)) [
    | inl same ↦ rw same
    | inr other ↦ rw other (is_some-find-update ws id key f ms keep)
  ])
]

move_one-found :
    (env : Env) (ws notebook_id id : String) (now : Timestamp) (s : Store)
    → (move_one env ws notebook_id id now s).0 ≡ ok (is_some (find (is_memo ws id) s.memos))
unfolding move_one
move_one-found env ws notebook_id id now s =
    elim (Bool-cases (is_some (find (is_memo ws id) s.memos))) [
      | inl found ↦ rw found
      | inr missing ↦ rw missing
    ]

move_one-memos :
    (env : Env) (ws notebook_id id : String) (now : Timestamp) (s : Store)
    → (move_one env ws notebook_id id now s).1.memos
      ≡ update (is_memo ws id) (moved notebook_id now) s.memos
unfolding move_one write_memo log_meta Sync.append_unlocked ◌>>=◌
move_one-memos env ws notebook_id id now s =
    elim (Bool-cases (is_some (find (is_memo ws id) s.memos))) [
      | inl found ↦ rw found
      | inr missing ↦ rw missing
    ]

-- How many of the ids name a note.
abbrev pub known : String → List String → Store → ℕ
known ws [] s = 0
known ws (id ∷ ids) s = (if is_some (find (is_memo ws id) s.memos) then 1 else 0) + known ws ids s

-- The notes of a store as a list of the keys that they have.
SameKeys : String → Store → Store → Type 0
SameKeys ws s t =
    (id : String) → is_some (find (is_memo ws id) t.memos) ≡ is_some (find (is_memo ws id) s.memos)

known_of_SameKeys :
    (ws : String) (ids : List String) (s t : Store)
    → SameKeys ws s t
    → known ws ids t ≡ known ws ids s
unfolding SameKeys
known_of_SameKeys ws [] s t same = refl
known_of_SameKeys ws (id ∷ ids) s t same = rw (same id, known_of_SameKeys ws ids s t same) refl

move_one-SameKeys :
    (env : Env) (ws notebook_id id : String) (now : Timestamp) (s : Store)
    → SameKeys ws s (move_one env ws notebook_id id now s).1
unfolding SameKeys
move_one-SameKeys env ws notebook_id id now s key =
    rw (move_one-memos env ws notebook_id id now s)
      (is_some-find-update ws id key (moved notebook_id now) s.memos (λ m. refl))

move_all-known :
    (env : Env) (ws notebook_id : String) (ids : List String) (now : Timestamp) (s : Store)
    → (move_all env ws notebook_id ids now s).0 ≡ ok (known ws ids s)
unfolding move_all ◌>>=◌
move_all-known env ws notebook_id [] now s = refl
move_all-known env ws notebook_id (id ∷ ids) now s =
    rw
      (
        move_one-found env ws notebook_id id now s,
        move_all-known env ws notebook_id ids now (move_one env ws notebook_id id now s).1,
        known_of_SameKeys ws ids s _ (move_one-SameKeys env ws notebook_id id now s),
      )
      (elim (Bool-cases (is_some (find (is_memo ws id) s.memos))) [
        | inl found ↦ rw found
        | inr missing ↦ rw missing (ap ok (omega arith))
      ])

-- A move into a notebook that the workspace has returns the number of the ids that name a note of
-- the workspace, an id that is given twice counted twice.
pub batch_move-known :
    (env : Env) (ws : String) (ids : List String) (notebook_id : String) (now : Timestamp)
    (seen s : Store)
    → require_notebook ws notebook_id seen ≡ ok tt
    → (batch_move env ws ids notebook_id now seen s).0 ≡ ok (known ws ids s)
unfolding batch_move ◌>>=◌
batch_move-known env ws ids notebook_id now seen s shelf =
    rw shelf (move_all-known env ws notebook_id ids now s)
