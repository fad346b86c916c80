-- ===== src/Sync/CatchUp.antt =====
-- A client that pulls page by page (crates/store/src/sync_repo.rs, `pull`, in the loop that
-- docs/client-adapter.md asks of a client).
use panda_server.Prelude.{
  ℕ, zero, suc, ◌-◌, ◌^◌, ◌<◌, ◌≤◌, ℤ, pos, negsuc, String, Bool, true, false, ◌&&◌, List, [], ◌∷◌,
  ◌++◌, ◌≡◌, refl, ap, ◌∙◌, arith, ◌==◌, ltb, if◌then◌else◌, Bool-cases, inl, inr, All, clamp,
  length, take, drop, take-append-drop, take_all, length-drop-lt, get_last?, ltb→lt,
}
use panda_server.Prelude.Sql.{select, select-cons_of_false}
use panda_server.Store.Rows.{Change}
use panda_server.Store.State.{Store}
use panda_server.Sync.{is_above, last_id, pull_rows}
use panda_server.Sync.Fold.{newest, IsAscending, newest_idem, newest-append_congr}
use panda_server.Sync.Page.{IsLog, pending, pull_rows-eq-newest, select-IsAscending, All-select}

-- The client's loop: all that the pages deliver until one says that nothing is left.
pub catch_up : ℕ → String → ℕ → ℤ → Store → List Change
catch_up zero ws after limit s = []
catch_up (suc fuel) ws after limit s =
    let page = pull_rows ws after limit s in
    let rest = catch_up fuel ws page.1 limit s in if page.2 then page.0 ++ rest else page.0

clamp_bounds : (limit : ℤ) → (1 ≤ clamp limit 1 500) × (clamp limit 1 500 ≤ 500)
clamp_bounds (pos n) = omega arith
clamp_bounds (negsuc n) = omega arith

select-above-All :
    (x : ℕ) (cs : List Change)
    → x < 2 ^ 63
    → All (λ d. x < d.id) cs
    → select (λ c. is_above x c.id) cs ≡ cs
select-above-All x [] fits h = refl
select-above-All x (c ∷ cs) fits (h, t) = ground (arith, select-above-All x cs fits t)

last_id-above :
    (x a : ℕ) (n : ℕ) (c : Change) (cs : List Change)
    → All (λ d. x < d.id) (c ∷ cs)
    → x < last_id (get_last? (take (suc n) (c ∷ cs))) a
last_id-above x a zero c cs h = h.0
last_id-above x a (suc n) c [] h = h.0
last_id-above x a (suc n) c (d ∷ cs) h = last_id-above x a n d cs h.1

last_id-below :
    (a b n : ℕ) (c : Change) (cs : List Change)
    → All (λ d. d.id < b) (c ∷ cs)
    → last_id (get_last? (take (suc n) (c ∷ cs))) a < b
last_id-below a b zero c cs h = h.0
last_id-below a b (suc n) c [] h = h.0
last_id-below a b (suc n) c (d ∷ cs) h = last_id-below a b n d cs h.1

not_above : (id cur : ℕ) → id < cur → cur < 2 ^ 63 → is_above cur id ≡ false
not_above id cur h fits = ground arith

-- The rows above the last id of a page are the rows behind the page.
select-above-page :
    (a n : ℕ) (cs : List Change)
    → IsAscending cs
    → All (λ d. d.id < 2 ^ 63) cs
    → suc n < length cs
    → select (λ c. is_above (last_id (get_last? (take (suc n) cs)) a) c.id) cs ≡ drop (suc n) cs
select-above-page a n [] up fits h = absurd (omega arith)
select-above-page a zero (c ∷ cs) up fits h =
    let all = select-above-All c.id cs fits.0 up.0 in ground (arith, all)
select-above-page a (suc n) (c ∷ []) up fits h = absurd (omega arith)
select-above-page a (suc n) (c ∷ d ∷ cs) up fits h =
    let cur = last_id (get_last? (take (suc n) (d ∷ cs))) a in
    let above : c.id < cur = last_id-above c.id a n d cs up.0 in
    let skip : is_above cur c.id ≡ false =
      not_above c.id cur above (last_id-below a (2 ^ 63) n d cs fits.1) in
    select-cons_of_false (λ x. is_above cur x.id) c (d ∷ cs) skip
    ∙ select-above-page a n (d ∷ cs) up.1 fits.1 (omega arith)

-- A later cursor selects among the rows of an earlier one.
select-pending :
    (ws : String) (after cur : ℕ) (cs : List Change)
    → after ≤ cur
    → cur < 2 ^ 63
    → select (λ c. c.workspace_id == ws && is_above cur c.id) cs
      ≡ select
          (λ c. is_above cur c.id)
          (select (λ c. c.workspace_id == ws && is_above after c.id) cs)
select-pending ws after cur [] h k = refl
select-pending ws after cur (c ∷ cs) h k = ground (arith, select-pending ws after cur cs h k)

pending-IsAscending :
    (ws : String) (after : ℕ) (s : Store) → IsLog s → IsAscending (pending ws after s)
pending-IsAscending ws after s log =
    select-IsAscending (λ c. c.workspace_id == ws && is_above after c.id) s.sync_changes
      log.ascending

All-below : (b m : ℕ) (cs : List Change) → b < m → All (λ c. c.id ≤ b) cs → All (λ c. c.id < m) cs
All-below b m [] h k = tt
All-below b m (c ∷ cs) h (p, t) = (omega arith, All-below b m cs h t)

pending-fits :
    (ws : String) (after : ℕ) (s : Store) → IsLog s → All (λ c. c.id < 2 ^ 63) (pending ws after s)
pending-fits ws after s log =
    All-select (λ c. c.id < 2 ^ 63) (λ c. c.workspace_id == ws && is_above after c.id)
      s.sync_changes (All-below s.last_change_id (2 ^ 63) s.sync_changes log.fits log.given)

above_of : (after id : ℕ) (b : Bool) → after < 2 ^ 63 → (b && is_above after id) ≡ true → after < id
above_of after id b h k = ground arith

last_id-fits :
    (after n : ℕ) (cs : List Change)
    → after < 2 ^ 63
    → All (λ c. c.id < 2 ^ 63) cs
    → last_id (get_last? (take (suc n) cs)) after < 2 ^ 63
last_id-fits after n [] h k = h
last_id-fits after n (c ∷ cs) h k = last_id-below after (2 ^ 63) n c cs k

select-above :
    (ws : String) (after : ℕ) (cs : List Change)
    → after < 2 ^ 63
    → All (λ c. after < c.id) (select (λ c. c.workspace_id == ws && is_above after c.id) cs)
select-above ws after [] h = tt
select-above ws after (c ∷ cs) h = elim (Bool-cases (c.workspace_id == ws && is_above after c.id)) [
  | inl take ↦
      rw take (above_of after c.id (c.workspace_id == ws) h take, select-above ws after cs h)
  | inr skip ↦ rw skip (select-above ws after cs h)
]

last_id-ge :
    (after n : ℕ) (cs : List Change)
    → All (λ c. after < c.id) cs
    → after ≤ last_id (get_last? (take (suc n) cs)) after
last_id-ge after n [] h = omega arith
last_id-ge after n (c ∷ cs) h = let p = last_id-above after after n c cs h in omega arith

-- The cursor of a page that is not the last one leaves exactly the rows behind the page.
pending-page :
    (ws : String) (after n : ℕ) (s : Store)
    → IsLog s
    → after < 2 ^ 63
    → suc n < length (pending ws after s)
    → pending ws (last_id (get_last? (take (suc n) (pending ws after s))) after) s
      ≡ drop (suc n) (pending ws after s)
pending-page ws after n s log small more =
    let rows = pending ws after s in
    let cur = last_id (get_last? (take (suc n) rows)) after in
    select-pending ws after cur s.sync_changes
      (last_id-ge after n rows (select-above ws after s.sync_changes small))
      (last_id-fits after n rows small (pending-fits ws after s log))
    ∙ select-above-page after n rows (pending-IsAscending ws after s log)
        (pending-fits ws after s log) more

catch_up_from :
    (n fuel : ℕ) (ws : String) (after : ℕ) (limit : ℤ) (s : Store)
    → clamp limit 1 500 ≡ suc n
    → IsLog s
    → after < 2 ^ 63
    → length (pending ws after s) < fuel
    → newest (catch_up fuel ws after limit s) ≡ newest (pending ws after s)
unfolding catch_up
catch_up_from n zero ws after limit s size log small enough = absurd (omega arith)
catch_up_from n (suc fuel) ws after limit s size log small enough =
    let rows = pending ws after s in
    rw (pull_rows-eq-newest ws after limit s log, size)
      (elim (Bool-cases (ltb (suc n) (length rows))) [
        | inl more ↦
            let fits = ltb→lt (suc n) (length rows) more in
            let cur = last_id (get_last? (take (suc n) rows)) after in
            let behind = pending-page ws after n s log small fits in
            rw more (
              newest-append_congr (take (suc n) rows) (catch_up fuel ws cur limit s)
                (drop (suc n) rows)
                (catch_up_from n fuel ws cur limit s size log
                    (last_id-fits after n rows small (pending-fits ws after s log))
                    (rw behind (omega (arith, length-drop-lt (suc n) rows fits (omega arith))))
                  ∙ ap newest behind)
              ∙ ap newest (take-append-drop (suc n) rows))
        | inr all ↦
            rw all
              (newest_idem (take (suc n) rows) ∙ ap newest (take_all (suc n) rows (ground arith)))
      ])

-- A client that starts at a cursor below 2^63 and pulls until a page says that nothing is left has
-- been sent rows with the same newest change of every fold key as if it had read the whole log above
-- its cursor at once, whatever the page limit; one more pull than there are pending rows is always
-- enough. The rows are those of the pages before they become messages, which have no fold key.
pub catch_up-converges :
    (fuel : ℕ) (ws : String) (after : ℕ) (limit : ℤ) (s : Store)
    → IsLog s
    → after < 2 ^ 63
    → length (pending ws after s) < fuel
    → newest (catch_up fuel ws after limit s) ≡ newest (pending ws after s)
catch_up-converges fuel ws after limit s log small enough =
    let low = (clamp_bounds limit).0 in
    let size : clamp limit 1 500 ≡ suc (clamp limit 1 500 - 1) = omega arith in
    catch_up_from (clamp limit 1 500 - 1) fuel ws after limit s size log small enough
