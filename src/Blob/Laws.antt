-- ===== src/Blob/Laws.antt =====
-- What is put into the blob store is read back (crates/blob/src/lib.rs).
use panda_server.Prelude.{
  ℕ, String, true, some, List, [], ◌∷◌, ◌≡◌, refl, ap, eq_refl, length, Option-cases, inl, inr,
}
use panda_server.Prelude.Keys.{find-append_last}
use panda_server.Domain.Error.{ok}
use panda_server.Store.Env.{Env}
use panda_server.Store.State.{Store}
use panda_server.Blob.{same_path, path_for_hash, file, content, get, put}

same_path_refl : (p : List String) → same_path p p ≡ true
unfolding same_path
same_path_refl [] = refl
same_path_refl (a ∷ p) = rw (eq_refl a) (same_path_refl p)

-- Bytes that are put are read back under the returned hash, which is theirs, whether or not the file
-- was there; a file that is there already holds them.
pub get-put :
    (env : Env) (bytes : List ℕ) (s : Store)
    → ((old : List ℕ)
        → content (file (path_for_hash (env.blake3 bytes)) s) ≡ some old
        → old ≡ bytes)
    → ((put env bytes s).0 ≡ ok (env.blake3 bytes, length bytes))
      × (get (env.blake3 bytes) (put env bytes s).1 ≡ ok bytes)
unfolding get put
get-put env bytes s addressed =
    let path = path_for_hash (env.blake3 bytes) in
    elim (Option-cases (file path s)) [
      | inl missing ↦ rw missing (
        refl,
        rw
            (find-append_last (λ f. same_path f.0 path) s.files (path, bytes) missing
              (same_path_refl path))
            refl,
      )
      | inr (f, found) ↦
          let same : f.1 ≡ bytes = addressed f.1 (ap content found) in
          rw (found, found) (refl, ap ok same)
    ]
