-- ===== src/Store/Example.antt =====
-- A small store with the calls that the code leaves to libraries, for runs on concrete input.
use Prim.Native.String.{[], ◌∷◌}
use panda_server.Prelude.{
  ◌==◌, true, ℕ, String, false, Option, none, some, List, eqb, if◌then◌else◌,
}
use Prim.Native.Char.{code}
use panda_server.Domain.Etag.{ETag, parse_etag}
use panda_server.Store.Rows.{MemoSaveAck}
use panda_server.Store.Env.{Env}
use panda_server.Store.State.{Store}

abbrev codes : String → List ℕ
codes [] = List.[]
codes (c ∷ s) = List.◌∷◌ (code c) (codes s)

-- The text's shape in place of a digest: `n` for a line end, `x` for another byte.
abbrev shape : List ℕ → String
shape List.[] = ""
shape (List.◌∷◌ b bs) = if eqb b 10 then "n" ∷ shape bs else "x" ∷ shape bs

abbrev ack_of_etag : String → Option ETag → Option MemoSaveAck
ack_of_etag text none = none
ack_of_etag text (some e) = some (record {
  protocol_version = 1;
  revision = e.revision;
  content_hash = e.hash_prefix;
  etag = text;
  lease_id = none;
  saved_at = 100;
})

abbrev pub example_env : Env
example_env = record {
  blake3 = shape;
  as_bytes = codes;
  from_utf8 = λ bytes. some (shape bytes);
  patch_parses = λ text. false;
  diffy_apply = λ base text. none;
  tags_to_json = λ tags. "[]";
  tags_from_json = λ text. some List.[];
  ack_to_json = λ ack. ack.etag;
  ack_from_json = λ text. ack_of_etag text (parse_etag text);
  todo_to_json = λ todo. todo.etag;
  object_to_json = λ fields. "{}";
  result_to_json = λ r. r.client_op_id;
  result_from_json = λ text. some (record {
    client_op_id = text;
    ok = true;
    error_code = none;
    save_ack = none;
    memo_id = some text;
    todo = none;
  });
  to_rfc3339 = λ t. "now";
  hash_password = λ password salt. password;
  verify_password = λ password hash. some (password == hash);
  like = λ text pattern. false;
  fts_match = λ query row. false;
  parse_from_rfc3339 = λ t. some t;
}

abbrev pub empty_store : Store
empty_store = record {
  memos = List.[];
  memo_contents = List.[];
  memo_revisions = List.[];
  edit_leases = List.[];
  idempotency_keys = List.[];
  content_blobs = List.[];
  search_dirty = List.[];
  sync_changes = List.[];
  last_change_id = 0;
  sync_meta = List.[];
  device_cursors = List.[];
  notebooks = List.[];
  todos = List.[];
  resources = List.[];
  workspaces = List.[];
  users = List.[];
  workspace_members = List.[];
  sessions = List.[];
  api_tokens = List.[];
  sync_operations = List.[];
  memos_fts = List.[];
  files = List.[];
  inline_threshold = 64;
}
