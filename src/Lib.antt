-- ===== src/Lib.antt =====
-- Panda Server: a note server that keeps Markdown notes, notebooks and todos for several workspaces,
-- with optimistic concurrency, retries by idempotency key and a change log from which devices catch up.
-- The development models the repositories behind the routes and the pure functions that they use.
--
-- The parts, their files here and their sources:
--   Domain     crates/domain: error.rs (Domain/ErrorCode, Domain/Error), etag.rs (Domain/Etag, with the
--              decimals of a revision in Domain/Etag/Decimal), markdown.rs (Domain/Markdown and below)
--   Store      crates/store/src/lib.rs and migrations/001_initial.sql: the rows (Store/Rows), the tables
--              (Store/State), methods that write and may fail (Store/Action), the calls that the code
--              leaves to libraries (Store/Env)
--              Store/Accounts has the rows of users and of what they sign in with, Store/Messages the
--              messages of crates/proto that the methods take and give
--   Sync       crates/store/src/sync_repo.rs: `append_unlocked`, `epoch`, `max_cursor`, `pull`,
--              `upsert_device_cursor`, `compact`; `inventory` with a store for each of its reads
--              (Sync/Inventory)
--   Todos      crates/store/src/todos.rs: `create`, `update` (update_todo), `delete` (delete_todo with
--              move_to_trash and delete_forever), `restore`; their reads and checks are in Todos/Checks,
--              `list` and `inventory` in Todos/Listing
--   Blob       crates/blob/src/lib.rs: `path_for_hash`, `put`, `get`, `exists`,
--              `delete_if_unreferenced`
--   Notebooks  crates/store/src/notebooks.rs: `get`, `list`, `default_inbox_id` (Notebooks/Queries),
--              `create`, `rename`, `soft_delete` (Notebooks/Edit), `reorder` (Notebooks/Order)
--   Memos      crates/store/src/memos.rs: the reads (Memos/Queries), `save` (Memos/Request for its
--              checks, Memos/Contents for the new text, Memos/Snapshot, Memos/Save), `soft_delete`,
--              `restore` and `batch_move` (Memos/Lifecycle), `create` and `merge` (Memos/Create),
--              `open` with its leases, named open_memo (Memos/Open), `list`, the search and
--              `inventory_page` (Memos/List), `list_revisions` and `restore_revision`
--              (Memos/Revisions), `list_tags` and `process_search_dirty` (Memos/Index)
--   Users      crates/store/src/users.rs: the reads (Users/Queries), accounts and workspaces
--              (Users/Accounts), sessions, API tokens and invites (Users/Tokens)
--   Auth       crates/auth/src/lib.rs: the service and its methods (Auth/Service), and the requests of
--              crates/server/src/routes/auth_routes.rs and crates/server/src/extract.rs
--              (Auth/Requests)
--   Push       crates/server/src/routes/sync_routes.rs: one item of a pushed batch (Push/Items), the
--              batch with the kept results (Push/Batch), `pull` and `admin_compact` (Push/Requests)
--   Resources  crates/store/src/resources.rs: `find_by_hash`, `create`, `get`, `list`
-- Every method that changes notes, notebooks or todos logs it, so Todos, Notebooks and Memos use
-- Sync; Memos uses Blob for the texts above the inline threshold and Notebooks for the notebook of a
-- note; Todos and Resources look at the notes for a linked one. Auth uses Users and, to make the
-- inbox of a new workspace, Notebooks; Push calls the methods of Memos, Todos and Notebooks.
--
-- How the code is modelled. A table is a list of its rows in the order of insertion; SQL's SELECT,
-- UPDATE and DELETE are the functions of Prelude/Sql. A method is a function from the store to a result
-- and the store behind it, also behind an error: what was written before a failure stays written. The
-- write lock makes methods run one after the other, so a run of the server is a sequence of calls; a
-- read before the lock has a store of its own (`seen`), which may be an older one. A push holds no lock
-- over its steps: what other requests write between them is a part of Push.Items.Fresh. Between the
-- other steps of a call nothing else is written, also where the code holds no lock over all of them, as
-- in `register`, `merge` and `restore_revision`. One reading of the
-- clock serves a whole call, and the clock and the fresh identifiers are arguments. A timestamp is the
-- number of seconds that its text stands for. Revisions and ids are natural numbers; where a cast to
-- `i64` or `u64` can show, it is written out (Sync.as_i64, Domain.Etag.Decimal.u64_mod).
-- blake3, argon2, serde_json, diffy, the RFC 3339 parser, LIKE, MATCH of the full-text index and the
-- conversion between texts and bytes are the fields of Store.Env.Env, about which nothing is assumed
-- unless a theorem says so. Random draws are arguments, as the identifiers are. The cursor of a `list` is
-- the pair that its text is made of.
--
-- Fuel: `strip_from` walks over the characters of a line with their number and one as its fuel, and
-- `print_digits` divides by ten with the number itself as its fuel; both are proved to be enough.
-- `catch_up` and `follow` take the number of pages that a client asks for.
--
-- Not modelled: failures of the database and of the file system, except violated constraints; the
-- MCP adapter, the notification bus, the websocket, the export and the start of the
-- process; of the routes those of notes, todos, notebooks and resources, and everywhere
-- the reading of HTTP bodies.
pub mod Prelude
pub mod Domain
pub mod Store
pub mod Sync
pub mod Todos
pub mod Blob
pub mod Notebooks
pub mod Memos
pub mod Users
pub mod Auth
pub mod Push
pub mod Resources
