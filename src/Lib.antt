-- ===== src/Lib.antt =====
-- A model of viveCServer, its synchronisation core, its attachment store and its devices and
-- accounts, and the theorems that make it correct.
--
-- A device pushes batches of changes to the entities of an account (notebooks, sections, pages,
-- page bodies, ink, attachments) and pulls the delta since a cursor. The server keeps one row for
-- each entity with a version, and gives all the rows of a push one value of the account's change
-- sequence. A push is checked change by change against the stored rows, the stored attachments and
-- the log of purged entities, and its answer is recorded so that a retry is answered alike.
--
-- The parts, with the code they model:
--   Base         shared notation, lists and tables over native numbers, Go's int64, ORDER BY
--   Sync.Kind    internal/store/synctables.go, `syncKinds` and the look-up by name
--   Sync.Text, Sync.Failure, Sync.Object
--                ids, digests, error values, JSON objects
--   Sync.Fields  internal/store/notebooks.go, sections.go, pages.go, pagecontent.go, inkstrokes.go,
--                inkoperations.go, attachments.go: fields, Validate, RequiredBlobDigests,
--                CheckBlobPresence, RetainOnDelete, the columns of the upserts, the changeJSON
--   Sync.Change, Sync.Decode
--                internal/syncengine/changes.go: decodeChanges and what it calls
--   Sync.Engine  internal/syncengine/engine.go, ApplyChangeBatch: Checks (the guards of one change),
--                Run (the runs of one kind and the loop), Reference (a specification of the
--                decision, change by change); the other children are proofs
--   Sync.Pull    internal/syncengine/engine.go, PullFilteredChanges: the page, the purges
--   Store        internal/store: the tables (Database), the sequence, WriteChanges (Write), the
--                replay record (Batches), ReadChangeContext (Context), SelectDeltaCutoff and
--                SelectDelta (Delta, with the byteWeight of a row in Weight), the purge log of
--                purges.go (Purges)
--   Push         theorems on a whole push
--   Changefeed   internal/changefeed/changefeed.go
--   Blob         attachments: Files (internal/blob/store.go, FileStore), Records (the statements of
--                internal/store/blobs.go), Sweep (internal/blobsweep/sweeper.go, SweepOnce and
--                deleteOne), Upload (the handlers of internal/httpapi/blobs.go), Steps (the step
--                relation of uploads, sweeps, pushes and restarts); Backed, Sound, Invariants,
--                Refinement, Runs, Kept, Offered and Transfer are proofs
--   Access       Devices (internal/store/devices.go), Accounts (internal/store/accounts.go and
--                adminsessions.go), Credentials (internal/auth/credentials.go, token.go and
--                internal/httpapi/credentials.go), Endpoints (internal/httpapi/authmiddleware.go,
--                request.go, errors.go, accounts.go, devices.go); Revoked, Revocation, Registration,
--                Installations, SignIn, SignOut and Isolation are proofs
--   Livelog      internal/livelog/livelog.go
--   Tests        a concrete codec and databases, and the theorems at them
--
-- How they interact: Sync.Engine decodes a push with Sync.Decode, asks Store.Context once for each
-- run of one kind, decides each change with Sync.Engine.Checks, and writes with Store.Write inside
-- one transaction, which is one step of the model: the account's lock admits one push at a time,
-- and a failure leaves the database as it was (`database_after`). The queries of a pull run in
-- snapshots of their own (`Snapshots`); the theorems on pulls are about a database that stands
-- still.
--
-- An upload stages its bytes without a lock and then, under the lock of the digest, publishes the
-- file and records the account's row; a sweep marks rows in one transaction and then deletes
-- candidates one at a time, row and file, under the same lock. What a lock covers is one step;
-- every system call and statement of a step may fail, by an argument that says which do. SweepOnce
-- and the upload handler are also proved to be runs of those steps in their order. The endpoints
-- work on the database and the change feed together.
--
-- State and numbers: a table is an association list by its primary key, a Go map an association
-- list, a set a list. Versions are int64 with the wrap-around of `+ 1` written out; a sequence
-- value is a natural number whose overflow of a bigint is an error. Times are numbers, and `now()`,
-- the replay window and the draw of the pruning sample are arguments. float32 values are their
-- bits. The ids of accounts, devices and batches are UUIDs, as the handler of a push checks.
--
-- Parameters: encoding/json, SHA-256 and the database's jsonb, with the texts that its cast
-- refuses, are the fields of `Codec` and `Encoders`, whose only law is that decoding into a kind's
-- struct gives that kind's struct. octet_length, pg_column_size, the lengths of rendered changes
-- and the collation are the fields of `Measures`, without laws: the theorems on pulls say what
-- happens where a row renders to more than four times its byteWeight. The digest of a file's bytes,
-- http.MaxBytesReader, the functions of strings, net/mail and pgtype.UUID (`Texts`, `LogTexts`),
-- Argon2id and the minting of tokens (`Secrets`), JSON decoders, the ids of gen_random_uuid and the
-- clocks are arguments without laws.
--
-- Loops are structural recursion. The only fuel is that of `pull_all`, the client that pulls page
-- after page: each page advances the cursor, so as many pages as there are sequence values to go
-- suffice, and that is its theorem's bound.
--
-- Not modelled: the column server_updated_at and last_writer's reset when a device row goes; the
-- English text of the rejections of a push, log lines, response headers but the ETag; errors of the
-- connection in the push and pull. Of the foreign keys, those whose failure or cascade the code
-- relies on are modelled (blobs, page_blob_refs, devices, applied_batches, admin_sessions,
-- last_writer of a write); that a parent's row and an attachment's bytes are there is what the
-- checks of a push establish before it writes. The endpoints of pushes, pulls and the event stream,
-- the administration pages and their statistics, compression, PHC strings, configuration, the
-- command line and migrations are left out.
pub mod Base
pub mod Sync
pub mod Store
pub mod Push
pub mod Changefeed
pub mod Blob
pub mod Access
pub mod Livelog
pub mod Tests
