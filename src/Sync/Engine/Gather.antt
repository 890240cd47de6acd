-- ===== src/Sync/Engine/Gather.antt =====
-- readBatchContext answers about every change of its run as the tables do, and it never fails.
use vive_cserver.Base.{
  String, str_eq, contains, ◌≡◌, true, Option, none, some, List, [], arith, inl, inr, string_eq,
}
use vive_cserver.Base.Table.{lookup}
use vive_cserver.Sync.Kind
use vive_cserver.Sync.Kind.{Kind, notebook, parent_kind, sync_kind_by_name}
use vive_cserver.Sync.Fields.{parent_id}
use vive_cserver.Sync.Fields.Render.{change_json}
use vive_cserver.Store.Database.{Database}
use vive_cserver.Store.Outcome.{ok}
use vive_cserver.Store.Context.{ChangeContext, read_change_context, decode_digests}
use vive_cserver.Store.Context.Lookup.{
  lookup-select_current, contains-select_ids, lookup-select_blobs, lookup-select_blobs-none,
  contains-select_purged, contains-decode_digests,
}
use vive_cserver.Sync.Change.{ReadChange, DecodedChange}
use vive_cserver.Sync.Engine.Run.{entity_ids, parent_ids, required_digests, read_batch_context}
use vive_cserver.Sync.Engine.Reference.{parent_stored, is_purged, held, current_now}
use vive_cserver.Sync.Kind.Registry.{parent_resolves}
use vive_cserver.Sync.Engine.Answers.{Answers, AllRead, AllRead-zip, IsAsked, run-IsAsked}

module _ (db : Database) (account_id : String) (kind : Kind) (ids parents ds : List String)
    (c : ReadChange) where
  context : Option Kind → ChangeContext
  context parent = read_change_context change_json db kind parent account_id ids parents ds

  context-current :
      (parent : Option Kind)
      → c.kind ≡ kind
      → contains ids c.envelope.id ≡ true
      → lookup c.envelope.id (context parent).current_by_id ≡ current_now db account_id c
  unfolding context read_change_context current_now
  context-current parent e h =
      ground
        (arith, lookup-select_current account_id kind ids c.envelope.id (change_json db) db.rows h)

  context-gone :
      (parent : Option Kind)
      → c.kind ≡ kind
      → contains ids c.envelope.id ≡ true
      → contains (context parent).purged_ids c.envelope.id ≡ is_purged db account_id c
  unfolding context read_change_context is_purged
  context-gone parent e h =
      ground
        (arith, contains-select_purged account_id (Kind.name kind) ids c.envelope.id db.purges h)

  context-blob :
      (parent : Option Kind) (digest : String)
      → contains ids c.envelope.id ≡ true
      → contains ds digest ≡ true
      → lookup digest (context parent).stored_blobs ≡ held db account_id digest
  unfolding context read_change_context held
  context-blob parent digest h asked = ground (
    arith,
    contains-decode_digests ds digest,
    lookup-select_blobs account_id (decode_digests ds) digest db.blobs,
    lookup-select_blobs-none account_id (decode_digests ds) digest db.blobs,
  )

  context-parent :
      (p : Kind)
      → c.kind ≡ kind
      → sync_kind_by_name (parent_kind kind) ≡ some p
      → contains ids c.envelope.id ≡ true
      → contains parents (parent_id c.fields) ≡ true
      → contains (context (some p)).existing_parent_ids (parent_id c.fields)
        ≡ parent_stored db account_id c
  unfolding context read_change_context parent_stored
  context-parent p e found h asked =
      ground (arith, contains-select_ids account_id p parents (parent_id c.fields) db.rows asked)

module _ (db : Database) (account_id : String) (kind : Kind) (run : List DecodedChange) where
  abbrev ids : List String
  ids = entity_ids run

  abbrev ds : List String
  ds = required_digests run []

  abbrev Asked : List String → ReadChange → Type 0
  Asked parents = IsAsked ids parents ds

  Answers-root :
      (c : ReadChange)
      → str_eq (parent_kind kind) "" ≡ true
      → c.kind ≡ kind
      → Asked (parent_ids run) c
      → Answers (read_change_context change_json db kind none account_id ids [] ds) db account_id c
  Answers-root c root e a = record {
    current = unfold context in context-current db account_id kind ids [] ds c none e a.id;
    parent = λ h. ground (arith, root);
    gone = unfold context in context-gone db account_id kind ids [] ds c none e a.id;
    blob = λ d live asked.
        unfold context in
        context-blob db account_id kind ids [] ds c none d a.id (a.digest d live asked);
  }

  Answers-child :
      (p : Kind) (c : ReadChange)
      → sync_kind_by_name (parent_kind kind) ≡ some p
      → c.kind ≡ kind
      → Asked (parent_ids run) c
      → Answers
          (read_change_context change_json db kind (some p) account_id ids (parent_ids run) ds)
          db
          account_id
          c
  Answers-child p c found e a = record {
    current =
        unfold context in
        context-current db account_id kind ids (parent_ids run) ds c (some p) e a.id;
    parent = λ h.
        unfold context in
        context-parent db account_id kind ids (parent_ids run) ds c p e found a.id a.parent;
    gone =
        unfold context in context-gone db account_id kind ids (parent_ids run) ds c (some p) e a.id;
    blob = λ d live asked.
        unfold context in
        context-blob db account_id kind ids (parent_ids run) ds c (some p) d a.id
          (a.digest d live asked);
  }

  -- The context of a run is always read, and answers about each change of the run.
  pub read_batch_context_total :
      AllRead (λ c. c.kind ≡ kind) run
      → (context : ChangeContext) × (read_batch_context account_id kind run db ≡ ok context)
        × AllRead (Answers context db account_id) run
  unfolding read_batch_context
  read_batch_context_total same = elim (parent_resolves kind) [
    | inl root ↦ (
      read_change_context change_json db kind none account_id ids [] ds,
      rw root,
      AllRead-zip (λ c. c.kind ≡ kind) (Asked (parent_ids run)) run
          (λ c e a. Answers-root c root e a) same (run-IsAsked run []),
    )
    | inr (p, child, found, before) ↦ (
      read_change_context change_json db kind (some p) account_id ids (parent_ids run) ds,
      rw (child, found),
      AllRead-zip (λ c. c.kind ≡ kind) (Asked (parent_ids run)) run
          (λ c e a. Answers-child p c found e a) same (run-IsAsked run []),
    )
  ]
