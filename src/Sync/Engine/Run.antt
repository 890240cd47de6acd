-- ===== src/Sync/Engine/Run.antt =====
-- engine.go: the runs of one kind, readBatchContext and the loop over the changes.
use vive_cserver.Base.{
  String, str_eq, contains, Bool, true, false, Option, none, some, List, [], ◌∷◌, ◌++◌,
  if◌then◌else◌,
}
use vive_cserver.Sync.Kind
use vive_cserver.Sync.Kind.{Kind, kind_eq, rank, parent_kind, sync_kind_by_name}
use vive_cserver.Sync.Fields.{parent_id}
use vive_cserver.Sync.Fields.Render.{change_json}
use vive_cserver.Store.Database.{Database}
use vive_cserver.Store.Outcome.{Outcome, ok, failed, unregistered_parent, ◌>>=◌}
use vive_cserver.Store.Write.{PendingWrite}
use vive_cserver.Store.Context.{ChangeContext, read_change_context}
use vive_cserver.Sync.Change.{
  AppliedChange, RejectedChange, DecodedChange, refused, readable, change_kind,
}
use vive_cserver.Sync.Engine.Checks.{PushRequest, Verdict, reject, accept, decide}

pub record Progress : Type 0 where
  pub applied : List AppliedChange
  pub rejected : List RejectedChange
  pub pending : List PendingWrite
  pub accepted : List (String × String)

abbrev pub start : Progress
start = record { applied = []; rejected = []; pending = []; accepted = [] }

unfoldable pub settle : Progress → Verdict → Progress
settle p (reject r) = record p { rejected = p.rejected ++ r ∷ [] }
settle p (accept w) =
    let name = Kind.name w.kind in
    record {
      applied =
          p.applied
          ++ record { kind = name; id = w.envelope.id; version = w.envelope.version } ∷ [];
      rejected = p.rejected;
      pending = p.pending ++ w ∷ [];
      accepted = (name, w.envelope.id) ∷ p.accepted;
    }

-- decoded[runEnd].kind == decoded[runStart].kind
unfoldable pub same_kind : Option Kind → Option Kind → Bool
unfolding rank
same_kind none none = true
same_kind (some a) (some b) = kind_eq a b
same_kind _ _ = false

unfoldable pub join_run : DecodedChange → List (List DecodedChange) → List (List DecodedChange)
unfolding change_kind same_kind
join_run c [] = (c ∷ []) ∷ []
join_run c ([] ∷ rest) = (c ∷ []) ∷ rest
join_run c ((d ∷ ds) ∷ rest) =
    if same_kind (change_kind c) (change_kind d)
    then (c ∷ d ∷ ds) ∷ rest
    else (c ∷ []) ∷ (d ∷ ds) ∷ rest

-- The maximal runs of changes of one kind, in order.
unfoldable pub runs_of : List DecodedChange → List (List DecodedChange)
unfolding join_run
runs_of [] = []
runs_of (c ∷ cs) = join_run c (runs_of cs)

-- the arguments of the queries that readBatchContext gathers
unfoldable pub entity_ids : List DecodedChange → List String
entity_ids [] = []
entity_ids (refused kind r ∷ cs) = entity_ids cs
entity_ids (readable c ∷ cs) = c.envelope.id ∷ entity_ids cs

unfoldable pub parent_ids : List DecodedChange → List String
parent_ids [] = []
parent_ids (refused kind r ∷ cs) = parent_ids cs
parent_ids (readable c ∷ cs) = parent_id c.fields ∷ parent_ids cs

unfoldable pub add_digests : List String → List String → List String
add_digests [] seen = seen
add_digests (digest ∷ rest) seen =
    add_digests rest (if contains seen digest then seen else seen ++ digest ∷ [])

-- Each digest once; a tombstone asks for none.
unfoldable pub required_digests : List DecodedChange → List String → List String
unfolding add_digests
required_digests [] seen = seen
required_digests (refused kind r ∷ cs) seen = required_digests cs seen
required_digests (readable c ∷ cs) seen =
    required_digests cs
      (elim c.envelope.deleted_at [ none ↦ add_digests c.required_blobs seen | some t ↦ seen ])

unfoldable pub read_batch_context :
    String → Kind → List DecodedChange → Database → Outcome ChangeContext
unfolding entity_ids parent_ids required_digests
read_batch_context account_id kind run db =
    let ids = entity_ids run in
    let digests = required_digests run [] in
    if str_eq (parent_kind kind) ""
    then ok (read_change_context change_json db kind none account_id ids [] digests)
    else elim (sync_kind_by_name (parent_kind kind)) [
      | none ↦ failed (unregistered_parent (parent_kind kind))
      | some parent ↦ ok (
          read_change_context change_json db kind (some parent) account_id ids (parent_ids run)
            digests)
    ]

-- the changes of one run, in order
unfoldable pub decide_run : PushRequest → ChangeContext → List DecodedChange → Progress → Progress
unfolding settle
decide_run request context [] p = p
decide_run request context (refused kind r ∷ cs) p =
    decide_run request context cs (settle p (reject r))
decide_run request context (readable c ∷ cs) p =
    decide_run request context cs (settle p (decide request context p.accepted c))

-- A run whose kind could not be resolved holds refused changes only.
unfoldable pub refuse_run : List DecodedChange → Progress → Progress
unfolding settle
refuse_run [] p = p
refuse_run (refused kind r ∷ cs) p = refuse_run cs (settle p (reject r))
refuse_run (readable c ∷ cs) p = refuse_run cs p

unfoldable pub run_kind : List DecodedChange → Option Kind
unfolding change_kind
run_kind [] = none
run_kind (c ∷ cs) = change_kind c

unfoldable pub decide_runs :
    PushRequest → Database → List (List DecodedChange) → Progress → Outcome Progress
unfolding run_kind
decide_runs request db [] p = ok p
decide_runs request db (run ∷ runs) p = elim (run_kind run) [
  | none ↦ decide_runs request db runs (refuse_run run p)
  | some kind ↦
      (read_batch_context request.account_id kind run db >>= λ context.
      decide_runs request db runs (decide_run request context run p))
]

unfoldable pub decide_changes : PushRequest → Database → List DecodedChange → Outcome Progress
unfolding decide_runs runs_of
decide_changes request db decoded = decide_runs request db (runs_of decoded) start
