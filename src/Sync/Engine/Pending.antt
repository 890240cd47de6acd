-- ===== src/Sync/Engine/Pending.antt =====
-- The invariant of the loop over the changes: what holds of the writes that are pending.
use vive_cserver.Base.{
  String, str_eq, ◌≡◌, ◌⊎◌, inl, inr, Bool, true, false, ◌||◌, ◌&&◌, some, List, [], ◌∷◌, ◌++◌,
  arith, All, All-append, map,
}
use vive_cserver.Base.Int.{inc_int64}
use vive_cserver.Base.Table.{lookup}
use vive_cserver.Sync.Kind
use vive_cserver.Sync.Kind.{Kind, RowKey, parent_kind}
use vive_cserver.Sync.Fields.{kind_of, parent_id}
use vive_cserver.Store.Database.{Database, row_key_eq, purge_key_equality, row_key_equality}
use vive_cserver.Store.Write.{PendingWrite, key_of}
use vive_cserver.Store.Context.Lookup.{is_some}
use vive_cserver.Sync.Change.{DecodedChange, AppliedChange}
use vive_cserver.Sync.Decode.Read.{IfRead}
use vive_cserver.Sync.Engine.Checks.{PushRequest, has_accepted}
use vive_cserver.Sync.Engine.Run.{Progress}
use vive_cserver.Sync.Engine.Reference.{entity_key_of}
use vive_cserver.Sync.Engine.References.{RefsHeld}
use vive_cserver.Sync.Engine.Accept.{Guarded}

-- What holds of a pending write against the database that the push reads.
pub record IsReady (request : PushRequest) (db : Database) (w : PendingWrite) : Type 0 where
  pub guarded : Guarded db.rows (key_of w) w.base_version
  pub account : w.envelope.account_id ≡ request.account_id
  pub version : w.envelope.version ≡ inc_int64 w.base_version
  pub kind : kind_of w.fields ≡ w.kind
  pub refs_held : RefsHeld db request.account_id w
  pub not_purged :
      is_some (
        lookup
          (record {
            account_id = request.account_id;
            kind = Kind.name w.kind;
            entity_id = w.envelope.id;
          })
          db.purges)
      ≡ false

-- some pending write is of this kind and id
abbrev pub writes_entity : List PendingWrite → String → String → Bool
writes_entity [] kind id = false
writes_entity (w ∷ ws) kind id =
    (str_eq (Kind.name w.kind) kind && str_eq w.envelope.id id) || writes_entity ws kind id

-- The parent of a pending write is stored, or pending too.
abbrev pub ParentKnown : PushRequest → Database → List PendingWrite → PendingWrite → Type 0
ParentKnown request db ws w =
    (str_eq (parent_kind w.kind) "" ≡ true)
    ⊎ ((p : Kind) × (Kind.sync_kind_by_name (parent_kind w.kind) ≡ some p)
        × (is_some (
              lookup (record { account_id = request.account_id; kind = p; id = parent_id w.fields })
                db.rows)
            ≡ true))
    ⊎ (writes_entity ws (parent_kind w.kind) (parent_id w.fields) ≡ true)

abbrev pub DistinctWrites : List PendingWrite → Type 0
DistinctWrites [] = Unit
DistinctWrites (w ∷ ws) = All (λ v. row_key_eq (key_of w) (key_of v) ≡ false) ws × DistinctWrites ws

abbrev pub applied_of : PendingWrite → AppliedChange
applied_of w = record { kind = Kind.name w.kind; id = w.envelope.id; version = w.envelope.version }

-- No change that is still to come names the entity of a pending write.
abbrev pub Ahead : PushRequest → List DecodedChange → PendingWrite → Type 0
Ahead request cs w =
    All (IfRead (λ c. row_key_eq (key_of w) (entity_key_of request.account_id c) ≡ false)) cs

pub record IsGood (request : PushRequest) (db : Database) (p : Progress) : Type 0 where
  pub ready : All (IsReady request db) p.pending
  pub distinct : DistinctWrites p.pending
  pub parents : All (ParentKnown request db p.pending) p.pending
  pub accepted :
      (kind id : String) → has_accepted p.accepted kind id ≡ writes_entity p.pending kind id
  pub applied : p.applied ≡ map applied_of p.pending

pub All-map {ℓ κ} :
    {A : Type 0} {P : A → Type ℓ} {Q : A → Type κ} (xs : List A)
    → ((x : A) → P x → Q x)
    → All P xs
    → All Q xs
All-map [] f h = tt
All-map (x ∷ xs) f h = (f x h.0, All-map xs f h.1)

pub writes_entity-append :
    (ws : List PendingWrite) (w : PendingWrite) (kind id : String)
    → writes_entity (ws ++ w ∷ []) kind id
      ≡ (writes_entity ws kind id || (str_eq (Kind.name w.kind) kind && str_eq w.envelope.id id))
writes_entity-append [] w kind id = ground arith
writes_entity-append (v ∷ ws) w kind id = ground (arith, writes_entity-append ws w kind id)

pub DistinctWrites-append :
    (ws : List PendingWrite) (w : PendingWrite)
    → DistinctWrites ws
    → All (λ v. row_key_eq (key_of v) (key_of w) ≡ false) ws
    → DistinctWrites (ws ++ w ∷ [])
DistinctWrites-append [] w d h = (tt, tt)
DistinctWrites-append (v ∷ ws) w d h = (
  All-append (λ u. row_key_eq (key_of v) (key_of u) ≡ false) ws (w ∷ []) d.0 (h.0, tt),
  DistinctWrites-append ws w d.1 h.1,
)

pub ParentKnown-append :
    (request : PushRequest) (db : Database) (ws : List PendingWrite) (w v : PendingWrite)
    → ParentKnown request db ws v
    → ParentKnown request db (ws ++ w ∷ []) v
ParentKnown-append request db ws w v (inl h) = inl h
ParentKnown-append request db ws w v (inr (inl h)) = inr (inl h)
ParentKnown-append request db ws w v (inr (inr h)) =
    inr
      (inr (ground (arith, h, writes_entity-append ws w (parent_kind v.kind) (parent_id v.fields))))
