-- ===== src/Push/References.antt =====
-- The attachments that page bodies refer to are stored: a push never adds a reference to bytes that
-- the account does not hold.
use vive_cserver.Base.{
  ℕ, String, ◌≡◌, refl, sym, subst, Bool, true, Option, none, some, List, [], ◌∷◌, ◌++◌, arith,
  if◌then◌else◌, if_cases, Option-cases, inl, inr, All, All-append, All-keep, map,
}
use vive_cserver.Base.Table.{lookup}
use vive_cserver.Sync.Failure.{Failure}
use vive_cserver.Sync.Text.{validate_digest}
use vive_cserver.Sync.Fields.{Fields, page_content_fields}
use vive_cserver.Store.Database.{Database, BlobRef, blob_key_equality}
use vive_cserver.Store.Context.Lookup.{is_some}
use vive_cserver.Store.Write.{PendingWrite, auxiliary, insert_refs, has_ref}
use vive_cserver.Sync.Change.{Codec}
use vive_cserver.Sync.Engine.{stamp}
use vive_cserver.Sync.Engine.Checks.{PushRequest}
use vive_cserver.Sync.Engine.Reference.{held}
use vive_cserver.Sync.Engine.References.{AllHeld, RefsHeld}
use vive_cserver.Sync.Engine.Pending.{IsReady}
use vive_cserver.Push.Writes.{auxiliaries}
use vive_cserver.Push.Effect.{progress_of, progress-IsGood}
use vive_cserver.Push.Outcomes.{after_push, after_push-cases}

-- The account of a reference holds its bytes.
abbrev pub IsHeld : Database → BlobRef → Type 0
IsHeld db ref =
    is_some (lookup (record { account_id = ref.account_id; digest = ref.digest }) db.blobs) ≡ true

abbrev pub RefsStored : Database → Type 0
RefsStored db = All (IsHeld db) db.page_blob_refs

held-stored :
    (db : Database) (account_id page_id digest : String)
    → is_some (held db account_id digest) ≡ true
    → IsHeld db (record { account_id = account_id; page_id = page_id; digest = digest })
unfolding held
held-stored db account_id page_id digest h = ground (arith, h)

module _ (db : Database) (account_id page_id : String) where
  insert_one :
      (digest : String) (refs : List BlobRef) (refused : Option Failure)
      → is_some (held db account_id digest) ≡ true
      → All (IsHeld db) refs
      → All (IsHeld db) (elim refused [
        | some failure ↦ refs
        | none ↦
            if has_ref (record { account_id = account_id; page_id = page_id; digest = digest }) refs
            then refs
            else refs ++ record { account_id = account_id; page_id = page_id; digest = digest } ∷ []
      ])
  insert_one digest refs (some failure) h a = a
  insert_one digest refs none h a =
      if_cases (All (IsHeld db)) _ {x = refs}
        {y = refs ++ record { account_id = account_id; page_id = page_id; digest = digest } ∷ []} a
        (All-append (IsHeld db) refs _ a (held-stored db account_id page_id digest h, tt))

  insert_refs-All :
      (ds : List String) (refs : List BlobRef)
      → AllHeld db account_id ds
      → All (IsHeld db) refs
      → All (IsHeld db) (insert_refs account_id page_id ds refs)
  unfolding insert_refs
  insert_refs-All [] refs h a = a
  insert_refs-All (d ∷ ds) refs h a =
      insert_refs-All ds _ h.1 (insert_one d refs (validate_digest d) h.0 a)

module _ (db : Database) (account_id : String) (w : PendingWrite) (refs : List BlobRef)
    (owner : w.envelope.account_id ≡ account_id) (h : RefsHeld db account_id w)
    (a : All (IsHeld db) refs) where
  auxiliary-cases : (fields : Fields) → w.fields ≡ fields → All (IsHeld db) (auxiliary w refs)
  unfolding auxiliary
  auxiliary-cases (page_content_fields f) e =
      let cleared = All-keep (IsHeld db) _ refs a in
      elim (Option-cases w.envelope.deleted_at) [
        | inr (t, gone) ↦ rw (e, gone, auxiliary) cleared
        | inl live ↦
            rw (e, live, auxiliary)
              (insert_refs-All db w.envelope.account_id f.page_id f.blob_refs _
                (subst (λ owner_id. AllHeld db owner_id f.blob_refs) (sym owner) (h f e live))
                cleared)
      ]
  auxiliary-cases _ e = rw (e, auxiliary) a

auxiliaries-All :
    (db : Database) (request : PushRequest) (seq : ℕ) (ws : List PendingWrite) (refs : List BlobRef)
    → All (IsReady request db) ws
    → All (IsHeld db) refs
    → All (IsHeld db) (auxiliaries (map (stamp seq) ws) refs)
auxiliaries-All db request seq [] refs r a = a
auxiliaries-All db request seq (w ∷ ws) refs r a = auxiliaries-All db request seq ws _ r.1 (
    auxiliary-cases db request.account_id (stamp seq w) refs r.0.account r.0.refs_held a w.fields
      refl)

-- If the account of every stored reference to an attachment holds its bytes before a push, then it
-- does after it, whether the push succeeds, replays or fails.
pub push-RefsStored :
    (codec : Codec) (request : PushRequest) (now : ℕ) (prune : Bool) (db : Database)
    → RefsStored db
    → RefsStored (after_push codec request now prune db)
push-RefsStored codec request now prune db stored =
    elim (after_push-cases codec request now prune db) [
      | inl same ↦ subst RefsStored (sym same) stored
      | inr (answer, e, pushed) ↦ subst RefsStored (sym e) (
          subst (λ refs. All (IsHeld answer.after) refs) (sym pushed.effect.refs)
            (subst
              (λ blobs.
                All
                  (λ (ref : BlobRef).
                    is_some
                      (lookup (record { account_id = ref.account_id; digest = ref.digest }) blobs)
                    ≡ true)
                  (auxiliaries (map (stamp pushed.cursor) (progress_of codec request db).pending)
                    db.page_blob_refs))
              (sym pushed.effect.blobs)
              (auxiliaries-All db request pushed.cursor (progress_of codec request db).pending
                db.page_blob_refs (progress-IsGood codec request db).ready stored)))
    ]
