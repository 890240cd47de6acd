-- ===== src/Sync/Engine/References.antt =====
-- The attachments that an accepted page body refers to are held by the account.
use vive_cserver.Base.{
  String, ◌≡◌, refl, ap, sym, ◌∙◌, true, Option, none, some, List, [], ◌∷◌, arith, if◌then◌else◌,
  Option-cases, inl, inr, All,
}
use vive_cserver.Base.Int.{ℤ}
use vive_cserver.Sync.Object.{Object}
use vive_cserver.Sync.Fields.{Fields, PageContentFields, notebook_fields, page_content_fields}
use vive_cserver.Sync.Fields.Blobs.{digests, required_blob_digests}
use vive_cserver.Sync.Fields.Retain.{retain_on_delete}
use vive_cserver.Store.Database.{Database}
use vive_cserver.Store.Context.Lookup.{is_some}
use vive_cserver.Store.Write.{PendingWrite}
use vive_cserver.Sync.Change.{ReadChange}
use vive_cserver.Sync.Engine.Checks.{PushRequest, write_of}
use vive_cserver.Sync.Engine.Reference.{held, not_held, blobs_now}
use vive_cserver.Sync.Engine.Answers.{IsRead}

abbrev pub AllHeld : Database → String → List String → Type 0
AllHeld db account_id = All (λ d. is_some (held db account_id d) ≡ true)

-- A live page body refers to attachments that its account holds.
abbrev pub RefsHeld : Database → String → PendingWrite → Type 0
RefsHeld db account_id w =
    (f : PageContentFields)
    → w.fields ≡ page_content_fields f
    → w.envelope.deleted_at ≡ none
    → AllHeld db account_id f.blob_refs

not_held-AllHeld :
    (db : Database) (account_id : String) (ds : List String)
    → not_held db account_id ds ≡ []
    → AllHeld db account_id ds
unfolding not_held
not_held-AllHeld db account_id [] h = tt
not_held-AllHeld db account_id (d ∷ ds) h =
    (ground (arith, h), not_held-AllHeld db account_id ds (ground (arith, h)))

digests-injective : {a b : List String} → digests a ≡ digests b → a ≡ b
digests-injective h = cc

blobs_now-AllHeld :
    (db : Database) (account_id : String) (c : ReadChange)
    → blobs_now db account_id c ≡ none
    → c.envelope.deleted_at ≡ none
    → (ds : List String) → c.required_blobs ≡ ds
    → AllHeld db account_id ds
unfolding blobs_now
blobs_now-AllHeld db account_id c h live [] e = tt
blobs_now-AllHeld db account_id c h live (d ∷ ds) e =
    not_held-AllHeld db account_id (d ∷ ds) (ground (arith, h, live, e))

required-AllHeld :
    (db : Database) (account_id : String) (c : ReadChange) (f : PageContentFields)
    → IsRead c
    → blobs_now db account_id c ≡ none
    → c.envelope.deleted_at ≡ none
    → c.fields ≡ page_content_fields f
    → AllHeld db account_id f.blob_refs
unfolding required_blob_digests
required-AllHeld db account_id c f read h live e =
    blobs_now-AllHeld db account_id c h live f.blob_refs (
      sym (
        digests-injective
          (ap (λ fields. required_blob_digests fields c.envelope.id) (sym e) ∙ read)))

-- No tombstone of a page body is retained.
not_retained :
    (fields : Fields) (current : Option Object) (t : ℤ) (f : PageContentFields)
    → (retain_on_delete fields current t).0 ≡ page_content_fields f
    → (if (retain_on_delete fields current t).1 then none else some t) ≡ none
    → ⊥
unfolding retain_on_delete
not_retained (notebook_fields n) current t f h k = cc
not_retained _ current t f h k = cc

module _ (request : PushRequest) (current : Option Object) (c : ReadChange) where
  live_fields : c.envelope.deleted_at ≡ none → (write_of request current c).fields ≡ c.fields
  unfolding write_of
  live_fields e = rw (e, write_of) refl

  tombstone_fields :
      (t : ℤ)
      → c.envelope.deleted_at ≡ some t
      → (write_of request current c).fields ≡ (retain_on_delete c.fields current t).0
  unfolding write_of
  tombstone_fields t e = rw (e, write_of) refl

  tombstone_time :
      (t : ℤ)
      → c.envelope.deleted_at ≡ some t
      → (write_of request current c).envelope.deleted_at
        ≡ (if (retain_on_delete c.fields current t).1 then none else some t)
  unfolding write_of
  tombstone_time t e = rw (e, write_of) refl

  pub write_of-RefsHeld :
      (db : Database)
      → IsRead c
      → blobs_now db request.account_id c ≡ none
      → RefsHeld db request.account_id (write_of request current c)
  write_of-RefsHeld db read h f e live = elim (Option-cases c.envelope.deleted_at) [
    | inl none_there ↦
        required-AllHeld db request.account_id c f read h none_there
          (sym (live_fields none_there) ∙ e)
    | inr (t, deleted) ↦ absurd (
        not_retained c.fields current t f (sym (tombstone_fields t deleted) ∙ e)
          (sym (tombstone_time t deleted) ∙ live))
  ]
