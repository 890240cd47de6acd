-- ===== src/Blob/Offered/Deletes.antt =====
-- A row that is offered is deleted: the loop of SweepOnce reaches it unless the context is cancelled
-- before it.
use vive_cserver.Base.{
  ℕ, String, ◌≡◌, refl, sym, subst, ap, Bool, true, false, none, some, List, [], ◌∷◌, arith,
  if_split, if_cases, Bool-split, Bool-cases, Option-split, inl, inr, string_eq,
}
use vive_cserver.Base.Int.{ℤ}
use vive_cserver.Base.Table.{Table, lookup, remove, lookup-remove-other}
use vive_cserver.Sync.Text.{validate_digest}
use vive_cserver.Store.Database.{
  Database, BlobKey, BlobRow, blob_key_eq, blob_key_eq_iff, blob_key_equality, row_key_equality,
}
use vive_cserver.Blob.Attempt.{Attempt}
use vive_cserver.Blob.Records.{
  SweepableBlob, is_due, has_reference, refund_account, delete_due_blob, delete_swept_blob,
}
use vive_cserver.Blob.Sweep.{
  BlobWorld, Conditions, Deletion, SweepCounts, delete_one, stops, sweep_candidates,
}
use vive_cserver.Blob.Sound.Deletions.{refund_account-blobs}
use vive_cserver.Blob.Kept.{unlink_unused-db}
use vive_cserver.Blob.Offered.{candidate_key, offers}

module _ (key : BlobKey) where
  lookup-remove-none :
      (k : BlobKey) (t : Table BlobKey BlobRow)
      → lookup key t ≡ none
      → lookup key (remove k t) ≡ none
  unfolding lookup remove
  lookup-remove-none k [] h = refl
  lookup-remove-none k ((j, blob) ∷ t) h = ground (arith, h, lookup-remove-none k t)

  -- the primary key survives the removal of another row
  lookup-remove-twice :
      (k : BlobKey) (t : Table BlobKey BlobRow)
      → lookup key (remove key t) ≡ none
      → lookup key (remove key (remove k t)) ≡ none
  unfolding lookup remove
  lookup-remove-twice k [] h = refl
  lookup-remove-twice k ((j, blob) ∷ t) h = ground (
    arith,
    h,
    lookup-remove-none k t,
    lookup-remove-twice k t,
    blob_key_eq_iff j k,
    blob_key_eq_iff j key,
  )

blob_key_eq-sym : (a b : BlobKey) → blob_key_eq a b ≡ false → blob_key_eq b a ≡ false
blob_key_eq-sym a b h = ground (arith, h, blob_key_eq_iff a b, blob_key_eq_iff b a)

refund_account-refs :
    (account_id : String) (n : ℤ) (db : Database)
    → (refund_account account_id n db).page_blob_refs ≡ db.page_blob_refs
refund_account-refs account_id n db =
    Option-split (λ (after : Database). after.page_blob_refs ≡ db.page_blob_refs)
      (lookup account_id db.accounts) (λ unknown. refl) (λ account known. refl)

-- The row of the key is gone.
abbrev pub IsGone : BlobKey → Database → Type 0
IsGone key db = lookup key db.blobs ≡ none

module _ (key : BlobKey) (blob : BlobRow) where
  -- The row is there, once, and no page refers to it.
  abbrev IsPending : Database → Type 0
  IsPending db =
      (lookup key db.blobs ≡ some blob)
      × (lookup key (remove key db.blobs) ≡ none)
      × (has_reference key db.page_blob_refs ≡ false)

  delete_due_blob-IsGone :
      (k : BlobKey) (b : BlobRow) (db : Database)
      → IsGone key db
      → IsGone key (delete_due_blob k b db).1
  delete_due_blob-IsGone k b db h =
      if_cases (λ (r : Attempt (Bool × Bool) × Database). IsGone key r.1)
        (has_reference k db.page_blob_refs) h
        (rw
          (refund_account-blobs k.account_id b.byte_count (record db { blobs = remove k db.blobs }))
          (lookup-remove-none key k db.blobs h))

  delete_due_blob-IsPending :
      (k : BlobKey) (b : BlobRow) (db : Database)
      → blob_key_eq key k ≡ false
      → IsPending db
      → IsPending (delete_due_blob k b db).1
  delete_due_blob-IsPending k b db other h =
      let after = record db { blobs = remove k db.blobs } in
      if_cases (λ (r : Attempt (Bool × Bool) × Database). IsPending r.1)
        (has_reference k db.page_blob_refs) h
        (rw
          (
            refund_account-blobs k.account_id b.byte_count after,
            refund_account-refs k.account_id b.byte_count after,
            lookup-remove-other k key db.blobs other,
          )
          (h.0, lookup-remove-twice key k db.blobs h.1, h.2))

  module _ {ℓ} (P : Database → Type ℓ) where
    -- Either the statement deletes a due row, or it changes nothing.
    delete_swept_blob-cases :
        (fails : Bool) (now grace : ℕ) (candidate : SweepableBlob) (db : Database)
        → ((b : BlobRow) → P (delete_due_blob (candidate_key candidate) b db).1)
        → P db
        → P (delete_swept_blob fails now grace candidate db).1
    delete_swept_blob-cases fails now grace candidate db deleted same =
        let Q : Attempt (Bool × Bool) × Database → Type ℓ = λ r. P r.1 in
        Option-split Q (validate_digest candidate.digest)
          (λ valid. if_cases Q fails same (
            Option-split Q (lookup (candidate_key candidate) db.blobs) (λ gone. same)
              (λ b found. if_cases Q (is_due now grace b) (deleted b) same)))
          (λ failure invalid. same)

    delete_one-cases :
        (c : Conditions) (retention : ℕ) (candidate : SweepableBlob) (w : BlobWorld)
        → ((b : BlobRow) → P (delete_due_blob (candidate_key candidate) b w.db).1)
        → P w.db
        → P (delete_one c retention candidate w).1.db
    delete_one-cases c retention candidate w deleted same =
        if_cases (λ (r : Deletion × BlobWorld). P r.1.db) c.lock_fails same
          (rw
            (unlink_unused-db c.file_faults candidate
              (delete_swept_blob c.database_fails c.now retention candidate w.db) w.files)
            (delete_swept_blob-cases c.database_fails c.now retention candidate w.db deleted same))

  delete_due_blob-own :
      (b : BlobRow) (db : Database) → IsPending db → IsGone key (delete_due_blob key b db).1
  delete_due_blob-own b db h =
      if_split (λ (r : Attempt (Bool × Bool) × Database). IsGone key r.1)
        (has_reference key db.page_blob_refs) (λ shown. absurd (clash shown))
        (λ unseen.
          rw
            (refund_account-blobs key.account_id b.byte_count
              (record db { blobs = remove key db.blobs }))
            h.1)
    where
      clash : has_reference key db.page_blob_refs ≡ true → ⊥
      clash shown = ground (arith, shown, h.2)

  -- Nothing keeps the transaction of a deletion from running, at a time when the row is due.
  pub record Runs (retention : ℕ) (c : Conditions) : Type 0 where
    pub unlocked : c.lock_fails ≡ false
    pub database_runs : c.database_fails ≡ false
    pub due : is_due c.now retention blob ≡ true

  delete_swept_blob-own :
      (fails : Bool) (now grace : ℕ) (candidate : SweepableBlob) (db : Database)
      → fails ≡ false
      → is_due now grace blob ≡ true
      → candidate_key candidate ≡ key
      → validate_digest key.digest ≡ none
      → IsPending db
      → IsGone key (delete_swept_blob fails now grace candidate db).1
  delete_swept_blob-own fails now grace candidate db runs due own valid h =
      let Q : Attempt (Bool × Bool) × Database → Type 0 = λ r. IsGone key r.1 in
      Option-split Q (validate_digest candidate.digest)
        (λ ok.
          if_split Q fails (λ failed. ground (arith, failed, runs))
            (λ ran.
              Option-split Q (lookup (candidate_key candidate) db.blobs)
                (λ gone. subst (λ k. lookup k db.blobs ≡ none) own gone)
                (λ b found.
                  if_split Q (is_due now grace b)
                    (λ d.
                      subst (λ k. IsGone key (delete_due_blob k b db).1) (sym own)
                        (delete_due_blob-own b db h))
                    (λ fresh. ground (
                      arith,
                      fresh,
                      due,
                      h.0,
                      subst (λ k. lookup k db.blobs ≡ some b) own found,
                    )))))
        (λ failure invalid. ground (arith, invalid, valid, ap (λ (k : BlobKey). k.digest) own))

  module _ (conditions : SweepableBlob → Conditions) (retention : ℕ)
      (valid : validate_digest key.digest ≡ none)
      (runs : (c : SweepableBlob) → candidate_key c ≡ key → Runs retention (conditions c))
      (goes_on : (c : SweepableBlob) → (conditions c).cancelled ≡ false) where
    delete_one-own :
        (candidate : SweepableBlob) (w : BlobWorld)
        → candidate_key candidate ≡ key
        → IsPending w.db
        → IsGone key (delete_one (conditions candidate) retention candidate w).1.db
    delete_one-own candidate w own h =
        let c = conditions candidate in
        let r = runs candidate own in
        if_split (λ (x : Deletion × BlobWorld). IsGone key x.1.db) c.lock_fails
          (λ locked. ground (arith, locked, r.unlocked))
          (λ unlocked.
            rw
              (unlink_unused-db c.file_faults candidate
                (delete_swept_blob c.database_fails c.now retention candidate w.db) w.files)
              (delete_swept_blob-own c.database_fails c.now retention candidate w.db r.database_runs
                r.due own valid h))

    never_stops :
        (candidate : SweepableBlob) (d : Deletion) → stops (conditions candidate) d ≡ false
    never_stops candidate d =
        Option-split (λ b. b ≡ false) d.error (λ fine. refl) (λ e failed. goes_on candidate)

    sweep_candidates-IsGone :
        (candidates : List SweepableBlob) (counts : SweepCounts) (w : BlobWorld)
        → IsGone key w.db
        → IsGone key (sweep_candidates conditions retention candidates counts w).1.db
    unfolding sweep_candidates
    sweep_candidates-IsGone [] counts w h = h
    sweep_candidates-IsGone (candidate ∷ rest) counts w h =
        let after =
          delete_one-cases (IsGone key) (conditions candidate) retention candidate w
            (λ b. delete_due_blob-IsGone (candidate_key candidate) b w.db h) h in
        Bool-split (λ (x : SweepCounts × BlobWorld). IsGone key x.1.db)
          (stops (conditions candidate) (delete_one (conditions candidate) retention candidate w).0)
          (λ stop. after) (λ go. sweep_candidates-IsGone rest _ _ after)

    pub sweep_candidates-deletes :
        (candidates : List SweepableBlob) (counts : SweepCounts) (w : BlobWorld)
        → offers key candidates ≡ true
        → IsPending w.db
        → IsGone key (sweep_candidates conditions retention candidates counts w).1.db
    unfolding sweep_candidates
    sweep_candidates-deletes [] counts w offered h = ground (arith, offered)
    sweep_candidates-deletes (candidate ∷ rest) counts w offered h =
        let d = (delete_one (conditions candidate) retention candidate w).0 in
        Bool-split (λ (x : SweepCounts × BlobWorld). IsGone key x.1.db)
          (stops (conditions candidate) d) (λ stop. ground (arith, stop, never_stops candidate d))
          (λ go. elim (Bool-cases (blob_key_eq (candidate_key candidate) key)) [
            | inl own ↦ sweep_candidates-IsGone rest _ _ (
                delete_one-own candidate w
                  (ground (arith, own, blob_key_eq_iff (candidate_key candidate) key)) h)
            | inr other ↦ sweep_candidates-deletes rest _ _ (ground (arith, offered, other)) (
                delete_one-cases IsPending (conditions candidate) retention candidate w
                  (λ b.
                    delete_due_blob-IsPending (candidate_key candidate) b w.db
                      (blob_key_eq-sym (candidate_key candidate) key other) h)
                  h)
          ])
