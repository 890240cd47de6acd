-- ===== src/Blob/Kept/Passes.antt =====
-- A whole pass of the sweeper keeps what is wanted and what is recent.
use vive_cserver.Base.{
  ℕ, ◌+◌, ◌≤◌, ◌≡◌, refl, ◌∙◌, ap, Bool, true, false, Option, none, some, arith, string_eq,
}
use vive_cserver.Base.Int.{ℤ}
use vive_cserver.Base.Table.{lookup}
use vive_cserver.Store.Database.{BlobKey, BlobRow, blob_key_equality}
use vive_cserver.Blob.Records.{SweepableBlob, reachable, is_due}
use vive_cserver.Blob.Records.Totals.{update_option}
use vive_cserver.Blob.Sweep.{BlobWorld, Conditions, SweepPhase, begin_phase, lock_phase, sweep_once}
use vive_cserver.Blob.Kept.{marked_by, lookup-prune_and_mark, sweep_candidates-Keeps}

-- The account still has its claim on the bytes, of the same size.
abbrev pub Claims : BlobKey → ℤ → BlobWorld → Type 0
Claims key size w =
    (blob : BlobRow) × (lookup key w.db.blobs ≡ some blob) × (blob.byte_count ≡ size)

marked_by-size :
    (now : ℕ) (wanted : Bool) (blob : BlobRow)
    → (marked_by now wanted blob).byte_count ≡ blob.byte_count
marked_by-size now wanted blob = ground arith

module _ (now : ℕ) (conditions : SweepableBlob → Conditions) (retention : ℕ) (w : BlobWorld)
    (key : BlobKey) (blob : BlobRow) (h : lookup key w.db.blobs ≡ some blob) where
  -- A row that the mark leaves young outlives the pass.
  pass-Claims :
      (fails : Option SweepPhase) (acquired : Bool)
      → ((c : SweepableBlob)
          → is_due (conditions c).now retention (marked_by now (reachable w.db key) blob) ≡ false)
      → Claims key blob.byte_count (sweep_once fails acquired now conditions retention w).after
  pass-Claims (some begin_phase) acquired young = (blob, h, refl)
  pass-Claims (some lock_phase) acquired young = (blob, h, refl)
  pass-Claims (some phase) false young = (blob, h, refl)
  pass-Claims (some phase) true young = (blob, h, refl)
  pass-Claims none false young = (blob, h, refl)
  pass-Claims none true young = (
    marked_by now (reachable w.db key) blob,
    sweep_candidates-Keeps key (marked_by now (reachable w.db key) blob) conditions retention young
        _ _ _
        (lookup-prune_and_mark now w.db key
          ∙ ap (update_option (marked_by now (reachable w.db key))) h),
    marked_by-size now (reachable w.db key) blob,
  )

  wanted_young :
      reachable w.db key ≡ true
      → (clock : ℕ) → is_due clock retention (marked_by now (reachable w.db key) blob) ≡ false
  wanted_young wanted clock = rw (wanted) (ground arith)

-- A pass of the sweeper, whatever fails in it and whatever its clocks show, keeps an account's claim
-- on bytes that a live page of the account shows or that a live attachment of the account has when
-- the pass begins.
pub sweep_once-keeps-reachable :
    (now : ℕ) (conditions : SweepableBlob → Conditions) (retention : ℕ) (w : BlobWorld)
    (key : BlobKey) (blob : BlobRow) (fails : Option SweepPhase) (acquired : Bool)
    → lookup key w.db.blobs ≡ some blob
    → reachable w.db key ≡ true
    → Claims key blob.byte_count (sweep_once fails acquired now conditions retention w).after
sweep_once-keeps-reachable now conditions retention w key blob fails acquired h wanted =
    pass-Claims now conditions retention w key blob h fails acquired
      (λ c. wanted_young now conditions retention w key blob h wanted (conditions c).now)

-- when the grace period of a row begins: at its mark, or at this pass
abbrev pub marked_since : ℕ → Option ℕ → ℕ
marked_since now none = now
marked_since now (some since) = since

recent_young :
    (now clock retention : ℕ) (wanted : Bool) (blob : BlobRow)
    → clock ≤ marked_since now blob.unreferenced_since + retention
    → is_due clock retention (marked_by now wanted blob) ≡ false
recent_young now clock retention wanted blob h = ground (arith, h)

-- A pass keeps an account's claim on bytes that nothing refers to as long as no deletion of the pass
-- comes later than the retention after the row was marked, or after the pass began for a row that
-- was not marked yet.
pub sweep_once-keeps-recent :
    (now : ℕ) (conditions : SweepableBlob → Conditions) (retention : ℕ) (w : BlobWorld)
    (key : BlobKey) (blob : BlobRow) (fails : Option SweepPhase) (acquired : Bool)
    → lookup key w.db.blobs ≡ some blob
    → ((c : SweepableBlob)
        → (conditions c).now ≤ marked_since now blob.unreferenced_since + retention)
    → Claims key blob.byte_count (sweep_once fails acquired now conditions retention w).after
sweep_once-keeps-recent now conditions retention w key blob fails acquired h recent =
    pass-Claims now conditions retention w key blob h fails acquired
      (λ c. recent_young now (conditions c).now retention (reachable w.db key) blob (recent c))
