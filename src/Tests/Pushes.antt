-- ===== src/Tests/Pushes.antt =====
-- The theorems on pushes at concrete pushes.
use vive_cserver.Base.{ℕ, ◌<◌, str_eq, ◌≡◌, ◌⊎◌, refl, ap, true, false, some, [], All, arith}
use vive_cserver.Base.Int.{pos}
use vive_cserver.Base.Table.{lookup}
use vive_cserver.Sync.Kind
use vive_cserver.Sync.Kind.{Kind, RowKey, section, page, parent_kind, rank}
use vive_cserver.Sync.Kind.Registry.{parent_resolves}
use vive_cserver.Sync.Fields.{parent_id}
use vive_cserver.Store.Database.{StoredRow, row_key_equality, purge_key_equality}
use vive_cserver.Store.Outcome.{ok, account_not_found}
use vive_cserver.Store.Context.Lookup.{is_some}
use vive_cserver.Sync.Decode.{decode_changes}
use vive_cserver.Sync.Decode.Read.{IsSound, IfRead}
use vive_cserver.Sync.Decode.Unique.{Distinct, decode_changes-IsSound}
use vive_cserver.Sync.Engine.{apply_change_batch}
use vive_cserver.Sync.Engine.Run.{start, decide_changes}
use vive_cserver.Sync.Engine.Reference.{decide_each}
use vive_cserver.Push.Writes.{is_foreseen}
use vive_cserver.Push.Effect.{progress_of, decide_changes-decide_each_decoded}
use vive_cserver.Push.Outcomes.{after_push, apply_change_batch-foreseen}
use vive_cserver.Push.Stored.{NewRow, IsStored, push-NewRow, push-IsStored}
use vive_cserver.Push.Invariants.{
  IsAllocated, ParentIn, purge_recorded, push-SequencesAllocated, push-ParentsStored,
  push-PurgedAbsent,
}
use vive_cserver.Push.References.{RefsStored, push-RefsStored}
use vive_cserver.Store.Database.{Database, blob_key_equality}
use vive_cserver.Push.Replay.{push-replay}
use vive_cserver.Tests.Runs.{section_key, section_row, unknown_account, first_push, first_section}
use vive_cserver.Base.{◌∷◌, none}
use vive_cserver.Tests.Data.{codec, request, no_account, new_account, first_answer}

decide_changes_example :
    decide_changes request new_account (decode_changes codec request.changes)
    ≡ ok (decide_each request new_account (decode_changes codec request.changes) start)
decide_changes_example = decide_changes-decide_each_decoded codec request new_account

foreseen_example : is_foreseen account_not_found ≡ true
foreseen_example =
    apply_change_batch-foreseen codec request 10 false no_account account_not_found unknown_account

changed_example :
    (lookup section_key (after_push codec request 10 false new_account).rows
      ≡ lookup section_key new_account.rows)
    ⊎ NewRow request new_account (after_push codec request 10 false new_account) section_key
changed_example = push-NewRow codec request 10 false new_account section_key

nothing_there : (key : RowKey) (row : StoredRow) → lookup key new_account.rows ≡ some row → ⊥
unfolding lookup
nothing_there key row h = cc

sequences_example :
    IsAllocated (after_push codec request 10 false new_account) section_key section_row
sequences_example =
    push-SequencesAllocated codec request 10 false new_account
      (λ key row h. absurd (nothing_there key row h)) section_key section_row first_section

parents_example : ParentIn (after_push codec request 10 false new_account) "ada" section "n1"
unfolding parent_id
parents_example =
    push-ParentsStored codec request 10 false new_account
      (λ key row h. absurd (nothing_there key row h)) section_key section_row first_section

absent_there :
    (key : RowKey)
    → is_some (lookup key new_account.rows) ≡ true
    → purge_recorded new_account key ≡ false
unfolding lookup
absent_there key h = refl

purged_example : purge_recorded (after_push codec request 10 false new_account) section_key ≡ false
purged_example =
    push-PurgedAbsent codec request 10 false new_account absent_there section_key
      (ap is_some first_section)

-- an account with one attachment and one reference to it
abbrev with_reference : Database
with_reference = record new_account {
  page_blob_refs = record { account_id = "ada"; page_id = "p1"; digest = "d1" } ∷ [];
  blobs =
      (
        record { account_id = "ada"; digest = "d1" },
        record { byte_count = pos 3; unreferenced_since = none },
      )
      ∷ [];
}

references_example : RefsStored (after_push codec request 10 false with_reference)
unfolding lookup
references_example = push-RefsStored codec request 10 false with_reference (refl, tt)

replay_example :
    apply_change_batch codec (record request { changes = [] }) 50 false first_answer.after
    ≡ ok (record {
      response = codec.jsonb_text first_answer.response;
      committed = false;
      after = first_answer.after;
    })
replay_example =
    push-replay codec request 10 50 true false new_account first_answer [] first_push (omega arith)

applied_example :
    (cursor : ℕ) × (codec.marshal_result (record {
      applied = (progress_of codec request new_account).applied;
      rejected = (progress_of codec request new_account).rejected;
      cursor = cursor;
    })
      ≡ some first_answer.response)
    × All
        (IsStored codec request 10 true new_account first_answer cursor)
        (progress_of codec request new_account).applied
applied_example = push-IsStored codec request 10 true new_account first_answer first_push

decoded_example :
    All (IfRead (IsSound codec)) (decode_changes codec request.changes)
    × Distinct (decode_changes codec request.changes)
decoded_example = decode_changes-IsSound codec request.changes

parent_example :
    (str_eq (parent_kind page) "" ≡ true)
    ⊎ ((p : Kind) × (str_eq (parent_kind page) "" ≡ false)
        × (Kind.sync_kind_by_name (parent_kind page) ≡ some p)
        × (rank p < rank page))
parent_example = parent_resolves page
