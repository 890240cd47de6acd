-- ===== src/Tests/Runs.antt =====
-- Three pushes, run.
use vive_cserver.Base.{◌≡◌, refl, true, false, some}
use vive_cserver.Base.Int.{inc_int64}
use vive_cserver.Base.Table.{lookup, put}
use vive_cserver.Sync.Kind
use vive_cserver.Sync.Kind.{
  RowKey, section, sync_kind_by_name, by_name, sync_kinds, parent_kind, rank,
}
use vive_cserver.Sync.Text.{contains_nul, validate_sync_text, validate_entity_id}
use vive_cserver.Sync.Object.{merge}
use vive_cserver.Sync.Fields.{section_fields, parent_id}
use vive_cserver.Sync.Fields.Validate.{
  validate, validate_notebook, validate_section, first_of_texts,
}
use vive_cserver.Sync.Fields.Blobs.{required_blob_digests}
use vive_cserver.Sync.Fields.Stored.{stored_fields}
use vive_cserver.Sync.Change.{change_kind}
use vive_cserver.Sync.Decode
use vive_cserver.Sync.Decode.{decode_changes}
use vive_cserver.Sync.Engine.{apply_change_batch, apply_new_batch, database_after, store_writes}
use vive_cserver.Sync.Engine.Checks
use vive_cserver.Sync.Engine.Run
use vive_cserver.Store.Database.{StoredRow, row_key_equality}
use vive_cserver.Store.Outcome.{ok, failed, account_not_found}
use vive_cserver.Store.Sequence.{allocate_change_seq, read_change_seq}
use vive_cserver.Store.Write
use vive_cserver.Store.Batches.{find_applied_batch_response, record_applied_batch_response}
use vive_cserver.Store.Context.{
  read_change_context, select_current, select_ids, select_blobs, select_purged,
}
use vive_cserver.Push.Outcomes.{after_push}
use vive_cserver.Tests.Data.{
  codec, request, no_account, new_account, first_answer, meetings, stored_at,
}

abbrev pub section_key : RowKey
section_key = record { account_id = "ada"; kind = section; id = "s1" }

abbrev pub section_row : StoredRow
section_row = stored_at 1 (section_fields meetings)

-- The push is refused: nobody is known.
pub unknown_account :
    apply_change_batch codec request 10 false no_account ≡ failed account_not_found
unfolding apply_change_batch apply_new_batch database_after store_writes find_applied_batch_response
    record_applied_batch_response lookup put inc_int64 Kind.name sync_kind_by_name by_name
    sync_kinds parent_kind rank contains_nul validate_sync_text validate_entity_id validate
    validate_notebook validate_section first_of_texts required_blob_digests parent_id stored_fields
    change_kind merge decode_changes Decode.decode_each Decode.sort_changes Decode.insert_change
    Decode.apply_rank_of Decode.decode_change Decode.decode_fields Decode.entity_key
    Decode.collect_extra_fields Decode.encode_extra Decode.unrecognised Decode.recognised
    Run.decide_changes Run.decide_runs Run.runs_of Run.join_run Run.same_kind Run.run_kind
    Run.refuse_run Run.decide_run Run.settle Run.read_batch_context Run.entity_ids Run.parent_ids
    Run.required_digests Run.add_digests Checks.decide Checks.check_parent Checks.check_blobs
    Checks.check_purged Checks.check_version Checks.write_of allocate_change_seq read_change_seq
    Write.write_changes Write.write_change Write.upsert Write.violates_unique Write.body_elsewhere
    Write.auxiliary read_change_context select_current select_ids select_blobs select_purged
unknown_account = refl

-- The push goes through.
pub first_push : apply_new_batch codec request 10 true new_account ≡ ok first_answer
unfolding apply_change_batch apply_new_batch database_after store_writes find_applied_batch_response
    record_applied_batch_response lookup put inc_int64 Kind.name sync_kind_by_name by_name
    sync_kinds parent_kind rank contains_nul validate_sync_text validate_entity_id validate
    validate_notebook validate_section first_of_texts required_blob_digests parent_id stored_fields
    change_kind merge decode_changes Decode.decode_each Decode.sort_changes Decode.insert_change
    Decode.apply_rank_of Decode.decode_change Decode.decode_fields Decode.entity_key
    Decode.collect_extra_fields Decode.encode_extra Decode.unrecognised Decode.recognised
    Run.decide_changes Run.decide_runs Run.runs_of Run.join_run Run.same_kind Run.run_kind
    Run.refuse_run Run.decide_run Run.settle Run.read_batch_context Run.entity_ids Run.parent_ids
    Run.required_digests Run.add_digests Checks.decide Checks.check_parent Checks.check_blobs
    Checks.check_purged Checks.check_version Checks.write_of allocate_change_seq read_change_seq
    Write.write_changes Write.write_change Write.upsert Write.violates_unique Write.body_elsewhere
    Write.auxiliary read_change_context select_current select_ids select_blobs select_purged
first_push = refl

-- The section is stored.
pub first_section :
    lookup section_key (after_push codec request 10 false new_account).rows ≡ some section_row
unfolding apply_change_batch apply_new_batch database_after store_writes find_applied_batch_response
    record_applied_batch_response lookup put inc_int64 Kind.name sync_kind_by_name by_name
    sync_kinds parent_kind rank contains_nul validate_sync_text validate_entity_id validate
    validate_notebook validate_section first_of_texts required_blob_digests parent_id stored_fields
    change_kind merge decode_changes Decode.decode_each Decode.sort_changes Decode.insert_change
    Decode.apply_rank_of Decode.decode_change Decode.decode_fields Decode.entity_key
    Decode.collect_extra_fields Decode.encode_extra Decode.unrecognised Decode.recognised
    Run.decide_changes Run.decide_runs Run.runs_of Run.join_run Run.same_kind Run.run_kind
    Run.refuse_run Run.decide_run Run.settle Run.read_batch_context Run.entity_ids Run.parent_ids
    Run.required_digests Run.add_digests Checks.decide Checks.check_parent Checks.check_blobs
    Checks.check_purged Checks.check_version Checks.write_of allocate_change_seq read_change_seq
    Write.write_changes Write.write_change Write.upsert Write.violates_unique Write.body_elsewhere
    Write.auxiliary read_change_context select_current select_ids select_blobs select_purged
first_section = refl
