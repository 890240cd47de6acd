-- ===== src/Tests/Pulls.antt =====
-- The theorems on pulls and purges at concrete databases.
use vive_cserver.Base.{◌≡◌, ◌⊎◌, refl, true, false, some, [], ◌∷◌, ◌++◌, arith}
use vive_cserver.Base.Table.{lookup}
use vive_cserver.Store.Database.{Database, PurgeKey, purge_key_equality}
use vive_cserver.Store.Outcome.{ok}
use vive_cserver.Store.Sequence.{read_change_seq}
use vive_cserver.Store.Delta.{Measures, DeltaFilter, select_delta}
use vive_cserver.Store.Delta.Paging.{select_delta-append}
use vive_cserver.Store.Purges.{prune_purges}
use vive_cserver.Store.Purges.Retention.{prune_purges-keeps}
use vive_cserver.Sync.Pull.{PullResult, changes_of, still, pull_filtered_changes}
use vive_cserver.Sync.Pull.Complete.{Page, IsOverrun, pull-Page}
use vive_cserver.Sync.Pull.Client.{pull_all, pull_all_lem}
use vive_cserver.Tests.Data.{two_rows, tablet}

-- a database that counts a code as four bytes, an `extra` as two and a rendered change as a thousand
abbrev measures : Measures
measures = record {
  octet_length = λ s. 4;
  column_size = λ extra. 2;
  rendered_length = λ change. 1000;
  text_le = λ a b. true;
}

abbrev everything : DeltaFilter
everything = record { tree_only = false; skip_notebooks = [] }

pull_all_example :
    (pull_all measures two_rows "ada" everything 2 0 (λ n. 1)
      ≡ ok (changes_of (select_delta measures two_rows "ada" 0 2 everything)))
    ⊎ IsOverrun measures two_rows "ada" everything 0 2
        (pull_all measures two_rows "ada" everything 2 0 (λ n. 1))
unfolding read_change_seq lookup
pull_all_example =
    pull_all_lem measures two_rows "ada" everything 2 0 2 (λ n. 1) refl (omega arith) (omega arith)

page_example :
    ((result : PullResult) × (pull_filtered_changes measures (still two_rows) "ada" 0 1 everything
        ≡ ok result)
      × Page measures two_rows "ada" everything 0 2 result)
    ⊎ IsOverrun measures two_rows "ada" everything 0 2
        (pull_filtered_changes measures (still two_rows) "ada" 0 1 everything)
unfolding read_change_seq lookup
page_example = pull-Page measures two_rows "ada" everything 0 2 1 refl (omega arith)

append_example :
    select_delta measures two_rows "ada" 0 1 everything
      ++ select_delta measures two_rows "ada" 1 2 everything
    ≡ select_delta measures two_rows "ada" 0 2 everything
append_example =
    select_delta-append measures two_rows "ada" 0 1 2 everything (omega arith) (omega arith)

abbrev purge_key : PurgeKey
purge_key = record { account_id = "ada"; kind = "notebook"; entity_id = "n0" }

abbrev purged : Database
purged = record two_rows {
  purges = (purge_key, record { change_seq = 2; purged_at = 9 }) ∷ [];
  devices = ("tablet", tablet) ∷ [];
}

prune_example :
    lookup purge_key (prune_purges "ada" purged).purges
    ≡ some (record { change_seq = 2; purged_at = 9 })
unfolding lookup
prune_example =
    prune_purges-keeps "ada" "tablet" purged purge_key (record { change_seq = 2; purged_at = 9 })
      tablet refl refl refl refl (omega arith)
