-- ===== src/Sync/Pull.antt =====
-- internal/syncengine/engine.go: PullFilteredChanges and what it calls.
pub mod Progress
pub mod Budget
pub mod Pages
pub mod Boundary
pub mod Complete
pub mod Client
use vive_cserver.Base.{
  ℕ, ◌*◌, String, Bool, true, false, Option, none, some, List, [], ◌∷◌, map, ltb, leb, ◌==◌,
  if◌then◌else◌,
}
use vive_cserver.Sync.Object.{Object}
use vive_cserver.Store.Database.{Database}
use vive_cserver.Store.Outcome.{Outcome, ok, failed, page_over_budget, ◌>>=◌}
use vive_cserver.Store.Sequence.{read_change_seq}
use vive_cserver.Store.Delta.{
  Measures, DeltaFilter, DeltaRow, empty_delta, cutoff_at, DeltaCutoff, select_delta_cutoff,
  select_delta, bytes_read, max_delta_bytes, delta_bytes_overrun_factor,
}
use vive_cserver.Store.Purges.{PurgeChange, select_purges}

-- The four queries of a pull run in snapshots of their own.
pub record Snapshots : Type 0 where
  pub at_cursor : Database
  pub at_cutoff : Database
  pub at_delta : Database
  pub at_purges : Database

abbrev pub still : Database → Snapshots
still db = record { at_cursor = db; at_cutoff = db; at_delta = db; at_purges = db }

pub record PullResult : Type 0 where
  pub changes : List Object
  pub purges : List PurgeChange
  pub cursor : ℕ
  pub has_more : Bool

-- changesOf
unfoldable pub changes_of : List DeltaRow → List Object
changes_of rows = map (λ (row : DeltaRow). row.change) rows

-- delta[len(delta)-1]
abbrev pub last_seq : ℕ → List DeltaRow → ℕ
last_seq seq [] = seq
last_seq seq (row ∷ rows) = last_seq row.change_seq rows

-- checkDeltaWithinBudget: whether the page passes
unfoldable pub delta_within_budget : List DeltaRow → ℕ → Bool
delta_within_budget [] bytes = true
delta_within_budget (row ∷ rows) bytes =
    if leb bytes (max_delta_bytes * delta_bytes_overrun_factor)
    then true
    else row.change_seq == last_seq row.change_seq rows

abbrev pub caught_up : ℕ → PullResult
caught_up upper = record { changes = []; purges = []; cursor = upper; has_more = false }

-- the page that ends at `page_end`
unfoldable pub render_page :
    Measures → Database → String → ℕ → ℕ → ℕ → DeltaFilter → Outcome PullResult
unfolding delta_within_budget changes_of
render_page m db account_id since page_end upper filter =
    let delta = select_delta m db account_id since page_end filter in
    if delta_within_budget delta (bytes_read m delta)
    then ok (record {
      changes = changes_of delta;
      purges = [];
      cursor = page_end;
      has_more = ltb page_end upper;
    })
    else failed page_over_budget

-- selectChangePage
unfoldable pub select_change_page :
    Measures → Snapshots → String → ℕ → ℕ → DeltaFilter → Outcome PullResult
unfolding render_page
select_change_page m snapshots account_id since limit filter =
    read_change_seq account_id snapshots.at_cursor >>= λ upper.
    let cutoff =
      select_delta_cutoff m snapshots.at_cutoff account_id since upper limit max_delta_bytes
        filter in
    if leb upper since then ok (caught_up upper) else elim cutoff [
      | empty_delta ↦ ok (caught_up upper)
      | cutoff_at seq complete ↦
          render_page m snapshots.at_delta account_id since (if complete then upper else seq) upper
            filter
    ]

-- PullFilteredChanges
unfoldable pub pull_filtered_changes :
    Measures → Snapshots → String → ℕ → ℕ → DeltaFilter → Outcome PullResult
unfolding select_change_page
pull_filtered_changes m snapshots account_id since limit filter =
    select_change_page m snapshots account_id since limit filter >>= λ result. ok (record result {
      purges =
          if filter.tree_only
          then []
          else select_purges m snapshots.at_purges account_id since result.cursor;
    })
