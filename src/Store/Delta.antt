-- ===== src/Store/Delta.antt =====
-- synctables.go: DeltaFilter, SelectDeltaCutoff and SelectDelta.
pub mod Paging
use vive_cserver.Base.{
  ℕ, ◌+◌, ◌*◌, ◌^◌, String, str_eq, contains, length, Bool, true, false, not, ◌&&◌, ◌||◌, Option,
  none, some, List, [], ◌∷◌, keep, map, ltb, leb, ◌==◌, if◌then◌else◌, sort_by, string_eq,
}
use vive_cserver.Base.Table.{Table, lookup}
use vive_cserver.Sync.Kind.{Kind, RowKey, page, section, rank, parent_kind, in_tree}
use vive_cserver.Sync.Object.{Object}
use vive_cserver.Sync.Fields.{parent_id}
pub use vive_cserver.Store.Weight.{Measures}
use vive_cserver.Store.Weight.{Weigh, byte_weight}
use vive_cserver.Sync.Fields.Render.{change_json}
use vive_cserver.Store.Database.{Database, StoredRow, row_key_equality}

-- MaxDeltaBytes, DeltaBytesOverrunFactor
abbrev pub max_delta_bytes : ℕ
max_delta_bytes = 8388608

abbrev pub delta_bytes_overrun_factor : ℕ
delta_bytes_overrun_factor = 4

pub record DeltaFilter : Type 0 where
  pub tree_only : Bool
  pub skip_notebooks : List String

pub data DeltaShape : Type 0 where
  delta_whole delta_tree_only delta_skipping_notebooks : DeltaShape

-- DeltaFilter.shape
unfoldable pub shape_of : DeltaFilter → DeltaShape
shape_of filter =
    if filter.tree_only
    then delta_tree_only
    else elim filter.skip_notebooks [ [] ↦ delta_whole | n ∷ ns ↦ delta_skipping_notebooks ]

-- deltaShape.reads
unfoldable pub reads : DeltaShape → Kind → Bool
reads delta_tree_only kind = in_tree kind
reads _ kind = true

-- page_id IN (SELECT page.id FROM pages JOIN sections ... WHERE notebook_id = ANY(skipped))
unfoldable pub page_in_notebooks : Database → String → List String → String → Bool
page_in_notebooks db account_id skipped page_id =
    elim (lookup (record { account_id = account_id; kind = page; id = page_id }) db.rows) [
      | none ↦ false
      | some p ↦
          elim (lookup (record { account_id = account_id; kind = section; id = parent_id p.fields })
            db.rows) [ none ↦ false | some s ↦ contains skipped (parent_id s.fields) ]
    ]

-- deltaShape.notebooksClause
unfoldable pub notebooks_clause : DeltaShape → Database → List String → RowKey → StoredRow → Bool
unfolding page_in_notebooks
notebooks_clause delta_skipping_notebooks db skipped key row =
    if str_eq (parent_kind key.kind) "page"
    then not (page_in_notebooks db key.account_id skipped (parent_id row.fields))
    else true
notebooks_clause _ db skipped key row = true

abbrev pub Entry : Type 0
Entry = RowKey × StoredRow

-- WHERE account_id = $1 AND change_seq > $2 AND change_seq <= $3 <notebooksClause>, in the branches
-- of the kinds that the shape reads
unfoldable pub readable_entry : Database → String → DeltaFilter → Entry → Bool
unfolding shape_of reads notebooks_clause
readable_entry db account_id filter entry =
    str_eq entry.0.account_id account_id
    && (reads (shape_of filter) entry.0.kind
        && notebooks_clause (shape_of filter) db filter.skip_notebooks entry.0 entry.1)

abbrev pub within : ℕ → ℕ → Entry → Bool
within since upper entry = ltb since entry.1.change_seq && leb entry.1.change_seq upper

unfoldable pub delta_entries : Database → String → ℕ → ℕ → DeltaFilter → List Entry
delta_entries db account_id since upper filter =
    keep (λ entry. readable_entry db account_id filter entry && within since upper entry) db.rows

-- one row of `per_sequence`
pub record SequenceWeight : Type 0 where
  pub change_seq : ℕ
  pub rows_here : ℕ
  pub bytes_here : ℕ

-- GROUP BY change_seq, with the groups in order of their sequence values
unfoldable pub add_weight : ℕ → ℕ → List SequenceWeight → List SequenceWeight
add_weight seq weight [] = record { change_seq = seq; rows_here = 1; bytes_here = weight } ∷ []
add_weight seq weight (g ∷ gs) =
    let rest = add_weight seq weight gs in
    if seq == g.change_seq
    then record {
      change_seq = seq;
      rows_here = g.rows_here + 1;
      bytes_here = g.bytes_here + weight;
    }
      ∷ gs
    else if ltb seq g.change_seq
    then record { change_seq = seq; rows_here = 1; bytes_here = weight } ∷ g ∷ gs
    else g ∷ rest

unfoldable pub per_sequence : Weigh → List Entry → List SequenceWeight
unfolding add_weight
per_sequence weigh [] = []
per_sequence weigh (entry ∷ entries) =
    add_weight entry.1.change_seq (weigh entry.0 entry.1) (per_sequence weigh entries)

-- `running`: each sequence value with whether the totals up to it fit
unfoldable pub running : ℕ → ℕ → ℕ → ℕ → List SequenceWeight → List (ℕ × Bool)
running limit budget rows bytes [] = []
running limit budget rows bytes (g ∷ gs) =
    (g.change_seq, leb (rows + g.rows_here) limit && leb (bytes + g.bytes_here) budget)
    ∷ running limit budget (rows + g.rows_here) (bytes + g.bytes_here) gs

-- coalesce(max(change_seq) FILTER (WHERE fits), min(change_seq)); the values are in order
unfoldable pub last_fitting : List (ℕ × Bool) → Option ℕ
last_fitting [] = none
last_fitting ((seq, fits) ∷ rest) = elim (last_fitting rest) [
  | some later ↦ some later
  | none ↦ if fits then some seq else none
]

unfoldable pub all_fit : List (ℕ × Bool) → Bool
all_fit [] = true
all_fit ((seq, fits) ∷ rest) = fits && all_fit rest

pub data DeltaCutoff : Type 0 where
  empty_delta : DeltaCutoff
  cutoff_at : ℕ → Bool → DeltaCutoff

unfoldable pub cutoff_of : List (ℕ × Bool) → DeltaCutoff
unfolding last_fitting all_fit
cutoff_of [] = empty_delta
cutoff_of ((seq, fits) ∷ rest) = elim (last_fitting ((seq, fits) ∷ rest)) [
  | some last ↦ cutoff_at last (all_fit ((seq, fits) ∷ rest))
  | none ↦ cutoff_at seq (all_fit ((seq, fits) ∷ rest))
]

-- SelectDeltaCutoff
unfoldable pub select_delta_cutoff :
    Measures → Database → String → ℕ → ℕ → ℕ → ℕ → DeltaFilter → DeltaCutoff
unfolding delta_entries per_sequence running cutoff_of
select_delta_cutoff m db account_id since upper limit budget filter = cutoff_of (
    running limit budget 0 0
      (per_sequence (byte_weight m db) (delta_entries db account_id since upper filter)))

-- the rest of the order among rows of one sequence value: kind_rank, id
unfoldable pub rank_id_le : Measures → RowKey → RowKey → Bool
unfolding rank
rank_id_le m a b =
    ltb (rank a.kind) (rank b.kind) || (rank a.kind == rank b.kind && m.text_le a.id b.id)

-- ORDER BY change_seq, kind_rank, id
abbrev pub entry_le : Measures → Entry → Entry → Bool
entry_le m a b =
    ltb a.1.change_seq b.1.change_seq || (a.1.change_seq == b.1.change_seq && rank_id_le m a.0 b.0)

pub record DeltaRow : Type 0 where
  pub change_seq : ℕ
  pub change : Object

abbrev pub delta_row : Database → Entry → DeltaRow
delta_row db entry = record {
  change_seq = entry.1.change_seq;
  change = change_json db entry.0 entry.1;
}

-- SelectDelta, without the count of the bytes
unfoldable pub select_delta : Measures → Database → String → ℕ → ℕ → DeltaFilter → List DeltaRow
unfolding delta_entries
select_delta m db account_id since upper filter =
    map (delta_row db) (sort_by (entry_le m) (delta_entries db account_id since upper filter))

-- the sum of the lengths of the rendered changes
unfoldable pub bytes_read : Measures → List DeltaRow → ℕ
bytes_read m [] = 0
bytes_read m (row ∷ rows) = m.rendered_length row.change + bytes_read m rows
