-- ===== src/Sync/Fields/Shelf.antt =====
-- A closed notebook's tombstone, from the stored row to the write that replaces it.
use vive_cserver.Base.{◌≡◌, refl, Bool, true, false, Option, none, some}
use vive_cserver.Base.Int.{ℤ}
use vive_cserver.Base.Table.{lookup}
use vive_cserver.Sync.Kind.{RowKey}
use vive_cserver.Sync.Object.{Object, member, merge, num_or_null}
use vive_cserver.Sync.Fields.{Fields, NotebookFields, notebook_fields}
use vive_cserver.Sync.Fields.Retain.{read_shelf, read_time, or_else, or_now}
use vive_cserver.Sync.Fields.Render.{render_fields, render_envelope, change_json}
use vive_cserver.Store.Database.{Database, StoredRow}

read_time-num_or_null : (t : Option ℤ) → read_time (some (num_or_null t)) ≡ some t
unfolding read_time
read_time-num_or_null none = refl
read_time-num_or_null (some t) = refl

read_shelf-times :
    (stored : Object) (closed cloud deleted : Option ℤ)
    → member "closedAt" stored ≡ some (num_or_null closed)
    → member "cloudOnlyAt" stored ≡ some (num_or_null cloud)
    → member "deletedAt" stored ≡ some (num_or_null deleted)
    → read_shelf stored
      ≡ some (record { closed_at = closed; cloud_only_at = cloud; deleted_at = deleted })
unfolding read_shelf
read_shelf-times stored closed cloud deleted a b c =
    rw
      (
        a,
        read_time-num_or_null closed,
        b,
        read_time-num_or_null cloud,
        c,
        read_time-num_or_null deleted,
        read_shelf,
      )
      refl

-- What RetainOnDelete reads of a rendered notebook are the row's own columns, whatever its unknown
-- fields are.
pub read_shelf-change_json :
    (db : Database) (key : RowKey) (row : StoredRow) (g : NotebookFields)
    → row.fields ≡ notebook_fields g
    → read_shelf (change_json db key row)
      ≡ some (record {
        closed_at = g.closed_at;
        cloud_only_at = g.cloud_only_at;
        deleted_at = row.deleted_at;
      })
unfolding change_json render_envelope render_fields merge lookup
read_shelf-change_json db key row g h =
    read_shelf-times (change_json db key row) g.closed_at g.cloud_only_at row.deleted_at
      (rw (h, change_json) refl) (rw (h, change_json) refl) refl

-- What a tombstone of the notebook `f` leaves, of a stored row `g` that is deleted or live, and with
-- the time at which either of them was closed.
abbrev pub shelved : Option ℤ → Option ℤ → NotebookFields → NotebookFields → ℤ → Fields × Bool
shelved none (some closed) f g t = (
  notebook_fields (record f {
    closed_at = some closed;
    cloud_only_at = some (or_now (or_else f.cloud_only_at g.cloud_only_at) t);
  }),
  true,
)
shelved _ _ f g t = (notebook_fields f, false)
