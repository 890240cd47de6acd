-- ===== src/Sync/Fields/Retain.antt =====
-- NotebookFields.RetainOnDelete: a closed notebook's tombstone is stored as cloud retention.
use vive_cserver.Base.{Bool, true, false, Option, none, some}
use vive_cserver.Base.Int.{ℤ}
use vive_cserver.Sync.Object.{Object, Value, null, num, member}
use vive_cserver.Sync.Fields.{Fields, NotebookFields, notebook_fields}

pub record NotebookShelf : Type 0 where
  pub closed_at : Option ℤ
  pub cloud_only_at : Option ℤ
  pub deleted_at : Option ℤ

-- What decoding a key into a `*int64` gives: an absent key and null are nil, a number is a number,
-- anything else is an error (`none`).
unfoldable pub read_time : Option Value → Option (Option ℤ)
read_time none = some none
read_time (some null) = some none
read_time (some (num t)) = some (some t)
read_time (some _) = none

-- json.Unmarshal into a notebookShelf
unfoldable pub read_shelf : Object → Option NotebookShelf
unfolding read_time
read_shelf stored = elim (read_time (member "closedAt" stored)) [
  | none ↦ none
  | some closed ↦ elim (read_time (member "cloudOnlyAt" stored)) [
    | none ↦ none
    | some cloud ↦ elim (read_time (member "deletedAt" stored)) [
      | none ↦ none
      | some deleted ↦
          some (record { closed_at = closed; cloud_only_at = cloud; deleted_at = deleted })
    ]
  ]
]

-- notebookShelfOf: the shelf of a live stored notebook; `none` where the account hosts none.
unfoldable pub notebook_shelf_of : Option Object → Option NotebookShelf
unfolding read_shelf
notebook_shelf_of none = none
notebook_shelf_of (some stored) = elim (read_shelf stored) [
  | none ↦ none
  | some shelf ↦ elim shelf.deleted_at [ none ↦ some shelf | some t ↦ none ]
]

abbrev pub or_else {ℓ} : {A : Type ℓ} → Option A → Option A → Option A
or_else none b = b
or_else (some a) b = some a

abbrev pub or_now : Option ℤ → ℤ → ℤ
or_now none t = t
or_now (some c) t = c

-- The fields to store and whether the tombstone is retained.
unfoldable pub retain_notebook : NotebookFields → Option Object → ℤ → NotebookFields × Bool
unfolding notebook_shelf_of
retain_notebook f stored deleted_at = elim (notebook_shelf_of stored) [
  | none ↦ (f, false)
  | some shelf ↦ elim (or_else f.closed_at shelf.closed_at) [
    | none ↦ (f, false)
    | some closed ↦ (
      record f {
        closed_at = some closed;
        cloud_only_at = some (or_now (or_else f.cloud_only_at shelf.cloud_only_at) deleted_at);
      },
      true,
    )
  ]
]

-- DeletionRetainer, which only notebooks implement.
unfoldable pub retain_on_delete : Fields → Option Object → ℤ → Fields × Bool
unfolding retain_notebook
retain_on_delete (notebook_fields f) stored deleted_at =
    let (g, retained) = retain_notebook f stored deleted_at in (notebook_fields g, retained)
retain_on_delete other stored deleted_at = (other, false)
