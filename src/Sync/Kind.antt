-- ===== src/Sync/Kind.antt =====
-- internal/store/synctables.go: the registry of synced entity kinds.
pub mod Registry
use vive_cserver.Base.{
  ℕ, String, str_eq, ◌≡◌, Bool, true, false, Option, none, some, List, [], ◌∷◌, arith, ◌==◌,
  if◌then◌else◌,
}

-- One constructor for each entry of `syncKinds`.
pub data Kind : Type 0 where
  notebook section page page_content ink_stroke ink_erase ink_move attachment : Kind

-- SyncKind.Name, the discriminator on the wire
unfoldable pub name : Kind → String
name notebook = "notebook"
name section = "section"
name page = "page"
name page_content = "pageContent"
name ink_stroke = "inkStroke"
name ink_erase = "inkErase"
name ink_move = "inkMove"
name attachment = "attachment"

-- SyncKind.Rank
unfoldable pub rank : Kind → ℕ
rank notebook = 0
rank section = 1
rank page = 2
rank page_content = 3
rank ink_stroke = 4
rank ink_erase = 5
rank ink_move = 6
rank attachment = 7

-- SyncKind.ParentKind, "" for a kind with no parent
unfoldable pub parent_kind : Kind → String
parent_kind notebook = ""
parent_kind section = "notebook"
parent_kind page = "section"
parent_kind attachment = ""
parent_kind _ = "page"

-- SyncKind.InTree
unfoldable pub in_tree : Kind → Bool
in_tree notebook = true
in_tree section = true
in_tree page = true
in_tree _ = false

-- `syncKinds`, parents before children.
unfoldable pub sync_kinds : List Kind
sync_kinds =
    notebook ∷ section ∷ page ∷ page_content ∷ ink_stroke ∷ ink_erase ∷ ink_move ∷ attachment ∷ []

-- `syncKindsByName[name]`
unfoldable pub by_name : String → List Kind → Option Kind
unfolding name
by_name wanted [] = none
by_name wanted (kind ∷ kinds) =
    if str_eq (name kind) wanted then some kind else by_name wanted kinds

unfoldable pub sync_kind_by_name : String → Option Kind
unfolding by_name sync_kinds
sync_kind_by_name wanted = by_name wanted sync_kinds

-- Kinds are pointers into the registry; two are one pointer when they are one entry.
abbrev pub kind_eq : Kind → Kind → Bool
unfolding rank
kind_eq a b = rank a == rank b

pub rank_injective : (a b : Kind) → rank a ≡ rank b → a ≡ b
unfolding rank
rank_injective a b h = ground arith

-- The key "synced table, id" of an account's rows.
pub record RowKey : Type 0 where
  pub account_id : String
  pub kind : Kind
  pub id : String
