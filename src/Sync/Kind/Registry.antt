-- ===== src/Sync/Kind/Registry.antt =====
-- The registry is well formed: names find their kinds, and parents come before their children.
use vive_cserver.Base.{
  ◌<◌, String, str_eq, eq_iff, ◌≡◌, refl, sym, ap, ◌∙◌, ◌⊎◌, inl, inr, true, false, some, arith,
}
use vive_cserver.Sync.Kind
use vive_cserver.Sync.Kind.{
  Kind, notebook, section, page, page_content, ink_stroke, ink_erase, ink_move, attachment, rank,
  parent_kind, sync_kinds, sync_kind_by_name,
}

-- A kind has no parent kind, or its parent kind is registered with a lower rank.
pub parent_resolves :
    (k : Kind)
    → (str_eq (parent_kind k) "" ≡ true)
      ⊎ ((p : Kind) × (str_eq (parent_kind k) "" ≡ false)
          × (sync_kind_by_name (parent_kind k) ≡ some p)
          × (rank p < rank k))
unfolding parent_kind sync_kind_by_name rank
parent_resolves notebook = inl refl
parent_resolves attachment = inl refl
parent_resolves section = inr (notebook, refl, refl, omega arith)
parent_resolves page = inr (section, refl, refl, omega arith)
parent_resolves _ = inr (page, refl, refl, omega arith)

-- Every kind is found under its own name.
pub sync_kind_by_name-name : (k : Kind) → sync_kind_by_name (Kind.name k) ≡ some k
unfolding sync_kind_by_name Kind.name
sync_kind_by_name-name notebook = refl
sync_kind_by_name-name _ = refl

-- What is found under a name has that name.
pub name-sync_kind_by_name :
    (s : String) (k : Kind) → sync_kind_by_name s ≡ some k → Kind.name k ≡ s
unfolding sync_kind_by_name Kind.name
name-sync_kind_by_name s k h = ground (
  arith,
  eq_iff "notebook" s,
  eq_iff "section" s,
  eq_iff "page" s,
  eq_iff "pageContent" s,
  eq_iff "inkStroke" s,
  eq_iff "inkErase" s,
  eq_iff "inkMove" s,
  eq_iff "attachment" s,
)

-- Two kinds have different names.
pub name_injective : (a b : Kind) → Kind.name a ≡ Kind.name b → a ≡ b
name_injective a b h =
    some_injective
      (sym (sync_kind_by_name-name a) ∙ ap sync_kind_by_name h ∙ sync_kind_by_name-name b)
  where
    some_injective : {x y : Kind} → some x ≡ some y → x ≡ y
    some_injective h = cc
