-- ===== src/Push/Rows.antt =====
-- The rows after the writes of a push, entity by entity.
use vive_cserver.Base.{
  ℕ, String, str_eq, ◌≡◌, refl, sym, ap, ◌∙◌, ◌⊎◌, inl, inr, Bool, true, false, ◌&&◌, Option, some,
  List, [], ◌∷◌, arith, if◌then◌else◌, Bool-cases, All, map, eq_iff,
}
use vive_cserver.Sync.Kind
use vive_cserver.Sync.Kind.{Kind, RowKey}
use vive_cserver.Sync.Kind.Registry.{name_injective}
use vive_cserver.Store.Database.{StoredRow, row_key_eq, row_key_eq_iff, row_key_equality}
use vive_cserver.Store.Context.Lookup.{is_some}
use vive_cserver.Store.Write.{PendingWrite, Encoders, key_of, row_of}
use vive_cserver.Sync.Engine.{stamp}
use vive_cserver.Sync.Engine.Pending.{DistinctWrites, All-map, writes_entity}
use vive_cserver.Push.Writes.{written}

module _ (enc : Encoders) (seq : ℕ) where
  -- The row that a write of this sequence value leaves.
  abbrev pub row_at : PendingWrite → StoredRow
  row_at w = row_of enc (stamp seq w)

  step :
      (b : Bool) (w : PendingWrite) (ws : List PendingWrite) (key : RowKey) (old : Option StoredRow)
      → row_key_eq (key_of w) key ≡ b
      → written enc (map (stamp seq) (w ∷ ws)) key old
        ≡ written enc (map (stamp seq) ws) key (if b then some (row_at w) else old)
  step b w ws key old e =
      ap (λ h. written enc (map (stamp seq) ws) key (if h then some (row_at w) else old)) e

  -- A row is as before, or a write's.
  pub written_cases {ℓ} :
      (P : PendingWrite → Type ℓ) (ws : List PendingWrite) (key : RowKey) (old : Option StoredRow)
      → All P ws
      → (written enc (map (stamp seq) ws) key old ≡ old)
        ⊎ ((w : PendingWrite) × P w
            × (key ≡ key_of w)
            × (written enc (map (stamp seq) ws) key old ≡ some (row_at w)))
  written_cases P [] key old p = inl refl
  written_cases P (w ∷ ws) key old p = elim (Bool-cases (row_key_eq (key_of w) key)) [
    | inl same ↦ elim (written_cases P ws key (some (row_at w)) p.1) [
      | inl h ↦
          inr
            (w, p.0, sym ((row_key_eq_iff (key_of w) key).0 same), step true w ws key old same ∙ h)
      | inr (v, q, k, h) ↦ inr (v, q, k, step true w ws key old same ∙ h)
    ]
    | inr other ↦ elim (written_cases P ws key old p.1) [
      | inl h ↦ inl (step false w ws key old other ∙ h)
      | inr (v, q, k, h) ↦ inr (v, q, k, step false w ws key old other ∙ h)
    ]
  ]

  written-absent :
      (w : PendingWrite) (ws : List PendingWrite) (old : Option StoredRow)
      → All (λ v. row_key_eq (key_of w) (key_of v) ≡ false) ws
      → written enc (map (stamp seq) ws) (key_of w) old ≡ old
  written-absent w [] old h = refl
  written-absent w (v ∷ ws) old h =
      step false v ws (key_of w) old (differs_sym v h.0) ∙ written-absent w ws old h.1
    where
      differs_sym :
          (v : PendingWrite)
          → row_key_eq (key_of w) (key_of v) ≡ false
          → row_key_eq (key_of v) (key_of w) ≡ false
      differs_sym v h = elim (Bool-cases (row_key_eq (key_of v) (key_of w))) [
        | inr e ↦ e
        | inl e ↦ absurd (
            ground (
              arith,
              h,
              (row_key_eq_iff (key_of w) (key_of v)).1
                  (sym ((row_key_eq_iff (key_of v) (key_of w)).0 e)),
            ))
      ]

  -- Each of the writes is found under its key.
  pub written_each :
      (ws : List PendingWrite)
      → DistinctWrites ws
      → All
          (λ w.
            (old : Option StoredRow)
            → written enc (map (stamp seq) ws) (key_of w) old ≡ some (row_at w))
          ws
  written_each [] d = tt
  written_each (w ∷ ws) d = (
    λ old.
        step true w ws (key_of w) old ((row_key_eq_iff (key_of w) (key_of w)).1 refl)
        ∙ written-absent w ws (some (row_at w)) d.0,
    All-map ws (λ v h old. h _) (written_each ws d.1),
  )

  -- No write removes a row.
  pub written_stays :
      (ws : List PendingWrite) (key : RowKey) (old : Option StoredRow)
      → is_some old ≡ true
      → is_some (written enc (map (stamp seq) ws) key old) ≡ true
  written_stays [] key old h = h
  written_stays (w ∷ ws) key old h = elim (Bool-cases (row_key_eq (key_of w) key)) [
    | inl same ↦
        ap is_some (step true w ws key old same) ∙ written_stays ws key (some (row_at w)) refl
    | inr other ↦ ap is_some (step false w ws key old other) ∙ written_stays ws key old h
  ]

  abbrev named : String → Kind → String → RowKey
  named account_id kind id = record { account_id = account_id; kind = kind; id = id }

  written_hit :
      (w : PendingWrite) (ws : List PendingWrite) (key : RowKey) (old : Option StoredRow)
      → key_of w ≡ key
      → is_some (written enc (map (stamp seq) (w ∷ ws)) key old) ≡ true
  written_hit w ws key old e =
      ap is_some (step true w ws key old ((row_key_eq_iff (key_of w) key).1 e))
      ∙ written_stays ws key (some (row_at w)) refl

  written_later :
      (w : PendingWrite) (ws : List PendingWrite) (key : RowKey) (old : Option StoredRow)
      → ((o : Option StoredRow) → is_some (written enc (map (stamp seq) ws) key o) ≡ true)
      → is_some (written enc (map (stamp seq) (w ∷ ws)) key old) ≡ true
  written_later w ws key old h = h _

  -- An entity that the writes name is stored after them.
  pub written-named :
      (account_id : String) (ws : List PendingWrite) (kind : Kind) (id : String)
      (old : Option StoredRow)
      → All (λ w. w.envelope.account_id ≡ account_id) ws
      → writes_entity ws (Kind.name kind) id ≡ true
      → is_some (written enc (map (stamp seq) ws) (named account_id kind id) old) ≡ true
  written-named account_id [] kind id old a h = cc
  written-named account_id (w ∷ ws) kind id old a h =
      elim (Bool-cases (str_eq (Kind.name w.kind) (Kind.name kind) && str_eq w.envelope.id id)) [
        | inl here ↦
            let both : (str_eq (Kind.name w.kind) (Kind.name kind) ≡ true)
                × (str_eq w.envelope.id id ≡ true) =
              ground (arith, here) in
            written_hit w ws (named account_id kind id) old (
              row_key account_id w kind id a.0 (name_injective w.kind kind ((eq_iff _ _).0 both.0))
                ((eq_iff _ _).0 both.1))
        | inr later ↦
            written_later w ws (named account_id kind id) old
              (λ o. written-named account_id ws kind id o a.1 (ground (arith, h, later)))
      ]
    where
      row_key :
          (account_id : String) (w : PendingWrite) (kind : Kind) (id : String)
          → w.envelope.account_id ≡ account_id
          → w.kind ≡ kind
          → w.envelope.id ≡ id
          → key_of w ≡ named account_id kind id
      row_key account_id w kind id a k i = rw (a, k, i) refl
