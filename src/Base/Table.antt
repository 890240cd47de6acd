-- ===== src/Base/Table.antt =====
-- A database table with a primary key, as an association list: at most one row for a key.
-- `put` is INSERT ... ON CONFLICT DO UPDATE, `where_rows` the rows that a WHERE clause keeps.
use mathlib.Core.Path.{◌≡◌, refl, subst}
use mathlib.Core.Logic.{inl, inr}
use mathlib.Core.Bool.{Bool, false, not}
use mathlib.Core.List.{List, [], ◌∷◌}
use mathlib.Core.Option.{Option, none, some}
use native.Mathlib.Omega.{arith}
use vive_cserver.Base.Bools.{Eq, if◌then◌else◌, if_cases, Bool-cases}
use vive_cserver.Base.Lists.{keep, All, All-keep}

abbrev pub Table {ℓ κ} : Type ℓ → Type κ → Type (ℓ ⊔ κ)
Table K V = List (K × V)

module _ {ℓ κ} {K : Type ℓ} {V : Type κ} ⦃e : Eq K⦄ where
  unfoldable pub lookup : K → Table K V → Option V
  lookup k [] = none
  lookup k ((j, v) ∷ t) = if e.beq j k then some v else lookup k t

  unfoldable pub put : K → V → Table K V → Table K V
  put k v [] = (k, v) ∷ []
  put k v ((j, w) ∷ t) = if e.beq j k then (k, v) ∷ t else (j, w) ∷ put k v t

  pub lookup-put :
      (k j : K) (v : V) (t : Table K V)
      → lookup j (put k v t) ≡ (if e.beq k j then some v else lookup j t)
  unfolding lookup put
  lookup-put k j v [] = refl
  lookup-put k j v ((i, w) ∷ t) =
      ground (arith, e.beq_iff k j, e.beq_iff i k, e.beq_iff i j, lookup-put k j v t)

  -- A clause on the key alone commutes with a lookup.
  pub lookup-keep-key :
      (p : K → Bool) (k : K) (t : Table K V)
      → lookup k (keep (λ r. p r.0) t) ≡ (if p k then lookup k t else none)
  unfolding lookup
  lookup-keep-key p k [] = ground arith
  lookup-keep-key p k ((j, v) ∷ t) = ground (arith, lookup-keep-key p k t, e.beq_iff j k)

  -- DELETE by the primary key: the row of the key, of which a table has at most one
  unfoldable pub remove : K → Table K V → Table K V
  remove k [] = []
  remove k ((j, v) ∷ t) = let rest = remove k t in if e.beq j k then t else (j, v) ∷ rest

  -- A map that forgets a key, whatever it has for it.
  unfoldable pub forget : K → Table K V → Table K V
  forget k t = keep (λ r. not (e.beq r.0 k)) t

  pub lookup-forget :
      (k j : K) (t : Table K V) → lookup j (forget k t) ≡ (if e.beq j k then none else lookup j t)
  unfolding forget
  lookup-forget k j t = ground (arith, lookup-keep-key (λ i. not (e.beq i k)) j t)

  pub lookup-remove-other :
      (k j : K) (t : Table K V) → e.beq j k ≡ false → lookup j (remove k t) ≡ lookup j t
  unfolding remove lookup
  lookup-remove-other k j [] h = refl
  lookup-remove-other k j ((i, v) ∷ t) h =
      ground (arith, lookup-remove-other k j t h, e.beq_iff i k, e.beq_iff i j, e.beq_iff j k)

  module _ {μ} (P : K × V → Type μ) where
    pub All-remove : (k : K) (t : Table K V) → All P t → All P (remove k t)
    unfolding remove
    All-remove k [] h = h
    All-remove k ((j, v) ∷ t) h =
        if_cases (All P) (e.beq j k) {x = t} {y = (j, v) ∷ remove k t} h.1 (h.0, All-remove k t h.1)

    pub All-put : (k : K) (v : V) (t : Table K V) → P (k, v) → All P t → All P (put k v t)
    unfolding put
    All-put k v [] p h = (p, tt)
    All-put k v ((j, w) ∷ t) p h =
        if_cases (All P) (e.beq j k) {x = (k, v) ∷ t} {y = (j, w) ∷ put k v t} (p, h.1)
          (h.0, All-put k v t p h.1)

    pub All-forget : (k : K) (t : Table K V) → All P t → All P (forget k t)
    unfolding forget
    All-forget k t h = All-keep P (λ r. not (e.beq r.0 k)) t h

    pub All-lookup : (k : K) (v : V) (t : Table K V) → All P t → lookup k t ≡ some v → P (k, v)
    unfolding lookup
    All-lookup k v [] a h = absurd (clash h)
      where
        clash : none ≡ some v → ⊥
        clash h = cc
    All-lookup k v ((j, w) ∷ t) a h = elim (Bool-cases (e.beq j k)) [
      | inl own ↦ subst P (ground (arith, own, h, e.beq_iff j k)) a.0
      | inr other ↦ All-lookup k v t a.1 (ground (arith, other, h))
    ]
