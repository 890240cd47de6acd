-- ===== src/Sync/Pull/Pages.antt =====
-- A page is within the ceiling where weights describe what is rendered.
use vive_cserver.Base.{
  ℕ, ◌+◌, ◌*◌, ◌≤◌, ◌≡◌, ◌⊎◌, inl, inr, refl, ap, subst, Bool, true, false, ◌&&◌, some, List, [],
  ◌∷◌, All, map, arith, leb, if◌then◌else◌, if_cases, Bool-cases, Option-cases, keep, sort_by,
  insert_by,
}
use vive_cserver.Store.Database.{Database}
use vive_cserver.Sync.Fields.Render.{change_json}
use vive_cserver.Store.Weight.{byte_weight}
use vive_cserver.Store.Delta.{
  Measures, Entry, SequenceWeight, DeltaRow, delta_row, entry_le, bytes_read, running, last_fitting,
  all_fit, cutoff_of, cutoff_at, empty_delta, within, max_delta_bytes, delta_bytes_overrun_factor,
}
use vive_cserver.Sync.Pull.{last_seq, delta_within_budget}
use vive_cserver.Sync.Pull.Progress.{Inside}
use vive_cserver.Sync.Pull.Budget.{weight_upto, Ascending}

-- A row renders to at most four times what it weighs.
abbrev pub is_accurate : Measures → Database → Entry → Bool
is_accurate m db entry =
    leb (m.rendered_length (change_json db entry.0 entry.1))
      (delta_bytes_overrun_factor * byte_weight m db entry.0 entry.1)

abbrev pub all_accurate : Measures → Database → List Entry → Bool
all_accurate m db [] = true
all_accurate m db (e ∷ es) = is_accurate m db e && all_accurate m db es

bytes_read-insert_by :
    (m : Measures) (db : Database) (e : Entry) (es : List Entry)
    → bytes_read m (map (delta_row db) (insert_by (entry_le m) e es))
      ≡ m.rendered_length (change_json db e.0 e.1) + bytes_read m (map (delta_row db) es)
unfolding bytes_read
bytes_read-insert_by m db e [] = refl
bytes_read-insert_by m db e (x ∷ es) = elim (Bool-cases (entry_le m e x)) [
  | inl h ↦ rw h refl
  | inr h ↦ rw h (omega (arith, bytes_read-insert_by m db e es))
]

module _ (m : Measures) (db : Database) (good : Entry → Bool) (since upper s : ℕ)
    (below : s ≤ upper) where
  abbrev pub part : ℕ → List Entry → List Entry
  part to = keep (λ e. good e && within since to e)

  place :
      (e : Entry)
      → (((good e && within since s e) ≡ true)
          × ((good e && within since upper e) ≡ true)
          × (leb e.1.change_seq s ≡ true))
        ⊎ (((good e && within since s e) ≡ false) × ((good e && within since upper e) ≡ true))
        ⊎ (((good e && within since s e) ≡ false) × ((good e && within since upper e) ≡ false))
  place e = ground (arith, below)

  -- the first row of the window is accurate, and so are the others
  accurate_head :
      (e : Entry) (es : List Entry)
      → (good e && within since upper e) ≡ true
      → all_accurate m db (part upper (e ∷ es)) ≡ true
      → (m.rendered_length (change_json db e.0 e.1)
          ≤ delta_bytes_overrun_factor * byte_weight m db e.0 e.1)
        × (all_accurate m db (part upper es) ≡ true)
  accurate_head e es b h =
      let k : all_accurate m db (e ∷ part upper es) ≡ true =
        subst (λ c. all_accurate m db (if c then e ∷ part upper es else part upper es) ≡ true) b
          h in
      ground (arith, k)

  accurate_rest :
      (e : Entry) (es : List Entry)
      → (good e && within since upper e) ≡ false
      → all_accurate m db (part upper (e ∷ es)) ≡ true
      → all_accurate m db (part upper es) ≡ true
  accurate_rest e es b h =
      subst (λ c. all_accurate m db (if c then e ∷ part upper es else part upper es) ≡ true) b h

  pub bytes_read-weight :
      (es : List Entry)
      → all_accurate m db (part upper es) ≡ true
      → bytes_read m (map (delta_row db) (sort_by (entry_le m) (part s es)))
        ≤ delta_bytes_overrun_factor * weight_upto (byte_weight m db) s (part upper es)
  unfolding bytes_read
  bytes_read-weight [] h = omega arith
  bytes_read-weight (e ∷ es) h = elim (place e) [
    | inl (a, b, c) ↦
        let (here, later) = accurate_head e es b h in
        rw (a, b, c)
          (omega (
            arith,
            bytes_read-insert_by m db e (sort_by (entry_le m) (part s es)),
            here,
            bytes_read-weight es later,
          ))
    | inr (inl (a, b)) ↦ rw (a, b) (ground (arith, bytes_read-weight es (accurate_head e es b h).1))
    | inr (inr (a, b)) ↦ rw (a, b) (bytes_read-weight es (accurate_rest e es b h))
  ]

-- A later window is accurate if a wider one is.
pub all_accurate-narrow :
    (m : Measures) (db : Database) (good : Entry → Bool) (since mid upper : ℕ) (es : List Entry)
    → since ≤ mid
    → all_accurate m db (keep (λ e. good e && within since upper e) es) ≡ true
    → all_accurate m db (keep (λ e. good e && within mid upper e) es) ≡ true
all_accurate-narrow m db good since mid upper [] low h = refl
all_accurate-narrow m db good since mid upper (e ∷ es) low h =
    elim (Bool-cases (good e && within since upper e)) [
      | inl w ↦
          let (here, later) = accurate_head m db good since upper upper (omega arith) e es w h in
          if_cases (λ r. all_accurate m db r ≡ true) (good e && within mid upper e)
            (ground (arith, here, all_accurate-narrow m db good since mid upper es low later))
            (all_accurate-narrow m db good since mid upper es low later)
      | inr w ↦
          let later = accurate_rest m db good since upper upper (omega arith) e es w h in
          let out : (good e && within mid upper e) ≡ false = ground (arith, w, low) in
          rw out (all_accurate-narrow m db good since mid upper es low later)
    ]

-- A page of one sequence value is exempt from the ceiling.
pub single_sequence :
    (db : Database) (s bytes : ℕ) (es : List Entry)
    → All (λ e. e.1.change_seq ≡ s) es
    → delta_within_budget (map (delta_row db) es) bytes ≡ true
unfolding delta_within_budget
single_sequence db s bytes [] h = refl
single_sequence db s bytes (e ∷ es) h = ground (arith, h.0, last_of es h.1 e.1.change_seq)
  where
    last_of :
        (es : List Entry)
        → All (λ e. e.1.change_seq ≡ s) es
        → (q : ℕ) → (q ≡ s)
        → last_seq q (map (delta_row db) es) ≡ s
    last_of [] h q e = e
    last_of (x ∷ es) h q e = last_of es h.1 x.1.change_seq h.0

pub within_ceiling :
    (rows : List DeltaRow) (bytes : ℕ)
    → bytes ≤ max_delta_bytes * delta_bytes_overrun_factor
    → delta_within_budget rows bytes ≡ true
unfolding delta_within_budget
within_ceiling [] bytes h = refl
within_ceiling (r ∷ rows) bytes h = ground (arith, h)

-- What the boundary query says of its groups.
pub cutoff-cases :
    (rs : List (ℕ × Bool))
    → (rs ≡ []) × (cutoff_of rs ≡ empty_delta)
      ⊎ ((s : ℕ) × (cutoff_of rs ≡ cutoff_at s true) × (all_fit rs ≡ true))
      ⊎ ((s : ℕ) × (cutoff_of rs ≡ cutoff_at s false) × (last_fitting rs ≡ some s))
      ⊎ ((r : ℕ × Bool) × (rest : List (ℕ × Bool)) × (rs ≡ r ∷ rest)
          × (cutoff_of rs ≡ cutoff_at r.0 false))
unfolding cutoff_of
cutoff-cases [] = inl (refl, refl)
cutoff-cases (r ∷ rest) = elim (Bool-cases (all_fit (r ∷ rest))) [
  | inl a ↦ elim (Option-cases (last_fitting (r ∷ rest))) [
    | inl l ↦ inr (inl (r.0, rw (l, a, cutoff_of) refl, a))
    | inr (s, l) ↦ inr (inl (s, rw (l, a, cutoff_of) refl, a))
  ]
  | inr a ↦ elim (Option-cases (last_fitting (r ∷ rest))) [
    | inl l ↦ inr (inr (inr (r, rest, refl, rw (l, a, cutoff_of) refl)))
    | inr (s, l) ↦ inr (inr (inl (s, rw (l, a, cutoff_of) refl, l)))
  ]
]

abbrev head_seq : List (ℕ × Bool) → ℕ
head_seq [] = 0
head_seq (r ∷ rs) = r.0

above_head :
    (low upper : ℕ) (gs : List SequenceWeight)
    → All (λ h. Inside low upper h.change_seq) gs
    → All (λ g. low ≤ g.change_seq) gs
above_head low upper [] h = tt
above_head low upper (g ∷ gs) h = (omega (arith, h.0.0), above_head low upper gs h.1)

-- The first of the running totals is of the least sequence value.
pub head_least :
    (upper limit budget : ℕ) (gs : List SequenceWeight) (r : ℕ × Bool) (rest : List (ℕ × Bool))
    → running limit budget 0 0 gs ≡ r ∷ rest
    → Ascending upper gs
    → All (λ g. r.0 ≤ g.change_seq) gs
unfolding running
head_least upper limit budget [] r rest h a = tt
head_least upper limit budget (g ∷ gs) r rest h a =
    subst (λ s. All (λ x. s ≤ x.change_seq) (g ∷ gs)) (ap head_seq h)
      (omega arith, above_head g.change_seq upper gs a.0)

-- What is least in a wide window is alone in the window that ends at it.
pub narrow :
    (good : Entry → Bool) (since upper s : ℕ) (es : List Entry)
    → s ≤ upper
    → All (λ e. s ≤ e.1.change_seq) (keep (λ e. good e && within since upper e) es)
    → All (λ e. e.1.change_seq ≡ s) (keep (λ e. good e && within since s e) es)
narrow good since upper s [] b h = tt
narrow good since upper s (e ∷ es) b h = elim (Bool-cases (good e && within since upper e)) [
  | inl w ↦
      let k =
        subst
          (λ c.
            All (λ (e : Entry). s ≤ e.1.change_seq)
              (if c
                then e ∷ keep (λ e. good e && within since upper e) es
                else keep (λ e. good e && within since upper e) es))
          w h in
      elim (Bool-cases (good e && within since s e)) [
        | inl v ↦ rw v (ground (arith, v, k.0), narrow good since upper s es b k.1)
        | inr v ↦ rw v (narrow good since upper s es b k.1)
      ]
  | inr w ↦
      let k =
        subst
          (λ c.
            All (λ (e : Entry). s ≤ e.1.change_seq)
              (if c
                then e ∷ keep (λ e. good e && within since upper e) es
                else keep (λ e. good e && within since upper e) es))
          w h in
      let v : (good e && within since s e) ≡ false = ground (arith, w, b) in
      rw v (narrow good since upper s es b k)
]
