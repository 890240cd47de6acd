-- ===== src/Sync/Pull/Budget.antt =====
-- The rows of a page that spans several sequence values weigh no more than the budget.
use vive_cserver.Base.{
  ℕ, ◌+◌, ◌≤◌, ◌<◌, ◌≡◌, inl, inr, refl, ap, subst, ◌∙◌, true, false, some, List, [], ◌∷◌, All,
  arith, ltb, leb, ◌==◌, if◌then◌else◌, Bool-cases, Option-cases,
}
use vive_cserver.Store.Weight.{Weigh}
use vive_cserver.Store.Delta.{
  Entry, SequenceWeight, add_weight, per_sequence, running, last_fitting, all_fit,
}
use vive_cserver.Sync.Pull.Progress.{
  Inside, running-Inside, last_fitting-Inside, add_weight-Inside, per_sequence-Inside,
}

-- the weight of the groups, and of the rows, up to a sequence value
abbrev pub cum_bytes : ℕ → List SequenceWeight → ℕ
cum_bytes s [] = 0
cum_bytes s (g ∷ gs) = (if leb g.change_seq s then g.bytes_here else 0) + cum_bytes s gs

abbrev pub weight_upto : Weigh → ℕ → List Entry → ℕ
weight_upto weigh s [] = 0
weight_upto weigh s (e ∷ es) =
    (if leb e.1.change_seq s then weigh e.0 e.1 else 0) + weight_upto weigh s es

cum_bytes-add_weight :
    (s q w : ℕ) (gs : List SequenceWeight)
    → cum_bytes s (add_weight q w gs) ≡ (if leb q s then w else 0) + cum_bytes s gs
unfolding add_weight
cum_bytes-add_weight s q w [] = refl
cum_bytes-add_weight s q w (g ∷ gs) = ground (arith, cum_bytes-add_weight s q w gs)

pub cum_bytes-per_sequence :
    (weigh : Weigh) (s : ℕ) (es : List Entry)
    → cum_bytes s (per_sequence weigh es) ≡ weight_upto weigh s es
unfolding per_sequence
cum_bytes-per_sequence weigh s [] = refl
cum_bytes-per_sequence weigh s (e ∷ es) =
    cum_bytes-add_weight s e.1.change_seq _ (per_sequence weigh es)
    ∙ ap (λ n. (if leb e.1.change_seq s then weigh e.0 e.1 else 0) + n)
        (cum_bytes-per_sequence weigh s es)

-- The groups stand in the order of their sequence values.
abbrev pub Ascending : ℕ → List SequenceWeight → Type 0
Ascending upper [] = Unit
Ascending upper (g ∷ gs) = All (λ h. Inside g.change_seq upper h.change_seq) gs × Ascending upper gs

raised :
    (low high upper : ℕ) (gs : List SequenceWeight)
    → low < high
    → All (λ h. Inside high upper h.change_seq) gs
    → All (λ h. Inside low upper h.change_seq) gs
raised low high upper [] l h = tt
raised low high upper (g ∷ gs) l h =
    ((omega (arith, l, h.0.0), h.0.1), raised low high upper gs l h.1)

Ascending-add_weight :
    (upper q w : ℕ) (gs : List SequenceWeight)
    → q ≤ upper
    → All (λ g. g.change_seq ≤ upper) gs
    → Ascending upper gs
    → Ascending upper (add_weight q w gs)
unfolding add_weight
Ascending-add_weight upper q w [] i b h = (tt, tt)
Ascending-add_weight upper q w (g ∷ gs) i b h = elim (Bool-cases (q == g.change_seq)) [
  | inl e ↦ rw e (all_from (ground (arith, e)), h.1)
  | inr e ↦ elim (Bool-cases (ltb q g.change_seq)) [
    | inl l ↦
        rw (e, l)
          (((ground (arith, l), b.0), raised q g.change_seq upper gs (ground (arith, l)) h.0), h)
    | inr l ↦
        rw (e, l)
          (
            add_weight-Inside g.change_seq upper q w gs (ground (arith, l, e), i) h.0,
            Ascending-add_weight upper q w gs i b.1 h.1,
          )
  ]
]
  where
    all_from : g.change_seq ≡ q → All (λ h. Inside q upper h.change_seq) gs
    all_from e = subst (λ low. All (λ x. Inside low upper x.change_seq) gs) e h.0

bounded :
    (since upper : ℕ) (gs : List SequenceWeight)
    → All (λ g. Inside since upper g.change_seq) gs
    → All (λ g. g.change_seq ≤ upper) gs
bounded since upper [] h = tt
bounded since upper (g ∷ gs) h = (h.0.1, bounded since upper gs h.1)

pub Ascending-per_sequence :
    (weigh : Weigh) (since upper : ℕ) (es : List Entry)
    → All (λ e. Inside since upper e.1.change_seq) es
    → Ascending upper (per_sequence weigh es)
unfolding per_sequence
Ascending-per_sequence weigh since upper [] h = tt
Ascending-per_sequence weigh since upper (e ∷ es) h =
    Ascending-add_weight upper e.1.change_seq _ (per_sequence weigh es) h.0.1
      (bounded since upper _ (per_sequence-Inside since upper weigh es h.1))
      (Ascending-per_sequence weigh since upper es h.1)

cum_bytes-above :
    (s upper : ℕ) (gs : List SequenceWeight)
    → All (λ h. Inside s upper h.change_seq) gs
    → cum_bytes s gs ≡ 0
cum_bytes-above s upper [] h = refl
cum_bytes-above s upper (g ∷ gs) h = ground (arith, h.0.0, cum_bytes-above s upper gs h.1)

-- A boundary that fits bounds the weight of the page.
pub last_fitting-fits :
    (upper limit budget rows bytes s : ℕ) (gs : List SequenceWeight)
    → Ascending upper gs
    → last_fitting (running limit budget rows bytes gs) ≡ some s
    → bytes + cum_bytes s gs ≤ budget
unfolding last_fitting running
last_fitting-fits upper limit budget rows bytes s [] a h = cc
last_fitting-fits upper limit budget rows bytes s (g ∷ gs) a h =
    elim (Option-cases
      (last_fitting (running limit budget (rows + g.rows_here) (bytes + g.bytes_here) gs))) [
        | inl no_later ↦ ground (arith, h, no_later, cum_bytes-above g.change_seq upper gs a.0)
        | inr (later, l) ↦
            let i =
              last_fitting-Inside g.change_seq upper _ later
                (running-Inside g.change_seq upper limit budget (rows + g.rows_here)
                  (bytes + g.bytes_here) gs a.0)
                l in
            ground (
              arith,
              h,
              l,
              i.0,
              last_fitting-fits upper limit budget (rows + g.rows_here) (bytes + g.bytes_here) later
                  gs a.1 l,
            )
      ]

-- If all fits, so does the weight up to any sequence value.
pub all_fit-fits :
    (limit budget rows bytes s : ℕ) (gs : List SequenceWeight)
    → bytes ≤ budget
    → all_fit (running limit budget rows bytes gs) ≡ true
    → bytes + cum_bytes s gs ≤ budget
unfolding all_fit running
all_fit-fits limit budget rows bytes s [] b h = omega (arith, b)
all_fit-fits limit budget rows bytes s (g ∷ gs) b h =
    ground (arith, h, all_fit-fits limit budget (rows + g.rows_here) (bytes + g.bytes_here) s gs)

-- Rows are not below the least sequence value of their groups.
least_add_weight :
    (s q w : ℕ) (gs : List SequenceWeight)
    → All (λ g. s ≤ g.change_seq) (add_weight q w gs)
    → (s ≤ q) × All (λ g. s ≤ g.change_seq) gs
unfolding add_weight
least_add_weight s q w [] h = (h.0, tt)
least_add_weight s q w (g ∷ gs) h = elim (Bool-cases (q == g.change_seq)) [
  | inl e ↦
      let k = subst (All (λ (x : SequenceWeight). s ≤ x.change_seq)) (joined e) h in
      (k.0, (ground (arith, e, k.0), k.1))
  | inr e ↦ elim (Bool-cases (ltb q g.change_seq)) [
    | inl l ↦
        let k = subst (All (λ (x : SequenceWeight). s ≤ x.change_seq)) (before e l) h in (k.0, k.1)
    | inr l ↦
        let k = subst (All (λ (x : SequenceWeight). s ≤ x.change_seq)) (further e l) h in
        let r = least_add_weight s q w gs k.1 in (r.0, (k.0, r.1))
  ]
]
  where
    joined :
        (q == g.change_seq) ≡ true
        → add_weight q w (g ∷ gs)
          ≡ record { change_seq = q; rows_here = g.rows_here + 1; bytes_here = g.bytes_here + w }
            ∷ gs
    joined e = rw (e, add_weight) refl

    before :
        (q == g.change_seq) ≡ false
        → ltb q g.change_seq ≡ true
        → add_weight q w (g ∷ gs)
          ≡ record { change_seq = q; rows_here = 1; bytes_here = w } ∷ g ∷ gs
    before e l = rw (e, l, add_weight) refl

    further :
        (q == g.change_seq) ≡ false
        → ltb q g.change_seq ≡ false
        → add_weight q w (g ∷ gs) ≡ g ∷ add_weight q w gs
    further e l = rw (e, l, add_weight) refl

pub least_per_sequence :
    (weigh : Weigh) (s : ℕ) (es : List Entry)
    → All (λ g. s ≤ g.change_seq) (per_sequence weigh es)
    → All (λ e. s ≤ e.1.change_seq) es
unfolding per_sequence
least_per_sequence weigh s [] h = tt
least_per_sequence weigh s (e ∷ es) h =
    let r = least_add_weight s e.1.change_seq _ (per_sequence weigh es) h in
    (r.0, least_per_sequence weigh s es r.1)
