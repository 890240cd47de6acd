-- ===== src/Sync/Pull/Progress.antt =====
-- A page of a pull: where it ends, and what it holds.
use vive_cserver.Base.{
  ℕ, ◌+◌, ◌≤◌, ◌<◌, String, ◌≡◌, inl, inr, Bool, ◌&&◌, some, List, [], ◌∷◌, All, arith, ltb, ◌==◌,
  Bool-cases, Option-cases, keep,
}
use vive_cserver.Store.Database.{Database}
use vive_cserver.Store.Weight.{Weigh, byte_weight}
use vive_cserver.Store.Delta.{
  Measures, DeltaFilter, Entry, SequenceWeight, add_weight, per_sequence, running, last_fitting,
  cutoff_of, cutoff_at, delta_entries, select_delta_cutoff, readable_entry, within,
}

abbrev pub Inside : ℕ → ℕ → ℕ → Type 0
Inside since upper seq = (since < seq) × (seq ≤ upper)

module _ (since upper : ℕ) where
  pub entries-Inside :
      (good : Entry → Bool) (es : List Entry)
      → All (λ e. Inside since upper e.1.change_seq) (keep (λ e. good e && within since upper e) es)
  entries-Inside good [] = tt
  entries-Inside good (e ∷ es) = elim (Bool-cases (good e && within since upper e)) [
    | inl h ↦ rw h ((ground (arith, h), ground (arith, h)), entries-Inside good es)
    | inr h ↦ rw h (entries-Inside good es)
  ]

  pub add_weight-Inside :
      (seq weight : ℕ) (gs : List SequenceWeight)
      → Inside since upper seq
      → All (λ g. Inside since upper g.change_seq) gs
      → All (λ g. Inside since upper g.change_seq) (add_weight seq weight gs)
  unfolding add_weight
  add_weight-Inside seq weight [] i h = (i, tt)
  add_weight-Inside seq weight (g ∷ gs) i h = elim (Bool-cases (seq == g.change_seq)) [
    | inl e ↦ rw e (i, h.1)
    | inr e ↦ elim (Bool-cases (ltb seq g.change_seq)) [
      | inl l ↦ rw (e, l) (i, h)
      | inr l ↦ rw (e, l) (h.0, add_weight-Inside seq weight gs i h.1)
    ]
  ]

  pub per_sequence-Inside :
      (weigh : Weigh) (es : List Entry)
      → All (λ e. Inside since upper e.1.change_seq) es
      → All (λ g. Inside since upper g.change_seq) (per_sequence weigh es)
  unfolding per_sequence
  per_sequence-Inside weigh [] h = tt
  per_sequence-Inside weigh (e ∷ es) h =
      add_weight-Inside e.1.change_seq _ (per_sequence weigh es) h.0
        (per_sequence-Inside weigh es h.1)

  pub running-Inside :
      (limit budget rows bytes : ℕ) (gs : List SequenceWeight)
      → All (λ g. Inside since upper g.change_seq) gs
      → All (λ r. Inside since upper r.0) (running limit budget rows bytes gs)
  unfolding running
  running-Inside limit budget rows bytes [] h = tt
  running-Inside limit budget rows bytes (g ∷ gs) h =
      (h.0, running-Inside limit budget (rows + g.rows_here) (bytes + g.bytes_here) gs h.1)

  pub last_fitting-Inside :
      (rs : List (ℕ × Bool)) (seq : ℕ)
      → All (λ r. Inside since upper r.0) rs
      → last_fitting rs ≡ some seq
      → Inside since upper seq
  unfolding last_fitting
  last_fitting-Inside [] seq h e = cc
  last_fitting-Inside (r ∷ rs) seq h e = elim (Option-cases (last_fitting rs)) [
    | inl none_later ↦ (ground (arith, h.0, e, none_later), ground (arith, h.0, e, none_later))
    | inr (later, l) ↦
        let i = last_fitting-Inside rs later h.1 l in
        (ground (arith, e, l, i.0), ground (arith, e, l, i.1))
  ]

  pub cutoff_of-Inside :
      (rs : List (ℕ × Bool)) (seq : ℕ) (complete : Bool)
      → All (λ r. Inside since upper r.0) rs
      → cutoff_of rs ≡ cutoff_at seq complete
      → Inside since upper seq
  unfolding cutoff_of
  cutoff_of-Inside [] seq complete h e = cc
  cutoff_of-Inside (r ∷ rs) seq complete h e = elim (Option-cases (last_fitting (r ∷ rs))) [
    | inl no_fit ↦ (ground (arith, h.0, e, no_fit), ground (arith, h.0, e, no_fit))
    | inr (last, l) ↦
        let i = last_fitting-Inside (r ∷ rs) last h l in
        (ground (arith, e, l, i.0), ground (arith, e, l, i.1))
  ]

-- A boundary that the cutoff query answers lies inside the window that was asked about.
pub select_delta_cutoff-Inside :
    (m : Measures) (db : Database) (account_id : String) (since upper limit budget : ℕ)
    (filter : DeltaFilter) (seq : ℕ) (complete : Bool)
    → select_delta_cutoff m db account_id since upper limit budget filter ≡ cutoff_at seq complete
    → Inside since upper seq
unfolding select_delta_cutoff delta_entries
select_delta_cutoff-Inside m db account_id since upper limit budget filter seq complete =
    cutoff_of-Inside since upper _ seq complete (
      running-Inside since upper limit budget 0 0 _ (
        per_sequence-Inside since upper (byte_weight m db) _
          (entries-Inside since upper (readable_entry db account_id filter) db.rows)))
