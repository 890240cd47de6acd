-- ===== src/Sync/Pull/Boundary.antt =====
-- Where a page ends, and that it is within the ceiling if the weights are right.
use vive_cserver.Base.{
  ℕ, ◌≤◌, ◌<◌, String, ◌≡◌, ◌⊎◌, inl, inr, refl, Bool, true, false, ◌&&◌, List, [], ◌∷◌, All, arith,
  ltb, leb, if◌then◌else◌, keep, All-sort_by,
}
use vive_cserver.Sync.Object.{Object}
use vive_cserver.Store.Database.{Database}
use vive_cserver.Store.Weight.{Weigh, byte_weight}
use vive_cserver.Store.Delta.{
  Measures, DeltaFilter, Entry, SequenceWeight, entry_le, bytes_read, add_weight, per_sequence,
  running, cutoff_at, empty_delta, DeltaCutoff, delta_entries, readable_entry, within, select_delta,
  select_delta_cutoff, max_delta_bytes,
}
use vive_cserver.Sync.Pull.{changes_of, delta_within_budget}
use vive_cserver.Sync.Pull.Progress.{entries-Inside, select_delta_cutoff-Inside}
use vive_cserver.Sync.Pull.Budget.{
  weight_upto, cum_bytes-per_sequence, Ascending-per_sequence, last_fitting-fits, all_fit-fits,
  least_per_sequence,
}
use vive_cserver.Sync.Pull.Pages.{
  all_accurate, bytes_read-weight, single_sequence, within_ceiling, cutoff-cases, head_least,
  narrow,
}

-- A window that ends where it begins holds nothing.
pub empty_window :
    (good : Entry → Bool) (since upper : ℕ) (es : List Entry)
    → upper ≤ since
    → keep (λ e. good e && within since upper e) es ≡ []
empty_window good since upper [] h = refl
empty_window good since upper (e ∷ es) h = ground (arith, h, empty_window good since upper es h)

grown :
    (limit budget q w : ℕ) (gs : List SequenceWeight)
    → running limit budget 0 0 (add_weight q w gs) ≡ []
    → ⊥
unfolding running add_weight
grown limit budget q w [] h = cc
grown limit budget q w (g ∷ gs) h = ground (arith, h)

no_groups :
    (weigh : Weigh) (limit budget : ℕ) (es : List Entry)
    → running limit budget 0 0 (per_sequence weigh es) ≡ []
    → es ≡ []
unfolding per_sequence
no_groups weigh limit budget [] h = refl
no_groups weigh limit budget (e ∷ es) h =
    absurd (grown limit budget e.1.change_seq _ (per_sequence weigh es) h)

pub below_leb : (since upper : ℕ) → since < upper → leb upper since ≡ false
below_leb since upper h = ground (arith, h)

pub not_below : (n : ℕ) → ltb n n ≡ false
not_below n = ground arith

pub end_after :
    (since upper s : ℕ) (complete : Bool)
    → since < s
    → since < upper
    → since < (if complete then upper else s)
end_after since upper s complete h k = ground (arith, h, k)

pub end_within :
    (upper s : ℕ) (complete : Bool) → s ≤ upper → (if complete then upper else s) ≤ upper
end_within upper s complete h = ground (arith, h)

module _ (m : Measures) (db : Database) (account_id : String) (filter : DeltaFilter) where
  abbrev pub delta_of : ℕ → ℕ → List Object
  delta_of since upper = changes_of (select_delta m db account_id since upper filter)

  abbrev pub entries : ℕ → ℕ → List Entry
  entries since upper =
      keep (λ e. readable_entry db account_id filter e && within since upper e) db.rows

  abbrev pub Passes : ℕ → ℕ → Type 0
  Passes since page_end =
      delta_within_budget (select_delta m db account_id since page_end filter)
        (bytes_read m (select_delta m db account_id since page_end filter))
      ≡ true

  -- Every row of the window renders to at most four times its weight.
  abbrev pub Accurate : ℕ → ℕ → Type 0
  Accurate since upper = all_accurate m db (delta_entries db account_id since upper filter) ≡ true

  light_page :
      (since upper s : ℕ)
      → s ≤ upper
      → weight_upto (byte_weight m db) s (entries since upper) ≤ max_delta_bytes
      → Accurate since upper
      → Passes since s
  unfolding select_delta delta_entries
  light_page since upper s below light accurate = within_ceiling _ _ (
      omega (
        arith,
        light,
        bytes_read-weight m db (readable_entry db account_id filter) since upper s below db.rows
            accurate,
      ))

  single_page : (since s : ℕ) → All (λ e. e.1.change_seq ≡ s) (entries since s) → Passes since s
  unfolding select_delta delta_entries
  single_page since s h =
      single_sequence db s _ _ (All-sort_by (entry_le m) (λ e. e.1.change_seq ≡ s) _ h)

  abbrev pub boundary : ℕ → ℕ → ℕ → DeltaCutoff
  boundary since upper limit =
      select_delta_cutoff m db account_id since upper limit max_delta_bytes filter

  -- The boundary query finds nothing, or the page that ends where it says passes the check if the
  -- weights are right.
  pub boundary-cases :
      (since upper limit : ℕ)
      → ((boundary since upper limit ≡ empty_delta) × (entries since upper ≡ []))
        ⊎ ((s : ℕ) × (complete : Bool) × (boundary since upper limit ≡ cutoff_at s complete)
            × (Accurate since upper → Passes since (if complete then upper else s)))
  unfolding select_delta_cutoff delta_entries
  boundary-cases since upper limit =
      let es = entries since upper in
      let gs = per_sequence (byte_weight m db) es in
      let inside = entries-Inside since upper (readable_entry db account_id filter) db.rows in
      let ascending = Ascending-per_sequence (byte_weight m db) since upper es inside in
      elim (cutoff-cases (running limit max_delta_bytes 0 0 gs)) [
        | inl (r, c) ↦ inl (c, no_groups (byte_weight m db) limit max_delta_bytes es r)
        | inr (inl (s, c, a)) ↦ inr (
          s,
          true,
          c,
          light_page since upper upper (omega arith) (
              omega (
                arith,
                all_fit-fits limit max_delta_bytes 0 0 upper gs (omega arith) a,
                cum_bytes-per_sequence (byte_weight m db) upper es,
              )),
        )
        | inr (inr (inl (s, c, l))) ↦ inr (
          s,
          false,
          c,
          light_page since upper s
              (select_delta_cutoff-Inside m db account_id since upper limit max_delta_bytes filter s
                false c).1
              (omega (
                arith,
                last_fitting-fits upper limit max_delta_bytes 0 0 s gs ascending l,
                cum_bytes-per_sequence (byte_weight m db) s es,
              )),
        )
        | inr (inr (inr (r, rest, e, c))) ↦ inr (
          r.0,
          false,
          c,
          λ accurate. single_page since r.0 (
              narrow (readable_entry db account_id filter) since upper r.0 db.rows
                (select_delta_cutoff-Inside m db account_id since upper limit max_delta_bytes filter
                  r.0 false c).1
                (least_per_sequence (byte_weight m db) r.0 es
                  (head_least upper limit max_delta_bytes gs r rest e ascending))),
        )
      ]
