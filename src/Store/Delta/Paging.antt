-- ===== src/Store/Delta/Paging.antt =====
-- Consecutive windows of the delta are read in the order of the whole.
use vive_cserver.Base.{
  ℕ, ◌≤◌, ◌<◌, String, ◌≡◌, ◌⊎◌, refl, ap, sym, ◌∙◌, Bool, true, false, ◌&&◌, List, [], ◌∷◌, ◌++◌,
  keep, All, map, map-append, arith, Bool-cases, inl, inr, sort_by, insert_by, insert_by-left,
  insert_by-right, All-sort_by,
}
use vive_cserver.Store.Database.{Database}
use vive_cserver.Store.Delta.{
  Measures, DeltaFilter, Entry, within, entry_le, delta_entries, readable_entry, delta_row,
  select_delta,
}

module _ (m : Measures) (good : Entry → Bool) (since mid upper : ℕ) (low : since ≤ mid)
    (high : mid ≤ upper) where
  abbrev pub window : ℕ → ℕ → List Entry → List Entry
  window a b = keep (λ entry. good entry && within a b entry)

  upper_window : (es : List Entry) → All (λ e. mid < e.1.change_seq) (window mid upper es)
  upper_window [] = tt
  upper_window (e ∷ es) = elim (Bool-cases (good e && within mid upper e)) [
    | inl h ↦ rw h (ground (arith, h), upper_window es)
    | inr h ↦ rw h (upper_window es)
  ]

  lower_window : (es : List Entry) → All (λ e. e.1.change_seq ≤ mid) (window since mid es)
  lower_window [] = tt
  lower_window (e ∷ es) = elim (Bool-cases (good e && within since mid e)) [
    | inl h ↦ rw h (ground (arith, h), lower_window es)
    | inr h ↦ rw h (lower_window es)
  ]

  before_upper :
      (e : Entry) (ys : List Entry)
      → e.1.change_seq ≤ mid
      → All (λ y. mid < y.1.change_seq) ys
      → All (λ y. entry_le m e y ≡ true) ys
  before_upper e [] h a = tt
  before_upper e (y ∷ ys) h a = (ground (arith, h, a.0), before_upper e ys h a.1)

  after_lower :
      (e : Entry) (ys : List Entry)
      → mid < e.1.change_seq
      → All (λ y. y.1.change_seq ≤ mid) ys
      → All (λ y. entry_le m e y ≡ false) ys
  after_lower e [] h a = tt
  after_lower e (y ∷ ys) h a = (ground (arith, h, a.0), after_lower e ys h a.1)

  abbrev pub sorted : ℕ → ℕ → List Entry → List Entry
  sorted a b es = sort_by (entry_le m) (window a b es)

  -- where an entry stands
  place :
      (e : Entry)
      → (((good e && within since upper e) ≡ false)
          × ((good e && within since mid e) ≡ false)
          × ((good e && within mid upper e) ≡ false))
        ⊎ (((good e && within since upper e) ≡ true)
            × ((good e && within since mid e) ≡ true)
            × ((good e && within mid upper e) ≡ false)
            × (e.1.change_seq ≤ mid))
        ⊎ (((good e && within since upper e) ≡ true)
            × ((good e && within since mid e) ≡ false)
            × ((good e && within mid upper e) ≡ true)
            × (mid < e.1.change_seq))
  place e = ground (arith, low, high)

  pub sorted-split :
      (es : List Entry) → sorted since mid es ++ sorted mid upper es ≡ sorted since upper es
  sorted-split [] = refl
  sorted-split (e ∷ es) = elim (place e) [
    | inl (a, b, c) ↦ rw (a, b, c) (sorted-split es)
    | inr (inl (a, b, c, h)) ↦
        rw (a, b, c)
          (sym (
              insert_by-left (entry_le m) e (sorted since mid es) (sorted mid upper es) (
                before_upper e _ h
                  (All-sort_by (entry_le m) (λ y. mid < y.1.change_seq) _ (upper_window es))))
            ∙ ap (insert_by (entry_le m) e) (sorted-split es))
    | inr (inr (a, b, c, h)) ↦
        rw (a, b, c)
          (sym (
              insert_by-right (entry_le m) e (sorted since mid es) (sorted mid upper es) (
                after_lower e _ h
                  (All-sort_by (entry_le m) (λ y. y.1.change_seq ≤ mid) _ (lower_window es))))
            ∙ ap (insert_by (entry_le m) e) (sorted-split es))
  ]

-- The delta of a window is the delta up to a point in it, followed by the delta from there on.
pub select_delta-append :
    (m : Measures) (db : Database) (account_id : String) (since mid upper : ℕ)
    (filter : DeltaFilter)
    → since ≤ mid
    → mid ≤ upper
    → select_delta m db account_id since mid filter ++ select_delta m db account_id mid upper filter
      ≡ select_delta m db account_id since upper filter
unfolding select_delta delta_entries
select_delta-append m db account_id since mid upper filter low high =
    sym (map-append (delta_row db) _ _)
    ∙ ap (map (delta_row db))
        (sorted-split m (readable_entry db account_id filter) since mid upper low high db.rows)
