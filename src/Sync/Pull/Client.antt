-- ===== src/Sync/Pull/Client.antt =====
-- A client that pulls page after page receives the whole delta, once and in order.
use vive_cserver.Base.{
  not_true, both_ways, ℕ, zero, suc, ◌+◌, ◌≤◌, String, ◌≡◌, ◌⊎◌, inl, inr, refl, ap, sym, ◌∙◌,
  false, List, [], ◌++◌, map, map-append, arith, ltb, le→leb, if◌then◌else◌, Bool-cases, sort_by,
}
use vive_cserver.Sync.Object.{Object}
use vive_cserver.Store.Database.{Database}
use vive_cserver.Store.Outcome.{Outcome, ok, failed, page_over_budget, ◌>>=◌}
use vive_cserver.Store.Sequence.{read_change_seq}
use vive_cserver.Store.Purges.{select_purges}
use vive_cserver.Store.Delta.{
  Measures, DeltaFilter, delta_row, entry_le, delta_entries, readable_entry, select_delta,
}
use vive_cserver.Store.Delta.Paging.{select_delta-append}
use vive_cserver.Sync.Pull.{PullResult, changes_of, select_change_page, pull_filtered_changes}
use vive_cserver.Sync.Pull.Pages.{all_accurate-narrow}
use vive_cserver.Sync.Pull.Complete.{pulled, pull-Page, IsOverrun}
use vive_cserver.Sync.Pull.Boundary.{delta_of, empty_window}

module _ (m : Measures) (db : Database) (account_id : String) (filter : DeltaFilter) where
  -- A client that stores each cursor and pulls again while there is more; the limit of each request
  -- is its own.
  unfoldable pub pull_all : ℕ → ℕ → (ℕ → ℕ) → Outcome (List Object)
  pull_all zero since limit = ok []
  pull_all (suc n) since limit = do
    result ← pulled m db account_id filter since (limit n)
    let rest = pull_all n result.cursor limit
    if result.has_more then (rest >>= λ later. ok (result.changes ++ later)) else ok result.changes

  delta_of-empty :
      (since upper : ℕ) → upper ≤ since → delta_of m db account_id filter since upper ≡ []
  unfolding select_delta delta_entries changes_of
  delta_of-empty since upper h =
      ap (λ es. changes_of (map (delta_row db) (sort_by (entry_le m) es)))
        (empty_window (readable_entry db account_id filter) since upper db.rows h)

  delta_of-append :
      (since mid upper : ℕ)
      → since ≤ mid
      → mid ≤ upper
      → delta_of m db account_id filter since mid ++ delta_of m db account_id filter mid upper
        ≡ delta_of m db account_id filter since upper
  unfolding changes_of
  delta_of-append since mid upper low high =
      sym (
        map-append _ (select_delta m db account_id since mid filter)
          (select_delta m db account_id mid upper filter))
      ∙ ap changes_of (select_delta-append m db account_id since mid upper filter low high)

  pulled_caught_up :
      (since upper limit : ℕ)
      → read_change_seq account_id db ≡ ok upper
      → upper ≤ since
      → (result : PullResult) × (pulled m db account_id filter since limit ≡ ok result)
        × (result.changes ≡ [])
        × (result.has_more ≡ false)
  unfolding pull_filtered_changes select_change_page
  pulled_caught_up since upper limit read h = (
    record {
      changes = [];
      purges = if filter.tree_only then [] else select_purges m db account_id since upper;
      cursor = upper;
      has_more = false;
    },
    rw (read, le→leb upper since h) refl,
    refl,
    refl,
  )

  IsOverrun-earlier :
      {A B : Type 0} (o : Outcome A) (p : Outcome B) (since mid upper : ℕ)
      → since ≤ mid
      → o ≡ failed page_over_budget
      → IsOverrun m db account_id filter mid upper p
      → IsOverrun m db account_id filter since upper o
  unfolding delta_entries
  IsOverrun-earlier o p since mid upper low e (_, late) = (
    e,
    not_true _ (λ h.
        both_ways
          (all_accurate-narrow m db (readable_entry db account_id filter) since mid upper db.rows
            low h)
          late),
  )

  -- A client that starts at a cursor and pulls page after page, with any row limits, receives in as
  -- many requests as there are sequence values to go the whole delta up to the account's cursor:
  -- every change once, in the order of the sequence, of the kinds and of the ids. Only where the
  -- rendering of some change of the delta is longer than four times the byteWeight of its row may a
  -- pull be refused instead, as past the page's budget.
  pub pull_all_lem :
      (fuel since upper : ℕ) (limit : ℕ → ℕ)
      → read_change_seq account_id db ≡ ok upper
      → since ≤ upper
      → upper ≤ since + fuel
      → (pull_all fuel since limit ≡ ok (delta_of m db account_id filter since upper))
        ⊎ IsOverrun m db account_id filter since upper (pull_all fuel since limit)
  unfolding pull_all
  pull_all_lem zero since upper limit read low enough =
      inl (ap ok (sym (delta_of-empty since upper (omega (arith, enough)))))
  pull_all_lem (suc n) since upper limit read low enough = elim (Bool-cases (ltb since upper)) [
    | inr level ↦
        let (result, e, nothing, done) =
          pulled_caught_up since upper (limit n) read (ground (arith, level)) in
        inl
          (rw (e, done, nothing) (ap ok (sym (delta_of-empty since upper (ground (arith, level))))))
    | inl behind ↦
        elim (pull-Page m db account_id filter since upper (limit n) read
          (ground (arith, behind))) [
            | inr over ↦ inr (rw over.0 refl, over.1)
            | inl (result, e, page) ↦ elim (Bool-cases (ltb result.cursor upper)) [
              | inr done ↦
                  let level : result.cursor ≡ upper = ground (arith, done, page.bounded) in
                  inl (
                    rw (e, page.more, done, page.changes)
                      (ap (λ u. ok (delta_of m db account_id filter since u)) level))
              | inl more ↦
                  elim (pull_all_lem n result.cursor upper limit read page.bounded
                    (omega (arith, page.advanced, enough))) [
                      | inl later ↦ inl (
                          rw (e, page.more, more, later, page.changes)
                            (ap ok (
                              delta_of-append since result.cursor upper
                                (omega (arith, page.advanced)) page.bounded)))
                      | inr over ↦ inr (
                          IsOverrun-earlier _ _ since result.cursor upper
                            (omega (arith, page.advanced)) (rw (e, page.more, more, over.0) refl)
                            over)
                    ]
            ]
          ]
  ]
