-- ===== src/Sync/Pull/Complete.antt =====
-- What a pull of a known account gives, and what its page holds.
use vive_cserver.Base.{
  not_true, both_ways, ℕ, ◌≤◌, ◌<◌, String, ◌≡◌, ◌⊎◌, inl, inr, refl, ap, Bool, false, [], arith,
  ltb, if◌then◌else◌, Bool-cases,
}
use vive_cserver.Store.Database.{Database}
use vive_cserver.Store.Outcome.{Outcome, ok, failed, page_over_budget}
use vive_cserver.Store.Sequence.{read_change_seq}
use vive_cserver.Store.Purges.{select_purges}
use vive_cserver.Store.Delta.{
  Measures, DeltaFilter, bytes_read, cutoff_at, empty_delta, delta_entries, select_delta,
  max_delta_bytes,
}
use vive_cserver.Sync.Pull.{
  PullResult, still, changes_of, delta_within_budget, render_page, select_change_page,
  pull_filtered_changes,
}
use vive_cserver.Sync.Pull.Progress.{select_delta_cutoff-Inside}
use vive_cserver.Sync.Pull.Pages.{all_accurate}
use vive_cserver.Sync.Pull.Boundary.{
  below_leb, not_below, end_after, end_within, delta_of, entries, Passes, boundary, boundary-cases,
}

module _ (m : Measures) (db : Database) (account_id : String) (filter : DeltaFilter) where
  -- One page: the changes and the purges of (since, cursor], in order, with a cursor that has
  -- advanced, and more to come exactly if the cursor is below the account's.
  pub record Page (since upper : ℕ) (result : PullResult) : Type 0 where
    pub changes : result.changes ≡ delta_of m db account_id filter since result.cursor
    pub purges :
        result.purges
        ≡ (if filter.tree_only then [] else select_purges m db account_id since result.cursor)
    pub advanced : since < result.cursor
    pub bounded : result.cursor ≤ upper
    pub more : result.has_more ≡ ltb result.cursor upper

  abbrev pub pulled : ℕ → ℕ → Outcome PullResult
  pulled since limit = pull_filtered_changes m (still db) account_id since limit filter

  page_of : ℕ → ℕ → ℕ → PullResult
  page_of since upper page_end = record {
    changes = delta_of m db account_id filter since page_end;
    purges = if filter.tree_only then [] else select_purges m db account_id since page_end;
    cursor = page_end;
    has_more = ltb page_end upper;
  }

  rendered :
      (since upper page_end : ℕ)
      → Passes m db account_id filter since page_end
      → render_page m db account_id since page_end upper filter
        ≡ ok (record {
          changes = delta_of m db account_id filter since page_end;
          purges = [];
          cursor = page_end;
          has_more = ltb page_end upper;
        })
  unfolding render_page
  rendered since upper page_end h =
      ap
        (λ b.
          if b
          then ok (record {
            changes = delta_of m db account_id filter since page_end;
            purges = [];
            cursor = page_end;
            has_more = ltb page_end upper;
          })
          else failed page_over_budget)
        h

  pulled_at :
      (since upper limit s : ℕ) (complete : Bool)
      → read_change_seq account_id db ≡ ok upper
      → since < upper
      → boundary m db account_id filter since upper limit ≡ cutoff_at s complete
      → Passes m db account_id filter since (if complete then upper else s)
      → pulled since limit ≡ ok (page_of since upper (if complete then upper else s))
  unfolding pull_filtered_changes select_change_page page_of
  pulled_at since upper limit s complete read behind b h =
      rw
        (
          read,
          below_leb since upper behind,
          b,
          rendered since upper (if complete then upper else s) h,
        )
        refl

  refused_at :
      (since upper limit s : ℕ) (complete : Bool)
      → read_change_seq account_id db ≡ ok upper
      → since < upper
      → boundary m db account_id filter since upper limit ≡ cutoff_at s complete
      → delta_within_budget
          (select_delta m db account_id since (if complete then upper else s) filter)
          (bytes_read m (select_delta m db account_id since (if complete then upper else s) filter))
        ≡ false
      → pulled since limit ≡ failed page_over_budget
  unfolding pull_filtered_changes select_change_page render_page
  refused_at since upper limit s complete read behind b over =
      rw (read, below_leb since upper behind, b, render_page, over) refl

  pulled_nothing :
      (since upper limit : ℕ)
      → read_change_seq account_id db ≡ ok upper
      → since < upper
      → boundary m db account_id filter since upper limit ≡ empty_delta
      → entries m db account_id filter since upper ≡ []
      → pulled since limit ≡ ok (page_of since upper upper)
  unfolding pull_filtered_changes select_change_page page_of select_delta delta_entries changes_of
  pulled_nothing since upper limit read behind b none_there =
      rw (read, below_leb since upper behind, b, none_there, not_below upper) refl

  page_of-Page :
      (since upper page_end : ℕ)
      → since < page_end
      → page_end ≤ upper
      → Page since upper (page_of since upper page_end)
  unfolding page_of
  page_of-Page since upper page_end a b = record {
    changes = refl;
    purges = refl;
    advanced = a;
    bounded = b;
    more = refl;
  }

  -- The pull is refused as too large, and a row of the window renders to more than four times its
  -- weight.
  abbrev pub IsOverrun : {A : Type 0} → ℕ → ℕ → Outcome A → Type 0
  IsOverrun since upper outcome =
      (outcome ≡ failed page_over_budget)
      × (all_accurate m db (delta_entries db account_id since upper filter) ≡ false)

  -- A pull of a known account that is behind its cursor, whatever the row limit, gives a page: it
  -- holds the changes of (since, cursor] that pass the filter, in order, and the purges of the same
  -- window (none for a tree read); the cursor has advanced and is at most the account's, and
  -- has_more says whether it is below it. Only where the rendering of some change of
  -- (since, upper] that passes the filter is longer than four times the byteWeight of its row may
  -- the pull be refused instead, as past the page's budget.
  pub pull-Page :
      (since upper limit : ℕ)
      → read_change_seq account_id db ≡ ok upper
      → since < upper
      → ((result : PullResult) × (pulled since limit ≡ ok result) × Page since upper result)
        ⊎ IsOverrun since upper (pulled since limit)
  pull-Page since upper limit read behind =
      elim (boundary-cases m db account_id filter since upper limit) [
        | inl (b, none_there) ↦ inl (
          page_of since upper upper,
          pulled_nothing since upper limit read behind b none_there,
          page_of-Page since upper upper behind (omega arith),
        )
        | inr (s, complete, b, h) ↦
            let page_end = if complete then upper else s in
            let i =
              select_delta_cutoff-Inside m db account_id since upper limit max_delta_bytes filter s
                complete b in
            elim (Bool-cases (
              delta_within_budget (select_delta m db account_id since page_end filter)
                (bytes_read m (select_delta m db account_id since page_end filter)))) [
                  | inl passes ↦ inl (
                    page_of since upper page_end,
                    pulled_at since upper limit s complete read behind b passes,
                    page_of-Page since upper _ (end_after since upper s complete i.0 behind)
                        (end_within upper s complete i.1),
                  )
                  | inr over ↦ inr (
                    refused_at since upper limit s complete read behind b over,
                    not_true _ (λ accurate. both_ways (h accurate) over),
                  )
                ]
      ]
