-- ===== src/Sync/Engine/Batching.antt =====
-- The batched reads of a run decide each change as separate look-ups do.
use vive_cserver.Base.{
  String, str_eq_refl, contains, ◌≡◌, refl, sym, ap, ◌∙◌, true, Option, none, some, List, [], ◌∷◌,
  All, ◌++◌, Bool-cases, subst, arith, Option-cases, inl, inr, string_eq,
}
use vive_cserver.Base.Table.{lookup}
use vive_cserver.Sync.Kind.{Kind, rank, rank_injective}
use vive_cserver.Sync.Fields.{Fields, notebook_fields, attachment_fields}
use vive_cserver.Sync.Fields.Blobs.{digests, required_blob_digests, check_blob_presence}
use vive_cserver.Store.Database.{Database}
use vive_cserver.Store.Context.{ChangeContext}
use vive_cserver.Store.Outcome.{ok}
use vive_cserver.Sync.Change.{ReadChange, DecodedChange, refused, readable, change_kind}
use vive_cserver.Sync.Engine.Checks.{
  PushRequest, check_parent, check_blobs, check_purged, check_version, missing_digests, decide,
  reject,
}
use vive_cserver.Sync.Engine.Gather.{read_batch_context_total}
use vive_cserver.Sync.Engine.Run.{
  Progress, start, settle, same_kind, join_run, runs_of, run_kind, decide_run, refuse_run,
  decide_runs, decide_changes,
}
use vive_cserver.Sync.Engine.Answers.{IsRead, Answers, AllRead}
use vive_cserver.Sync.Engine.Reference.{
  held, not_held, size_failure, parent_now, blobs_now, purged_now, version_now, decide_now,
  decide_each,
}

module _ (context : ChangeContext) (db : Database) (account_id : String) where
  missing_digests-not_held :
      (ds : List String)
      → ((d : String) → contains ds d ≡ true → lookup d context.stored_blobs ≡ held db account_id d)
      → missing_digests ds context.stored_blobs ≡ not_held db account_id ds
  unfolding missing_digests not_held
  missing_digests-not_held [] h = refl
  missing_digests-not_held (d ∷ ds) h =
      ground
        (arith, h d, str_eq_refl d, missing_digests-not_held ds (λ e p. h e (ground (arith, p))))

  check_blob_presence-size_failure :
      (fields : Fields) (id : String) (ds : List String)
      → required_blob_digests fields id ≡ digests ds
      → ((d : String) → contains ds d ≡ true → lookup d context.stored_blobs ≡ held db account_id d)
      → check_blob_presence fields id context.stored_blobs
        ≡ size_failure fields (held db account_id id)
  unfolding required_blob_digests check_blob_presence size_failure
  check_blob_presence-size_failure (attachment_fields f) id ds r h =
      ground (arith, h id, str_eq_refl id)
  check_blob_presence-size_failure (notebook_fields f) id ds r h = refl
  check_blob_presence-size_failure _ id ds r h = refl

module _ (request : PushRequest) (context : ChangeContext) (db : Database) (c : ReadChange)
    (a : Answers context db request.account_id c) where
  check_parent-parent_now :
      (accepted : List (String × String))
      → check_parent context accepted c ≡ parent_now db request.account_id accepted c
  unfolding check_parent parent_now
  check_parent-parent_now accepted = ground (arith, a.parent)

  check_blobs-blobs_now : IsRead c → check_blobs context c ≡ blobs_now db request.account_id c
  unfolding check_blobs blobs_now
  check_blobs-blobs_now r = ground (
    arith,
    λ (live : c.envelope.deleted_at ≡ none).
        missing_digests-not_held context db request.account_id c.required_blobs
          (λ d. a.blob d live),
    λ (live : c.envelope.deleted_at ≡ none).
        check_blob_presence-size_failure context db request.account_id c.fields c.envelope.id
          c.required_blobs r (λ d. a.blob d live),
  )

  check_purged-purged_now : check_purged context c ≡ purged_now db request.account_id c
  unfolding check_purged purged_now
  check_purged-purged_now = ground (arith, a.gone)

  check_version-version_now : check_version context c ≡ version_now db request.account_id c
  unfolding check_version version_now
  check_version-version_now = ground (arith, a.current)

  pub decide-decide_now :
      IsRead c
      → (accepted : List (String × String))
      → decide request context accepted c ≡ decide_now request db accepted c
  unfolding decide decide_now
  decide-decide_now r accepted = ground (
    arith,
    check_parent-parent_now accepted,
    check_blobs-blobs_now r,
    check_purged-purged_now,
    check_version-version_now,
    a.current,
  )

-- A run of one kind, decided with its own context, is decided change by change.
decide_run-decide_each :
    (request : PushRequest) (context : ChangeContext) (db : Database) (run : List DecodedChange)
    (p : Progress)
    → AllRead IsRead run
    → AllRead (Answers context db request.account_id) run
    → decide_run request context run p ≡ decide_each request db run p
unfolding decide_run decide_each
decide_run-decide_each request context db [] p r a = refl
decide_run-decide_each request context db (refused kind x ∷ cs) p r a =
    decide_run-decide_each request context db cs (settle p (reject x)) r a
decide_run-decide_each request context db (readable c ∷ cs) p r a =
    rw (decide-decide_now request context db c a.0 r.0 p.accepted)
      (decide_run-decide_each request context db cs _ r.1 a.1)

decide_each-append :
    (request : PushRequest) (db : Database) (xs ys : List DecodedChange) (p : Progress)
    → decide_each request db (xs ++ ys) p ≡ decide_each request db ys (decide_each request db xs p)
unfolding decide_each
decide_each-append request db [] ys p = refl
decide_each-append request db (refused kind x ∷ cs) ys p = decide_each-append request db cs ys _
decide_each-append request db (readable c ∷ cs) ys p = decide_each-append request db cs ys _

-- A change of a run has the run's kind; an unresolved one was refused while it was read.
abbrev HasKind : Option Kind → DecodedChange → Type 0
HasKind kind c = change_kind c ≡ kind

refuse_run-decide_each :
    (request : PushRequest) (db : Database) (run : List DecodedChange) (p : Progress)
    → All (HasKind none) run
    → refuse_run run p ≡ decide_each request db run p
unfolding refuse_run decide_each change_kind
refuse_run-decide_each request db [] p h = refl
refuse_run-decide_each request db (refused kind x ∷ cs) p h =
    refuse_run-decide_each request db cs _ h.1
refuse_run-decide_each request db (readable c ∷ cs) p h = cc (h.0)

abbrev Uniform : List DecodedChange → Type 0
Uniform run = All (HasKind (run_kind run)) run

same_kind-eq : (a b : Option Kind) → same_kind a b ≡ true → b ≡ a
unfolding same_kind rank
same_kind-eq none none h = refl
same_kind-eq (some a) (some b) h = ground (arith, rank_injective a b)
same_kind-eq none (some b) h = cc
same_kind-eq (some a) none h = cc

join_run-Uniform :
    (c : DecodedChange) (runs : List (List DecodedChange))
    → All Uniform runs
    → All Uniform (join_run c runs)
unfolding run_kind join_run
join_run-Uniform c [] u = ((refl, tt), tt)
join_run-Uniform c ([] ∷ rest) u = ((refl, tt), u.1)
join_run-Uniform c ((d ∷ ds) ∷ rest) u =
    elim (Bool-cases (same_kind (change_kind c) (change_kind d))) [
      | inl same ↦
          rw (same, join_run)
            (let e = same_kind-eq (change_kind c) (change_kind d) same in
              ((refl, (e, subst (λ k. All (HasKind k) ds) e u.0.1)), u.1))
      | inr other ↦ rw (other, join_run) ((refl, tt), u)
    ]

runs_of-Uniform : (cs : List DecodedChange) → All Uniform (runs_of cs)
unfolding runs_of
runs_of-Uniform [] = tt
runs_of-Uniform (c ∷ cs) = join_run-Uniform c (runs_of cs) (runs_of-Uniform cs)

concat {ℓ} : {A : Type ℓ} → List (List A) → List A
concat [] = []
concat (xs ∷ rest) = xs ++ concat rest

concat-join_run :
    (c : DecodedChange) (runs : List (List DecodedChange))
    → concat (join_run c runs) ≡ c ∷ concat runs
unfolding concat join_run
concat-join_run c [] = refl
concat-join_run c ([] ∷ rest) = refl
concat-join_run c ((d ∷ ds) ∷ rest) = ground arith

concat-runs_of : (cs : List DecodedChange) → concat (runs_of cs) ≡ cs
unfolding runs_of
concat-runs_of [] = unfold concat in refl
concat-runs_of (c ∷ cs) = concat-join_run c (runs_of cs) ∙ ap (λ l. c ∷ l) (concat-runs_of cs)

AllRead-left {ℓ} :
    (P : ReadChange → Type ℓ) (xs ys : List DecodedChange) → AllRead P (xs ++ ys) → AllRead P xs
AllRead-left P [] ys h = tt
AllRead-left P (refused kind r ∷ xs) ys h = AllRead-left P xs ys h
AllRead-left P (readable c ∷ xs) ys h = (h.0, AllRead-left P xs ys h.1)

AllRead-right {ℓ} :
    (P : ReadChange → Type ℓ) (xs ys : List DecodedChange) → AllRead P (xs ++ ys) → AllRead P ys
AllRead-right P [] ys h = h
AllRead-right P (refused kind r ∷ xs) ys h = AllRead-right P xs ys h
AllRead-right P (readable c ∷ xs) ys h = AllRead-right P xs ys h.1

run-AllRead-kind :
    (kind : Kind) (run : List DecodedChange)
    → All (HasKind (some kind)) run
    → AllRead (λ c. c.kind ≡ kind) run
unfolding change_kind
run-AllRead-kind kind [] h = tt
run-AllRead-kind kind (refused k r ∷ cs) h = run-AllRead-kind kind cs h.1
run-AllRead-kind kind (readable c ∷ cs) h = (ground (arith, h.0), run-AllRead-kind kind cs h.1)

decide_runs-decide_each :
    (request : PushRequest) (db : Database) (runs : List (List DecodedChange)) (p : Progress)
    → All Uniform runs
    → AllRead IsRead (concat runs)
    → decide_runs request db runs p ≡ ok (decide_each request db (concat runs) p)
unfolding concat decide_runs
decide_runs-decide_each request db [] p u r = unfold decide_each in refl
decide_runs-decide_each request db (run ∷ runs) p u r = elim (Option-cases (run_kind run)) [
  | inl unresolved ↦
      rw
        (
          unresolved,
          decide_runs,
          refuse_run-decide_each request db run p (subst (λ k. All (HasKind k) run) unresolved u.0),
          decide_each-append request db run (concat runs) p,
        )
        (decide_runs-decide_each request db runs _ u.1 (AllRead-right IsRead run (concat runs) r))
  | inr (kind, found) ↦
      let same : AllRead (λ c. c.kind ≡ kind) run =
        run-AllRead-kind kind run (subst (λ k. All (HasKind k) run) found u.0) in
      let (context, read, answers) = read_batch_context_total db request.account_id kind run same in
      rw
        (
          found,
          decide_runs,
          read,
          decide_run-decide_each request context db run p (AllRead-left IsRead run (concat runs) r)
              answers,
          decide_each-append request db run (concat runs) p,
        )
        (decide_runs-decide_each request db runs _ u.1 (AllRead-right IsRead run (concat runs) r))
]

-- The engine's runs, with one batch of queries for each, never fail and decide a push as looking
-- each fact up for each change alone does, in the same order.
pub decide_changes-decide_each :
    (request : PushRequest) (db : Database) (decoded : List DecodedChange)
    → AllRead IsRead decoded
    → decide_changes request db decoded ≡ ok (decide_each request db decoded start)
unfolding decide_changes
decide_changes-decide_each request db decoded r =
    decide_runs-decide_each request db (runs_of decoded) start (runs_of-Uniform decoded)
      (subst (AllRead IsRead) (sym (concat-runs_of decoded)) r)
    ∙ ap (λ l. ok (decide_each request db l start)) (concat-runs_of decoded)
