-- ===== src/Push/Accounting.antt =====
-- Every change of a push is answered once: as applied or as rejected, under its id.
use vive_cserver.Base.{
  ℕ, ◌+◌, String, str_eq, ◌≡◌, Option, none, some, List, [], ◌∷◌, if◌then◌else◌,
}
use vive_cserver.Sync.Kind
use vive_cserver.Sync.Kind.{Kind}
use vive_cserver.Sync.Object.{Object}
use vive_cserver.Store.Database.{Database}
use vive_cserver.Store.Outcome.{ok}
use vive_cserver.Sync.Change.{
  AppliedChange, RejectedChange, ReadChange, DecodedChange, refused, readable, Codec,
}
use vive_cserver.Sync.Decode.{decode_each, decode_changes}
use vive_cserver.Sync.Engine.{PushAnswer}
use vive_cserver.Sync.Engine.Checks.{PushRequest, Verdict, reject, accept}
use vive_cserver.Sync.Engine.Run.{Progress, decide_changes}

-- how often an id stands in a list
abbrev pub count_of : String → List String → ℕ
count_of id [] = 0
count_of id (x ∷ xs) = (if str_eq x id then 1 else 0) + count_of id xs

abbrev applied_ids : List AppliedChange → List String
applied_ids [] = []
applied_ids (x ∷ xs) = x.id ∷ applied_ids xs

abbrev rejected_ids : List RejectedChange → List String
rejected_ids [] = []
rejected_ids (x ∷ xs) = x.id ∷ rejected_ids xs

-- how many answers name the id
abbrev pub answers_to : String → List AppliedChange → List RejectedChange → ℕ
answers_to id applied rejected =
    count_of id (applied_ids applied) + count_of id (rejected_ids rejected)

abbrev id_of : DecodedChange → String
id_of (refused kind r) = r.id
id_of (readable c) = c.envelope.id

abbrev ids_of : List DecodedChange → List String
ids_of [] = []
ids_of (c ∷ cs) = id_of c ∷ ids_of cs

-- how many of the changes, as they are read, name the id
abbrev pub changes_to : String → Codec → List String → ℕ
changes_to id codec raws = count_of id (ids_of (decode_each codec [] raws))

abbrev verdict_id : Verdict → String
verdict_id (reject r) = r.id
verdict_id (accept w) = w.envelope.id

-- A refusal names the change that it refuses.
data Names (id : String) : Option RejectedChange → Type 0 where
  nothing_refused : Names id none
  refused_own : (r : RejectedChange) → r.id ≡ id → Names id (some r)

module _ (request : PushRequest) (db : Database) (c : ReadChange) where
  abbrev account_id : String
  account_id = request.account_id

  abbrev Own : Option RejectedChange → Type 0
  Own = Names c.envelope.id

module _ (id : String) where
  abbrev here : String → ℕ
  here x = if str_eq x id then 1 else 0

  abbrev answered : Progress → ℕ
  answered p = answers_to id p.applied p.rejected

-- The response is the encoding of what the engine decided, which answers each id as often as the
-- push changes it.
abbrev pub IsAnswered : Codec → PushRequest → Database → PushAnswer → String → Type 0
IsAnswered codec request db answer id =
    (progress : Progress) × (cursor : ℕ) × (decide_changes request db
        (decode_changes codec request.changes)
      ≡ ok progress)
    × (codec.marshal_result
          (record { applied = progress.applied; rejected = progress.rejected; cursor = cursor })
        ≡ some answer.response)
    × (answers_to id progress.applied progress.rejected ≡ changes_to id codec request.changes)
