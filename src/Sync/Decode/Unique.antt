-- ===== src/Sync/Decode/Unique.antt =====
-- decodeChanges reads no entity twice, and loses no element of the push.
use mathlib.Core.List.{Perm}
use mathlib.Core.List.Perm
use vive_cserver.Base.{
  String, str_eq, eq_iff, contains, ◌≡◌, ap, true, false, List, [], ◌∷◌, arith, All, if_cases,
}
use vive_cserver.Sync.Change.{ReadChange, DecodedChange, refused, readable, Codec}
use vive_cserver.Sync.Decode.{
  decode_change, decode_each, sort_changes, insert_change, decode_changes, entity_key,
}
use vive_cserver.Sync.Decode.Read.{IsSound, IfRead, ReadBy, decode_change-ReadBy}

abbrev pub key_text : ReadChange → String
key_text c = entity_key c.kind c.envelope.id

-- Two changes that were read name different entities.
abbrev pub Differs : DecodedChange → DecodedChange → Type 0
Differs (refused k r) e = Unit
Differs (readable c) (refused k r) = Unit
Differs (readable c) (readable e) = str_eq (key_text c) (key_text e) ≡ false

abbrev pub Distinct : List DecodedChange → Type 0
Distinct [] = Unit
Distinct (c ∷ cs) = All (Differs c) cs × Distinct cs

abbrev Unseen : List String → DecodedChange → Type 0
Unseen seen = IfRead (λ c. contains seen (key_text c) ≡ false)

contains-eq : (xs : List String) (s t : String) → str_eq s t ≡ true → contains xs s ≡ contains xs t
contains-eq xs s t h = ap (contains xs) ((eq_iff s t).0 h)

Unseen-before :
    {codec : Codec} {seen after : List String} {d : DecodedChange} (ds : List DecodedChange)
    → ReadBy codec seen after d
    → All (Unseen after) ds
    → All (Unseen seen) ds
Unseen-before [] r h = tt
Unseen-before (refused k x ∷ ds) r h = (tt, Unseen-before ds r h.1)
Unseen-before (readable c ∷ ds) r h =
    (ground (arith, h.0, r.kept (key_text c)), Unseen-before ds r h.1)

Differs-after :
    {codec : Codec} {seen after : List String} (d : DecodedChange) (ds : List DecodedChange)
    → ReadBy codec seen after d
    → All (Unseen after) ds
    → All (Differs d) ds
Differs-after d [] r h = tt
Differs-after (refused k x) (_ ∷ ds) r h = (tt, Differs-after (refused k x) ds r h.1)
Differs-after (readable c) (refused k x ∷ ds) r h = (tt, Differs-after (readable c) ds r h.1)
Differs-after {codec} {seen} {after} (readable c) (readable e ∷ ds) r h = (
  ground (arith, h.0, r.noted, contains-eq after (key_text c) (key_text e)),
  Differs-after (readable c) ds r h.1,
)

decode_each_lem :
    (codec : Codec) (seen raws : List String)
    → All (IfRead (IsSound codec)) (decode_each codec seen raws)
      × All (Unseen seen) (decode_each codec seen raws)
      × Distinct (decode_each codec seen raws)
unfolding decode_each
decode_each_lem codec seen [] = (tt, tt, tt)
decode_each_lem codec seen (raw ∷ raws) =
    let r = decode_change-ReadBy codec seen raw in
    let rest = decode_each_lem codec (decode_change codec seen raw).1 raws in
    ((r.sound, rest.0), (r.fresh, Unseen-before _ r rest.1), (Differs-after _ _ r rest.1, rest.2))

Differs-sym : (c d : DecodedChange) → Differs c d → Differs d c
Differs-sym (refused k r) (refused k' r') h = tt
Differs-sym (refused k r) (readable d) h = tt
Differs-sym (readable c) (refused k r) h = tt
Differs-sym (readable c) (readable d) h =
    ground (arith, h, eq_iff (key_text c) (key_text d), eq_iff (key_text d) (key_text c))

module _ {ℓ} (P : DecodedChange → Type ℓ) where
  All-insert_change :
      (c : DecodedChange) (ds : List DecodedChange) → P c → All P ds → All P (insert_change c ds)
  unfolding insert_change
  All-insert_change c [] p h = (p, tt)
  All-insert_change c (d ∷ ds) p h =
      if_cases (All P) _ {x = c ∷ d ∷ ds} {y = d ∷ insert_change c ds} (p, h)
        (h.0, All-insert_change c ds p h.1)

  All-sort_changes : (ds : List DecodedChange) → All P ds → All P (sort_changes ds)
  unfolding sort_changes
  All-sort_changes [] h = tt
  All-sort_changes (d ∷ ds) h = All-insert_change d (sort_changes ds) h.0 (All-sort_changes ds h.1)

Distinct-insert_change :
    (c : DecodedChange) (ds : List DecodedChange)
    → All (Differs c) ds
    → Distinct ds
    → Distinct (insert_change c ds)
unfolding insert_change
Distinct-insert_change c [] p h = (tt, tt)
Distinct-insert_change c (d ∷ ds) p h =
    if_cases Distinct _ {x = c ∷ d ∷ ds} {y = d ∷ insert_change c ds} (p, h)
      (
        All-insert_change (Differs d) c ds (Differs-sym c d p.0) h.0,
        Distinct-insert_change c ds p.1 h.1,
      )

Distinct-sort_changes : (ds : List DecodedChange) → Distinct ds → Distinct (sort_changes ds)
unfolding sort_changes
Distinct-sort_changes [] h = tt
Distinct-sort_changes (d ∷ ds) h =
    Distinct-insert_change d (sort_changes ds) (All-sort_changes (Differs d) ds h.0)
      (Distinct-sort_changes ds h.1)

-- The order of application is a permutation of the changes of the push.
insert_change-perm :
    (c : DecodedChange) (ds : List DecodedChange) → Perm (insert_change c ds) (c ∷ ds)
unfolding insert_change
insert_change-perm c [] = Perm.refl (c ∷ [])
insert_change-perm c (d ∷ ds) =
    if_cases (λ l. Perm l (c ∷ d ∷ ds)) _ (Perm.refl (c ∷ d ∷ ds))
      (Perm.trans (Perm.cons d (insert_change-perm c ds)) (Perm.swap c d ds))

pub sort_changes-perm : (ds : List DecodedChange) → Perm (sort_changes ds) ds
unfolding sort_changes
sort_changes-perm [] = Perm.refl []
sort_changes-perm (d ∷ ds) =
    Perm.trans (insert_change-perm d (sort_changes ds)) (Perm.cons d (sort_changes-perm ds))

-- Every change of a push that is read, and not refused, is sound (its fields are of its kind and
-- valid, its id and base version acceptable, its digests those it requires), and no two of them name
-- one entity.
pub decode_changes-IsSound :
    (codec : Codec) (raws : List String)
    → All (IfRead (IsSound codec)) (decode_changes codec raws)
      × Distinct (decode_changes codec raws)
unfolding decode_changes
decode_changes-IsSound codec raws =
    let h = decode_each_lem codec [] raws in
    (All-sort_changes (IfRead (IsSound codec)) _ h.0, Distinct-sort_changes _ h.2)
