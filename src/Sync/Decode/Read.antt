-- ===== src/Sync/Decode/Read.antt =====
-- What decodeChange ensures of a change that it does not refuse.
use vive_cserver.Base.{
  String, str_eq_refl, contains, ◌≡◌, refl, true, false, Option, none, List, ◌∷◌, arith, Bool-cases,
  Option-cases, inl, inr,
}
use vive_cserver.Base.Int.{is_negative}
use vive_cserver.Sync.Kind.{Kind, sync_kind_by_name}
use vive_cserver.Sync.Text.{validate_entity_id}
use vive_cserver.Sync.Fields.{kind_of}
use vive_cserver.Sync.Fields.Validate.{validate}
use vive_cserver.Sync.Change.{
  ReadChange, DecodedChange, refused, readable, Codec, WireEnvelope, RejectedChange,
}
use vive_cserver.Sync.Decode.{decode_fields, decode_change, entity_key}
use vive_cserver.Sync.Engine.Answers.{IsRead}

-- A change that was read: its fields are of its kind and valid, its id and its version are
-- acceptable, and its digests are those that it requires.
pub record IsSound (codec : Codec) (c : ReadChange) : Type 0 where
  pub read : IsRead c
  pub kind : kind_of c.fields ≡ c.kind
  pub fields_valid : validate codec.encoders.sha256 c.fields ≡ none
  pub id_valid : validate_entity_id c.envelope.id ≡ none
  pub base : is_negative c.base_version ≡ false

-- `P` holds of the change, if it was read.
abbrev pub IfRead {ℓ} : (ReadChange → Type ℓ) → DecodedChange → Type ℓ
IfRead P (refused kind r) = Unit
IfRead P (readable c) = P c

module _ (codec : Codec) (raw : String) (envelope : WireEnvelope) (kind : Kind) where
  decode_fields-IsSound :
      validate_entity_id envelope.id ≡ none
      → is_negative envelope.base_version ≡ false
      → (c : ReadChange) → decode_fields codec raw envelope kind ≡ readable c
      → IsSound codec c
  unfolding decode_fields
  decode_fields-IsSound valid base c h =
      ground (arith, h, valid, base, codec.unmarshal_fields_kind kind raw c.fields)

-- What decode_change ensures, with the keys of the changes that were read before it.
pub record ReadBy (codec : Codec) (seen after : List String) (decoded : DecodedChange)
    : Type 0 where
  pub sound : IfRead (IsSound codec) decoded
  pub fresh : IfRead (λ c. contains seen (entity_key c.kind c.envelope.id) ≡ false) decoded
  pub noted : IfRead (λ c. contains after (entity_key c.kind c.envelope.id) ≡ true) decoded
  pub kept : (k : String) → contains seen k ≡ true → contains after k ≡ true

IfRead-intro {ℓ} :
    (P : ReadChange → Type ℓ) (d : DecodedChange)
    → ((c : ReadChange) → d ≡ readable c → P c)
    → IfRead P d
IfRead-intro P (refused kind r) h = tt
IfRead-intro P (readable c) h = h c refl

decode_fields-entity :
    (codec : Codec) (raw : String) (envelope : WireEnvelope) (kind : Kind) (c : ReadChange)
    → decode_fields codec raw envelope kind ≡ readable c
    → (c.kind ≡ kind) × (c.envelope.id ≡ envelope.id)
unfolding decode_fields
decode_fields-entity codec raw envelope kind c h = ground (arith, h)

refused-ReadBy :
    (codec : Codec) (seen : List String) (kind : Option Kind) (r : RejectedChange)
    → ReadBy codec seen seen (refused kind r)
refused-ReadBy codec seen kind r = record { sound = tt; fresh = tt; noted = tt; kept = λ k h. h }

fields-ReadBy :
    (codec : Codec) (seen : List String) (raw : String) (envelope : WireEnvelope) (kind : Kind)
    → validate_entity_id envelope.id ≡ none
    → is_negative envelope.base_version ≡ false
    → contains seen (entity_key kind envelope.id) ≡ false
    → ReadBy codec seen (entity_key kind envelope.id ∷ seen) (decode_fields codec raw envelope kind)
fields-ReadBy codec seen raw envelope kind valid base new = record {
  sound = IfRead-intro (IsSound codec) _ (decode_fields-IsSound codec raw envelope kind valid base);
  fresh =
      IfRead-intro (λ c. contains seen (entity_key c.kind c.envelope.id) ≡ false) _
        (λ c h. let e = decode_fields-entity codec raw envelope kind c h in rw (e.0, e.1) new);
  noted =
      IfRead-intro
        (λ c.
          contains (entity_key kind envelope.id ∷ seen) (entity_key c.kind c.envelope.id) ≡ true)
        _
        (λ c h.
          let e = decode_fields-entity codec raw envelope kind c h in
          rw (e.0, e.1) (ground (arith, str_eq_refl (entity_key kind envelope.id))));
  kept = λ k h. ground (arith, h);
}

pub decode_change-ReadBy :
    (codec : Codec) (seen : List String) (raw : String)
    → ReadBy codec seen (decode_change codec seen raw).1 (decode_change codec seen raw).0
unfolding decode_change
decode_change-ReadBy codec seen raw = elim (Option-cases (codec.unmarshal_envelope raw)) [
  | inl e ↦ rw (e, decode_change) (refused-ReadBy codec seen _ _)
  | inr (envelope, e) ↦ elim (Option-cases (sync_kind_by_name envelope.kind)) [
    | inl k ↦ rw (e, k, decode_change) (refused-ReadBy codec seen _ _)
    | inr (kind, k) ↦ elim (Option-cases (validate_entity_id envelope.id)) [
      | inr (failure, v) ↦ rw (e, k, v, decode_change) (refused-ReadBy codec seen _ _)
      | inl v ↦ elim (Bool-cases (is_negative envelope.base_version)) [
        | inl b ↦ rw (e, k, v, b, decode_change) (refused-ReadBy codec seen _ _)
        | inr b ↦ elim (Bool-cases (contains seen (entity_key kind envelope.id))) [
          | inl d ↦ rw (e, k, v, b, d, decode_change) (refused-ReadBy codec seen _ _)
          | inr d ↦
              rw (e, k, v, b, d, decode_change) (fields-ReadBy codec seen raw envelope kind v b d)
        ]
      ]
    ]
  ]
]
