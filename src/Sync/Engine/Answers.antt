-- ===== src/Sync/Engine/Answers.antt =====
-- What a batch of queries must tell about a change, and that readBatchContext asks for it.
use vive_cserver.Base.{
  String, str_eq, eq_iff, str_eq_refl, contains, contains-append, ◌≡◌, true, false, none, List, [],
  ◌∷◌, arith, Bool-cases, inl, inr, string_eq,
}
use vive_cserver.Base.Table.{lookup}
use vive_cserver.Sync.Kind.{parent_kind}
use vive_cserver.Sync.Fields.{parent_id}
use vive_cserver.Sync.Fields.Blobs.{digests, required_blob_digests}
use vive_cserver.Store.Database.{Database}
use vive_cserver.Store.Context.{ChangeContext}
use vive_cserver.Sync.Change.{ReadChange, DecodedChange, refused, readable}
use vive_cserver.Sync.Engine.Run.{entity_ids, parent_ids, add_digests, required_digests}
use vive_cserver.Sync.Engine.Reference.{parent_stored, is_purged, held, current_now}

-- What the reading of a change leaves behind: its digests are those that its fields require.
abbrev pub IsRead : ReadChange → Type 0
IsRead c = required_blob_digests c.fields c.envelope.id ≡ digests c.required_blobs

-- A context answers about a change as the tables do.
pub record Answers (context : ChangeContext) (db : Database) (account_id : String) (c : ReadChange)
    : Type 0 where
  pub current : lookup c.envelope.id context.current_by_id ≡ current_now db account_id c
  pub parent :
      str_eq (parent_kind c.kind) "" ≡ false
      → contains context.existing_parent_ids (parent_id c.fields) ≡ parent_stored db account_id c
  pub gone : contains context.purged_ids c.envelope.id ≡ is_purged db account_id c
  pub blob :
      (digest : String)
      → c.envelope.deleted_at ≡ none
      → contains c.required_blobs digest ≡ true
      → lookup digest context.stored_blobs ≡ held db account_id digest

-- `P` holds of every change that survived the reading.
abbrev pub AllRead {ℓ} : (ReadChange → Type ℓ) → List DecodedChange → Type ℓ
AllRead P [] = Unit
AllRead P (refused kind r ∷ cs) = AllRead P cs
AllRead P (readable c ∷ cs) = P c × AllRead P cs

pub AllRead-mono {ℓ κ} :
    {P : ReadChange → Type ℓ} {Q : ReadChange → Type κ} (cs : List DecodedChange)
    → ((c : ReadChange) → P c → Q c)
    → AllRead P cs
    → AllRead Q cs
AllRead-mono [] f h = tt
AllRead-mono (refused kind r ∷ cs) f h = AllRead-mono cs f h
AllRead-mono (readable c ∷ cs) f h = (f c h.0, AllRead-mono cs f h.1)

pub AllRead-zip {ℓ κ μ} :
    (P : ReadChange → Type ℓ) (Q : ReadChange → Type κ) {R : ReadChange → Type μ}
    (cs : List DecodedChange)
    → ((c : ReadChange) → P c → Q c → R c)
    → AllRead P cs
    → AllRead Q cs
    → AllRead R cs
AllRead-zip P Q [] f p q = tt
AllRead-zip P Q (refused kind r ∷ cs) f p q = AllRead-zip P Q cs f p q
AllRead-zip P Q (readable c ∷ cs) f p q = (f c p.0 q.0, AllRead-zip P Q cs f p.1 q.1)

-- The queries ask for a change's id, its parent and its digests.
pub record IsAsked (ids parents ds : List String) (c : ReadChange) : Type 0 where
  pub id : contains ids c.envelope.id ≡ true
  pub parent : contains parents (parent_id c.fields) ≡ true
  pub digest :
      (d : String)
      → c.envelope.deleted_at ≡ none
      → contains c.required_blobs d ≡ true
      → contains ds d ≡ true

add_digests-keeps :
    (more seen : List String) (d : String)
    → contains seen d ≡ true
    → contains (add_digests more seen) d ≡ true
unfolding add_digests
add_digests-keeps [] seen d h = h
add_digests-keeps (m ∷ ms) seen d h =
    add_digests-keeps ms _ d (ground (arith, h, contains-append seen (m ∷ []) d))

add_digests-adds :
    (more seen : List String) (d : String)
    → contains more d ≡ true
    → contains (add_digests more seen) d ≡ true
unfolding add_digests
add_digests-adds [] seen d h = cc
add_digests-adds (m ∷ ms) seen d h = elim (Bool-cases (str_eq m d)) [
  | inl here ↦
      add_digests-keeps ms _ d
        (ground (arith, eq_iff m d, contains-append seen (m ∷ []) d, str_eq_refl d))
  | inr there ↦ add_digests-adds ms _ d (ground (arith, h, there))
]

required_digests-keeps :
    (run : List DecodedChange) (seen : List String) (d : String)
    → contains seen d ≡ true
    → contains (required_digests run seen) d ≡ true
unfolding required_digests
required_digests-keeps [] seen d h = h
required_digests-keeps (refused kind r ∷ cs) seen d h = required_digests-keeps cs seen d h
required_digests-keeps (readable c ∷ cs) seen d h =
    required_digests-keeps cs _ d (ground (arith, add_digests-keeps c.required_blobs seen d h))

pub run-IsAsked :
    (run : List DecodedChange) (seen : List String)
    → AllRead (IsAsked (entity_ids run) (parent_ids run) (required_digests run seen)) run
unfolding entity_ids parent_ids required_digests
run-IsAsked [] seen = tt
run-IsAsked (refused kind r ∷ cs) seen = run-IsAsked cs seen
run-IsAsked (readable c ∷ cs) seen = (
  record {
    id = ground (arith, str_eq_refl c.envelope.id);
    parent = ground (arith, str_eq_refl (parent_id c.fields));
    digest = λ d live h.
        required_digests-keeps cs _ d
          (ground (arith, live, add_digests-adds c.required_blobs seen d h));
  },
  AllRead-mono cs
      (λ e a. record {
        id = ground (arith, a.id);
        parent = ground (arith, a.parent);
        digest = a.digest;
      })
      (run-IsAsked cs _),
)
