-- ===== src/Sync/Engine/Loop.antt =====
-- The loop over the changes keeps the invariant of the pending writes.
use vive_cserver.Base.{
  str_eq, eq_iff, ◌≡◌, refl, ap, sym, subst, ◌∙◌, ◌⊎◌, inl, inr, true, false, some, List, [], ◌∷◌,
  ◌++◌, arith, Option-cases, Bool-cases, All, All-append, map-append,
}
use vive_cserver.Sync.Kind
use vive_cserver.Sync.Kind.{Kind, RowKey, parent_kind}
use vive_cserver.Sync.Fields.{parent_id}
use vive_cserver.Base.Table.{lookup}
use vive_cserver.Store.Database.{
  Database, row_key_eq, row_key_eq_iff, row_key_equality, purge_key_equality,
}
use vive_cserver.Store.Write.{PendingWrite, key_of}
use vive_cserver.Store.Context.Lookup.{is_some}
use vive_cserver.Sync.Change.{ReadChange, DecodedChange, refused, readable, RejectedChange, Codec}
use vive_cserver.Sync.Decode.{entity_key, decode_changes}
use vive_cserver.Sync.Decode.Read.{IsSound, IfRead}
use vive_cserver.Sync.Decode.Unique.{Distinct, Differs, key_text, decode_changes-IsSound}
use vive_cserver.Sync.Engine.Checks.{PushRequest, Verdict, reject, accept}
use vive_cserver.Sync.Engine.Run.{Progress, start, settle}
use vive_cserver.Sync.Engine.Reference.{
  entity_key_of, parent_stored, is_purged, decide_now, decide_each,
}
use vive_cserver.Sync.Engine.References.{RefsHeld, write_of-RefsHeld}
use vive_cserver.Sync.Engine.Accept.{
  IsAccepted, decide_now-IsAccepted, accepted-not-purged, accepted-HasParent, accepted-Guarded,
  IsWriteOf, write_of-IsWriteOf,
}
use vive_cserver.Sync.Engine.Pending.{
  IsReady, IsGood, writes_entity-append, ParentKnown, ParentKnown-append, DistinctWrites-append,
  applied_of, Ahead, All-map,
}

Verdict-cases :
    (v : Verdict) → ((r : RejectedChange) × (v ≡ reject r)) ⊎ ((w : PendingWrite) × (v ≡ accept w))
Verdict-cases (reject r) = inl (r, refl)
Verdict-cases (accept w) = inr (w, refl)

differs_absurd :
    (c e : ReadChange) → str_eq (key_text c) (key_text e) ≡ false → key_text c ≡ key_text e → ⊥
differs_absurd c e h k = ground (arith, h, (eq_iff (key_text c) (key_text e)).1 k)

start-IsGood : (request : PushRequest) (db : Database) → IsGood request db start
start-IsGood request db = record {
  ready = tt;
  distinct = tt;
  parents = tt;
  accepted = λ kind id. refl;
  applied = refl;
}

module _ (request : PushRequest) (db : Database) where
  settle_reject-IsGood :
      (p : Progress) (r : RejectedChange)
      → IsGood request db p
      → IsGood request db (settle p (reject r))
  unfolding settle
  settle_reject-IsGood p r g = record {
    ready = g.ready;
    distinct = g.distinct;
    parents = g.parents;
    accepted = g.accepted;
    applied = g.applied;
  }

  settle_accept-IsGood :
      (p : Progress) (w : PendingWrite)
      → IsGood request db p
      → IsReady request db w
      → ParentKnown request db p.pending w
      → All (λ v. row_key_eq (key_of v) (key_of w) ≡ false) p.pending
      → IsGood request db (settle p (accept w))
  unfolding settle
  settle_accept-IsGood p w g ready parent fresh = record {
    ready = All-append (IsReady request db) p.pending (w ∷ []) g.ready (ready, tt);
    distinct = DistinctWrites-append p.pending w g.distinct fresh;
    parents =
        All-append (ParentKnown request db (p.pending ++ w ∷ [])) p.pending (w ∷ [])
          (All-map p.pending (λ v. ParentKnown-append request db p.pending w v) g.parents)
          (ParentKnown-append request db p.pending w w parent, tt);
    accepted =
        λ kind id. ground (arith, g.accepted kind id, writes_entity-append p.pending w kind id);
    applied =
        ap (λ l. l ++ applied_of w ∷ []) g.applied ∙ sym (map-append applied_of p.pending (w ∷ []));
  }

  differs-keys :
      (c e : ReadChange)
      → str_eq (key_text c) (key_text e) ≡ false
      → row_key_eq (entity_key_of request.account_id c) (entity_key_of request.account_id e) ≡ false
  differs-keys c e h =
      elim (Bool-cases
        (row_key_eq (entity_key_of request.account_id c) (entity_key_of request.account_id e))) [
          | inr other ↦ other
          | inl same ↦
              let k =
                (row_key_eq_iff (entity_key_of request.account_id c)
                    (entity_key_of request.account_id e)).0
                  same in
              absurd (differs_absurd c e h (ap (λ (x : RowKey). entity_key x.kind x.id) k))
        ]

  module _ (codec : Codec) (p : Progress) (c : ReadChange) (w : PendingWrite)
      (sound : IsSound codec c) (a : IsAccepted request db p.accepted c w) where
    write : IsWriteOf request c w
    write = subst (IsWriteOf request c) (sym a.write) (write_of-IsWriteOf request _ c)

    write_kind : w.kind ≡ c.kind
    write_kind = ap (λ (k : RowKey). k.kind) write.key

    write_id : w.envelope.id ≡ c.envelope.id
    write_id = ap (λ (k : RowKey). k.id) write.key

    accepted-IsReady : IsReady request db w
    unfolding is_purged
    accepted-IsReady = record {
      guarded = rw (write.key, write.base) (accepted-Guarded db request.account_id c a.version);
      account = ap (λ (k : RowKey). k.account_id) write.key;
      version = rw (write.base) write.version;
      refs_held =
          subst (RefsHeld db request.account_id) (sym a.write)
            (write_of-RefsHeld request _ c db sound.read a.blobs);
      kind = write.fields_kind ∙ sound.kind ∙ sym write_kind;
      not_purged = rw (write_kind, write_id) (accepted-not-purged request db p.accepted c a.live);
    }

    stored_parent :
        parent_stored db request.account_id c ≡ true
        → (q : Kind) × (Kind.sync_kind_by_name (parent_kind c.kind) ≡ some q)
          × (is_some (
                lookup
                  (record { account_id = request.account_id; kind = q; id = parent_id c.fields })
                  db.rows)
              ≡ true)
    unfolding parent_stored
    stored_parent h = elim (Option-cases (Kind.sync_kind_by_name (parent_kind c.kind))) [
      | inl e ↦ absurd (ground (arith, h, e))
      | inr (q, e) ↦ (q, e, ground (arith, h, e))
    ]

    accepted-ParentKnown : IsGood request db p → ParentKnown request db p.pending w
    accepted-ParentKnown g = elim (accepted-HasParent request db p.accepted c a.parent) [
      | inl root ↦ inl (rw write_kind root)
      | inr (inl stored) ↦
          inr
            (inl (let (q, e, h) = stored_parent stored in (q, rw write_kind e, rw write.parent h)))
      | inr (inr pending) ↦ inr (
          inr (
            rw (write_kind, write.parent)
              (ground (arith, pending, g.accepted (parent_kind c.kind) (parent_id c.fields)))))
    ]

  Differs-Ahead :
      (c : ReadChange) (w : PendingWrite)
      → key_of w ≡ entity_key_of request.account_id c
      → (cs : List DecodedChange) → All (Differs (readable c)) cs
      → Ahead request cs w
  Differs-Ahead c w k [] h = tt
  Differs-Ahead c w k (refused q r ∷ cs) h = (tt, Differs-Ahead c w k cs h.1)
  Differs-Ahead c w k (readable e ∷ cs) h = (
    subst (λ x. row_key_eq x (entity_key_of request.account_id e) ≡ false) (sym k)
        (differs-keys c e h.0),
    Differs-Ahead c w k cs h.1,
  )

  decide_each-IsGood :
      (codec : Codec) (cs : List DecodedChange) (p : Progress)
      → All (IfRead (IsSound codec)) cs
      → Distinct cs
      → IsGood request db p
      → All (Ahead request cs) p.pending
      → IsGood request db (decide_each request db cs p)
  unfolding decide_each
  decide_each-IsGood codec [] p s d g f = g
  decide_each-IsGood codec (refused k r ∷ cs) p s d g f =
      decide_each-IsGood codec cs (settle p (reject r)) s.1 d.1 (settle_reject-IsGood p r g)
        (unfold settle in All-map p.pending (λ v h. h.1) f)
  decide_each-IsGood codec (readable c ∷ cs) p s d g f =
      elim (Verdict-cases (decide_now request db p.accepted c)) [
        | inl (r, e) ↦ rw e (
            decide_each-IsGood codec cs (settle p (reject r)) s.1 d.1 (settle_reject-IsGood p r g)
              (unfold settle in All-map p.pending (λ v h. h.1) f))
        | inr (w, e) ↦
            let a = decide_now-IsAccepted request db p.accepted c w e in
            rw e (
              decide_each-IsGood codec cs (settle p (accept w)) s.1 d.1
                (settle_accept-IsGood p w g (accepted-IsReady codec p c w s.0 a)
                  (accepted-ParentKnown codec p c w s.0 a g)
                  (All-map p.pending
                    (λ v h.
                      subst (λ x. row_key_eq (key_of v) x ≡ false)
                        (sym (write codec p c w s.0 a).key) h.0)
                    f))
                (unfold settle in
                  All-append (Ahead request cs) p.pending (w ∷ [])
                    (All-map p.pending (λ v h. h.1) f)
                    (Differs-Ahead c w (write codec p c w s.0 a).key cs d.0, tt)))
      ]

-- The progress of a whole push is good.
pub decide_all-IsGood :
    (codec : Codec) (request : PushRequest) (db : Database)
    → IsGood request db (decide_each request db (decode_changes codec request.changes) start)
decide_all-IsGood codec request db =
    let h = decode_changes-IsSound codec request.changes in
    decide_each-IsGood request db codec (decode_changes codec request.changes) start h.0 h.1
      (start-IsGood request db) tt
