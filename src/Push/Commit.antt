-- ===== src/Push/Commit.antt =====
-- What storing the pending writes of a push does to the tables, and the errors that can end it.
use vive_cserver.Base.{
  ℕ, ◌+◌, String, str_eq, ◌≡◌, refl, ap, ◌∙◌, ◌⊎◌, inl, inr, true, false, some, List, [], ◌∷◌,
  arith, if◌then◌else◌, Bool-cases, Option-cases, All, map, ltb, string_eq,
}
use vive_cserver.Base.Int.{max_int64}
use vive_cserver.Base.Table.{lookup, put, lookup-put}
use vive_cserver.Sync.Kind.{RowKey}
use vive_cserver.Store.Database.{Database, AccountRow, row_key_eq, row_key_equality}
use vive_cserver.Store.Outcome.{StoreError, ok, failed, account_not_found, sequence_out_of_range}
use vive_cserver.Store.Sequence.{allocate_change_seq, read_change_seq}
use vive_cserver.Store.Write.{PendingWrite, key_of}
use vive_cserver.Sync.Change.{Codec}
use vive_cserver.Sync.Engine.{Stored, stamp, store_writes, has_writes}
use vive_cserver.Sync.Engine.Pending.{DistinctWrites}
use vive_cserver.Push.Writes.{
  written, auxiliaries, GuardedWrite, is_foreseen, write_changes_guarded,
}

-- What the push of `pending` has made of `db`, with `cursor` as its sequence value.
pub record StoreEffect (codec : Codec) (account_id : String) (pending : List PendingWrite)
    (db : Database) (cursor : ℕ) (after : Database) : Type 0 where
  pub rows :
      (key : RowKey)
      → lookup key after.rows
        ≡ written codec.encoders (map (stamp cursor) pending) key (lookup key db.rows)
  pub refs : after.page_blob_refs ≡ auxiliaries (map (stamp cursor) pending) db.page_blob_refs
  pub account : AccountRow
  pub account_found : lookup account_id db.accounts ≡ some account
  pub cursor_next : cursor ≡ account.change_seq + (if has_writes pending then 1 else 0)
  pub accounts :
      (id : String)
      → lookup id after.accounts ≡ (
          if str_eq account_id id
          then some (record account { change_seq = cursor })
          else lookup id db.accounts)
  pub blobs : after.blobs ≡ db.blobs
  pub purges : after.purges ≡ db.purges
  pub devices : after.devices ≡ db.devices

abbrev pub StoredOrForeseen : Codec → String → List PendingWrite → Database → Type 0
StoredOrForeseen codec account_id ws db =
    ((s : Stored) × (store_writes codec account_id ws db ≡ ok s)
      × StoreEffect codec account_id ws db s.cursor s.after
      × (s.after.applied_batches ≡ db.applied_batches))
    ⊎ ((e : StoreError) × (store_writes codec account_id ws db ≡ failed e) × (is_foreseen e ≡ true))

Guarded-stamp :
    (seq : ℕ) (db : Database) (ws : List PendingWrite)
    → All (GuardedWrite db.rows) ws
    → All (GuardedWrite db.rows) (map (stamp seq) ws)
Guarded-stamp seq db [] g = tt
Guarded-stamp seq db (w ∷ ws) g = (g.0, Guarded-stamp seq db ws g.1)

differs-stamp :
    (seq : ℕ) (w : PendingWrite) (ws : List PendingWrite)
    → All (λ v. row_key_eq (key_of w) (key_of v) ≡ false) ws
    → All (λ v. row_key_eq (key_of (stamp seq w)) (key_of v) ≡ false) (map (stamp seq) ws)
differs-stamp seq w [] d = tt
differs-stamp seq w (v ∷ ws) d = (d.0, differs-stamp seq w ws d.1)

DistinctWrites-stamp :
    (seq : ℕ) (ws : List PendingWrite) → DistinctWrites ws → DistinctWrites (map (stamp seq) ws)
DistinctWrites-stamp seq [] d = tt
DistinctWrites-stamp seq (w ∷ ws) d = (differs-stamp seq w ws d.0, DistinctWrites-stamp seq ws d.1)

nothing_stored :
    (codec : Codec) (account_id : String) (db : Database) (account : AccountRow)
    → lookup account_id db.accounts ≡ some account
    → StoreEffect codec account_id [] db account.change_seq db
nothing_stored codec account_id db account found = record {
  rows = λ key. refl;
  refs = refl;
  account = account;
  account_found = found;
  cursor_next = ground arith;
  accounts = λ id. ground (arith, found, string_eq.beq_iff account_id id);
  blobs = refl;
  purges = refl;
  devices = refl;
}

allocate_found :
    (account_id : String) (db : Database) (account : AccountRow)
    → lookup account_id db.accounts ≡ some account
    → ltb account.change_seq max_int64 ≡ true
    → allocate_change_seq account_id db
      ≡ ok (
        account.change_seq + 1,
        record db {
          accounts =
              put account_id (record account { change_seq = account.change_seq + 1 }) db.accounts;
        },
      )
unfolding allocate_change_seq
allocate_found account_id db account found h = rw (found, h, allocate_change_seq) refl

store_nonempty :
    (codec : Codec) (account_id : String) (w : PendingWrite) (ws : List PendingWrite)
    (db : Database)
    → All (GuardedWrite db.rows) (w ∷ ws)
    → DistinctWrites (w ∷ ws)
    → (account : AccountRow) → lookup account_id db.accounts ≡ some account
    → ltb account.change_seq max_int64 ≡ true
    → StoredOrForeseen codec account_id (w ∷ ws) db
unfolding store_writes
store_nonempty codec account_id w ws db g d account found h =
    let seq : ℕ = account.change_seq + 1 in
    let allocated : Database = record db {
      accounts = put account_id (record account { change_seq = seq }) db.accounts;
    } in
    let e = allocate_found account_id db account found h in
    elim (write_changes_guarded codec.encoders (map (stamp seq) (w ∷ ws)) allocated
      (Guarded-stamp seq db (w ∷ ws) g) (DistinctWrites-stamp seq (w ∷ ws) d)) [
        | inr (error, r, f) ↦ inr (error, rw (e, r) refl, f)
        | inl (after, r, by) ↦ inl (
          record { cursor = seq; after = after },
          rw (e, r) refl,
          record {
            rows = by.rows;
            refs = by.refs;
            account = account;
            account_found = found;
            cursor_next = ground arith;
            accounts = λ id. ap (lookup id) by.accounts ∙ lookup-put account_id id _ db.accounts;
            blobs = by.blobs;
            purges = by.purges;
            devices = by.devices;
          },
          by.applied_batches,
        )
      ]

pub store_writes_guarded :
    (codec : Codec) (account_id : String) (ws : List PendingWrite) (db : Database)
    → All (GuardedWrite db.rows) ws
    → DistinctWrites ws
    → StoredOrForeseen codec account_id ws db
unfolding store_writes read_change_seq allocate_change_seq
store_writes_guarded codec account_id [] db g d =
    elim (Option-cases (lookup account_id db.accounts)) [
      | inl e ↦ inr (account_not_found, rw (e, store_writes, read_change_seq) refl, refl)
      | inr (account, e) ↦ inl (
        record { cursor = account.change_seq; after = db },
        rw (e, store_writes, read_change_seq) refl,
        nothing_stored codec account_id db account e,
        refl,
      )
    ]
store_writes_guarded codec account_id (w ∷ ws) db g d =
    elim (Option-cases (lookup account_id db.accounts)) [
      | inl e ↦ inr (account_not_found, rw (e, store_writes, allocate_change_seq) refl, refl)
      | inr (account, e) ↦ elim (Bool-cases (ltb account.change_seq max_int64)) [
        | inl h ↦ store_nonempty codec account_id w ws db g d account e h
        | inr h ↦
            inr (sequence_out_of_range, rw (e, h, store_writes, allocate_change_seq) refl, refl)
      ]
    ]
