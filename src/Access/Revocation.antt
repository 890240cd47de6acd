-- ===== src/Access/Revocation.antt =====
-- The endpoint that revokes a device: its tokens, and the stream that it has open.
use vive_cserver.Base.{ℕ, String, ◌≡◌, refl, sym, subst, Bool, some, List, arith}
use vive_cserver.Store.Database.{Database}
use vive_cserver.Changefeed.{Broker, Subscriber, revoked, revoke, find, waiting}
use vive_cserver.Changefeed.Delivery.{publish_each, revoke-waiting}
use vive_cserver.Blob.Upload.{AuthenticatedDevice}
use vive_cserver.Access.Reply.{AccessError, Reply, denied, granted, device_not_found}
use vive_cserver.Access.Credentials.{Texts}
use vive_cserver.Access.Devices.{authenticate_device_token}
use vive_cserver.Access.Endpoints.{no_content}
use vive_cserver.Access.Endpoints.Devices.{ServerState, changed_answer, handle_revoke_device}
use vive_cserver.Access.Revoked.Steps.{DeviceReach}
use vive_cserver.Access.Revoked.Refused.{IsKeyed, NotAs, revoke_device-NotAs}

-- A change that is answered without content has been made.
record Changed (r : Reply {0} Unit × Database) (before after : Broker) : Type 0 where
  made : r.0 ≡ granted tt
  db : (changed_answer r before after).1.db ≡ r.1
  feed : (changed_answer r before after).1.feed ≡ after

not_rejected :
    (e : AccessError) (db : Database) (before after : Broker)
    → ¬ ((changed_answer (denied e, db) before after).0 ≡ no_content)
not_rejected device_not_found db before after h = absurd (ground (arith, h))
not_rejected _ db before after h = absurd (ground (arith, h))

changed_answer-Changed :
    (r : Reply {0} Unit × Database) (before after : Broker)
    → (changed_answer r before after).0 ≡ no_content
    → Changed r before after
changed_answer-Changed (granted u, db) before after h = record {
  made = refl;
  db = refl;
  feed = refl;
}
changed_answer-Changed (denied e, db) before after h = absurd (not_rejected e db before after h)

-- A revocation that is answered without content, of a device whose stream is registered under the
-- same spelling of its id as the request's: the stream finds `revoked`, whatever waited and however
-- many changes are published before it looks, and no token is accepted as the device's until a
-- registration answers with the same device.
pub handle_revoke_device-closes :
    (texts : Texts) (fails : Bool) (caller : AuthenticatedDevice) (device_id id : String) (now : ℕ)
    (state : ServerState) (u : Database) (stream : ℕ) (s : Subscriber)
    (published : List (String × String)) (database_fails touch_fails : Bool) (clock later : ℕ)
    (token_hash : List ℕ)
    → IsKeyed state.db.devices
    → texts.parse_uuid device_id ≡ some id
    → (handle_revoke_device texts fails caller device_id now state).0 ≡ no_content
    → find stream state.feed.subscribers ≡ some s
    → s.account_id ≡ caller.account_id
    → s.device_id ≡ device_id
    → DeviceReach texts.parse_uuid id
        (handle_revoke_device texts fails caller device_id now state).1.db
        u
    → (waiting stream (
          publish_each published
            (handle_revoke_device texts fails caller device_id now state).1.feed)
        ≡ some revoked)
      × NotAs id (authenticate_device_token database_fails touch_fails clock later token_hash u).0
handle_revoke_device-closes texts fails caller device_id id now state u stream s published
      database_fails touch_fails clock later token_hash keyed parsed h subscribed owner spelled
      reach =
    let changed =
      changed_answer-Changed _ state.feed (revoke caller.account_id device_id state.feed) h in
    (
      subst (λ feed. waiting stream (publish_each published feed) ≡ some revoked) (sym changed.feed)
          (revoke-waiting caller.account_id device_id state.feed stream s published subscribed owner
            spelled),
      revoke_device-NotAs texts.parse_uuid fails caller.account_id device_id id now state.db u
          database_fails touch_fails clock later token_hash keyed parsed changed.made
          (subst (λ db. DeviceReach texts.parse_uuid id db u) changed.db reach),
    )
