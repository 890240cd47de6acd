-- ===== src/Tests/Hints.antt =====
-- The theorems on the change feed at a concrete broker.
use vive_cserver.Base.{◌≡◌, refl, none, some, [], ◌∷◌}
use vive_cserver.Changefeed.{
  changes, revoked, Subscriber, Broker, revoke, disconnect, find, waiting,
}
use vive_cserver.Changefeed.Delivery.{
  publish_each, publish_each-waiting, revoke-waiting, disconnect-isolated,
}

abbrev tablet : Subscriber
tablet = record { token = 0; account_id = "ada"; device_id = "tablet"; events = some changes }

abbrev phone : Subscriber
phone = record { token = 1; account_id = "ada"; device_id = "phone"; events = none }

abbrev broker : Broker
broker = record { subscribers = tablet ∷ phone ∷ []; next_token = 2 }

publish_example :
    waiting 1 (publish_each (("bob", "") ∷ ("ada", "tablet") ∷ ("ada", "tablet") ∷ []) broker)
    ≡ some changes
unfolding find
publish_example =
    publish_each-waiting (("bob", "") ∷ ("ada", "tablet") ∷ ("ada", "tablet") ∷ []) broker 1 phone
      refl

revoke_example :
    waiting 0 (publish_each (("ada", "") ∷ []) (revoke "ada" "tablet" broker)) ≡ some revoked
unfolding find
revoke_example = revoke-waiting "ada" "tablet" broker 0 tablet (("ada", "") ∷ []) refl refl refl

disconnect_example : waiting 1 (disconnect "ada" "tablet" broker) ≡ waiting 1 broker
unfolding find
disconnect_example = disconnect-isolated "ada" "tablet" broker 1 phone refl refl
