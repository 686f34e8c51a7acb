-- ===== src/Repositories/Deliveries.antt =====
-- src/repositories/vk_notification_delivery.py on the table of
-- src/models/vk_notification_delivery.py.
pub mod Rows
pub mod Effects
pub mod Marks
use eq_site_cms_vk_service.Shared.{
  ℕ, ℤ, Bool, true, false, not, ◌&&◌, Option, none, some, List, [], ◌∷◌, any, select, update_where,
  take, map, leb, ◌==◌, ◌+◌, if◌then◌else◌, suc,
}
use eq_site_cms_vk_service.Text.{Text}
use eq_site_cms_vk_service.Errors.{integrity_error, data_error}
use eq_site_cms_vk_service.Db.{Uuid, DateTime, VkNotificationDelivery, DeliveryStatus}
use eq_site_cms_vk_service.Exec.{
  Exec, pure, lift, gets, modify, check, now, server_now, new_uuid, ◌>>=◌, ◌>>◌,
}
use eq_site_cms_vk_service.Repositories.Query.{one, one_or_none}

-- The row of an event and a recipient.
unfoldable pub is_delivery : Uuid → Uuid → VkNotificationDelivery → Bool
is_delivery event_uuid user_id r = r.event_uuid == event_uuid && r.user_id == user_id

abbrev pub is_sent : DeliveryStatus → Bool
is_sent DeliveryStatus.sent = true
is_sent _ = false

-- The row that a first attempt inserts, and the row that a later one writes in place of `r`.
abbrev pub first_attempt : Uuid → Uuid → ℤ → DateTime → Uuid → DateTime → VkNotificationDelivery
first_attempt event_uuid user_id peer_id now id created_at = record {
  id = id;
  event_uuid = event_uuid;
  user_id = user_id;
  vk_peer_id = peer_id;
  status = DeliveryStatus.pending;
  attempts = 1;
  last_error = none;
  created_at = created_at;
  updated_at = now;
  sent_at = none;
}

abbrev pub next_attempt : ℤ → DateTime → VkNotificationDelivery → VkNotificationDelivery
next_attempt peer_id now r = record r {
  vk_peer_id = peer_id;
  status = DeliveryStatus.pending;
  attempts = suc r.attempts;
  last_error = none;
  updated_at = now;
}

abbrev pub max_integer : ℕ
max_integer = 2_147_483_647

-- `UPDATE … RETURNING`, of exactly one row
unfoldable pub update_one :
    Uuid → Uuid → (VkNotificationDelivery → VkNotificationDelivery) → Exec VkNotificationDelivery
update_one event_uuid user_id f = do
  rows ← gets (λ db. db.vk_notification_deliveries)
  modify (λ db. record db {
    vk_notification_deliveries = update_where (is_delivery event_uuid user_id) f rows;
  })
  lift (one (map f (select (is_delivery event_uuid user_id) rows)))

-- `INSERT … ON CONFLICT DO UPDATE … RETURNING`, by the rows in conflict
abbrev pub upsert :
    Uuid → Uuid → ℤ → DateTime → List VkNotificationDelivery → Exec VkNotificationDelivery
upsert event_uuid user_id peer_id at [] = do
  id ← new_uuid
  created_at ← server_now
  rows ← gets (λ db. db.vk_notification_deliveries)
  check (not (any (λ (r : VkNotificationDelivery). r.id == id) rows)) integrity_error
  let row = first_attempt event_uuid user_id peer_id at id created_at
  modify (λ db. record db { vk_notification_deliveries = row ∷ rows })
  pure row
upsert event_uuid user_id peer_id at (r ∷ _) = do
  check (leb (suc r.attempts) max_integer) data_error
  update_one event_uuid user_id (next_attempt peer_id at)

unfoldable pub write_attempt : Uuid → Uuid → ℤ → Exec (Option VkNotificationDelivery)
write_attempt event_uuid user_id peer_id = do
  at ← now
  clashing ← gets (λ db. select (is_delivery event_uuid user_id) db.vk_notification_deliveries)
  row ← upsert event_uuid user_id peer_id at clashing
  pure (some row)

abbrev pub claim :
    Uuid → Uuid → ℤ → Option VkNotificationDelivery → Exec (Option VkNotificationDelivery)
claim event_uuid user_id peer_id none = write_attempt event_uuid user_id peer_id
claim event_uuid user_id peer_id (some r) =
    if is_sent r.status then pure none else write_attempt event_uuid user_id peer_id

-- The lock on the event and the recipient orders transactions, and does nothing to one of them.
unfoldable pub claim_attempt : Uuid → Uuid → ℤ → Exec (Option VkNotificationDelivery)
claim_attempt event_uuid user_id peer_id = do
  rows ← gets (λ db. db.vk_notification_deliveries)
  existing ← lift (one_or_none (select (is_delivery event_uuid user_id) rows))
  claim event_uuid user_id peer_id existing

abbrev pub marked_sent : DateTime → VkNotificationDelivery → VkNotificationDelivery
marked_sent now r = record r {
  status = DeliveryStatus.sent;
  last_error = none;
  sent_at = some now;
  updated_at = now;
}

abbrev pub marked_failed : Text → DateTime → VkNotificationDelivery → VkNotificationDelivery
marked_failed error_category now r = record r {
  status = DeliveryStatus.failed;
  last_error = some (take 64 error_category);
  updated_at = now;
}

unfoldable pub mark_sent : Uuid → Uuid → Exec VkNotificationDelivery
mark_sent event_uuid user_id = do at ← now; update_one event_uuid user_id (marked_sent at)

unfoldable pub mark_failed : Uuid → Uuid → Text → Exec VkNotificationDelivery
mark_failed event_uuid user_id error_category = do
  at ← now
  update_one event_uuid user_id (marked_failed error_category at)
