-- ===== src/Repositories/Deliveries/Rows.antt =====
-- The row of a recipient, and updating it.
use eq_site_cms_vk_service.Repositories.Query.{one_or_none-some, one, one_or_none}
use eq_site_cms_vk_service.Repositories.Deliveries.{Bool, true, is_delivery, update_one}
use eq_site_cms_vk_service.Db.{VkNotificationDelivery, Uuid}
use eq_site_cms_vk_service.Shared.{
  ◌∙◌, arith, List, select-update_where_kept, Option, ◌≡◌, refl, some, [], ◌∷◌, select,
}
use eq_site_cms_vk_service.Exec.{Untouched, Env, World, ok, Ends, ◌>>=◌}

-- The only row of an event and a recipient.
abbrev pub Row : Uuid → Uuid → World → Option VkNotificationDelivery → Type 0
Row event_uuid user_id w r =
    one_or_none (select (is_delivery event_uuid user_id) w.db.vk_notification_deliveries) ≡ ok r

-- Nothing but the ledger has changed.
pub record Recorded (w w' : World) : Type 0 where
  pub user_vks : w'.db.user_vks ≡ w.db.user_vks
  pub vk_confirmations : w'.db.vk_confirmations ≡ w.db.vk_confirmations
  pub vk_logs : w'.db.vk_logs ≡ w.db.vk_logs
  pub committed : w'.committed ≡ w.committed
  pub outbox : w'.outbox ≡ w.outbox

pub Recorded-from : {u v w : World} → Untouched u v → Recorded v w → Recorded u w
Recorded-from t kept = record {
  user_vks = cc (kept.user_vks, t.db);
  vk_confirmations = cc (kept.vk_confirmations, t.db);
  vk_logs = cc (kept.vk_logs, t.db);
  committed = kept.committed ∙ t.committed;
  outbox = kept.outbox ∙ t.outbox;
}

pub only_selected :
    (p : VkNotificationDelivery → Bool) (row : VkNotificationDelivery)
    (rows : List VkNotificationDelivery)
    → p row ≡ true
    → select p rows ≡ []
    → one_or_none (select p (row ∷ rows)) ≡ ok (some row)
unfolding select one_or_none
only_selected p row rows own absent = rw (own, absent) refl

module _ (event_uuid user_id : Uuid) where
  -- The one row is written in place.
  pub update_one_lem :
      (f : VkNotificationDelivery → VkNotificationDelivery) (x : VkNotificationDelivery) (env : Env)
      (w : World)
      → ((r : VkNotificationDelivery)
          → is_delivery event_uuid user_id (f r) ≡ is_delivery event_uuid user_id r)
      → Row event_uuid user_id w (some x)
      → Ends
          (λ r w'. (r ≡ f x) × Row event_uuid user_id w' (some (f x)) × Recorded w w')
          (λ _ _. ⊥)
          (update_one event_uuid user_id f env w)
  unfolding update_one ◌>>=◌ one one_or_none
  update_one_lem f x env w keep found =
      let rows = w.db.vk_notification_deliveries in
      let selected = one_or_none-some (select (is_delivery event_uuid user_id) rows) x found in
      let after = select-update_where_kept (is_delivery event_uuid user_id) f rows keep in
      ground (arith, selected, after)
