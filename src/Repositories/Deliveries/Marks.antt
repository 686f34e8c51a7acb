-- ===== src/Repositories/Deliveries/Marks.antt =====
-- What marking a delivery does to the world.
use eq_site_cms_vk_service.Repositories.Deliveries.Rows.{
  Recorded-from, update_one_lem, Recorded, Row,
}
use eq_site_cms_vk_service.Repositories.Deliveries.{
  marked_failed, marked_sent, update_one, is_delivery, mark_failed, mark_sent,
}
use eq_site_cms_vk_service.Db.{DeliveryStatus, VkNotificationDelivery, Uuid}
use eq_site_cms_vk_service.Shared.{◌≡◌, refl, some}
use eq_site_cms_vk_service.Text.{Text}
use eq_site_cms_vk_service.Exec.{Ends-map, Untouched, Quiet, Env, World, Ends, Ends-bind, now_lem}

module _ (event_uuid user_id : Uuid) (x : VkNotificationDelivery) where
  -- The only row of the recipient has the status.
  abbrev pub Marked : DeliveryStatus → World → World → Type 0
  Marked status w w' =
      ((row : VkNotificationDelivery) × Row event_uuid user_id w' (some row)
        × (row.status ≡ status))
      × Recorded w w'

  Marked-by :
      (f : VkNotificationDelivery → VkNotificationDelivery) (status : DeliveryStatus) (env : Env)
      (w u : World)
      → ((r : VkNotificationDelivery)
          → is_delivery event_uuid user_id (f r) ≡ is_delivery event_uuid user_id r)
      → (f x).status ≡ status
      → Row event_uuid user_id w (some x)
      → Untouched w u
      → Ends (λ r w'. Marked status w w') (λ _ _. ⊥) (update_one event_uuid user_id f env u)
  Marked-by f status env w u keep of_status found t =
      Ends-map _ (update_one_lem event_uuid user_id f x env u keep (rw t.db found))
        (λ r w' (e, row, kept). ((f x, row, of_status), Recorded-from t kept)) (λ _ _ h. h)

  pub mark_sent_lem :
      (env : Env) (w : World)
      → Row event_uuid user_id w (some x)
      → Ends (λ r w'. Marked DeliveryStatus.sent w w') Quiet (mark_sent event_uuid user_id env w)
  unfolding mark_sent is_delivery
  mark_sent_lem env w found =
      Ends-bind _ _ env w (now_lem env w) (λ _ _ h. h)
        λ at u (_, t).
          Ends-map _
            (Marked-by (marked_sent at) DeliveryStatus.sent env w u (λ r. refl) refl found t)
            (λ _ _ h. h) (λ _ _ h. absurd h)

  pub mark_failed_lem :
      (error_category : Text) (env : Env) (w : World)
      → Row event_uuid user_id w (some x)
      → Ends
          (λ r w'. Marked DeliveryStatus.failed w w')
          Quiet
          (mark_failed event_uuid user_id error_category env w)
  unfolding mark_failed is_delivery
  mark_failed_lem error_category env w found =
      Ends-bind _ _ env w (now_lem env w) (λ _ _ h. h)
        λ at u (_, t).
          Ends-map _
            (Marked-by (marked_failed error_category at) DeliveryStatus.failed env w u (λ r. refl)
              refl found t)
            (λ _ _ h. h) (λ _ _ h. absurd h)
