-- ===== src/Services/Delivery/Sent.antt =====
-- What a delivery sends to a recipient, and what the ledger says afterwards.
use eq_site_cms_vk_service.Services.Messenger.{send_message_lem}
use eq_site_cms_vk_service.Repositories.Deliveries.Marks.{mark_sent_lem, mark_failed_lem}
use eq_site_cms_vk_service.Repositories.Deliveries.{is_sent}
use eq_site_cms_vk_service.Repositories.Deliveries.Rows.{Row}
use eq_site_cms_vk_service.Repositories.Deliveries.Effects.{claim_attempt_lem, Claimed}
use eq_site_cms_vk_service.Db.{VkNotificationDelivery, DeliveryStatus}
use eq_site_cms_vk_service.Services.Delivery.{
  send_claimed, settle, deliver_to_peer, Bool, Option, ℤ, Uuid, SendVkCommand,
}
use eq_site_cms_vk_service.Shared.{
  ◌≡◌, refl, ◌∙◌, ◌⊎◌, inl, inr, true, false, none, some, ◌∷◌, if◌then◌else◌,
}
use eq_site_cms_vk_service.Exec.{Untouched, Quiet, Env, World, Ends, Ends-bind}

module _ (command : SendVkCommand) (user_id : Uuid) where
  -- The recipient's only row has the status.
  abbrev pub HasStatus : DeliveryStatus → World → Type 0
  HasStatus status w =
      (row : VkNotificationDelivery) × Row command.event_uuid user_id w (some row)
      × (row.status ≡ status)

  -- Sent before, and nothing done; or sent now; or not accepted by VK.
  abbrev pub Settled : ℤ → World → Bool → World → Type 0
  Settled peer w has_failed w' =
      ((has_failed ≡ false) × Untouched w w' × HasStatus DeliveryStatus.sent w)
      ⊎ (((has_failed ≡ false)
            × (w'.outbox ≡ (peer, command.text) ∷ w.outbox)
            × HasStatus DeliveryStatus.sent w')
          ⊎ ((has_failed ≡ true) × (w'.outbox ≡ w.outbox) × HasStatus DeliveryStatus.failed w'))

  settle_lem :
      (peer : ℤ) (row : VkNotificationDelivery) (sent : Bool) (env : Env) (w u : World)
      → Row command.event_uuid user_id u (some row)
      → u.outbox ≡ (if sent then (peer, command.text) ∷ w.outbox else w.outbox)
      → Ends (Settled peer w) Quiet (settle command user_id sent env u)
  settle_lem peer row true env w u found out =
      Ends-bind _ _ env u (mark_sent_lem command.event_uuid user_id row env u found) (λ _ _ h. h)
        λ _ w' (status, kept). record { by = inr (inl (refl, kept.outbox ∙ out, status)) }
  settle_lem peer row false env w u found out =
      Ends-bind _ _ env u (mark_failed_lem command.event_uuid user_id row _ env u found)
        (λ _ _ h. h)
        λ _ w' (status, kept). record { by = inr (inr (refl, kept.outbox ∙ out, status)) }

  send_claimed_lem :
      (peer : ℤ) (claimed : Option VkNotificationDelivery) (env : Env) (w u : World)
      → Claimed command.event_uuid user_id w claimed u
      → Ends (Settled peer w) Quiet (send_claimed command user_id peer claimed env u)
  send_claimed_lem peer none env w u (inl (_, t, (x, found, done))) = record {
    by = inl (refl, t, (x, found, sent_of x.status done));
  }
    where
      sent_of : (s : DeliveryStatus) → is_sent s ≡ true → s ≡ DeliveryStatus.sent
      sent_of DeliveryStatus.sent h = refl
      sent_of DeliveryStatus.pending h = absurd (cc h)
      sent_of DeliveryStatus.failed h = absurd (cc h)
  send_claimed_lem peer none env w u (inr (row, e, _, _, _)) = absurd (cc e)
  send_claimed_lem peer (some r) env w u (inl (e, _, _)) = absurd (cc e)
  send_claimed_lem peer (some r) env w u (inr (row, _, _, found, kept)) =
      Ends-bind _ _ env u (send_message_lem peer command.text env u) (λ _ _ h. absurd h)
        λ sent v (same_db, same_commit, out).
          settle_lem peer row sent env w v (rw same_db found) (rw (← kept.outbox) out)

  pub deliver_to_peer_outcome :
      (peer : ℤ) (env : Env) (w : World)
      → Ends (Settled peer w) Quiet (deliver_to_peer command user_id (some peer) env w)
  deliver_to_peer_outcome peer env w =
      Ends-bind _ _ env w (claim_attempt_lem command.event_uuid user_id peer env w) (λ _ _ h. h)
        λ claimed u h. send_claimed_lem peer claimed env w u h
