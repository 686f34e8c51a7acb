-- ===== src/Services/Delivery/Others.antt =====
-- A delivery to a recipient leaves the ledger's rows of any other one alone, and does nothing to one
-- that has been sent the event.
use eq_site_cms_vk_service.Errors.{data_error}
use eq_site_cms_vk_service.Text.{Text}
use eq_site_cms_vk_service.Exec.{check, ◌>>=◌}
use eq_site_cms_vk_service.Db.{DateTime, Db}
use eq_site_cms_vk_service.Exec.{lift, gets, World, now, Result}
use eq_site_cms_vk_service.Exec.Preserves.{
  Preserves-pure, Preserves, preserves_rules, Preserves-bind,
}
use eq_site_cms_vk_service.Services.Delivery.{
  String, ℤ, Option, ◌>>=◌, Bool, Uuid, VkNotificationDelivery, SendVkCommand, deliver_to_peer,
  settle, send_claimed,
}
use eq_site_cms_vk_service.Repositories.Deliveries.{
  next_attempt, max_integer, marked_failed, marked_sent, upsert, claim, mark_failed, update_one,
  write_attempt, mark_sent, claim_attempt, is_delivery,
}
use eq_site_cms_vk_service.Services.Messenger.{send_message}
use eq_site_cms_vk_service.Shared.{
  suc, leb, if◌then◌else◌, ◌==◌, ◌≡◌, refl, arith, false, true, List, [], ◌∷◌, none, some, select,
  update_where,
}

-- The rows of an event and a recipient.
abbrev pub rows_of : Uuid → Uuid → World → List VkNotificationDelivery
rows_of event_uuid user_id w =
    select (is_delivery event_uuid user_id) w.db.vk_notification_deliveries

select-update_where_other :
    (p q : VkNotificationDelivery → Bool) (f : VkNotificationDelivery → VkNotificationDelivery)
    (rows : List VkNotificationDelivery)
    → ((r : VkNotificationDelivery) → p r ≡ true → (q r ≡ false) × (q (f r) ≡ false))
    → select q (update_where p f rows) ≡ select q rows
unfolding select update_where
select-update_where_other p q f [] apart = refl
select-update_where_other p q f (r ∷ rows) apart =
    rw (select-update_where_other p q f rows apart) (go (p r) refl)
  where
    go :
        (t : Bool)
        → p r ≡ t
        → (if q (if t then f r else r)
            then (if t then f r else r) ∷ select q rows
            else select q rows)
          ≡ (if q r then r ∷ select q rows else select q rows)
    go true e = let (one, two) = apart r e in rw (one, two) refl
    go false e = refl

module _ (event_uuid user_id other_id : Uuid) (differs : (user_id == other_id) ≡ false) where
  now-Apart : Preserves (rows_of event_uuid other_id) now
  now-Apart = record { at = λ env w. refl }

  gets-Apart : {A : Type 0} (f : Db → A) → Preserves (rows_of event_uuid other_id) (gets f)
  gets-Apart f = record { at = λ env w. refl }

  lift-Apart : {A : Type 0} (r : Result A) → Preserves (rows_of event_uuid other_id) (lift r)
  lift-Apart r = record { at = λ env w. refl }

  send_message-Apart :
      (peer : ℤ) (text : String) → Preserves (rows_of event_uuid other_id) (send_message peer text)
  unfolding send_message ◌>>=◌
  send_message-Apart peer text = record { at = λ env w. ground arith }

  update_one-Apart :
      (f : VkNotificationDelivery → VkNotificationDelivery)
      → ((r : VkNotificationDelivery) → (f r).user_id ≡ r.user_id)
      → Preserves (rows_of event_uuid other_id) (update_one event_uuid user_id f)
  unfolding update_one ◌>>=◌ is_delivery
  update_one-Apart f keeps = record {
    at = λ env w.
        select-update_where_other (is_delivery event_uuid user_id) (is_delivery event_uuid other_id)
          f w.db.vk_notification_deliveries
          (λ r e. let kept = keeps r in (ground arith, ground arith));
  }

  upsert-Apart :
      (peer : ℤ) (at : DateTime) (rows : List VkNotificationDelivery)
      → Preserves (rows_of event_uuid other_id) (upsert event_uuid user_id peer at rows)
  unfolding ◌>>=◌ select is_delivery
  upsert-Apart peer at [] = record { at = λ env w. ground arith }
  upsert-Apart peer at (r ∷ rows) =
      Preserves-bind _ _ (check-Apart (leb (suc r.attempts) max_integer))
        (λ _. update_one-Apart (next_attempt peer at) (λ r. refl))
    where
      check-Apart : (b : Bool) → Preserves (rows_of event_uuid other_id) (check b data_error)
      check-Apart true = search preserves_rules
      check-Apart false = search preserves_rules

  claim-Apart :
      (peer : ℤ) (existing : Option VkNotificationDelivery)
      → Preserves (rows_of event_uuid other_id) (claim event_uuid user_id peer existing)
  unfolding write_attempt
  claim-Apart peer none = search (preserves_rules, now-Apart, gets-Apart, upsert-Apart) depth 7
  claim-Apart peer (some x) = search (preserves_rules, now-Apart, gets-Apart, upsert-Apart) depth 7

  claim_attempt-Apart :
      (peer : ℤ) → Preserves (rows_of event_uuid other_id) (claim_attempt event_uuid user_id peer)
  unfolding claim_attempt
  claim_attempt-Apart peer = search (preserves_rules, gets-Apart, lift-Apart, claim-Apart)

  mark_sent-Apart : Preserves (rows_of event_uuid other_id) (mark_sent event_uuid user_id)
  unfolding mark_sent
  mark_sent-Apart =
      Preserves-bind _ _ now-Apart (λ at. update_one-Apart (marked_sent at) (λ r. refl))

  mark_failed-Apart :
      (error : Text)
      → Preserves (rows_of event_uuid other_id) (mark_failed event_uuid user_id error)
  unfolding mark_failed
  mark_failed-Apart error =
      Preserves-bind _ _ now-Apart (λ at. update_one-Apart (marked_failed error at) (λ r. refl))

module _ (command : SendVkCommand) (user_id other_id : Uuid)
    (differs : (user_id == other_id) ≡ false) where
  settle-Apart :
      (sent : Bool) → Preserves (rows_of command.event_uuid other_id) (settle command user_id sent)
  settle-Apart true =
      Preserves-bind _ _ (mark_sent-Apart command.event_uuid user_id other_id differs)
        (λ _. Preserves-pure false)
  settle-Apart false =
      Preserves-bind _ _ (mark_failed-Apart command.event_uuid user_id other_id differs _)
        (λ _. Preserves-pure true)

  send_claimed-Apart :
      (peer : ℤ) (claimed : Option VkNotificationDelivery)
      → Preserves (rows_of command.event_uuid other_id) (send_claimed command user_id peer claimed)
  send_claimed-Apart peer none = Preserves-pure false
  send_claimed-Apart peer (some r) =
      Preserves-bind _ _
        (send_message-Apart command.event_uuid user_id other_id differs peer command.text)
        settle-Apart

  pub deliver_to_peer-Others :
      (peer : Option ℤ)
      → Preserves (rows_of command.event_uuid other_id) (deliver_to_peer command user_id peer)
  deliver_to_peer-Others none = Preserves-pure false
  deliver_to_peer-Others (some peer) =
      Preserves-bind _ _ (claim_attempt-Apart command.event_uuid user_id other_id differs peer)
        (send_claimed-Apart peer)
