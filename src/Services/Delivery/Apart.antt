-- ===== src/Services/Delivery/Apart.antt =====
-- The delivery writes the ledger only, and commits nothing: its session is the handler's.
use eq_site_cms_vk_service.Db.{BindingState}
use eq_site_cms_vk_service.Repositories.UserVks.{get_by_user_ids}
use eq_site_cms_vk_service.Repositories.Deliveries.{
  upsert, claim, mark_failed, update_one, write_attempt, mark_sent, claim_attempt,
}
use eq_site_cms_vk_service.Db.{VkConfirmation, DateTime, UserVk, VkNotificationDelivery, Uuid, Db}
use eq_site_cms_vk_service.Services.Delivery.{
  active_peer, send_claimed, deliver_to_peer, ℤ, settle, Option, get_by_user_ids, raise_if, List,
  SendVkCommand, deliver_each, deliver,
}
use eq_site_cms_vk_service.Services.Messenger.{send_message}
use eq_site_cms_vk_service.Shared.{
  ap, String, ◌||◌, Bool, refl, arith, [], ◌∷◌, none, some, true, false,
}
use eq_site_cms_vk_service.Exec.Preserves.{
  Preserves, preserves_rules, Uncommitted, Preserves-bind, Preserves-pure,
}
use eq_site_cms_vk_service.Exec.{World, now, gets, lift, Result, ◌>>=◌}

-- What a delivery leaves alone.
abbrev pub apart : World → Db × (List UserVk × List VkConfirmation)
apart w = (w.committed, (w.db.user_vks, w.db.vk_confirmations))

now-Apart : Preserves apart now
now-Apart = record { at = λ env w. refl }

gets-Apart : {A : Type 0} (f : Db → A) → Preserves apart (gets f)
gets-Apart f = record { at = λ env w. refl }

lift-Apart : {A : Type 0} (r : Result A) → Preserves apart (lift r)
lift-Apart r = record { at = λ env w. refl }

ruleset apart_rules = (preserves_rules, now-Apart, gets-Apart, lift-Apart)

send_message-Apart : (peer : ℤ) (text : String) → Preserves apart (send_message peer text)
unfolding send_message ◌>>=◌
send_message-Apart peer text = record { at = λ env w. ground arith }

update_one-Apart :
    (event_uuid user_id : Uuid) (f : VkNotificationDelivery → VkNotificationDelivery)
    → Preserves apart (update_one event_uuid user_id f)
unfolding update_one ◌>>=◌
update_one-Apart event_uuid user_id f = record { at = λ env w. refl }

upsert-Apart :
    (event_uuid user_id : Uuid) (peer : ℤ) (at : DateTime) (rows : List VkNotificationDelivery)
    → Preserves apart (upsert event_uuid user_id peer at rows)
unfolding update_one ◌>>=◌
upsert-Apart event_uuid user_id peer at [] = record { at = λ env w. ground arith }
upsert-Apart event_uuid user_id peer at (r ∷ rows) = record { at = λ env w. ground arith }

claim-Apart :
    (event_uuid user_id : Uuid) (peer : ℤ) (existing : Option VkNotificationDelivery)
    → Preserves apart (claim event_uuid user_id peer existing)
unfolding write_attempt
claim-Apart event_uuid user_id peer none = search (apart_rules, upsert-Apart) depth 7
claim-Apart event_uuid user_id peer (some x) = search (apart_rules, upsert-Apart) depth 7

claim_attempt-Apart :
    (event_uuid user_id : Uuid) (peer : ℤ) → Preserves apart (claim_attempt event_uuid user_id peer)
unfolding claim_attempt
claim_attempt-Apart event_uuid user_id peer = search (apart_rules, claim-Apart)

settle-Apart :
    (command : SendVkCommand) (user_id : Uuid) (sent : Bool)
    → Preserves apart (settle command user_id sent)
unfolding mark_sent mark_failed
settle-Apart command user_id true = search (apart_rules, update_one-Apart) depth 7
settle-Apart command user_id false = search (apart_rules, update_one-Apart) depth 7

send_claimed-Apart :
    (command : SendVkCommand) (user_id : Uuid) (peer : ℤ) (claimed : Option VkNotificationDelivery)
    → Preserves apart (send_claimed command user_id peer claimed)
send_claimed-Apart command user_id peer none = search preserves_rules
send_claimed-Apart command user_id peer (some r) =
    search (apart_rules, send_message-Apart, settle-Apart)

deliver_to_peer-Apart :
    (command : SendVkCommand) (user_id : Uuid) (peer : Option ℤ)
    → Preserves apart (deliver_to_peer command user_id peer)
deliver_to_peer-Apart command user_id none = search preserves_rules
deliver_to_peer-Apart command user_id (some peer) =
    search (apart_rules, claim_attempt-Apart, send_claimed-Apart)

deliver_each-Apart :
    (command : SendVkCommand) (bindings : List UserVk) (user_ids : List Uuid) (failed : Bool)
    → Preserves apart (deliver_each command bindings user_ids failed)
unfolding deliver_each
deliver_each-Apart command bindings [] failed = Preserves-pure failed
deliver_each-Apart command bindings (user_id ∷ rest) failed =
    Preserves-bind _ _ (deliver_to_peer-Apart command user_id (active_peer bindings user_id))
      λ now_failed. deliver_each-Apart command bindings rest (failed || now_failed)

raise_if-Apart : (b : Bool) → Preserves apart (raise_if b)
raise_if-Apart true = search preserves_rules
raise_if-Apart false = search preserves_rules

get_by_user_ids-Apart :
    (user_ids : List Uuid) (state : Option BindingState)
    → Preserves apart (get_by_user_ids user_ids state)
unfolding get_by_user_ids
get_by_user_ids-Apart user_ids state = record { at = λ env w. refl }

pub deliver-Apart : (command : SendVkCommand) → Preserves apart (deliver command)
unfolding deliver
deliver-Apart command =
    search (preserves_rules, get_by_user_ids-Apart, deliver_each-Apart, raise_if-Apart)

pub deliver-Uncommitted : (command : SendVkCommand) → Uncommitted (deliver command)
deliver-Uncommitted command = record {
  at = λ env w. ap (λ x. x.0) ((deliver-Apart command).at env w);
}
