-- ===== src/Services/Confirm/Linked.antt =====
-- What a successful confirmation has checked and written.
use eq_site_cms_vk_service.Shared.{◌≡◌, refl, ◌∙◌, ◌∷◌, [], List, true, update_where, ◌==◌}
use eq_site_cms_vk_service.Errors.{Error, app, AppErrorClass}
use eq_site_cms_vk_service.Db.{DateTime, UserVk, VkConfirmation, VkLog, success, Detail, LogStatus}
use eq_site_cms_vk_service.Exec.{
  Env, World, Ends, OnExists, OnApp, Untouched, Ends-bind, Ends-then, Ends-catch, Ends-map,
}
use eq_site_cms_vk_service.Repositories.UserVks.{activated, live_with_id, is_unique}
use eq_site_cms_vk_service.Repositories.UserVks.Effects.{RolledBack, activate_lem}
use eq_site_cms_vk_service.Repositories.Confirmations.{used}
use eq_site_cms_vk_service.Repositories.Confirmations.Effects.{mark_used_lem}
use eq_site_cms_vk_service.Services.Confirm.Base.{
  Attempt, ConfirmationResult, confirmed, activate_failed, link, peer_taken,
}
use eq_site_cms_vk_service.Services.Confirm.Refused.{Refused, log_lem, refuse_after}

-- The binding has got the peer, the confirmation is used, and one row has been logged.
pub record Linked (a : Attempt) (c : VkConfirmation) (b : UserVk) (w w' : World) : Type 0 where
  pub activated_at : DateTime
  pub used_at : DateTime
  pub row : VkLog
  pub of_status : row.status ≡ success
  pub of_details :
      row.details
      ≡ Detail.vk_peer_id a.vk_peer_id
        ∷ Detail.code a.masked
        ∷ Detail.user_vk_id c.user_vk_id
        ∷ Detail.user_id b.user_id
        ∷ []
  pub unique :
      is_unique (
        update_where
          (live_with_id c.user_vk_id)
          (activated a.vk_peer_id a.vk_screen_name a.vk_display_name activated_at)
          w.db.user_vks)
      ≡ true
  pub db : w'.db ≡ record (w.db) {
    user_vks =
        update_where
          (live_with_id c.user_vk_id)
          (activated a.vk_peer_id a.vk_screen_name a.vk_display_name activated_at)
          w.db.user_vks;
    vk_confirmations =
        update_where (λ (r : VkConfirmation). r.id == c.id) (used used_at) w.db.vk_confirmations;
    vk_logs = row ∷ w.db.vk_logs;
  }
  pub committed : w'.committed ≡ w.committed
  pub outbox : w'.outbox ≡ w.outbox

abbrev pub confirmation_of : VkConfirmation → UserVk → ConfirmationResult
confirmation_of c b = record { status = confirmed; user_id = b.user_id; user_vk_id = c.user_vk_id }

abbrev pub conflict_details : VkConfirmation → List Detail
conflict_details c = Detail.user_vk_id c.user_vk_id ∷ []

-- After the rollback the session is where it began.
activate_failed_lem :
    (a : Attempt) (c : VkConfirmation) (e : Error) (env : Env) (w w' : World)
    → w.committed ≡ w.db
    → OnExists (RolledBack w) e w'
    → Ends {A = UserVk} (λ _ _. ⊥) (OnApp (Refused a w)) (activate_failed a c e env w')
activate_failed_lem a c (app AppErrorClass.already_exists m) env w w' fresh h =
    refuse_after a (record { db = h.db ∙ fresh; committed = h.committed; outbox = h.outbox })
      LogStatus.peer_conflict (conflict_details c) AppErrorClass.conflict peer_taken env
activate_failed_lem a c (app _ m) env w w' fresh h = absurd h
activate_failed_lem a c _ env w w' fresh h = record { by = tt }

pub link_lem :
    (a : Attempt) (c : VkConfirmation) (b : UserVk) (env : Env) (w : World)
    → w.committed ≡ w.db
    → Ends
        (λ r w'. (r ≡ confirmation_of c b) × Linked a c b w w')
        (OnApp (Refused a w))
        (link a c b env w)
unfolding link
link_lem a c b env w fresh =
    Ends-bind _ _ env w
      (Ends-catch _ _ env w
        (activate_lem c.user_vk_id a.vk_peer_id a.vk_screen_name a.vk_display_name env w)
        (λ e w' h.
          Ends-map _ (activate_failed_lem a c e env w w' fresh h) (λ _ _ x. absurd x) (λ _ _ x. x)))
      (λ e w' h. h)
      λ _ w₁ (_, unique, wrote).
        Ends-then (Refused a w) _ _ env w₁ (mark_used_lem c.id env w₁) λ _ w₂ marked.
          Ends-then (Refused a w) _ _ env w₂
            (log_lem success a (Detail.user_vk_id c.user_vk_id ∷ Detail.user_id b.user_id ∷ []) env
              w₂)
            λ _ w₃ (row, logged). record {
              by = (
                refl,
                record {
                  activated_at = env.now w.asked;
                  used_at = env.now w₁.asked;
                  row = row;
                  of_status = logged.of_status;
                  of_details = logged.of_details;
                  unique = unique;
                  db = cc (logged.db, marked.db, wrote.db);
                  committed = logged.committed ∙ marked.committed ∙ wrote.committed;
                  outbox = logged.outbox ∙ marked.outbox ∙ wrote.outbox;
                },
              );
            }

pub Linked-from :
    {u v w : World} (a : Attempt) (c : VkConfirmation) (b : UserVk)
    → Untouched u v
    → Linked a c b v w
    → Linked a c b u w
Linked-from a c b t l = record {
  activated_at = l.activated_at;
  used_at = l.used_at;
  row = l.row;
  of_status = l.of_status;
  of_details = l.of_details;
  unique = rw (← t.db) l.unique;
  db = cc (l.db, t.db);
  committed = l.committed ∙ t.committed;
  outbox = l.outbox ∙ t.outbox;
}
