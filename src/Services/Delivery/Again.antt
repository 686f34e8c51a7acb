-- ===== src/Services/Delivery/Again.antt =====
-- What has been sent stays so through a delivery, and is not sent again.
use eq_site_cms_vk_service.Repositories.Query.{one_or_none}
use eq_site_cms_vk_service.Exec.{lift, bind_ok}
use eq_site_cms_vk_service.Shared.{◌∙◌, ap, refl, ◌≡◌, none, inr, arith, inl, ◌==◌, Bool-cases, ◌≡◌}
use eq_site_cms_vk_service.Services.Delivery.Others.{rows_of, deliver_to_peer-Others}
use eq_site_cms_vk_service.Services.Delivery.Sent.{HasStatus}
use eq_site_cms_vk_service.Services.Delivery.{
  send_claimed, some, false, ℤ, Option, SendVkCommand, deliver_to_peer,
}
use eq_site_cms_vk_service.Repositories.Deliveries.{claim, claim_attempt}
use eq_site_cms_vk_service.Db.{Uuid, DeliveryStatus}
use eq_site_cms_vk_service.Exec.{Env, World, ◌>>=◌, ok}

module _ (command : SendVkCommand) where
  abbrev pub IsSent : Uuid → World → Type 0
  IsSent user_id w = HasStatus command user_id DeliveryStatus.sent w

  claim_attempt-again :
      (user_id : Uuid) (peer : ℤ) (env : Env) (w : World)
      → IsSent user_id w
      → claim_attempt command.event_uuid user_id peer env w ≡ (ok none, w)
  unfolding claim_attempt ◌>>=◌
  claim_attempt-again user_id peer env w (row, found, e) =
      bind_ok (lift (one_or_none (rows_of command.event_uuid user_id w)))
        (claim command.event_uuid user_id peer) env w (some row) w (ap (λ r. (r, w)) found)
      ∙ rw (e) refl

  pub deliver_to_peer-again :
      (user_id : Uuid) (peer : Option ℤ) (env : Env) (w : World)
      → IsSent user_id w
      → deliver_to_peer command user_id peer env w ≡ (ok false, w)
  deliver_to_peer-again user_id none env w sent = refl
  deliver_to_peer-again user_id (some peer) env w sent =
      bind_ok (claim_attempt command.event_uuid user_id peer) (send_claimed command user_id peer)
        env w none w (claim_attempt-again user_id peer env w sent)

  -- What has been sent to anybody.
  abbrev pub Keeps : World → World → Type 0
  Keeps w w' = (user_id : Uuid) → IsSent user_id w → IsSent user_id w'

  pub deliver_to_peer-Keeps :
      (user_id : Uuid) (peer : Option ℤ) (env : Env) (w : World)
      → Keeps w (deliver_to_peer command user_id peer env w).1
  deliver_to_peer-Keeps user_id peer env w other sent = elim (Bool-cases (user_id == other)) [
    | inl e ↦
        let same : user_id ≡ other = ground arith in
        let again = deliver_to_peer-again user_id peer env w (rw (same) sent) in rw (again) sent
    | inr e ↦
        let (row, found, done) = sent in
        let kept = (deliver_to_peer-Others command user_id other e peer).at env w in
        (row, rw (kept) found, done)
  ]
