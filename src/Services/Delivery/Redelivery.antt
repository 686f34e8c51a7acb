-- ===== src/Services/Delivery/Redelivery.antt =====
-- What another delivery of the same command does.
use eq_site_cms_vk_service.Services.Delivery.Loop.{
  AllReached, bindings_of, Ends-with, deliver_outcome,
}
use eq_site_cms_vk_service.Services.Delivery.Apart.{deliver-Apart}
use eq_site_cms_vk_service.Services.Delivery.Again.{deliver_to_peer-again, IsSent}
use eq_site_cms_vk_service.Services.Delivery.{
  raise_if, deliver, Option, ℤ, SendVkCommand, deliver_to_peer, deliver_each, active_peer,
}
use eq_site_cms_vk_service.Repositories.UserVks.{get_by_user_ids}
use eq_site_cms_vk_service.Exec.{bind_ok}
use eq_site_cms_vk_service.Db.{Uuid, UserVk}
use eq_site_cms_vk_service.Exec.{◌>>=◌, ok, World, Env, Ends, Ends-map, Quiet}
use eq_site_cms_vk_service.Shared.{
  ◌∙◌, ap, inr, inl, ◌||◌, List, [], ◌∷◌, none, some, false, refl, ◌≡◌,
}

module _ (command : SendVkCommand) (bindings : List UserVk) where
  -- Nothing is left to do for recipients who have been reached.
  deliver_each-again :
      (user_ids : List Uuid) (env : Env) (w : World)
      → AllReached command bindings user_ids w
      → deliver_each command bindings user_ids false env w ≡ (ok false, w)
  unfolding deliver_each ◌>>=◌
  deliver_each-again [] env w all = refl
  deliver_each-again (user_id ∷ rest) env w all =
      let here = go (active_peer bindings user_id) (all user_id (inl refl)) in
      bind_ok (deliver_to_peer command user_id (active_peer bindings user_id))
        (λ b. deliver_each command bindings rest (false || b)) env w false w here
      ∙ deliver_each-again rest env w (λ u m. all u (inr m))
    where
      go :
          (p : Option ℤ)
          → ((peer : ℤ) → p ≡ some peer → IsSent command user_id w)
          → deliver_to_peer command user_id p env w ≡ (ok false, w)
      go none sent = refl
      go (some peer) sent = deliver_to_peer-again command user_id (some peer) env w (sent peer refl)

module _ (command : SendVkCommand) where
  deliver-again :
      (env : Env) (w : World)
      → AllReached command (bindings_of command w) command.user_ids w
      → deliver command env w ≡ (ok tt, w)
  unfolding deliver get_by_user_ids ◌>>=◌
  deliver-again env w all =
      bind_ok (deliver_each command (bindings_of command w) command.user_ids false) raise_if env w
        false w (deliver_each-again command (bindings_of command w) command.user_ids env w all)

  -- Where a delivery has returned, the same command again, whatever the outside answers then, returns,
  -- and sends and writes nothing.
  pub redelivery_does_nothing :
      (env : Env) (w : World)
      → Ends
          (λ _ w'. (env' : Env) → deliver command env' w' ≡ (ok tt, w'))
          Quiet
          (deliver command env w)
  redelivery_does_nothing env w =
      Ends-map _
        (Ends-with {P = λ w'. w'.db.user_vks ≡ w.db.user_vks} _ (deliver_outcome command env w)
          (ap (λ x. x.1.0) ((deliver-Apart command).at env w)))
        (λ _ w' ((all, _), kept) env'. deliver-again env' w' (rw (kept) all)) (λ _ _ h. h)
