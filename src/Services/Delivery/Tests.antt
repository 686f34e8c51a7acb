-- ===== src/Services/Delivery/Tests.antt =====
-- The theorems on the delivery at concrete recipients.
use eq_site_cms_vk_service.Services.Delivery.Redelivery.{redelivery_does_nothing}
use eq_site_cms_vk_service.Services.Delivery.{deliver}
use eq_site_cms_vk_service.Shared.{◌≡◌}
use eq_site_cms_vk_service.Exec.{Env, ok, Ends, Quiet}
use eq_site_cms_vk_service.Fixtures.{calm, start, greeting}

redelivery_does_nothing_example :
    Ends
      (λ _ w'. (env' : Env) → deliver greeting env' w' ≡ (ok tt, w'))
      Quiet
      (deliver greeting calm start)
redelivery_does_nothing_example = redelivery_does_nothing greeting calm start
