-- ===== src/MainBackend/Tests.antt =====
-- A request that is answered by status 503.
use eq_site_cms_vk_service.MainBackend.Base.{Query, Request, Answer, got, timed_out, Response}
use eq_site_cms_vk_service.Shared.{ℕ, none, some, [], ◌∷◌}
use eq_site_cms_vk_service.Text.{codes}

abbrev of_admins : Query ℕ
of_admins = record {
  equestrian_ids = some (7 ∷ []);
  equestrian_service_keys = none;
  role = some (codes "admin" ∷ []);
  limit = 100;
  offset = 0;
}

abbrev unavailable : Request → Answer (Response ℕ)
unavailable request = got (record { status = 503; text = got (codes "later"); users = timed_out })
