-- ===== src/Services/Binding/Tests.antt =====
-- The theorems on the binding service at concrete inputs.
use eq_site_cms_vk_service.Services.Binding.{ensure_binding, issue_confirmation, unlink}
use eq_site_cms_vk_service.Services.Binding.Ensured.{ensure_binding_outcome, Clashed, Ensured}
use eq_site_cms_vk_service.Services.Binding.Unlinked.{unlink_outcome, UnlinkEnds}
use eq_site_cms_vk_service.Services.Binding.Issuing.{issue_confirmation_outcome, IssueEnds}
use eq_site_cms_vk_service.Shared.{refl}
use eq_site_cms_vk_service.Exec.{Ends}
use eq_site_cms_vk_service.Fixtures.{calm, start, usual}

-- The owner 501 has a PENDING binding, 502 an ACTIVE one, and 503 none.
ensure_binding_outcome_example :
    Ends (Ensured 503 start) (Clashed start) (ensure_binding 503 calm start)
ensure_binding_outcome_example = ensure_binding_outcome 503 calm start refl

issue_confirmation_outcome_example :
    IssueEnds usual calm 501 start (issue_confirmation usual 501 calm start)
issue_confirmation_outcome_example = issue_confirmation_outcome usual 501 calm start refl

unlink_outcome_example : UnlinkEnds 502 start (unlink 502 calm start)
unlink_outcome_example = unlink_outcome 502 calm start
