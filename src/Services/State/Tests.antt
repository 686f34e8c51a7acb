-- ===== src/Services/State/Tests.antt =====
-- The theorems on the state service at concrete inputs.
use eq_site_cms_vk_service.Services.State.{unblock, block}
use eq_site_cms_vk_service.Services.State.Moved.{transition_outcome, TransitionEnds}
use eq_site_cms_vk_service.Shared.{pos}
use eq_site_cms_vk_service.Db.{blocked, active}
use eq_site_cms_vk_service.Fixtures.{calm, start}

transition_outcome_example :
    TransitionEnds (pos 77) blocked start (block (pos 77) calm start)
    × TransitionEnds (pos 77) active start (unblock (pos 77) calm start)
transition_outcome_example = transition_outcome (pos 77) calm start
