-- ===== src/Workers/Tests.antt =====
-- Two attempts are to fail; two workers are lost at once, and another one after the effect, before
-- the answer gets out.
use eq_site_cms_vk_service.Workers.Probe.{
  Keys, Execution, whole, lost_counted, lost_early, lost_late, execute_all,
}
use eq_site_cms_vk_service.Workers.Once.{CreatedOnce, effect_once}
use eq_site_cms_vk_service.Shared.{none, false, List, [], ◌∷◌}

abbrev no_keys : Keys
no_keys = record { attempts = 0; started = none; effect = false }

abbrev executions : List Execution
executions = lost_early ∷ lost_counted ∷ lost_late ∷ whole ∷ []

effect_once_example : CreatedOnce 2 executions no_keys (execute_all 2 executions no_keys)
effect_once_example = effect_once 2 executions no_keys
