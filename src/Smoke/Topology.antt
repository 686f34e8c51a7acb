-- ===== src/Smoke/Topology.antt =====
-- src/smoke_harness/topology.py: a run has a stream, a subject and a durable of its own. `run_id.hex` is
-- a parameter.
use eq_site_cms_vk_service.Shared.{Bool, not, ◌||◌, ◌++◌, if◌then◌else◌, ◌≡◌, refl}
use eq_site_cms_vk_service.Text.{text_eq, Text, Unicode, codes, upper, starts_with}
use eq_site_cms_vk_service.Settings.{Validated, valid, invalid}

pub record SmokeTopology : Type 0 where
  pub stream : Text
  pub subject : Text
  pub durable : Text

unfoldable pub for_run : Unicode → Text → SmokeTopology
for_run u suffix = record {
  stream = codes "EQSITECMS_SMOKE_VK_" ++ upper u suffix;
  subject = codes "smoke.eqsitecms.vk." ++ (suffix ++ codes ".send");
  durable = codes "eqsitecms-smoke-vk-" ++ suffix;
}

-- The name of production, or a name without the prefix of the harness.
abbrev is_foreign : Text → Text → Text → Bool
is_foreign name production prefix = text_eq name production || not (starts_with name prefix)

unfoldable pub assert_isolated : SmokeTopology → Validated SmokeTopology
unfolding starts_with
assert_isolated t =
    if text_eq t.stream (codes "NOTIFICATION_COMMANDS")
    then invalid (codes "production stream is forbidden")
    else if is_foreign t.subject (codes "commands.notification.vk.send")
        (codes "smoke.eqsitecms.vk.")
    then invalid (codes "production subject is forbidden")
    else if is_foreign t.durable (codes "vk-service-commands-send-vk") (codes "eqsitecms-smoke-vk-")
    then invalid (codes "production durable is forbidden")
    else valid t

-- The names of any run are accepted as isolated from production.
pub assert_isolated-for_run :
    (u : Unicode) (suffix : Text) → assert_isolated (for_run u suffix) ≡ valid (for_run u suffix)
unfolding assert_isolated for_run text_eq starts_with
assert_isolated-for_run u suffix = refl
