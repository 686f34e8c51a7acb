-- ===== src/Observability/Tests.antt =====
-- A request's headers and body in an event.
use eq_site_cms_vk_service.Shared.{refl}
use eq_site_cms_vk_service.Text.Json.{Value, dict, text, field, no_fields}
use eq_site_cms_vk_service.Settings.{SentrySettings}
use eq_site_cms_vk_service.Shared.{[], ◌⊎◌, none, false, ◌∷◌, true, ◌≡◌, List}
use eq_site_cms_vk_service.Text.{codes, Text}
use mathlib.Core.Option
use eq_site_cms_vk_service.Observability.Hidden.{
  configure_sentry_outcome, Into, key, at, goes_through_private, IsHidden,
}
use eq_site_cms_vk_service.Observability.Sanitize.{configure_sentry, initialised, sanitize}

abbrev same_case : Text → Text
same_case s = s

abbrev enabled : SentrySettings
enabled = record {
  sentry_enabled = true;
  sentry_dsn = codes "https://key@sentry.example/1";
  sentry_environment = codes "production";
  sentry_release = none;
}

abbrev event : Value
event = dict (
    field (codes "request")
      (dict (
        field (codes "headers")
          (dict (field (codes "x-service-key") (text (codes "secret")) no_fields))
          (field (codes "data") (text (codes "body")) no_fields)))
      no_fields)

abbrev path : List Into
path = key (codes "request") ∷ key (codes "headers") ∷ key (codes "x-service-key") ∷ []

configure_sentry_outcome_example :
    (enabled.sentry_enabled ≡ true)
    × ((initialised same_case enabled).send_default_pii ≡ false)
    × ((initialised same_case enabled).max_request_body_size ≡ codes "never")
    × (((goes_through_private same_case path ≡ true)
          × IsHidden same_case (at path ((initialised same_case enabled).before_send event)))
        ⊎ ((goes_through_private same_case path ≡ false)
            × (at path ((initialised same_case enabled).before_send event)
                ≡ Option.map (sanitize same_case) (at path event))))
unfolding configure_sentry
configure_sentry_outcome_example =
    configure_sentry_outcome same_case enabled (initialised same_case enabled) path event refl
