-- ===== src/Settings/Base.antt =====
-- What src/settings.py makes of the environment. `str.lower` is a parameter, and so is `os.getenv`.
use eq_site_cms_vk_service.Shared.{
  ◌&&◌, Option, none, some, List, [], ◌∷◌, ◌++◌, Bool, ◌||◌, any, select, not, map, if◌then◌else◌,
}
use eq_site_cms_vk_service.Text.{text_eq, split_on_from, Text, Unicode, codes, strip, contains}
use eq_site_cms_vk_service.Repositories.Query.{is_empty}

-- What a validator returns, or the `ValueError` that it raises.
pub data Validated (A : Type 0) : Type 0 where
  valid : A → Validated A
  invalid : Text → Validated A

abbrev pub required : List Text
required =
    codes "POSTGRES_PASSWORD"
    ∷ codes "REDIS_PASSWORD"
    ∷ codes "CELERY_APP_BROKER"
    ∷ codes "CELERY_APP_BACKEND"
    ∷ codes "MAIN_BACKEND_SERVICE_KEY"
    ∷ codes "NATS_SERVERS"
    ∷ codes "VK_GROUP_TOKEN"
    ∷ []

abbrev pub unsafe : List Text
unsafe = codes "" ∷ codes "app" ∷ codes "changeme" ∷ codes "eqsitecmsredis" ∷ []

-- `separator.join(parts)`
unfoldable pub join : Text → List Text → Text
join separator [] = []
join separator (part ∷ []) = part
join separator (part ∷ next ∷ rest) = part ++ (separator ++ join separator (next ∷ rest))

module _ (u : Unicode) (lower : Text → Text) (getenv : Text → Option Text) where
  abbrev pub value_or_empty : Option Text → Text
  value_or_empty none = []
  value_or_empty (some value) = value

  unfoldable pub is_unsafe : Text → Bool
  is_unsafe name =
      let value = lower (strip u (value_or_empty (getenv name))) in
      any (text_eq value) unsafe || any (contains value) (codes "<set-" ∷ codes "<generate-" ∷ [])

  -- `raise ValueError` if there are names
  abbrev pub reject : Text → List Text → Validated Text
  reject environment [] = valid environment
  reject environment (name ∷ rest) =
      invalid (codes "Unsafe or missing production settings: " ++ join (codes ", ") (name ∷ rest))

  unfoldable pub validate_production_secrets : Text → Validated Text
  validate_production_secrets environment =
      if text_eq (lower environment) (codes "production")
      then reject environment (select is_unsafe required)
      else valid environment

pub record SentrySettings : Type 0 where
  pub sentry_enabled : Bool
  pub sentry_dsn : Text
  pub sentry_environment : Text
  pub sentry_release : Option Text

module _ (u : Unicode) where
  -- `(value or "").strip() or None`
  abbrev pub stripped_or_none : Option Text → Option Text
  stripped_or_none none = none
  stripped_or_none (some value) = let s = strip u value in if is_empty s then none else some s

  abbrev pub require_dsn : SentrySettings → Validated SentrySettings
  require_dsn s =
      if s.sentry_enabled && is_empty s.sentry_dsn
      then invalid (codes "SENTRY_DSN is required when SENTRY_ENABLED=true")
      else valid s

  unfoldable pub validate_sentry_configuration : SentrySettings → Validated SentrySettings
  validate_sentry_configuration s = require_dsn (record s {
    sentry_dsn = strip u s.sentry_dsn;
    sentry_environment = strip u s.sentry_environment;
    sentry_release = stripped_or_none s.sentry_release;
  })

  -- `[part.strip() for part in raw.split(",") if part.strip()]`, or the default for a blank setting
  unfoldable pub comma_separated : Text → Text → List Text
  unfolding split_on_from
  comma_separated default raw =
      if is_empty (strip u raw)
      then default ∷ []
      else select (λ part. not (is_empty part)) (map (strip u) (split_on_from 44 [] raw))

  unfoldable pub nats_servers : Text → List Text
  unfolding comma_separated
  nats_servers = comma_separated (codes "nats://localhost:4222")

  unfoldable pub nats_subjects_notification_commands : Text → List Text
  unfolding comma_separated
  nats_subjects_notification_commands = comma_separated (codes "commands.notification.>")
