-- ===== src/Observability/Sanitize.antt =====
-- src/utils/configure_sentry.py, with `_sanitize` on values whose keys are texts. `str.lower` is a
-- parameter.
use eq_site_cms_vk_service.Settings.{SentrySettings}
use eq_site_cms_vk_service.Shared.{
  none, false, some, Option, Bool, ◌==◌, List, [], ◌∷◌, any, map, if◌then◌else◌,
}
use eq_site_cms_vk_service.Text.{Text, codes, text_eq}
use eq_site_cms_vk_service.Text.Json.{
  Value, Items, Fields, null, boolean, number, text, list, dict, no_items, item, no_fields, field,
}

abbrev pub sensitive_keys : List Text
sensitive_keys =
    codes "authorization"
    ∷ codes "cookie"
    ∷ codes "cookies"
    ∷ codes "service_key"
    ∷ codes "service-key"
    ∷ codes "x-service-key"
    ∷ codes "password"
    ∷ codes "postgres_password"
    ∷ codes "vk_group_token"
    ∷ codes "dsn"
    ∷ []

-- `key.replace("-", "_")`
unfoldable pub underscored : Text → Text
underscored [] = []
underscored (c ∷ s) = (if c == 45 then 95 else c) ∷ underscored s

abbrev pub filtered : Value
filtered = text (codes "[Filtered]")

pub record SentryInit : Type 0 where
  pub dsn : Text
  pub environment : Text
  pub release : Option Text
  pub send_default_pii : Bool
  pub max_request_body_size : Text
  pub before_send : Value → Value
  pub ignored_loggers : List Text

module _ (lower : Text → Text) where
  unfoldable pub is_sensitive : Text → Bool
  is_sensitive key = any (text_eq (underscored (lower key))) (map underscored sensitive_keys)

  unfoldable pub is_dropped : Text → Bool
  is_dropped key = any (text_eq (lower key)) (codes "data" ∷ codes "body" ∷ [])

  unfoldable mutual
    pub sanitize : Value → Value
    sanitize (dict entries) = dict (sanitize_fields entries)
    sanitize (list values) = list (sanitize_items values)
    sanitize null = null
    sanitize (boolean b) = boolean b
    sanitize (number n) = number n
    sanitize (text s) = text s

    pub sanitize_items : Items → Items
    sanitize_items no_items = no_items
    sanitize_items (item value rest) = item (sanitize value) (sanitize_items rest)

    pub sanitize_fields : Fields → Fields
    sanitize_fields no_fields = no_fields
    sanitize_fields (field key value rest) =
        let others = sanitize_fields rest in
        let clean = sanitize value in
        if is_dropped key
        then others
        else field key (if is_sensitive key then filtered else clean) others

  abbrev pub before_send : Value → Value
  before_send = sanitize

  -- The arguments of `sentry_sdk.init` but the rate of traces and the integrations, and the loggers that are
  -- ignored.
  abbrev pub initialised : SentrySettings → SentryInit
  initialised config = record {
    dsn = config.sentry_dsn;
    environment = config.sentry_environment;
    release = config.sentry_release;
    send_default_pii = false;
    max_request_body_size = codes "never";
    before_send = before_send;
    ignored_loggers = codes "nats.aio.client" ∷ codes "vkbottle" ∷ [];
  }

  -- Nothing where the SDK is not initialised.
  unfoldable pub configure_sentry : SentrySettings → Option SentryInit
  configure_sentry config = if config.sentry_enabled then some (initialised config) else none
