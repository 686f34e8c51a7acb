-- ===== src/Bot/Replies.antt =====
-- src/bot/replies.py: what the bot answers.
use eq_site_cms_vk_service.Shared.{ℕ, String}

abbrev pub chat_peer_threshold : ℕ
chat_peer_threshold = 2_000_000_000

abbrev pub linked : String
linked =
    "Готово! Этот аккаунт VK привязан к вашему профилю EqSiteCMS. Уведомления будут приходить в этот диалог."

abbrev pub already_linked : String
already_linked =
    "Этот аккаунт VK уже привязан к вашему профилю EqSiteCMS, повторное подтверждение не требуется."

abbrev pub code_invalid : String
code_invalid =
    "Код не подходит. Получите новый код в настройках уведомлений EqSiteCMS и отправьте его снова."

abbrev pub code_used : String
code_used = "Этот код уже использован. Получите новый код в настройках уведомлений EqSiteCMS."

abbrev pub code_expired : String
code_expired = "Срок действия кода истёк. Получите новый код в настройках уведомлений EqSiteCMS."

abbrev pub peer_conflict : String
peer_conflict =
    "Этот аккаунт VK уже привязан к другому профилю EqSiteCMS. Сначала отвяжите его в настройках."

abbrev pub rate_limited : String
rate_limited = "Слишком много неудачных попыток. Попробуйте ещё раз позже."

abbrev pub join : String → String → String
join String.[] t = t
join (String.◌∷◌ c s) t = String.◌∷◌ c (join s t)

-- `replies.instruction`
abbrev pub instruction : String → String
instruction link_command =
    join "Чтобы привязать аккаунт VK к профилю EqSiteCMS, отправьте сообщение в формате «" (
      join link_command
        " КОД». Код можно получить в CMS: «Уведомления» → «Настройки» → «VK для уведомлений».")
