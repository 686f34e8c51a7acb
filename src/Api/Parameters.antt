-- ===== src/Api/Parameters.antt =====
-- src/api/endpoints/vks.py: the query parameters of `GET /vks`, and `GET /vks/bot-info` with the
-- properties of src/settings.py that it reads. `UUID(…)` is a parameter.
use eq_site_cms_vk_service.Shared.{Option, none, some, List, [], ◌∷◌, if◌then◌else◌, String}
use eq_site_cms_vk_service.Text.{text_eq, split_on_from, Text, Unicode, codes, strip}
use eq_site_cms_vk_service.Errors.{app, AppErrorClass, plain, with_text}
use eq_site_cms_vk_service.Db.{Uuid, BindingState, pending, active, blocked}
use eq_site_cms_vk_service.Exec.{Result, ok, err}
use eq_site_cms_vk_service.Repositories.Query.{is_empty}

abbrev pub bad_uuid : String
bad_uuid = "Некорректный идентификатор пользователя: "

abbrev pub no_ids : String
no_ids = "Параметр user_ids не содержит идентификаторов"

abbrev pub unknown_state : String
unknown_state = "Неизвестное состояние привязки: "

abbrev pub and_then : Uuid → Result (List Uuid) → Result (List Uuid)
and_then id (ok ids) = ok (id ∷ ids)
and_then id (err e) = err e

-- The first chunk that is no identifier raises.
abbrev pub append_parsed : Text → Option Uuid → Result (List Uuid) → Result (List Uuid)
append_parsed candidate none more =
    err (app AppErrorClass.client_error (with_text bad_uuid candidate))
append_parsed candidate (some id) more = and_then id more

abbrev pub require_ids : Result (List Uuid) → Result (List Uuid)
require_ids (ok []) = err (app AppErrorClass.client_error (plain no_ids))
require_ids other = other

module _ (u : Unicode) (parse_uuid : Text → Option Uuid) where
  unfoldable pub parse_chunks : List Text → Result (List Uuid)
  parse_chunks [] = ok []
  parse_chunks (chunk ∷ rest) =
      let candidate = strip u chunk in
      let more = parse_chunks rest in
      if is_empty candidate then more else append_parsed candidate (parse_uuid candidate) more

  unfoldable pub parse_user_ids : Text → Result (List Uuid)
  unfolding parse_chunks split_on_from
  parse_user_ids raw = require_ids (parse_chunks (split_on_from 44 [] raw))

abbrev pub known_state : Text → Option BindingState
known_state s =
    if text_eq s (codes "PENDING")
    then some pending
    else if text_eq s (codes "ACTIVE")
    then some active
    else if text_eq s (codes "BLOCKED")
    then some blocked
    else none

abbrev pub checked_state : Text → Option BindingState → Result (Option BindingState)
checked_state raw none = err (app AppErrorClass.client_error (with_text unknown_state raw))
checked_state raw (some state) = ok (some state)

-- `_validate_state`
unfoldable pub validate_state : Option Text → Result (Option BindingState)
validate_state none = ok none
validate_state (some raw) = checked_state raw (known_state raw)
