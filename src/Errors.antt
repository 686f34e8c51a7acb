-- ===== src/Errors.antt =====
-- src/core/exceptions/base.py, with the HTTP status of each class, and the exceptions of Python,
-- SQLAlchemy and the delivery service that the modelled code raises or catches.
use eq_site_cms_vk_service.Shared.{ℕ, ℤ, String}
use eq_site_cms_vk_service.Text.{Text}

-- The classes below `AppError`.
pub data AppErrorClass : Type 0 where
  app_error client_error not_found already_exists conflict gone rate_limited service_unavailable :
      AppErrorClass

-- A class without a `status_code` of its own has that of its base.
unfoldable pub status_code : AppErrorClass → ℕ
status_code AppErrorClass.app_error = 500
status_code AppErrorClass.client_error = 400
status_code AppErrorClass.not_found = 404
status_code AppErrorClass.already_exists = 409
status_code AppErrorClass.conflict = 409
status_code AppErrorClass.gone = 410
status_code AppErrorClass.rate_limited = 429
status_code AppErrorClass.service_unavailable = 503

-- A message, with the value that an f-string ends in.
pub data Message : Type 0 where
  plain : String → Message
  with_uuid : String → ℕ → Message
  with_peer : String → ℤ → Message
  with_text : String → Text → Message

pub data Error : Type 0 where
  app : AppErrorClass → Message → Error
  value_error overflow_error : Error
  integrity_error data_error no_result_found multiple_results_found : Error
  delivery_retryable : Error
  -- of the client of NATS
  nats_error : Error
