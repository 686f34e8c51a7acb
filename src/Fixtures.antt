-- ===== src/Fixtures.antt =====
-- A concrete outside and concrete rows for the tests.
use eq_site_cms_vk_service.Services.Delivery.{SendVkCommand}
use eq_site_cms_vk_service.Services.Binding.{BindingSettings}
use eq_site_cms_vk_service.Shared.{
  ◌+◌, ◌-◌, ◌*◌, pos, true, ◌&&◌, none, some, [], ◌∷◌, leb, ◌==◌, if◌then◌else◌,
}
use eq_site_cms_vk_service.Text.{Unicode, codes}
use eq_site_cms_vk_service.Db.{BindingState, UserVk, VkConfirmation, Db}
use eq_site_cms_vk_service.Exec.{Env, World}

-- Unicode restricted to ASCII.
abbrev pub ascii : Unicode
ascii = record {
  is_space = λ c. c == 32;
  upper = λ c. (if leb 97 c && leb c 122 then c - 32 else c) ∷ [];
  casefold = λ c. (if leb 65 c && leb c 90 then c + 32 else c) ∷ [];
}

-- Every answer comes a microsecond after the last one, from the year 2; VK accepts everything.
abbrev pub calm : Env
calm = record {
  now = λ n. 40_000_000_000_000 + n;
  server_now = λ n. 40_000_000_000_000 + n;
  uuid = λ n. 1000 + n;
  choice = λ n. n * 7;
  accepts = λ n peer text. true;
  users_get = λ n peer. none;
  answered = λ n acknowledged. true;
  unicode = ascii;
}

abbrev pub pending_row : UserVk
pending_row = record {
  id = 1;
  user_id = 501;
  vk_peer_id = none;
  state = BindingState.pending;
  vk_screen_name = none;
  vk_display_name = none;
  deleted_at = none;
  created_at = 1;
  updated_at = 1;
}

abbrev pub active_row : UserVk
active_row = record {
  id = 2;
  user_id = 502;
  vk_peer_id = some (pos 77);
  state = BindingState.active;
  vk_screen_name = some (codes "durov");
  vk_display_name = none;
  deleted_at = none;
  created_at = 1;
  updated_at = 1;
}

abbrev pub open_code : VkConfirmation
open_code = record {
  id = 11;
  user_vk_id = 1;
  code = codes "ABC23XYZ";
  expires_at = 40_000_001_000_000;
  created_at = 2;
  used_at = none;
}

abbrev pub two_bindings : Db
two_bindings = record {
  user_vks = pending_row ∷ active_row ∷ [];
  vk_confirmations = open_code ∷ [];
  vk_logs = [];
  vk_notification_deliveries = [];
}

abbrev pub start : World
start = record { db = two_bindings; committed = two_bindings; outbox = []; asked = 0 }

abbrev pub usual : BindingSettings
usual = record { ttl_minutes = 15; code_length = 8 }

abbrev pub greeting : SendVkCommand
greeting = record {
  event_uuid = 900;
  callback_request_id = 901;
  user_ids = 501 ∷ 502 ∷ [];
  text = "Добрый день";
}
