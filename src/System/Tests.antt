-- ===== src/System/Tests.antt =====
-- The whole service on a database that is empty at first.
use eq_site_cms_vk_service.Lifecycle.Base.{phase}
use eq_site_cms_vk_service.System.Lives.{
  no_link_without_message, is_message_from, is_with, serve_all-FollowsAll, FollowsAll,
}
use eq_site_cms_vk_service.System.Runs.{serve_all-IsConsistent}
use eq_site_cms_vk_service.Text.{text_eq, codes, upper, strip, split, casefold}
use mathlib.Core.List.{flat_map}
use eq_site_cms_vk_service.System.Replay.{spent_code_links_nobody}
use eq_site_cms_vk_service.Bot.Base.{parse_link_command}
use eq_site_cms_vk_service.Services.Code.{normalize_code}
use eq_site_cms_vk_service.Fixtures.{greeting, usual, calm, open_code}
use eq_site_cms_vk_service.Db.{empty_db, Uuid}
use eq_site_cms_vk_service.Shared.{
  refl, ◌≡◌, false, inl, select, ◌==ℤ◌, any, none, suc, some, pos, [], ◌∷◌, List,
}
use eq_site_cms_vk_service.Consistency.Base.{IsConsistent}
use eq_site_cms_vk_service.Services.Delivery.{SendVkCommand}
use eq_site_cms_vk_service.Exec.{World}
use eq_site_cms_vk_service.Consistency.Kept.{empty_db-IsConsistent}
use eq_site_cms_vk_service.System.Base.{
  Setup, Event, create_request, issue_request, message, message_deny, command, delete_request,
  serve_all, serve,
}

-- A payload is a command itself, and the identifier of a message is the successor of its correlation.
abbrev setup : Setup SendVkCommand Uuid
setup = record {
  binding = usual;
  confirmation = record { max_attempts = 5; attempt_window_minutes = 10 };
  dialog = record { link_command = "привязать"; dialog_url = "https://vk.me/eqsite" };
  link_command = "привязать";
  codec = record {
    command = λ payload. some payload;
    message_id = λ headers. some headers;
    expected_id = λ correlation. suc correlation;
  };
  parse_uuid = λ s. none;
}

abbrev nothing : World
nothing = record { db = empty_db; committed = empty_db; outbox = []; asked = 0 }

-- An owner asks for a code, somebody tries another one, the peer forbids messages, a command comes in,
-- and the owner unlinks.
abbrev day : List (Event SendVkCommand Uuid)
day =
    create_request 501
    ∷ issue_request 501
    ∷ message (pos 42) (pos 42) (codes "привязать abc23xyz")
    ∷ message_deny (pos 42)
    ∷ command greeting 902
    ∷ delete_request 501
    ∷ []

serve_all-IsConsistent_example : IsConsistent (serve_all setup day calm nothing).committed
serve_all-IsConsistent_example = serve_all-IsConsistent setup day calm nothing empty_db-IsConsistent

serve_all-FollowsAll_example :
    FollowsAll 501 day (phase 501 empty_db) (phase 501 (serve_all setup day calm nothing).committed)
serve_all-FollowsAll_example = serve_all-FollowsAll setup day calm nothing 501 empty_db-IsConsistent

-- The peer 43 writes nothing on that day.
no_link_without_message_example :
    is_with (pos 43) (phase 501 (serve_all setup day calm nothing).committed) ≡ false
unfolding is_with is_message_from any ◌==ℤ◌ select
no_link_without_message_example =
    no_link_without_message setup day calm nothing 501 (pos 43) empty_db-IsConsistent refl refl

-- The code was used before the day began.
abbrev spent_world : World
spent_world =
    let db = record empty_db { vk_confirmations = record open_code { used_at = some 3 } ∷ [] } in
    record { db = db; committed = db; outbox = []; asked = 0 }

spent_code_links_nobody_example :
    let w' = serve_all setup day calm spent_world in
    (serve setup
      (message (pos 43) (pos 43) (codes "привязать abc23xyz"))
      calm
      w').committed.user_vks
    ≡ w'.committed.user_vks
unfolding parse_link_command normalize_code upper flat_map strip split text_eq casefold
spent_code_links_nobody_example =
    spent_code_links_nobody setup day calm spent_world (pos 43) (pos 43)
      (codes "привязать abc23xyz") (codes "abc23xyz")
      (record open_code { used_at = some 3 }, inl refl, refl, refl) refl
