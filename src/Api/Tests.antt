-- ===== src/Api/Tests.antt =====
-- Requests on concrete rows.
use eq_site_cms_vk_service.Api.Checked.{IsComplete, parse_user_ids-IsComplete}
use eq_site_cms_vk_service.Api.Parameters.{parse_user_ids}
use eq_site_cms_vk_service.Fixtures.{ascii}
use eq_site_cms_vk_service.Text.{split_on_from, Text, codes}
use eq_site_cms_vk_service.Shared.{[], Option, some, none, length, ◌==◌, if◌then◌else◌}
use eq_site_cms_vk_service.Db.{Uuid}
use eq_site_cms_vk_service.Api.Endpoints.{Dialog, issue_with}
use eq_site_cms_vk_service.Api.Refusals.{issue_with-Uncommitted}
use eq_site_cms_vk_service.Api.Endpoints.{post_issue_confirmation}
use eq_site_cms_vk_service.Db.{active}
use eq_site_cms_vk_service.Api.Refusals.{post_issue_confirmation-Declined, IsDeclined, Declined}
use eq_site_cms_vk_service.Repositories.Query.{one, one_or_none}
use eq_site_cms_vk_service.Shared.{select}
use eq_site_cms_vk_service.Api.Session.{with_session}
use eq_site_cms_vk_service.Services.Binding.{issue_confirmation}
use eq_site_cms_vk_service.Api.Atomic.{fresh, with_session_is_atomic, AllOrNothing}
use eq_site_cms_vk_service.Shared.{select, refl, ◌≡◌}
use eq_site_cms_vk_service.Exec.{Ends}
use eq_site_cms_vk_service.Fixtures.{calm, start, usual, active_row}

abbrev page : Dialog
page = record { link_command = "привязать"; dialog_url = "https://vk.me/eqsite" }

with_session_is_atomic_example :
    AllOrNothing
      (issue_with usual page 501)
      calm
      start
      (with_session (issue_with usual page 501) calm start)
with_session_is_atomic_example =
    with_session_is_atomic (issue_with usual page 501) calm start
      (issue_with-Uncommitted usual page 501)

post_issue_confirmation-Declined_example :
    Ends
      (λ _ _. ⊥)
      (Declined active (fresh start))
      (issue_confirmation usual 502 calm (fresh start))
    × Ends
        (λ _ _. ⊥)
        (λ e w'. IsDeclined active e × (w'.committed ≡ start.committed))
        (post_issue_confirmation usual page 502 calm start)
unfolding select one_or_none one
post_issue_confirmation-Declined_example =
    post_issue_confirmation-Declined usual page 502 active_row calm start refl (λ e. cc e)

-- A text is an identifier where it has four characters.
abbrev four_characters : Text → Option Uuid
four_characters s = if length s == 4 then some 7 else none

parse_user_ids-IsComplete_example :
    IsComplete ascii four_characters
      (split_on_from 44 [] (codes " abcd,, efgh "))
      (parse_user_ids ascii four_characters (codes " abcd,, efgh "))
parse_user_ids-IsComplete_example =
    parse_user_ids-IsComplete ascii four_characters (codes " abcd,, efgh ")
