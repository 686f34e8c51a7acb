-- ===== src/MainBackend/Outcomes.antt =====
-- What `get_users` asks for and how it ends.
use eq_site_cms_vk_service.MainBackend.Base.{
  timeout_error, connection_error, response_error, Answer, got, client_error, timed_out,
  other_error, Response, Outcome, returned, raised, escaped, of_status,
}
use eq_site_cms_vk_service.Shared.{◌≡◌, ◌⊎◌, Bool, true, false, ◌==◌}
use eq_site_cms_vk_service.Text.{Text}

-- The kinds of failure of what is called.
pub data Failure : Type 0 where
  of_client of_time of_other : Failure

unfoldable pub is_failure : {A : Type 0} → Failure → Answer A → Bool
is_failure of_client (client_error _) = true
is_failure of_time timed_out = true
is_failure of_other other_error = true
is_failure _ _ = false

-- The request, or reading its response, has failed in this way.
abbrev pub Arises : {Users : Type 0} → Failure → Answer (Response Users) → Type 0
Arises {Users} kind a =
    (is_failure kind a ≡ true)
    ⊎ ((r : Response Users) × (a ≡ got r)
        × ((is_failure kind r.users ≡ true) ⊎ (is_failure kind r.text ≡ true)))

-- Where an outcome comes from: a list of users only from a response with status 200; the error of a
-- response from one with another status, which it names, with its text; and any other from a failure of
-- its kind.
abbrev pub ComesFrom : {Users : Type 0} → Answer (Response Users) → Outcome Users → Type 0
ComesFrom {Users} a (returned users) =
    (r : Response Users) × (a ≡ got r) × (r.status ≡ 200) × (r.users ≡ got users)
ComesFrom {Users} a (raised (response_error status detail)) =
    (r : Response Users) × (a ≡ got r)
    × ((r.status == 200) ≡ false)
    × (text : Text) × (r.text ≡ got text)
    × (response_error status detail ≡ of_status r.status text)
ComesFrom {Users} a (raised (connection_error _)) = Arises of_client a
ComesFrom {Users} a (raised (timeout_error _)) = Arises of_time a
ComesFrom {Users} a escaped = Arises of_other a
