-- ===== src/Services/Uncommitted.antt =====
-- No domain service commits: the transaction is its caller's.
use eq_site_cms_vk_service.Text.{Text}
use eq_site_cms_vk_service.Exec.Preserves.{
  Preserves-if, Preserves-pure, Preserves-bind, Uncommitted,
}
use eq_site_cms_vk_service.Exec.{pure, ◌>>=◌}
use eq_site_cms_vk_service.Shared.{is_none, ◌∷◌, arith, some, String, suc, Option, ℕ, ℤ}
use eq_site_cms_vk_service.Errors.{Error}
use eq_site_cms_vk_service.Db.{UserVk, DateTime, Action, VkConfirmation, BindingState, Uuid}
use eq_site_cms_vk_service.Services.Code.{normalize_code, generate_code, draw_chars, draw_char}
use eq_site_cms_vk_service.Services.Messenger.{get_profile, send_message}
use eq_site_cms_vk_service.Services.Binding.{
  issue_for, use_or_create, read_again, unlink_found, create_failed, notify_unlinked,
  BindingSettings, create_unique_code, unlink_binding, issue_new, issue_confirmation,
  ensure_binding, unique_code_from, unlink,
}
use eq_site_cms_vk_service.Services.State.{move, transition}
use eq_site_cms_vk_service.Services.Time.{minus_minutes, plus_minutes}
use eq_site_cms_vk_service.Services.Confirm.{
  attempt, confirm_binding, confirm_again, activate_failed, link, confirm_unused,
  ConfirmationSettings, confirm_found, confirm_attempt, confirm, Attempt, enforce_rate_limit,
  link_live,
}
use eq_site_cms_vk_service.Shared.{refl, zero, suc, none, some}
use eq_site_cms_vk_service.Errors.{app, AppErrorClass}
use eq_site_cms_vk_service.Db.{pending, active, blocked}
use eq_site_cms_vk_service.Repositories.Uncommitted.{get_by_code-Uncommitted, repository_rules}

move-Uncommitted :
    (peer : ℤ) (state : BindingState) (action : Action) (b : Option UserVk)
    → Uncommitted (move peer state action b)
move-Uncommitted peer state action none = search repository_rules
move-Uncommitted peer state action (some b) = search repository_rules

pub transition-Uncommitted :
    (peer : ℤ) (state : BindingState) (action : Action) → Uncommitted (transition peer state action)
unfolding transition
transition-Uncommitted peer state action = search (repository_rules, move-Uncommitted)

plus_minutes-Uncommitted : (t : DateTime) (m : ℕ) → Uncommitted (plus_minutes t m)
unfolding plus_minutes ◌>>=◌
plus_minutes-Uncommitted t m = record { at = λ env w. ground arith }

minus_minutes-Uncommitted : (t : DateTime) (m : ℕ) → Uncommitted (minus_minutes t m)
unfolding minus_minutes ◌>>=◌
minus_minutes-Uncommitted t m = record { at = λ env w. ground arith }

pub send_message-Uncommitted : (peer : ℤ) (text : String) → Uncommitted (send_message peer text)
unfolding send_message ◌>>=◌
send_message-Uncommitted peer text = record { at = λ env w. ground arith }

pub get_profile-Uncommitted : (peer : ℤ) → Uncommitted (get_profile peer)
unfolding get_profile ◌>>=◌
get_profile-Uncommitted peer = record { at = λ env w. refl }

draw_char-Uncommitted : Uncommitted draw_char
unfolding draw_char
draw_char-Uncommitted = record { at = λ env w. refl }

draw_chars-Uncommitted : (n : ℕ) → Uncommitted (draw_chars n)
unfolding draw_chars
draw_chars-Uncommitted zero = search repository_rules
draw_chars-Uncommitted (suc n) =
    Preserves-bind _ _ draw_char-Uncommitted
      λ c. Preserves-bind _ _ (draw_chars-Uncommitted n) λ s. Preserves-pure (c ∷ s)

generate_code-Uncommitted : (n : ℕ) → Uncommitted (generate_code n)
unfolding generate_code
generate_code-Uncommitted zero = search repository_rules
generate_code-Uncommitted (suc n) = draw_chars-Uncommitted (suc n)

unique_code_from-Uncommitted : (n k : ℕ) → Uncommitted (unique_code_from n k)
unfolding unique_code_from
unique_code_from-Uncommitted n zero = search repository_rules
unique_code_from-Uncommitted n (suc k) = Preserves-bind _ _ (generate_code-Uncommitted n) λ s.
    Preserves-bind _ _ (get_by_code-Uncommitted s) λ taken.
      Preserves-if (is_none taken) (pure s) (unique_code_from n k) (Preserves-pure s)
        (unique_code_from-Uncommitted n k)

read_again-Uncommitted : (e : Error) (b : Option UserVk) → Uncommitted (read_again e b)
read_again-Uncommitted e none = search repository_rules
read_again-Uncommitted e (some b) = search repository_rules

create_failed-Uncommitted : (owner : Uuid) (e : Error) → Uncommitted (create_failed owner e)
create_failed-Uncommitted owner (app AppErrorClass.already_exists m) =
    search (repository_rules, read_again-Uncommitted)
create_failed-Uncommitted owner (app _ m) = search repository_rules
create_failed-Uncommitted owner _ = search repository_rules

use_or_create-Uncommitted : (owner : Uuid) (b : Option UserVk) → Uncommitted (use_or_create owner b)
use_or_create-Uncommitted owner none = search (repository_rules, create_failed-Uncommitted)
use_or_create-Uncommitted owner (some b) = search repository_rules

pub ensure_binding-Uncommitted : (owner : Uuid) → Uncommitted (ensure_binding owner)
unfolding ensure_binding
ensure_binding-Uncommitted owner = search (repository_rules, use_or_create-Uncommitted)

issue_for-Uncommitted :
    (settings : BindingSettings) (owner : Uuid) (b : UserVk) (state : BindingState)
    → Uncommitted (issue_for settings owner b state)
unfolding issue_new create_unique_code
issue_for-Uncommitted settings owner b active = search repository_rules
issue_for-Uncommitted settings owner b blocked = search repository_rules
issue_for-Uncommitted settings owner b pending =
    search (repository_rules, unique_code_from-Uncommitted, plus_minutes-Uncommitted) depth 9

pub issue_confirmation-Uncommitted :
    (settings : BindingSettings) (owner : Uuid) → Uncommitted (issue_confirmation settings owner)
unfolding issue_confirmation
issue_confirmation-Uncommitted settings owner =
    search (repository_rules, ensure_binding-Uncommitted, issue_for-Uncommitted)

notify_unlinked-Uncommitted :
    (state : BindingState) (peer : Option ℤ) → Uncommitted (notify_unlinked state peer)
notify_unlinked-Uncommitted active (some p) = search (repository_rules, send_message-Uncommitted)
notify_unlinked-Uncommitted active none = search repository_rules
notify_unlinked-Uncommitted pending p = search repository_rules
notify_unlinked-Uncommitted blocked p = search repository_rules

unlink_found-Uncommitted : (owner : Uuid) (b : Option UserVk) → Uncommitted (unlink_found owner b)
unfolding unlink_binding
unlink_found-Uncommitted owner none = search repository_rules
unlink_found-Uncommitted owner (some b) =
    search (repository_rules, notify_unlinked-Uncommitted) depth 9

pub unlink-Uncommitted : (owner : Uuid) → Uncommitted (unlink owner)
unfolding unlink
unlink-Uncommitted owner = search (repository_rules, unlink_found-Uncommitted)

activate_failed-Uncommitted :
    (a : Attempt) (c : VkConfirmation) (e : Error) → Uncommitted (activate_failed a c e)
activate_failed-Uncommitted a c (app AppErrorClass.already_exists m) = search repository_rules
activate_failed-Uncommitted a c (app _ m) = search repository_rules
activate_failed-Uncommitted a c _ = search repository_rules

confirm_binding-Uncommitted :
    (a : Attempt) (c : VkConfirmation) (b : Option UserVk) → Uncommitted (confirm_binding a c b)
unfolding link_live link
confirm_binding-Uncommitted a c none = search repository_rules depth 7
confirm_binding-Uncommitted a c (some b) =
    search (repository_rules, activate_failed-Uncommitted) depth 9

confirm_again-Uncommitted :
    (a : Attempt) (c : VkConfirmation) (b : Option UserVk) → Uncommitted (confirm_again a c b)
confirm_again-Uncommitted a c none = search repository_rules depth 7
confirm_again-Uncommitted a c (some b) = search repository_rules depth 7

confirm_found-Uncommitted :
    (a : Attempt) (c : Option VkConfirmation) → Uncommitted (confirm_found a c)
unfolding confirm_found confirm_unused
confirm_found-Uncommitted a none = search repository_rules depth 7
confirm_found-Uncommitted a (some c) =
    search (repository_rules, confirm_again-Uncommitted, confirm_binding-Uncommitted) depth 9

enforce_rate_limit-Uncommitted :
    (settings : ConfirmationSettings) (a : Attempt) → Uncommitted (enforce_rate_limit settings a)
unfolding enforce_rate_limit
enforce_rate_limit-Uncommitted settings a =
    search (repository_rules, minus_minutes-Uncommitted) depth 9

confirm_attempt-Uncommitted :
    (settings : ConfirmationSettings) (a : Attempt) → Uncommitted (confirm_attempt settings a)
unfolding confirm_attempt
confirm_attempt-Uncommitted settings a =
    search (repository_rules, enforce_rate_limit-Uncommitted, confirm_found-Uncommitted)

pub confirm-Uncommitted :
    (settings : ConfirmationSettings) (raw : Text) (peer : ℤ)
    (screen_name display_name : Option Text)
    → Uncommitted (confirm settings raw peer screen_name display_name)
unfolding confirm ◌>>=◌
confirm-Uncommitted settings raw peer screen_name display_name = record {
  at = λ env w.
      (confirm_attempt-Uncommitted settings
          (attempt (normalize_code env.unicode raw) peer screen_name display_name)).at
        env w;
}
