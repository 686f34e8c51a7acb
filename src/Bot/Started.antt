-- ===== src/Bot/Started.antt =====
-- When the bot starts to listen.
use eq_site_cms_vk_service.Repositories.Query.{is_empty}
use eq_site_cms_vk_service.Shared.{
  ℤ, pos, negsuc, zero, suc, not, ◌&&◌, ◌==◌, ◌≢◌, [], ◌∷◌, Bool-cases, inl, inr, arith, ◌≡◌, refl,
  true, false, some, Bool, ◌↔◌, if◌then◌else◌,
}
use eq_site_cms_vk_service.Text.{strip, Text, Unicode}
use eq_site_cms_vk_service.Api.BotInfo.{is_placeholder, VkSettings, is_positive, is_token_usable}
use eq_site_cms_vk_service.Bot.Preflight.{
  Access, granted, unreachable, rejected, problem_of, preflight, exit_after, exit_code,
}

-- VK has not rejected the token or the group.
abbrev pub IsOpen : Access → Type 0
IsOpen (rejected code text) = ⊥
IsOpen _ = Unit

-- A token with some character, the first of which does not open a placeholder.
abbrev pub IsUsable : Text → Type 0
IsUsable [] = ⊥
IsUsable (c ∷ rest) = c ≢ 60

abbrev pub IsPositive : ℤ → Type 0
IsPositive (pos zero) = ⊥
IsPositive (pos (suc n)) = Unit
IsPositive (negsuc n) = ⊥

IsUsable-iff :
    (token : Text) → ((not (is_empty token) && not (is_placeholder token)) ≡ true) ↔ IsUsable token
IsUsable-iff [] = ((λ e. absurd (cc e)), (λ h. absurd h))
IsUsable-iff (c ∷ rest) = elim (Bool-cases (c == 60)) [
  | inl e ↦ (
    (λ f. absurd (let g = unmarked (c == 60) f in cc (e, g))),
    (λ n. let same : c ≡ 60 = ground arith in absurd (n same)),
  )
  | inr e ↦ ((λ _. apart e), (λ _. rw (e) refl))
]
  where
    unmarked : (b : Bool) → not b ≡ true → b ≡ false
    unmarked true f = absurd (cc f)
    unmarked false f = refl

    apart : (c == 60) ≡ false → c ≢ 60
    apart e = ground arith

IsPositive-iff : (n : ℤ) → (is_positive n ≡ true) ↔ IsPositive n
IsPositive-iff (pos zero) = ((λ e. absurd (cc e)), (λ h. absurd h))
IsPositive-iff (pos (suc n)) = ((λ _. tt), (λ _. ground arith))
IsPositive-iff (negsuc n) = ((λ e. absurd (cc e)), (λ h. absurd h))

started_if :
    (usable positive : Bool) (access : Access) (missing : Text)
    → ((if usable then exit_after (if positive then problem_of access else some missing) else 1)
        ≡ 0)
      ↔ ((usable ≡ true) × (positive ≡ true) × IsOpen access)
started_if true true granted missing = ((λ _. (refl, refl, tt)), (λ _. refl))
started_if true true unreachable missing = ((λ _. (refl, refl, tt)), (λ _. refl))
started_if true true (rejected code text) missing = ((λ e. absurd (cc e)), (λ (_, _, x). absurd x))
started_if true false access missing = ((λ e. absurd (cc e)), (λ (_, e, _). absurd (cc e)))
started_if false positive access missing = ((λ e. absurd (cc e)), (λ (e, _, _). absurd (cc e)))

-- A process whose listening ends without an error of its own has status 0 exactly where the token, without
-- the whitespace around it, is not empty and does not begin with "<", the group's identifier is positive
-- and VK has not rejected the request for a long-poll server; that VK cannot be reached does not keep
-- the bot from starting.
pub exit_code_is_zero_iff :
    (u : Unicode) (settings : VkSettings) (access : Access)
    → (exit_code u settings access ≡ 0) ↔ (
        IsUsable (strip u settings.vk_group_token)
        × IsPositive settings.vk_group_id
        × IsOpen access)
unfolding exit_code preflight is_token_usable
exit_code_is_zero_iff u settings access =
    let usable = IsUsable-iff (strip u settings.vk_group_token) in
    let positive = IsPositive-iff settings.vk_group_id in
    let both =
      started_if (is_token_usable u settings) (is_positive settings.vk_group_id) access _ in
    (
      (λ e. let (a, b, c) = both.0 e in (usable.0 a, positive.0 b, c)),
      (λ (a, b, c). both.1 (usable.1 a, positive.1 b, c)),
    )
