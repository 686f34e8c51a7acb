-- ===== src/Consistency/Base.antt =====
-- The invariant of the tables of src/models/user_vk.py and src/models/vk_confirmation.py.
use eq_site_cms_vk_service.Steps.Base.{Awaits}
use eq_site_cms_vk_service.Shared.{◌≡◌, Bool, true, none, List, Member, is_none}
use eq_site_cms_vk_service.Db.{UserVk, VkConfirmation, Db, pending, state_eq}
use eq_site_cms_vk_service.Repositories.UserVks
use eq_site_cms_vk_service.Repositories.Confirmations

-- Rows in conflict are one row.
abbrev pub Distinct : {A : Type 0} → (A → A → Bool) → List A → Type 0
Distinct {A} conflicts xs = (x y : A) → Member x xs → Member y xs → conflicts x y ≡ true → x ≡ y

-- The primary keys and the unique indexes of both tables hold; a binding has no peer exactly where it is PENDING; every unused
-- code is for a live PENDING binding; and a binding has at most one unused code.
pub record AreConsistent (rows : List UserVk) (codes : List VkConfirmation) : Type 0 where
  pub bindings : Distinct UserVks.conflicts rows
  pub confirmations : Distinct Confirmations.conflicts codes
  pub peers : (b : UserVk) → Member b rows → is_none b.vk_peer_id ≡ state_eq b.state pending
  pub awaited : (c : VkConfirmation) → Member c codes → c.used_at ≡ none → Awaits c rows
  pub single :
      (c d : VkConfirmation)
      → Member c codes
      → Member d codes
      → c.used_at ≡ none
      → d.used_at ≡ none
      → c.user_vk_id ≡ d.user_vk_id
      → c ≡ d

abbrev pub IsConsistent : Db → Type 0
IsConsistent db = AreConsistent db.user_vks db.vk_confirmations
