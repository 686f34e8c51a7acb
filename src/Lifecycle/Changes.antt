-- ===== src/Lifecycle/Changes.antt =====
-- What each change of the rows makes of the phase of an owner.
use eq_site_cms_vk_service.Consistency.Rows.{Distinct-deleted}
use eq_site_cms_vk_service.Text.{Text}
use eq_site_cms_vk_service.Repositories.UserVks.Effects.{deleted, live_of_user}
use eq_site_cms_vk_service.Consistency.Base.{AreConsistent, Distinct}
use eq_site_cms_vk_service.Steps.Base.{leaves, writes, Awaits, asks, Cause}
use eq_site_cms_vk_service.Db.{pending, DateTime, VkConfirmation, UserVk, Uuid}
use eq_site_cms_vk_service.Shared.{
  if◌then◌else◌, arith, ◌==◌, ◌∷◌, Member-update_where, Option, [], update_where-Member, ℤ, Member,
  updated, select, update_where, List, ◌≡◌, refl, sym, ◌∙◌, inl, inr, Bool, true, false,
}
use eq_site_cms_vk_service.Lifecycle.Base.{phase_in, after, Follows, phase_among, phase_of}
use eq_site_cms_vk_service.Repositories.UserVks
use eq_site_cms_vk_service.Repositories.UserVks.{
  is_live, live_with_id, activated, same_peer, created,
}
use eq_site_cms_vk_service.Lifecycle.Rows.{phase_among-Member, phase_among-absent, live-cases}

-- An update that keeps the live rows of an owner.
pub Follows-update :
    (owner : Uuid) (cause : Cause) (p : UserVk → Bool) (f : UserVk → UserVk) (rows : List UserVk)
    → Distinct UserVks.conflicts rows
    → Distinct UserVks.conflicts (update_where p f rows)
    → ((x : UserVk) → live_of_user owner (updated p f x) ≡ live_of_user owner x)
    → ((b : UserVk)
        → Member b rows
        → live_of_user owner b ≡ true
        → Follows owner cause (phase_of b) (phase_of (updated p f b)))
    → Follows owner cause (phase_among owner rows) (phase_among owner (update_where p f rows))
Follows-update owner cause p f rows distinct distinct' same each = elim (live-cases owner rows) [
  | inl (b, m, e) ↦
      let before = phase_among-Member owner rows b distinct m e in
      let after =
        phase_among-Member owner (update_where p f rows) (updated p f b) distinct'
          (update_where-Member p f b rows m) (same b ∙ e) in
      rw (before, after) (each b m e)
  | inr h ↦
      let before = phase_among-absent owner rows h in
      let after = phase_among-absent owner (update_where p f rows) (λ y m.
        let (x, n, made) = Member-update_where p f y rows m in rw (made) (same x ∙ h x n)) in
      inl (after ∙ sym before)
]

module _ {rows : List UserVk} {codes : List VkConfirmation} (h : AreConsistent rows codes)
    (owner : Uuid) where
  pub Follows-link :
      (c : VkConfirmation) (peer : ℤ) (screen_name display_name : Option Text) (at : DateTime)
      → Awaits c rows
      → Distinct UserVks.conflicts (
          update_where
            (live_with_id c.user_vk_id)
            (activated peer screen_name display_name at)
            rows)
      → Follows owner (writes peer) (phase_among owner rows) (
          phase_among owner (
            update_where
              (live_with_id c.user_vk_id)
              (activated peer screen_name display_name at)
              rows))
  unfolding UserVks.conflicts after phase_in
  Follows-link c peer screen_name display_name at a distinct' =
      Follows-update owner (writes peer) target row rows h.bindings distinct'
        (λ x. kept x (target x)) (λ b m e. turned b m (target b) refl)
    where
      target : UserVk → Bool
      target = live_with_id c.user_vk_id

      row : UserVk → UserVk
      row = activated peer screen_name display_name at

      kept :
          (x : UserVk) (t : Bool)
          → live_of_user owner (if t then row x else x) ≡ live_of_user owner x
      kept x true = refl
      kept x false = refl

      same_id : (x : UserVk) → target x ≡ true → UserVks.conflicts x a.binding ≡ true
      same_id x e = let owned = a.is_owner in ground arith

      turned :
          (b : UserVk)
          → Member b rows
          → (t : Bool) → target b ≡ t
          → Follows owner (writes peer) (phase_of b) (phase_of (if t then row b else b))
      turned b m false e = inl refl
      turned b m true e =
          let same : b ≡ a.binding = h.bindings b a.binding m a.stored (same_id b e) in
          let is_pending : b.state ≡ pending = rw (same) a.is_pending in rw (is_pending) (inr refl)

  pub Follows-insert :
      (asker id : Uuid) (now : DateTime)
      → select (live_of_user asker) rows ≡ []
      → Follows owner
          (asks asker)
          (phase_among owner rows)
          (phase_among owner (created asker id now ∷ rows))
  unfolding select after phase_in
  Follows-insert asker id now empty = go (asker == owner) refl
    where
      go :
          (t : Bool)
          → (asker == owner) ≡ t
          → Follows owner
              (asks asker)
              (phase_among owner rows)
              (phase_among owner (created asker id now ∷ rows))
      go false e = rw (e) (inl refl)
      go true e =
          let same : owner ≡ asker = ground arith in
          let none : select (live_of_user owner) rows ≡ [] = rw (same) empty in
          rw (e, none, e) (inr refl)

  pub Follows-unlink :
      (asker : Uuid) (at : DateTime)
      → Follows owner
          (leaves asker)
          (phase_among owner rows)
          (phase_among owner (update_where (live_of_user asker) (deleted at) rows))
  unfolding after
  Follows-unlink asker at = go (asker == owner) refl
    where
      row : UserVk → UserVk
      row = deleted at

      gone :
          (x : UserVk) (t : Bool)
          → asker ≡ owner
          → live_of_user asker x ≡ t
          → live_of_user owner (if t then row x else x) ≡ false
      gone x true same e = ground arith
      gone x false same e = rw (← same) e

      other :
          (x : UserVk) (t : Bool)
          → (asker == owner) ≡ false
          → live_of_user asker x ≡ t
          → live_of_user owner (if t then row x else x) ≡ live_of_user owner x
      other x true differs e = ground arith
      other x false differs e = refl

      stays :
          (x : UserVk) (t : Bool)
          → (asker == owner) ≡ false
          → live_of_user asker x ≡ t
          → live_of_user owner x ≡ true
          → Follows owner (leaves asker) (phase_of x) (phase_of (if t then row x else x))
      stays x true differs e live = let both : ⊥ = ground arith in absurd both
      stays x false differs e live = inl refl

      go :
          (t : Bool)
          → (asker == owner) ≡ t
          → Follows owner
              (leaves asker)
              (phase_among owner rows)
              (phase_among owner (update_where (live_of_user asker) row rows))
      go true e =
          let same : asker ≡ owner = ground arith in
          rw (e) (
            inr (
              phase_among-absent owner (update_where (live_of_user asker) row rows) (λ y m.
                let (x, n, made) = Member-update_where (live_of_user asker) row y rows m in
                rw (made) (gone x (live_of_user asker x) same refl))))
      go false e =
          Follows-update owner (leaves asker) (live_of_user asker) row rows h.bindings
            (Distinct-deleted (live_of_user asker) at rows h.bindings)
            (λ x. other x (live_of_user asker x) e refl)
            (λ b m live. stays b (live_of_user asker b) e refl live)
