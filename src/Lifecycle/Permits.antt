-- ===== src/Lifecycle/Permits.antt =====
-- What a permission of a peer makes of the phase of an owner.
use eq_site_cms_vk_service.Lifecycle.Changes.{Follows-update}
use eq_site_cms_vk_service.Repositories.Selected.{one_or_none-only}
use eq_site_cms_vk_service.Services.State.Moved.{in_new_state}
use eq_site_cms_vk_service.Repositories.Query.{one_or_none}
use eq_site_cms_vk_service.Exec.{ok}
use eq_site_cms_vk_service.Consistency.Rows.{Distinct-in_state}
use eq_site_cms_vk_service.Repositories.UserVks.Effects.{live_of_user}
use eq_site_cms_vk_service.Consistency.Base.{AreConsistent}
use eq_site_cms_vk_service.Steps.Base.{permits}
use eq_site_cms_vk_service.Db.{
  active, blocked, state_eq, BindingState, pending, DateTime, VkConfirmation, UserVk, Uuid,
}
use eq_site_cms_vk_service.Shared.{
  is_none, ==ℤ_refl, ◌&&◌, none, ==ℤ_iff, ap, ◌≢◌, some, if◌then◌else◌, arith, Option, ℤ, Member,
  select, update_where, List, ◌≡◌, refl, sym, ◌∙◌, inl, inr, Bool, true, false,
}
use eq_site_cms_vk_service.Lifecycle.Base.{phase_in, after, Follows, phase_among, phase_of}
use eq_site_cms_vk_service.Repositories.UserVks
use eq_site_cms_vk_service.Repositories.UserVks.{
  is_live, live_with_id, activated, same_peer, created,
}

-- A permission of a peer tells the phase of a link that is settled.
permitted :
    (owner : Uuid) (peer : ℤ) (s state : BindingState)
    → state_eq s pending ≡ false
    → state ≢ pending
    → Follows owner (permits peer state) (phase_in s (some peer)) (phase_in state (some peer))
unfolding after phase_in state_eq
permitted owner peer pending state e n = absurd (cc e)
permitted owner peer active pending e n = absurd (n refl)
permitted owner peer blocked pending e n = absurd (n refl)
permitted owner peer active active e n = inl refl
permitted owner peer active blocked e n = inr (rw (==ℤ_refl peer) refl)
permitted owner peer blocked active e n = inr (rw (==ℤ_refl peer) refl)
permitted owner peer blocked blocked e n = inl refl

peer_is : (p : Option ℤ) (peer : ℤ) → same_peer p (some peer) ≡ true → p ≡ some peer
unfolding same_peer
peer_is none peer e = absurd (cc e)
peer_is (some q) peer e = ap some ((==ℤ_iff q peer).0 e)

module _ {rows : List UserVk} {codes : List VkConfirmation} (h : AreConsistent rows codes)
    (owner : Uuid) where
  pub Follows-move :
      (peer : ℤ) (state : BindingState) (b : UserVk) (at : DateTime)
      → state ≢ pending
      → one_or_none (select (λ (r : UserVk). same_peer r.vk_peer_id (some peer) && is_live r) rows)
        ≡ ok (some b)
      → Follows owner
          (permits peer state)
          (phase_among owner rows)
          (phase_among owner (update_where (live_with_id b.id) (in_new_state state at) rows))
  unfolding UserVks.conflicts
  Follows-move peer state b at settled found =
      Follows-update owner (permits peer state) (live_with_id b.id) row rows h.bindings
        (Distinct-in_state (live_with_id b.id) state at rows h.bindings)
        (λ x. kept x (live_with_id b.id x)) (λ x m e. turned x m (live_with_id b.id x) refl)
    where
      row : UserVk → UserVk
      row = in_new_state state at

      only :
          (Member b rows × ((same_peer b.vk_peer_id (some peer) && is_live b) ≡ true))
          × ((x : UserVk)
              → Member x rows
              → (same_peer x.vk_peer_id (some peer) && is_live x) ≡ true
              → x ≡ b)
      only = one_or_none-only _ rows b found

      kept :
          (x : UserVk) (t : Bool)
          → live_of_user owner (if t then row x else x) ≡ live_of_user owner x
      kept x true = refl
      kept x false = refl

      same_id : (x : UserVk) → live_with_id b.id x ≡ true → UserVks.conflicts x b ≡ true
      same_id x e = let of_peer = only.0.1 in ground arith

      its_peer : b.vk_peer_id ≡ some peer
      its_peer =
          let of_peer = only.0.1 in
          let same : same_peer b.vk_peer_id (some peer) ≡ true = ground arith in
          peer_is b.vk_peer_id peer same

      turned :
          (x : UserVk)
          → Member x rows
          → (t : Bool) → live_with_id b.id x ≡ t
          → Follows owner (permits peer state) (phase_of x) (phase_of (if t then row x else x))
      turned x m false e = inl refl
      turned x m true e =
          let same : x ≡ b = h.bindings x b m only.0.0 (same_id x e) in
          let its : x.vk_peer_id ≡ some peer = rw (same) its_peer in
          let not_pending : state_eq x.state pending ≡ false = sym (h.peers x m) ∙ ap is_none its in
          rw (its) (permitted owner peer x.state state not_pending settled)
