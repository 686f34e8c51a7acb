-- ===== src/Lifecycle/Base.antt =====
-- The abstract view of the bindings, and how an event may change it.
use eq_site_cms_vk_service.Shared.{ℤ, Option, none, some, List, [], ◌∷◌, select}
use eq_site_cms_vk_service.Db.{Uuid, UserVk, BindingState, pending, active, blocked, Db}
use eq_site_cms_vk_service.Repositories.UserVks.Effects.{live_of_user}
use eq_site_cms_vk_service.Shared.{
  ◌==◌, ◌==ℤ◌, ◌≡◌, refl, ◌∙◌, ap, ◌⊎◌, inl, inr, Bool, true, false, if◌then◌else◌,
}
use eq_site_cms_vk_service.Steps.Base.{Cause, asks, leaves, writes, permits}

-- What a link is for its owner: not there; asked for; with a peer that lets the group write; with one
-- that does not.
pub data Phase : Type 0 where
  absent : Phase
  waiting : Phase
  linked : ℤ → Phase
  muted : ℤ → Phase

unfoldable pub phase_in : BindingState → Option ℤ → Phase
phase_in pending _ = waiting
phase_in active (some peer) = linked peer
phase_in blocked (some peer) = muted peer
phase_in _ none = absent

abbrev pub phase_of : UserVk → Phase
phase_of b = phase_in b.state b.vk_peer_id

abbrev pub phase_of_first : List UserVk → Phase
phase_of_first [] = absent
phase_of_first (b ∷ _) = phase_of b

abbrev pub phase_among : Uuid → List UserVk → Phase
phase_among owner rows = phase_of_first (select (live_of_user owner) rows)

abbrev pub phase : Uuid → Db → Phase
phase owner db = phase_among owner db.user_vks

-- What becomes of the phase of an owner where an event does what it is for. A request of another
-- owner, and a permission of another peer, leaves it as it is.
unfoldable pub after : Uuid → Cause → Phase → Phase
after owner (asks asker) absent = if asker == owner then waiting else absent
after owner (leaves asker) p = if asker == owner then absent else p
after owner (writes peer) waiting = linked peer
after owner (permits peer blocked) (linked q) = if q ==ℤ peer then muted q else linked q
after owner (permits peer active) (muted q) = if q ==ℤ peer then linked q else muted q
after owner _ p = p

-- The phase of an owner stays, or becomes what it should.
abbrev pub Follows : Uuid → Cause → Phase → Phase → Type 0
Follows owner cause p q = (q ≡ p) ⊎ (q ≡ after owner cause p)

settled :
    (f : Phase → Phase) (b : Bool) (p q : Phase)
    → f p ≡ p
    → f q ≡ (if b then p else q)
    → f (if b then p else q) ≡ (if b then p else q)
settled f true p q e h = e
settled f false p q e h = h

if_same : (b : Bool) (p : Phase) → (if b then p else p) ≡ p
if_same true p = refl
if_same false p = refl

after_twice :
    (owner : Uuid) (cause : Cause) (p : Phase)
    → after owner cause (after owner cause p) ≡ after owner cause p
unfolding after
after_twice owner (asks asker) absent =
    settled (after owner (asks asker)) (asker == owner) waiting absent refl refl
after_twice owner (leaves asker) p =
    settled (after owner (leaves asker)) (asker == owner) absent p (if_same (asker == owner) absent)
      refl
after_twice owner (writes peer) waiting = refl
after_twice owner (permits peer blocked) (linked q) =
    settled (after owner (permits peer blocked)) (q ==ℤ peer) (muted q) (linked q) refl refl
after_twice owner (permits peer active) (muted q) =
    settled (after owner (permits peer active)) (q ==ℤ peer) (linked q) (muted q) refl refl
after_twice owner _ p = refl

-- Two changes for one cause are one.
pub Follows-trans :
    (owner : Uuid) (cause : Cause) (p q r : Phase)
    → Follows owner cause p q
    → Follows owner cause q r
    → Follows owner cause p r
Follows-trans owner cause p q r (inl e) h = rw (← e) h
Follows-trans owner cause p q r (inr e) (inl f) = inr (f ∙ e)
Follows-trans owner cause p q r (inr e) (inr f) =
    inr (f ∙ ap (after owner cause) e ∙ after_twice owner cause p)
