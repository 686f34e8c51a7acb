-- ===== src/System/Lives.antt =====
-- The life of the link of each owner through any sequence of events.
use eq_site_cms_vk_service.Db.{active, blocked}
use eq_site_cms_vk_service.Shared.{
  ◌∙◌, inr, ◌==◌, inl, arith, true, any, if◌then◌else◌, List, [], ◌∷◌, refl,
}
use eq_site_cms_vk_service.Consistency.Base.{IsConsistent}
use eq_site_cms_vk_service.Exec.{World, Env}
use eq_site_cms_vk_service.Shared.{◌==ℤ◌, false, ◌∷◌, Bool, ◌≡◌, ℤ, List}
use eq_site_cms_vk_service.Db.{Uuid}
use eq_site_cms_vk_service.Steps.Base.{permits, leaves, asks, Cause, writes}
use eq_site_cms_vk_service.Lifecycle.Base.{
  Phase, Follows, phase, after, linked, muted, absent, waiting,
}
use eq_site_cms_vk_service.Lifecycle.Kept.{Steps-Follows}
use eq_site_cms_vk_service.Consistency.Kept.{Steps-IsConsistent}
use eq_site_cms_vk_service.System.Base.{Setup, Event, cause_of, serve, serve_all, message}
use eq_site_cms_vk_service.System.Runs.{serve-Steps}

-- A link goes from one phase to another through events, each of which leaves it or does what it is for.
unfoldable pub FollowsAll :
    {Payload Headers : Type 0} → Uuid → List (Event Payload Headers) → Phase → Phase → Type 0
FollowsAll owner [] p q = q ≡ p
FollowsAll owner (e ∷ rest) p q =
    (between : Phase) × Follows owner (cause_of e) p between × FollowsAll owner rest between q

module _ {Payload Headers : Type 0} (s : Setup Payload Headers) where
  -- From a consistent committed database, any sequence of requests, events of the bot and messages of
  -- the stream, however each of them ends, takes the link of every owner through the diagram of phases,
  -- event by event: a request of the owner turns an absent link into one that waits, or ends it; a
  -- message of a peer makes a link that waits one with that peer; a permission of the peer mutes the
  -- link and unmutes it; and no event does anything else to it.
  pub serve_all-FollowsAll :
      (events : List (Event Payload Headers)) (env : Env) (w : World) (owner : Uuid)
      → IsConsistent w.committed
      → FollowsAll owner events
          (phase owner w.committed)
          (phase owner (serve_all s events env w).committed)
  unfolding FollowsAll serve_all
  serve_all-FollowsAll [] env w owner h = refl
  serve_all-FollowsAll (e ∷ rest) env w owner h =
      let steps = serve-Steps s e env w in
      (
        phase owner (serve s e env w).committed,
        Steps-Follows owner steps h,
        serve_all-FollowsAll rest env (serve s e env w) owner (Steps-IsConsistent steps h),
      )

-- Whether a link is with a peer.
unfoldable pub is_with : ℤ → Phase → Bool
is_with peer (linked q) = q ==ℤ peer
is_with peer (muted q) = q ==ℤ peer
is_with peer _ = false

unfoldable pub is_message_from : {Payload Headers : Type 0} → ℤ → Event Payload Headers → Bool
is_message_from peer (message _ from_id _) = from_id ==ℤ peer
is_message_from peer _ = false

unfoldable is_by : ℤ → Cause → Bool
is_by peer (writes q) = q ==ℤ peer
is_by peer _ = false

is_by-cause_of :
    {Payload Headers : Type 0} (peer : ℤ) (e : Event Payload Headers)
    → is_by peer (cause_of e) ≡ is_message_from peer e
unfolding is_by cause_of is_message_from
is_by-cause_of peer (message _ from_id _) = refl
is_by-cause_of peer _ = refl

is_with-if :
    (peer : ℤ) (b : Bool) (p q : Phase)
    → is_with peer p ≡ false
    → is_with peer q ≡ false
    → is_with peer (if b then p else q) ≡ false
is_with-if peer true p q e f = e
is_with-if peer false p q e f = f

-- What is not a message of the peer makes no link with it.
is_with-after :
    (owner : Uuid) (peer : ℤ) (cause : Cause) (p : Phase)
    → is_with peer p ≡ false
    → is_by peer cause ≡ false
    → is_with peer (after owner cause p) ≡ false
unfolding after is_with is_by
is_with-after owner peer (asks asker) absent h f =
    is_with-if peer (asker == owner) waiting absent refl refl
is_with-after owner peer (leaves asker) p h f = is_with-if peer (asker == owner) absent p refl h
is_with-after owner peer (writes q) waiting h f = f
is_with-after owner peer (permits q blocked) (linked r) h f =
    is_with-if peer (r ==ℤ q) (muted r) (linked r) h h
is_with-after owner peer (permits q active) (muted r) h f =
    is_with-if peer (r ==ℤ q) (linked r) (muted r) h h
is_with-after owner peer _ p h f = h

module _ {Payload Headers : Type 0} (owner : Uuid) (peer : ℤ) where
  is_with-FollowsAll :
      (events : List (Event Payload Headers)) (p q : Phase)
      → FollowsAll owner events p q
      → is_with peer p ≡ false
      → any (is_message_from peer) events ≡ false
      → is_with peer q ≡ false
  unfolding FollowsAll any
  is_with-FollowsAll [] p q e h f = rw (e) h
  is_with-FollowsAll (e ∷ rest) p q (m, follows, all) h f =
      let here : is_message_from peer e ≡ false = ground arith in
      let later : any (is_message_from peer) rest ≡ false = ground arith in
      is_with-FollowsAll rest m q all
        (elim (follows) [
          | inl same ↦ rw (same) h
          | inr turned ↦
              rw (turned) (is_with-after owner peer (cause_of e) p h (is_by-cause_of peer e ∙ here))
        ])
        later

module _ {Payload Headers : Type 0} (s : Setup Payload Headers) where
  -- From a consistent committed database, an owner who has no link with a peer has none after any
  -- sequence of requests, events of the bot and messages of the stream, muted or not, in which this peer
  -- writes nothing to the bot.
  pub no_link_without_message :
      (events : List (Event Payload Headers)) (env : Env) (w : World) (owner : Uuid) (peer : ℤ)
      → IsConsistent w.committed
      → is_with peer (phase owner w.committed) ≡ false
      → any (is_message_from peer) events ≡ false
      → is_with peer (phase owner (serve_all s events env w).committed) ≡ false
  no_link_without_message events env w owner peer h before silent =
      is_with-FollowsAll owner peer events _ _ (serve_all-FollowsAll s events env w owner h) before
        silent
