-- ===== src/Consistency/Changes.antt =====
-- The changes that the services make to the two tables keep the invariant.
use eq_site_cms_vk_service.Steps.Base.{Awaits}
use eq_site_cms_vk_service.Shared.{
  ◌≡◌, ◌≢◌, refl, sym, ◌∙◌, inl, inr, Bool, true, false, List, ◌∷◌, none, Member, any, is_none,
  update_where, Member-update_where, if◌then◌else◌,
}
use eq_site_cms_vk_service.Db.{DateTime, UserVk, VkConfirmation, pending, state_eq}
use eq_site_cms_vk_service.Repositories.UserVks.{is_unique}
use eq_site_cms_vk_service.Repositories.Confirmations
use eq_site_cms_vk_service.Repositories.Confirmations.{used, unused_of}
use eq_site_cms_vk_service.Consistency.Base.{AreConsistent}
use eq_site_cms_vk_service.Consistency.Rows.{
  confirmations-conflicts_comm, is_unique-Distinct, Distinct-cons, Distinct-used,
}

module _ {rows : List UserVk} {codes : List VkConfirmation} (h : AreConsistent rows codes) where
  -- A new PENDING binding.
  pub AreConsistent-insert :
      (b : UserVk)
      → b.state ≡ pending
      → b.vk_peer_id ≡ none
      → is_unique (b ∷ rows) ≡ true
      → AreConsistent (b ∷ rows) codes
  unfolding state_eq
  AreConsistent-insert b is_pending no_peer unique = record {
    bindings = is_unique-Distinct (b ∷ rows) unique;
    confirmations = h.confirmations;
    peers = λ x m. peer_of x m;
    awaited = λ c m e.
        let a = h.awaited c m e in
        record {
          binding = a.binding;
          stored = inr a.stored;
          is_owner = a.is_owner;
          live = a.live;
          is_pending = a.is_pending;
        };
    single = h.single;
  }
    where
      peer_of : (x : UserVk) → Member x (b ∷ rows) → is_none x.vk_peer_id ≡ state_eq x.state pending
      peer_of x (inl e) = rw (e, no_peer, is_pending) refl
      peer_of x (inr m) = h.peers x m

  -- An unused code that is left after some have been used was unused before, and was not one of them.
  pub left_unused :
      (p : VkConfirmation → Bool) (now : DateTime) (c : VkConfirmation)
      → Member c (update_where p (used now) codes)
      → c.used_at ≡ none
      → Member c codes × (p c ≡ false)
  left_unused p now c m e =
      let (x, n, made) = Member-update_where p (used now) c codes m in go x n (p x) refl made
    where
      go :
          (x : VkConfirmation)
          → Member x codes
          → (b : Bool) → p x ≡ b
          → c ≡ (if b then used now x else x)
          → Member c codes × (p c ≡ false)
      go x n true t made = absurd (cc (e, made))
      go x n false t made = (rw (made) n, rw (made) t)

  -- Using some codes.
  pub AreConsistent-use :
      (p : VkConfirmation → Bool) (now : DateTime)
      → AreConsistent rows (update_where p (used now) codes)
  AreConsistent-use p now = record {
    bindings = h.bindings;
    confirmations = Distinct-used p now codes h.confirmations;
    peers = h.peers;
    awaited = λ c m e. h.awaited c ((left_unused p now c m e).0) e;
    single = λ c d m n e f g.
        h.single c d ((left_unused p now c m e).0) ((left_unused p now d n f).0) e f g;
  }

  -- A new code for a live PENDING binding that has no unused one.
  pub AreConsistent-issue :
      (c : VkConfirmation)
      → c.used_at ≡ none
      → any (Confirmations.conflicts c) codes ≡ false
      → Awaits c rows
      → ((d : VkConfirmation) → Member d codes → d.used_at ≡ none → d.user_vk_id ≢ c.user_vk_id)
      → AreConsistent rows (c ∷ codes)
  AreConsistent-issue c unused free owner alone = record {
    bindings = h.bindings;
    confirmations =
        Distinct-cons Confirmations.conflicts c codes confirmations-conflicts_comm free
          h.confirmations;
    peers = h.peers;
    awaited = λ d m e. awaited_by d m e;
    single = λ d d' m n e f g. same d d' m n e f g;
  }
    where
      awaited_by : (d : VkConfirmation) → Member d (c ∷ codes) → d.used_at ≡ none → Awaits d rows
      awaited_by d (inl x) e = rw (x) owner
      awaited_by d (inr m) e = h.awaited d m e

      same :
          (d d' : VkConfirmation)
          → Member d (c ∷ codes)
          → Member d' (c ∷ codes)
          → d.used_at ≡ none
          → d'.used_at ≡ none
          → d.user_vk_id ≡ d'.user_vk_id
          → d ≡ d'
      same d d' (inl x) (inl y) e f g = x ∙ sym y
      same d d' (inl x) (inr n) e f g = absurd (alone d' n f (cc (x, g)))
      same d d' (inr m) (inl y) e f g = absurd (alone d m e (cc (y, g)))
      same d d' (inr m) (inr n) e f g = h.single d d' m n e f g
