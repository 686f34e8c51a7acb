-- ===== src/Consistency/Moves.antt =====
-- The changes of the services to the rows of the bindings keep the invariant.
use eq_site_cms_vk_service.Repositories.Selected.{one_or_none-only}
use eq_site_cms_vk_service.Shared.{
  ℤ, ◌≡◌, ◌≢◌, refl, sym, ap, ◌∙◌, inl, inr, Bool, true, false, List, none, some, Option, Member,
  is_none, select, updated, update_where, Member-update_where, update_where-Member, ◌&&◌, ◌==◌,
  arith, if◌then◌else◌, Bool-cases,
}
use eq_site_cms_vk_service.Text.{Text}
use eq_site_cms_vk_service.Db.{
  Uuid, DateTime, UserVk, VkConfirmation, BindingState, pending, active, blocked, state_eq,
}
use eq_site_cms_vk_service.Exec.{ok}
use eq_site_cms_vk_service.Repositories.Query.{one_or_none}
use eq_site_cms_vk_service.Repositories.UserVks
use eq_site_cms_vk_service.Repositories.UserVks.{
  is_unique, is_live, live_with_id, activated, same_peer,
}
use eq_site_cms_vk_service.Repositories.UserVks.Effects.{deleted, live_of_user}
use eq_site_cms_vk_service.Repositories.Confirmations.{used, unused_of}
use eq_site_cms_vk_service.Services.State.Moved.{in_new_state}
use eq_site_cms_vk_service.Consistency.Base.{Distinct, AreConsistent}
use eq_site_cms_vk_service.Consistency.Rows.{
  is_unique-Distinct, Distinct-deleted, Distinct-in_state,
}
use eq_site_cms_vk_service.Consistency.Changes.{left_unused, AreConsistent-use}

module _ {rows : List UserVk} {codes : List VkConfirmation} (h : AreConsistent rows codes) where
  -- An update that touches no row that an unused code awaits.
  AreConsistent-update :
      (p : UserVk → Bool) (f : UserVk → UserVk)
      → Distinct UserVks.conflicts (update_where p f rows)
      → ((b : UserVk)
          → Member b rows
          → p b ≡ true
          → is_none (f b).vk_peer_id ≡ state_eq (f b).state pending)
      → ((c : VkConfirmation) (m : Member c codes) (e : c.used_at ≡ none)
          → p (h.awaited c m e).binding ≡ false)
      → AreConsistent (update_where p f rows) codes
  AreConsistent-update p f distinct peers apart = record {
    bindings = distinct;
    confirmations = h.confirmations;
    peers = λ b m. peer_of b m;
    awaited = λ c m e.
        let a = h.awaited c m e in
        let same : updated p f a.binding ≡ a.binding = rw (apart c m e) refl in
        record {
          binding = a.binding;
          stored = rw (← same) (update_where-Member p f a.binding rows a.stored);
          is_owner = a.is_owner;
          live = a.live;
          is_pending = a.is_pending;
        };
    single = h.single;
  }
    where
      peer_of :
          (b : UserVk)
          → Member b (update_where p f rows)
          → is_none b.vk_peer_id ≡ state_eq b.state pending
      peer_of b m =
          let (x, n, made) = Member-update_where p f b rows m in rw (made) (go x n (p x) refl)
        where
          go :
              (x : UserVk)
              → Member x rows
              → (t : Bool) → p x ≡ t
              → is_none (if t then f x else x).vk_peer_id
                ≡ state_eq (if t then f x else x).state pending
          go x n true e = peers x n e
          go x n false e = h.peers x n

module _ {rows : List UserVk} {codes : List VkConfirmation} (h : AreConsistent rows codes) where
  -- Linking: the binding of an unused code is activated, and the code is used.
  pub AreConsistent-link :
      (c : VkConfirmation) (peer : ℤ) (screen_name display_name : Option Text) (at now : DateTime)
      → Member c codes
      → c.used_at ≡ none
      → is_unique (
          update_where
            (live_with_id c.user_vk_id)
            (activated peer screen_name display_name at)
            rows)
        ≡ true
      → AreConsistent
          (update_where
            (live_with_id c.user_vk_id)
            (activated peer screen_name display_name at)
            rows)
          (update_where (λ (r : VkConfirmation). r.id == c.id) (used now) codes)
  unfolding state_eq
  AreConsistent-link c peer screen_name display_name at now stored unused unique =
      AreConsistent-update (AreConsistent-use h (λ (r : VkConfirmation). r.id == c.id) now)
        (live_with_id c.user_vk_id) (activated peer screen_name display_name at)
        (is_unique-Distinct _ unique) (λ b m e. refl) apart
    where
      differs : (d : VkConfirmation) → d ≡ c → (d.id == c.id) ≡ false → ⊥
      differs d e f = let ids : d.id ≡ c.id = cc e in ground arith

      apart :
          (d : VkConfirmation)
          (m : Member d (update_where (λ (r : VkConfirmation). r.id == c.id) (used now) codes))
          (e : d.used_at ≡ none)
          → live_with_id c.user_vk_id
              ((AreConsistent-use h (λ (r : VkConfirmation). r.id == c.id) now).awaited d m
                e).binding
            ≡ false
      apart d m e =
          let (n, other) = left_unused h (λ (r : VkConfirmation). r.id == c.id) now d m e in
          let a = (AreConsistent-use h (λ (r : VkConfirmation). r.id == c.id) now).awaited d m e in
          elim (Bool-cases (live_with_id c.user_vk_id a.binding)) [
            | inr apart_from ↦ apart_from
            | inl touched ↦
                let owner : a.binding.id ≡ c.user_vk_id = ground arith in
                let same : d ≡ c = h.single d c n stored e unused (sym a.is_owner ∙ owner) in
                absurd (differs d same other)
          ]

  -- Unlinking: the unused codes of the owner's binding are used, and the binding is deleted.
  pub AreConsistent-unlink :
      (owner : Uuid) (b : UserVk) (now at : DateTime)
      → one_or_none (select (live_of_user owner) rows) ≡ ok (some b)
      → AreConsistent
          (update_where (live_of_user owner) (deleted at) rows)
          (update_where (unused_of b.id) (used now) codes)
  AreConsistent-unlink owner b now at found =
      AreConsistent-update (AreConsistent-use h (unused_of b.id) now) (live_of_user owner)
        (deleted at) (Distinct-deleted (live_of_user owner) at rows h.bindings)
        (λ x m e. h.peers x m) apart
    where
      mine :
          (d : VkConfirmation)
          → d.used_at ≡ none
          → unused_of b.id d ≡ false
          → d.user_vk_id ≡ b.id
          → ⊥
      mine d e f g = ground arith

      apart :
          (d : VkConfirmation) (m : Member d (update_where (unused_of b.id) (used now) codes))
          (e : d.used_at ≡ none)
          → live_of_user owner ((AreConsistent-use h (unused_of b.id) now).awaited d m e).binding
            ≡ false
      apart d m e =
          let (n, other) = left_unused h (unused_of b.id) now d m e in
          let a = (AreConsistent-use h (unused_of b.id) now).awaited d m e in
          elim (Bool-cases (live_of_user owner a.binding)) [
            | inr apart_from ↦ apart_from
            | inl touched ↦
                let same : a.binding ≡ b =
                  (one_or_none-only (live_of_user owner) rows b found).1 a.binding a.stored
                    touched in
                absurd (mine d e other (sym a.is_owner ∙ ap (λ (x : UserVk). x.id) same))
          ]

  -- A change of state of the live binding of a peer.
  pub AreConsistent-move :
      (peer : ℤ) (state : BindingState) (b : UserVk) (at : DateTime)
      → state ≢ pending
      → one_or_none (select (λ (r : UserVk). same_peer r.vk_peer_id (some peer) && is_live r) rows)
        ≡ ok (some b)
      → AreConsistent (update_where (live_with_id b.id) (in_new_state state at) rows) codes
  unfolding UserVks.conflicts same_peer state_eq
  AreConsistent-move peer state b at settled found =
      AreConsistent-update h (live_with_id b.id) (in_new_state state at)
        (Distinct-in_state (live_with_id b.id) state at rows h.bindings)
        (λ x m e.
          let same : x ≡ b = h.bindings x b m stored (same_id x e) in
          rw (has_peer x (rw (same) of_peer), is_settled state settled) refl)
        (λ c m e.
          let a = h.awaited c m e in
          elim (Bool-cases (live_with_id b.id a.binding)) [
            | inr apart_from ↦ apart_from
            | inl touched ↦
                let same : a.binding ≡ b =
                  h.bindings a.binding b a.stored stored (same_id a.binding touched) in
                absurd
                  (lonely a.binding a.is_pending (h.peers a.binding a.stored) (rw (same) of_peer))
          ])
    where
      only :
          (Member b rows × ((same_peer b.vk_peer_id (some peer) && is_live b) ≡ true))
          × ((x : UserVk)
              → Member x rows
              → (same_peer x.vk_peer_id (some peer) && is_live x) ≡ true
              → x ≡ b)
      only = one_or_none-only _ rows b found

      stored : Member b rows
      stored = only.0.0

      of_peer : (same_peer b.vk_peer_id (some peer) && is_live b) ≡ true
      of_peer = only.0.1

      same_id : (x : UserVk) → live_with_id b.id x ≡ true → UserVks.conflicts x b ≡ true
      same_id x e = ground arith

      has_peer :
          (x : UserVk)
          → (same_peer x.vk_peer_id (some peer) && is_live x) ≡ true
          → is_none x.vk_peer_id ≡ false
      has_peer x e = ground arith

      is_settled : (s : BindingState) → s ≢ pending → state_eq s pending ≡ false
      is_settled pending n = absurd (n refl)
      is_settled active n = refl
      is_settled blocked n = refl

      lonely :
          (x : UserVk)
          → x.state ≡ pending
          → is_none x.vk_peer_id ≡ state_eq x.state pending
          → (same_peer x.vk_peer_id (some peer) && is_live x) ≡ true
          → ⊥
      lonely x e f g = ground arith
