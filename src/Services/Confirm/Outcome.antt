-- ===== src/Services/Confirm/Outcome.antt =====
-- How a confirmation ends, on every path.
use eq_site_cms_vk_service.Text.{text_eq}
use eq_site_cms_vk_service.Shared.{
  inl, inr, ◌&&◌, ℕ, ℤ, ◌⊎◌, ◌≡◌, sym, ◌∙◌, ◌∷◌, Option, none, some, true, false, is_none, select,
  ◌==◌, ◌<◌,
}
use eq_site_cms_vk_service.Errors.{AppErrorClass}
use eq_site_cms_vk_service.Db.{Uuid, UserVk, VkConfirmation, VkLog, LogStatus}
use eq_site_cms_vk_service.Exec.{Untouched, ok, Env, World, Ends, OnApp, Ends-then, Ends-if}
use eq_site_cms_vk_service.Repositories.Query.{one_or_none}
use eq_site_cms_vk_service.Repositories.UserVks.{is_live, same_peer}
use eq_site_cms_vk_service.Repositories.UserVks.Effects.{get_by_peer_id_lem}
use eq_site_cms_vk_service.Services.Confirm.Base.{
  refuse, Attempt, ConfirmationResult, already_confirmed, link, link_live, is_taken,
  is_same_peer_active, peer_taken,
}
use eq_site_cms_vk_service.Services.Confirm.Refused.{Ends-from, Refused, refuse_after}
use eq_site_cms_vk_service.Services.Confirm.Linked.{
  Linked, Linked-from, confirmation_of, conflict_details, link_lem,
}

-- The only row with a code, and the only one with an identifier.
abbrev pub ByCode : Attempt → World → Option VkConfirmation → Type 0
ByCode a w r =
    one_or_none (select (λ (c : VkConfirmation). text_eq c.code a.code) w.db.vk_confirmations)
    ≡ ok r

abbrev pub ById : Uuid → World → Option UserVk → Type 0
ById id w r = one_or_none (select (λ (b : UserVk). b.id == id) w.db.user_vks) ≡ ok r

abbrev pub ByPeer : ℤ → World → Option UserVk → Type 0
ByPeer peer_id w r =
    one_or_none
      (select (λ (b : UserVk). same_peer b.vk_peer_id (some peer_id) && is_live b) w.db.user_vks)
    ≡ ok r

-- The code was the unused and unexpired one of a live binding, the peer was free, and they have
-- been linked.
pub record Confirmed (env : Env) (a : Attempt) (w : World) (r : ConfirmationResult) (w' : World)
    : Type 0 where
  pub confirmation : VkConfirmation
  pub binding : UserVk
  pub occupied : Option UserVk
  pub read_at : ℕ
  pub found : ByCode a w (some confirmation)
  pub was_unused : confirmation.used_at ≡ none
  pub unexpired : env.now read_at < confirmation.expires_at
  pub owner : ById confirmation.user_vk_id w (some binding)
  pub live : binding.deleted_at ≡ none
  pub peer : ByPeer a.vk_peer_id w occupied
  pub free : is_taken confirmation.user_vk_id occupied ≡ false
  pub linked : Linked a confirmation binding w w'
  pub result : r ≡ confirmation_of confirmation binding

-- The code had been used before, and the peer is linked to its binding: only the log has grown.
pub record Repeated (a : Attempt) (w : World) (r : ConfirmationResult) (w' : World) : Type 0 where
  pub confirmation : VkConfirmation
  pub binding : UserVk
  pub row : VkLog
  pub found : ByCode a w (some confirmation)
  pub was_used : is_none confirmation.used_at ≡ false
  pub owner : ById confirmation.user_vk_id w (some binding)
  pub same_peer : is_same_peer_active (some binding) a.vk_peer_id ≡ true
  pub of_status : row.status ≡ LogStatus.already_confirmed
  pub db : w'.db ≡ record (w.db) { vk_logs = row ∷ w.db.vk_logs }
  pub committed : w'.committed ≡ w.committed
  pub outbox : w'.outbox ≡ w.outbox
  pub result : r ≡ record {
    status = already_confirmed;
    user_id = binding.user_id;
    user_vk_id = confirmation.user_vk_id;
  }

abbrev pub Accepted : Env → Attempt → World → ConfirmationResult → World → Type 0
Accepted env a w r w' = Confirmed env a w r w' ⊎ Repeated a w r w'

pub Accepted-from :
    {env : Env} {u v w : World} {r : ConfirmationResult} (a : Attempt)
    → Untouched u v
    → Accepted env a v r w
    → Accepted env a u r w
Accepted-from a t (inl h) = inl (record {
  confirmation = h.confirmation;
  binding = h.binding;
  occupied = h.occupied;
  read_at = h.read_at;
  found = rw (← t.db) h.found;
  was_unused = h.was_unused;
  unexpired = h.unexpired;
  owner = rw (← t.db) h.owner;
  live = h.live;
  peer = rw (← t.db) h.peer;
  free = h.free;
  linked = Linked-from a h.confirmation h.binding t h.linked;
  result = h.result;
})
Accepted-from a t (inr h) = inr (record {
  confirmation = h.confirmation;
  binding = h.binding;
  row = h.row;
  found = rw (← t.db) h.found;
  was_used = h.was_used;
  owner = rw (← t.db) h.owner;
  same_peer = h.same_peer;
  of_status = h.of_status;
  db = cc (h.db, t.db);
  committed = h.committed ∙ t.committed;
  outbox = h.outbox ∙ t.outbox;
  result = h.result;
})

module _ (a : Attempt) (c : VkConfirmation) where
  -- What `confirm_unused` and what it calls have still to check, for the binding `b`.
  pub record Freed (b : UserVk) (w : World) (r : ConfirmationResult) (w' : World) : Type 0 where
    pub occupied : Option UserVk
    pub peer : ByPeer a.vk_peer_id w occupied
    pub free : is_taken c.user_vk_id occupied ≡ false
    pub linked : Linked a c b w w'
    pub result : r ≡ confirmation_of c b

  pub link_live_lem :
      (b : UserVk) (env : Env) (w : World)
      → w.committed ≡ w.db
      → Ends (Freed b w) (OnApp (Refused a w)) (link_live a c b env w)
  unfolding link_live
  link_live_lem b env w fresh =
      Ends-then (Refused a w) _ _ env w (get_by_peer_id_lem a.vk_peer_id env w)
        λ occupied w₁ (peer, t).
          Ends-if (is_taken c.user_vk_id occupied)
            (refuse LogStatus.peer_conflict a (conflict_details c) AppErrorClass.conflict
              peer_taken)
            (link a c b) env w₁
            (λ _.
              refuse_after a t LogStatus.peer_conflict (conflict_details c) AppErrorClass.conflict
                peer_taken env)
            (λ free.
              Ends-from a _ t (link_lem a c b env w₁ (t.committed ∙ fresh ∙ sym t.db))
                (λ r w' (result, linked). record {
                  occupied = occupied;
                  peer = peer;
                  free = free;
                  linked = Linked-from a c b t linked;
                  result = result;
                }))

  pub Freed-from :
      {u v : World} (b : UserVk) (r : ConfirmationResult) (w : World)
      → Untouched u v
      → Freed b v r w
      → Freed b u r w
  Freed-from b r w t f = record {
    occupied = f.occupied;
    peer = rw (← t.db) f.peer;
    free = f.free;
    linked = Linked-from a c b t f.linked;
    result = f.result;
  }
