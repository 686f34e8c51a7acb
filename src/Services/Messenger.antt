-- ===== src/Services/Messenger.antt =====
-- src/clients/vk/client.py, the messenger that the services and the bot are given: whatever VK
-- raises is caught here.
use eq_site_cms_vk_service.Shared.{
  arith, if◌then◌else◌, ◌≡◌, ℤ, String, Bool, true, false, Option, none, some, List, [], ◌∷◌, ◌++◌,
}
use eq_site_cms_vk_service.Text.{Text, Unicode, strip}
use eq_site_cms_vk_service.Exec.{
  Ends, Env, World, VkUser, reads, Exec, ok, VkUserProfile, ask, ◌>>=◌,
}

-- What VK has accepted goes out.
abbrev deliver_to : ℤ → String → Bool → Exec Bool
deliver_to peer_id text false env w = (ok false, w)
deliver_to peer_id text true env w = (ok true, record w { outbox = (peer_id, text) ∷ w.outbox })

-- `random_id` only keeps VK from repeating a request that it has had.
unfoldable pub send_message : ℤ → String → Exec Bool
send_message peer_id text = do
  accepted ← ask (λ env n. env.accepts n peer_id text)
  deliver_to peer_id text accepted

-- `getattr(user, …, "") or ""`
abbrev text_or_empty : Option Text → Text
text_or_empty none = []
text_or_empty (some t) = t

-- `" ".join(part for part in (first, last) if part) or None`
unfoldable pub display_name : Text → Text → Option Text
display_name [] [] = none
display_name [] (c ∷ last) = some (c ∷ last)
display_name (c ∷ first) [] = some (c ∷ first)
display_name (c ∷ first) (d ∷ last) = some (c ∷ (first ++ (32 ∷ d ∷ last)))

abbrev pub first_profile : Unicode → ℤ → Option (List VkUser) → Option VkUserProfile
first_profile u peer_id none = none
first_profile u peer_id (some []) = none
first_profile u peer_id (some (user ∷ _)) = some (record {
  peer_id = peer_id;
  screen_name = user.screen_name;
  display_name =
      display_name (strip u (text_or_empty user.first_name))
        (strip u (text_or_empty user.last_name));
})

unfoldable pub get_profile : ℤ → Exec (Option VkUserProfile)
get_profile peer_id = do
  users ← ask (λ env n. env.users_get n peer_id)
  reads (λ env. first_profile env.unicode peer_id users)

-- Nothing is raised and no row is touched: a refusal of VK is the answer `false`.
pub send_message_lem :
    (peer_id : ℤ) (text : String) (env : Env) (w : World)
    → Ends
        (λ sent w'.
          (w'.db ≡ w.db)
          × (w'.committed ≡ w.committed)
          × (w'.outbox ≡ (if sent then (peer_id, text) ∷ w.outbox else w.outbox)))
        (λ _ _. ⊥)
        (send_message peer_id text env w)
unfolding send_message ◌>>=◌
send_message_lem peer_id text env w = ground arith
