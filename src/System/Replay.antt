-- ===== src/System/Replay.antt =====
-- A code that has been used is of no use to anybody, whatever happens afterwards.
use eq_site_cms_vk_service.Bot.Base.{
  Outcome, parse_link_command, is_chat_peer, handle_message, screen_name_of, display_name_of,
}
use eq_site_cms_vk_service.Bot.Attempts.{Attempted}
use eq_site_cms_vk_service.Bot.Messages.{Did, Saves, handle_message_outcome}
use eq_site_cms_vk_service.Services.Confirm.{Attempt, attempt, ConfirmationResult}
use eq_site_cms_vk_service.Services.Confirm.Outcome.{Confirmed}
use eq_site_cms_vk_service.Api.Atomic.{fresh}
use eq_site_cms_vk_service.Repositories.Selected.{one_or_none-only}
use eq_site_cms_vk_service.Repositories.Confirmations.{used}
use eq_site_cms_vk_service.Text.Laws.{text_eq_refl}
use eq_site_cms_vk_service.Services.Code.{normalize_code}
use eq_site_cms_vk_service.Repositories.Confirmations.{unused_of}
use eq_site_cms_vk_service.Db.{Db, DateTime, VkConfirmation}
use eq_site_cms_vk_service.Text.{text_eq, Text, codes}
use eq_site_cms_vk_service.Services.Confirm.{ConfirmationSettings}
use eq_site_cms_vk_service.Exec.{World, Env, Result, ok, err}
use eq_site_cms_vk_service.Steps.Base.{
  Cause, Step, Steps, rest, insert, issue, link, unlink, move, here, next,
}
use eq_site_cms_vk_service.System.Base.{Setup, Event, serve, serve_all, message}
use eq_site_cms_vk_service.System.Runs.{serve-Steps}
use eq_site_cms_vk_service.Shared.{
  is_none, if◌then◌else◌, ◌==◌, updated, update_where, Bool, ℤ, String, ◌≡◌, refl, List, [], ◌∷◌,
  true, false, some, inl, inr, Member, update_where-Member,
}

-- A row with the code has been used, or invalidated.
abbrev pub IsSpent : Text → Db → Type 0
IsSpent code db =
    (c : VkConfirmation) × Member c db.vk_confirmations
    × (c.code ≡ code)
    × (is_none c.used_at ≡ false)

abbrev Spent : Text → List VkConfirmation → Type 0
Spent code codes =
    (c : VkConfirmation) × Member c codes × (c.code ≡ code) × (is_none c.used_at ≡ false)

Spent-update :
    (code : Text) (p : VkConfirmation → Bool) (now : DateTime) (codes : List VkConfirmation)
    → Spent code codes
    → Spent code (update_where p (used now) codes)
Spent-update code p now codes (c, m, e, f) =
    let (g, h) = go (p c) in
    (updated p (used now) c, update_where-Member p (used now) c codes m, g, h)
  where
    go :
        (b : Bool)
        → ((if b then used now c else c).code ≡ code)
          × (is_none (if b then used now c else c).used_at ≡ false)
    go true = (e, refl)
    go false = (e, f)

Spent-cons :
    (code : Text) (c : VkConfirmation) (codes : List VkConfirmation)
    → Spent code codes
    → Spent code (c ∷ codes)
Spent-cons code c codes (d, m, e, f) = (d, inr m, e, f)

-- No step makes a used code usable again.
Step-IsSpent :
    {cause : Cause} {db db' : Db} (code : Text)
    → Step db db' cause
    → IsSpent code db
    → IsSpent code db'
Step-IsSpent {cause} {db} {db'} code (rest (_, f)) h = rw (f) h
Step-IsSpent {cause} {db} {db'} code (insert owner id now absent unique (_, f)) h = rw (f) h
Step-IsSpent {cause} {db} {db'} code (issue asker c now unused free owner (_, f)) h =
    rw (f)
      (Spent-cons code c _ (Spent-update code (unused_of c.user_vk_id) now db.vk_confirmations h))
Step-IsSpent {cause} {db} {db'} code
      (link c peer screen_name display_name at now stored unused unique (_, f)) h =
    rw (f) (Spent-update code (λ (r : VkConfirmation). r.id == c.id) now db.vk_confirmations h)
Step-IsSpent {cause} {db} {db'} code (unlink owner b now at found (_, f)) h =
    rw (f) (Spent-update code (unused_of b.id) now db.vk_confirmations h)
Step-IsSpent {cause} {db} {db'} code (move peer state b at settled found (_, f)) h = rw (f) h

Steps-IsSpent :
    {cause : Cause} {db db' : Db} (code : Text)
    → Steps cause db db'
    → IsSpent code db
    → IsSpent code db'
Steps-IsSpent code here h = h
Steps-IsSpent code (next r s) h = Step-IsSpent code s (Steps-IsSpent code r h)

-- The rows of the bindings are as before.
abbrev SameBindings : World → World → Type 0
SameBindings w w' = w'.db.user_vks ≡ w.db.user_vks

module _ (settings : ConfirmationSettings) (link_command : String) (peer from_id : ℤ)
    (env : Env) where
  Attempted-SameBindings :
      (typed : Text) (w : World) (x : Outcome × String) (w' : World)
      → IsSpent (normalize_code env.unicode typed) w.db
      → Attempted settings from_id typed env w x w'
      → SameBindings w w'
  Attempted-SameBindings typed w x w' (c, m, e, f) d = elim (d.outcome) [
    | inl (r, _, _, inl done) ↦ absurd (reused done)
    | inl (r, _, _, inr again) ↦ rw (again.db, d.same.db) refl
    | inr (_, _, _, _, refused) ↦ rw (refused.db, d.same.db) refl
  ]
    where
      a : Attempt
      a =
          attempt (normalize_code env.unicode typed) from_id (screen_name_of d.profile)
            (display_name_of d.profile)

      reused : {r : ConfirmationResult} → Confirmed env a d.before r w' → ⊥
      reused done =
          let stored : Member c d.before.db.vk_confirmations = rw (d.same.db) m in
          let only =
            (one_or_none-only (λ (c : VkConfirmation). text_eq c.code a.code) _ done.confirmation
              done.found).1 in
          let same : c ≡ done.confirmation = only c stored (rw (e) (text_eq_refl _)) in
          let unused = done.was_unused in cc (same, f, unused)

  Did-SameBindings :
      (chat : Bool) (typed : Text) (w : World) (o : Outcome) (w' : World)
      → IsSpent (normalize_code env.unicode typed) w.db
      → Did settings link_command peer from_id env chat (some typed) w o w'
      → SameBindings w w'
  Did-SameBindings true typed w o w' h (_, (row, _, e), _) = rw (e) refl
  Did-SameBindings false [] w o w' h (_, d) = let (row, _, e) = d.noted in rw (e) refl
  Did-SameBindings false (c ∷ typed) w o w' h d =
      rw (d.closed.db) (Attempted-SameBindings (c ∷ typed) w _ d.after h d.attempted)

  -- A message with a code that has been used.
  handle_message-SameBindings :
      (text typed : Text) (w : World)
      → IsSpent (normalize_code env.unicode typed) w.committed
      → parse_link_command env.unicode text (codes link_command) ≡ some typed
      → (handle_message settings link_command peer from_id text env w).1.committed.user_vks
        ≡ w.committed.user_vks
  handle_message-SameBindings text typed w h e =
      go (handle_message settings link_command peer from_id text env w)
        (rw (← e) (handle_message_outcome settings link_command peer from_id env text w))
    where
      go :
          (x : Result Outcome × World)
          → Saves settings link_command peer from_id env
              (Did settings link_command peer from_id env
                (is_chat_peer peer)
                (some typed)
                (fresh w))
              (fresh w)
              x
          → x.1.committed.user_vks ≡ w.committed.user_vks
      go (ok o, w') d =
          let (saved, did) = d.by in
          rw (saved) (Did-SameBindings (is_chat_peer peer) typed (fresh w) o w' h did)
      go (err x, w') d = let kept = d.by in rw (kept) refl

module _ {Payload Headers : Type 0} (s : Setup Payload Headers) where
  serve_all-IsSpent :
      (events : List (Event Payload Headers)) (env : Env) (w : World) (code : Text)
      → IsSpent code w.committed
      → IsSpent code (serve_all s events env w).committed
  unfolding serve_all
  serve_all-IsSpent [] env w code h = h
  serve_all-IsSpent (e ∷ later) env w code h =
      serve_all-IsSpent later env (serve s e env w) code
        (Steps-IsSpent code (serve-Steps s e env w) h)

  -- Once a code has been used or invalidated, then after any sequence of requests, events of the bot and
  -- messages of the stream, a message with that code, however it is typed and whoever sends it, changes
  -- no binding.
  pub spent_code_links_nobody :
      (events : List (Event Payload Headers)) (env : Env) (w : World) (peer from_id : ℤ)
      (text typed : Text)
      → IsSpent (normalize_code env.unicode typed) w.committed
      → parse_link_command env.unicode text (codes s.link_command) ≡ some typed
      → let w' = serve_all s events env w in
        (serve s (message peer from_id text) env w').committed.user_vks ≡ w'.committed.user_vks
  unfolding serve
  spent_code_links_nobody events env w peer from_id text typed h e =
      handle_message-SameBindings s.confirmation s.link_command peer from_id env text typed
        (serve_all s events env w)
        (serve_all-IsSpent events env w (normalize_code env.unicode typed) h) e
