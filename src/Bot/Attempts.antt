-- ===== src/Bot/Attempts.antt =====
-- The parts of the handling of a message: trying a code, committing and replying.
use eq_site_cms_vk_service.Services.Uncommitted.{confirm-Uncommitted, get_profile-Uncommitted}
use eq_site_cms_vk_service.Exec.Preserves.{Uncommitted}
use eq_site_cms_vk_service.Services.Confirm.Outcome.{Accepted}
use eq_site_cms_vk_service.Services.Confirm.Refused.{Refused}
use eq_site_cms_vk_service.Services.Code.{normalize_code}
use eq_site_cms_vk_service.Services.Confirm.Verdict.{confirm_outcome}
use eq_site_cms_vk_service.Text.{Text, codes}
use eq_site_cms_vk_service.Text.Parts.{Has, contains_iff}
use eq_site_cms_vk_service.Bot.Replies
use eq_site_cms_vk_service.Services.Messenger.{get_profile}
use eq_site_cms_vk_service.Services.Confirm.{
  confirm, ConfirmationStatus, ConfirmationResult, attempt, ConfirmationSettings,
}
use eq_site_cms_vk_service.Bot.Base.{
  conflict_answer, mentions_other, accepted, display_name_of, screen_name_of, declined, Outcome,
  confirm_code,
}
use eq_site_cms_vk_service.Shared.{
  Bool, Option, String, ℤ, sym, ◌≡◌, refl, ◌∙◌, ◌⊎◌, inl, inr, true, false, ◌++◌, ◌↔◌,
}
use eq_site_cms_vk_service.Errors.{
  app, AppErrorClass, Message, plain, with_uuid, with_peer, with_text,
}
use eq_site_cms_vk_service.Exec.Preserves.{
  Uncommitted, Preserves-pure, Preserves-raise, preserves_rules,
}
use eq_site_cms_vk_service.Exec.{
  ◌>>=◌, err, ok, Result, Exec, OnApp, VkUserProfile, Untouched, Env, World, Ends, Ends-bind,
  Ends-map, Ends-catch,
}
use eq_site_cms_vk_service.Errors.{Error}

-- The message of an error speaks of another user.
abbrev pub MentionsOther : Message → Type 0
MentionsOther (plain s) = Has (codes "другому пользователю") (codes s)
MentionsOther (with_uuid s _) = Has (codes "другому пользователю") (codes s)
MentionsOther (with_peer s _) = Has (codes "другому пользователю") (codes s)
MentionsOther (with_text s t) = Has (codes "другому пользователю") (codes s ++ t)

-- The outcome and the reply to a code that is accepted, and to one that is refused.
abbrev pub IsWelcome : ConfirmationStatus → Outcome × String → Type 0
IsWelcome ConfirmationStatus.confirmed x = x ≡ (Outcome.confirmed, Replies.linked)
IsWelcome ConfirmationStatus.already_confirmed x =
    x ≡ (Outcome.already_confirmed, Replies.already_linked)

abbrev pub IsAnswer : AppErrorClass → Message → Outcome × String → Type 0
IsAnswer AppErrorClass.rate_limited m x = x ≡ (Outcome.rate_limited, Replies.rate_limited)
IsAnswer AppErrorClass.not_found m x = x ≡ (Outcome.not_found, Replies.code_invalid)
IsAnswer AppErrorClass.gone m x = x ≡ (Outcome.expired, Replies.code_expired)
IsAnswer AppErrorClass.conflict m x =
    (MentionsOther m × (x ≡ (Outcome.peer_conflict, Replies.peer_conflict)))
    ⊎ ((MentionsOther m → ⊥) × (x ≡ (Outcome.used, Replies.code_used)))
IsAnswer _ m x = ⊥

-- The code has been accepted or refused: `confirm` has been called in a session that is as in `w`,
-- and its result, or its error, has the answer `x`.
pub record Attempted (settings : ConfirmationSettings) (from_id : ℤ) (code : Text) (env : Env)
    (w : World) (x : Outcome × String) (w' : World) : Type 0 where
  pub profile : Option VkUserProfile
  pub before : World
  pub asked : get_profile from_id env w ≡ (ok profile, before)
  pub same : Untouched w before
  pub outcome :
      let a =
        attempt
          (normalize_code env.unicode code)
          from_id
          (screen_name_of profile)
          (display_name_of profile) in
      let run =
        confirm settings code from_id
          (screen_name_of profile)
          (display_name_of profile)
          env
          before in
      ((r : ConfirmationResult) × (run ≡ (ok r, w'))
        × IsWelcome r.status x
        × Accepted env a before r w')
      ⊎ ((kind : AppErrorClass) × (m : Message) × (run ≡ (err (app kind m), w'))
          × IsAnswer kind m x
          × Refused a before w')

mentions_other_iff : (m : Message) → (mentions_other m ≡ true) ↔ MentionsOther m
mentions_other_iff (plain s) = contains_iff (codes s) (codes "другому пользователю")
mentions_other_iff (with_uuid s _) = contains_iff (codes s) (codes "другому пользователю")
mentions_other_iff (with_peer s _) = contains_iff (codes s) (codes "другому пользователю")
mentions_other_iff (with_text s t) = contains_iff (codes s ++ t) (codes "другому пользователю")

is_conflict :
    (m : Message) (b : Bool)
    → (b ≡ true) ↔ MentionsOther m
    → IsAnswer AppErrorClass.conflict m (conflict_answer b)
is_conflict m true h = inl (h.0 refl, refl)
is_conflict m false h = inr ((λ p. let e = h.1 p in cc e), refl)

is_welcome : (status : ConfirmationStatus) → IsWelcome status (accepted status)
is_welcome ConfirmationStatus.confirmed = refl
is_welcome ConfirmationStatus.already_confirmed = refl

-- The answer to an error, and what is left to the caller.
declined_answers :
    (e : Error) (env : Env) (w' : World)
    → Ends
        (λ x u.
          (u ≡ w') × (kind : AppErrorClass) × (m : Message) × (e ≡ app kind m) × IsAnswer kind m x)
        (λ _ _. Unit)
        (declined e env w')
unfolding declined
declined_answers (app AppErrorClass.rate_limited m) env w' = record {
  by = (refl, AppErrorClass.rate_limited, m, refl, refl);
}
declined_answers (app AppErrorClass.not_found m) env w' = record {
  by = (refl, AppErrorClass.not_found, m, refl, refl);
}
declined_answers (app AppErrorClass.gone m) env w' = record {
  by = (refl, AppErrorClass.gone, m, refl, refl);
}
declined_answers (app AppErrorClass.conflict m) env w' = record {
  by = (
    refl,
    AppErrorClass.conflict,
    m,
    refl,
    is_conflict m (mentions_other m) (mentions_other_iff m),
  );
}
declined_answers (app _ m) env w' = record { by = tt }
declined_answers _ env w' = record { by = tt }

OnApp-of :
    (P : World → Type 0) (e : Error) (kind : AppErrorClass) (m : Message) (w : World)
    → e ≡ app kind m
    → OnApp P e w
    → P w
OnApp-of P (app k m') kind m w same h = h
OnApp-of P _ kind m w same h = absurd (cc same)

declined_lem :
    (settings : ConfirmationSettings) (from_id : ℤ) (code : Text) (profile : Option VkUserProfile)
    (e : Error) (env : Env) (w u w' : World)
    → get_profile from_id env w ≡ (ok profile, u)
    → Untouched w u
    → OnApp
        (Refused
          (attempt
            (normalize_code env.unicode code)
            from_id
            (screen_name_of profile)
            (display_name_of profile))
          u)
        e
        w'
    → confirm settings code from_id (screen_name_of profile) (display_name_of profile) env u
      ≡ (err e, w')
    → Ends (Attempted settings from_id code env w) (λ _ _. Unit) (declined e env w')
declined_lem settings from_id code profile e env w u w' seen t h run =
    Ends-map _ (declined_answers e env w')
      (λ x v (stays, kind, m, is_app, answers). rw (stays) record {
        profile = profile;
        before = u;
        asked = seen;
        same = t;
        outcome = inr (kind, m, rw (← is_app) run, answers, OnApp-of _ e kind m w' is_app h);
      })
      (λ _ _ _. tt)

-- How a computation has ended, along with what is known of it.
Ends-run :
    {A : Type 0} {Q : A → World → Type 0} {R : Error → World → Type 0} (x : Result A × World)
    → Ends Q R x
    → Ends (λ a w. Q a w × (x ≡ (ok a, w))) (λ e w. R e w × (x ≡ (err e, w))) x
Ends-run (ok a, w) h = record { by = (h.by, refl) }
Ends-run (err e, w) h = record { by = (h.by, refl) }

get_profile_lem :
    (peer : ℤ) (env : Env) (w : World)
    → Ends (λ _ w'. Untouched w w') (λ _ _. ⊥) (get_profile peer env w)
unfolding get_profile ◌>>=◌
get_profile_lem peer env w = record { by = record { db = refl; committed = refl; outbox = refl } }

pub confirm_code_lem :
    (settings : ConfirmationSettings) (from_id : ℤ) (code : Text) (env : Env) (w : World)
    → w.committed ≡ w.db
    → Ends
        (Attempted settings from_id code env w)
        (λ _ _. Unit)
        (confirm_code settings from_id code env w)
unfolding confirm_code
confirm_code_lem settings from_id code env w same =
    Ends-bind _ _ env w (Ends-run _ (get_profile_lem from_id env w)) (λ _ _ (h, _). absurd h)
      λ profile u (t, seen).
        Ends-catch _ declined env u
          (Ends-bind _ _ env u
            (Ends-run _ (
              confirm_outcome settings code from_id (screen_name_of profile)
                (display_name_of profile) env u (t.committed ∙ same ∙ sym t.db)))
            (λ _ _ h. h)
            λ r w' ((h, _), run). record {
              by = record {
                profile = profile;
                before = u;
                asked = seen;
                same = t;
                outcome = inl (r, run, is_welcome r.status, h);
              };
            })
          (λ e w' (h, run). declined_lem settings from_id code profile e env w u w' seen t h run)

-- Code that commits nothing leaves the last commit, however it ends.
pub Ends-kept :
    {A : Type 0} {Q : A → World → Type 0} {R : Error → World → Type 0} (m : Exec A) (env : Env)
    (w : World)
    → Uncommitted m
    → Ends Q R (m env w)
    → Ends (λ a w'. Q a w') (λ e w'. w'.committed ≡ w.committed) (m env w)
Ends-kept {A} {Q} {R} m env w h x = go (m env w) (h.at env w) x
  where
    go :
        (y : Result A × World)
        → y.1.committed ≡ w.committed
        → Ends Q R y
        → Ends (λ a w'. Q a w') (λ e w'. w'.committed ≡ w.committed) y
    go (ok a, w') k x = record { by = x.by }
    go (err e, w') k x = record { by = k }

declined-Uncommitted : (e : Error) → Uncommitted (declined e)
unfolding declined
declined-Uncommitted (app AppErrorClass.rate_limited m) = Preserves-pure _
declined-Uncommitted (app AppErrorClass.not_found m) = Preserves-pure _
declined-Uncommitted (app AppErrorClass.gone m) = Preserves-pure _
declined-Uncommitted (app AppErrorClass.conflict m) = Preserves-pure _
declined-Uncommitted (app _ m) = Preserves-raise _
declined-Uncommitted _ = Preserves-raise _

pub confirm_code-Uncommitted :
    (settings : ConfirmationSettings) (from_id : ℤ) (code : Text)
    → Uncommitted (confirm_code settings from_id code)
unfolding confirm_code
confirm_code-Uncommitted settings from_id code =
    search (preserves_rules, get_profile-Uncommitted, confirm-Uncommitted, declined-Uncommitted)
