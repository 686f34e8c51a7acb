-- ===== src/Services/Delivery/Loop.antt =====
-- What a delivery has done when it is over.
use eq_site_cms_vk_service.Repositories.UserVks.{in_state, is_live, is_in}
use eq_site_cms_vk_service.Services.Delivery.Again.{IsSent, Keeps, deliver_to_peer-Keeps}
use eq_site_cms_vk_service.Services.Delivery.Sent.{Settled, deliver_to_peer_outcome}
use eq_site_cms_vk_service.Services.Delivery.{
  raise_if, deliver, Option, String, Bool, ℤ, SendVkCommand, deliver_to_peer, deliver_each,
  active_peer,
}
use eq_site_cms_vk_service.Repositories.UserVks.{get_by_user_ids}
use eq_site_cms_vk_service.Db.{active, Uuid, UserVk}
use eq_site_cms_vk_service.Exec.{
  Ends-bind, ◌>>=◌, ok, err, Result, World, Env, Ends, Ends-map, Quiet,
}
use eq_site_cms_vk_service.Errors.{Error}
use eq_site_cms_vk_service.Shared.{
  true, ◌&&◌, arith, select, inr, inl, ◌||◌, List, [], ◌∷◌, none, some, false, refl, ◌≡◌, Member,
}

-- More of a kind has gone out.
pub data Grows (P : ℤ × String → Type 0) (old : List (ℤ × String))
    : List (ℤ × String) → Type 0 where
  same : Grows P old old
  more : {new : List (ℤ × String)} (m : ℤ × String) → P m → Grows P old new → Grows P old (m ∷ new)

Grows-trans :
    {P P' Q : ℤ × String → Type 0} {a b c : List (ℤ × String)}
    → ((m : ℤ × String) → P m → Q m)
    → ((m : ℤ × String) → P' m → Q m)
    → Grows P a b
    → Grows P' b c
    → Grows Q a c
Grows-trans f g same same = same
Grows-trans f g (more m p r) same = more m (f m p) (Grows-trans f g r same)
Grows-trans f g r (more m p t) = more m (g m p) (Grows-trans f g r t)

pub Ends-with :
    {A : Type 0} {Q : A → World → Type 0} {R : Error → World → Type 0} {P : World → Type 0}
    (x : Result A × World)
    → Ends Q R x
    → P x.1
    → Ends (λ a w. Q a w × P w) R x
Ends-with (ok a, w) h p = record { by = (h.by, p) }
Ends-with (err e, w) h p = record { by = h.by }

module _ (command : SendVkCommand) (bindings : List UserVk) where
  -- A recipient with an active binding has been sent the event.
  abbrev pub Reached : Uuid → World → Type 0
  Reached user_id w =
      (peer : ℤ) → active_peer bindings user_id ≡ some peer → IsSent command user_id w

  abbrev pub AllReached : List Uuid → World → Type 0
  AllReached user_ids w = (user_id : Uuid) → Member user_id user_ids → Reached user_id w

  -- A message to the peer of a recipient, with the text of the command.
  abbrev pub IsNotice : List Uuid → ℤ × String → Type 0
  IsNotice user_ids (peer, text) =
      (text ≡ command.text)
      × (user_id : Uuid) × Member user_id user_ids
      × (active_peer bindings user_id ≡ some peer)

  -- A recipient has been settled, and at most a notice sent.
  abbrev Passed : Uuid → World → Bool → World → Type 0
  Passed user_id w has_failed w' =
      (has_failed ≡ false → Reached user_id w') × Grows (IsNotice (user_id ∷ [])) w.outbox w'.outbox

  deliver_to_peer-Passed :
      (user_id : Uuid) (env : Env) (w : World)
      → Ends
          (Passed user_id w)
          Quiet
          (deliver_to_peer command user_id (active_peer bindings user_id) env w)
  deliver_to_peer-Passed user_id env w = go (active_peer bindings user_id) refl
    where
      passed :
          (peer : ℤ)
          → active_peer bindings user_id ≡ some peer
          → (has_failed : Bool) (w' : World) → Settled command user_id peer w has_failed w'
          → Passed user_id w has_failed w'
      passed peer e has_failed w' (inl (_, t, (row, found, done))) =
          (λ _ _ _. (row, rw (t.db) found, done), rw (t.outbox) same)
      passed peer e has_failed w' (inr (inl (_, out, sent))) =
          (λ _ _ _. sent, rw (out) (more (peer, command.text) (refl, user_id, inl refl, e) same))
      passed peer e has_failed w' (inr (inr (f, out, _))) = (λ g. absurd (cc (f, g)), rw (out) same)

      go :
          (p : Option ℤ)
          → active_peer bindings user_id ≡ p
          → Ends (Passed user_id w) Quiet (deliver_to_peer command user_id p env w)
      go none e = record { by = (λ _ peer f. absurd (cc (e, f)), same) }
      go (some peer) e =
          Ends-map _ (deliver_to_peer_outcome command user_id peer env w) (passed peer e)
            (λ _ _ h. h)

  deliver_each-Keeps :
      (user_ids : List Uuid) (failed : Bool) (env : Env) (w : World)
      → Keeps command w (deliver_each command bindings user_ids failed env w).1
  unfolding deliver_each ◌>>=◌
  deliver_each-Keeps [] failed env w = λ u h. h
  deliver_each-Keeps (user_id ∷ rest) failed env w =
      go (deliver_to_peer command user_id (active_peer bindings user_id) env w)
        (deliver_to_peer-Keeps command user_id (active_peer bindings user_id) env w)
        (λ b v. deliver_each-Keeps rest b env v)
    where
      go :
          (x : Result Bool × World)
          → Keeps command w x.1
          → ((b : Bool) (v : World)
              → Keeps command v (deliver_each command bindings rest b env v).1)
          → Keeps command w (
              let y : Result Bool × World =
                let (r, v) = x in
                elim r [
                  | ok b ↦ deliver_each command bindings rest (failed || b) env v
                  | err e ↦ (err e, v)
                ] in
              y.1)
      go (ok b, v) first later = λ u h. later (failed || b) v u (first u h)
      go (err e, v) first later = first

  deliver_each_lem :
      (user_ids : List Uuid) (failed : Bool) (env : Env) (w : World)
      → Ends
          (λ has_failed w'.
            (has_failed ≡ false → (failed ≡ false) × AllReached user_ids w')
            × Grows (IsNotice user_ids) w.outbox w'.outbox)
          Quiet
          (deliver_each command bindings user_ids failed env w)
  unfolding deliver_each
  deliver_each_lem [] failed env w = record { by = (λ e. (e, λ u m. absurd m), same) }
  deliver_each_lem (user_id ∷ rest) failed env w =
      Ends-bind _ _ env w (deliver_to_peer-Passed user_id env w) (λ _ _ h. h)
        λ now_failed v (reached, sent).
          Ends-map _
            (Ends-with {P = λ w'. Keeps command v w'} _
              (deliver_each_lem rest (failed || now_failed) env v)
              (deliver_each-Keeps rest (failed || now_failed) env v))
            (λ has_failed w' ((all, sent'), keeps). (
              λ e.
                  let (none_failed, others) = all e in
                  let before : failed ≡ false = ground arith in
                  let here : now_failed ≡ false = ground arith in
                  (
                    before,
                    λ u m. elim (m) [
                      | inl is_first ↦ λ peer f.
                          rw (is_first) (keeps user_id (reached here peer (rw (← is_first) f)))
                      | inr later ↦ others u later
                    ],
                  ),
              Grows-trans
                  (λ n (text, u, m, e). (text, u, elim (m) [ inl h ↦ inl h | inr k ↦ absurd k ], e))
                  (λ n (text, u, m, e). (text, u, inr m, e)) sent sent',
            ))
            (λ _ _ h. h)

module _ (command : SendVkCommand) where
  -- The active bindings of the recipients.
  abbrev pub bindings_of : World → List UserVk
  bindings_of w =
      select
        (λ (r : UserVk). is_in command.user_ids r.user_id && is_live r && in_state (some active) r)
        w.db.user_vks

  abbrev pub Delivered : World → World → Type 0
  Delivered w w' =
      AllReached command (bindings_of w) command.user_ids w'
      × Grows (IsNotice command (bindings_of w) command.user_ids) w.outbox w'.outbox

  pub deliver_outcome :
      (env : Env) (w : World) → Ends (λ _ w'. Delivered w w') Quiet (deliver command env w)
  unfolding deliver get_by_user_ids deliver_each ◌>>=◌
  deliver_outcome env w =
      Ends-bind (deliver_each command (bindings_of w) command.user_ids false) raise_if env w
        (deliver_each_lem command (bindings_of w) command.user_ids false env w) (λ _ _ h. h)
        λ has_failed w' (all, sent). go has_failed w' all sent
    where
      go :
          (has_failed : Bool) (w' : World)
          → (has_failed ≡ false
              → (false ≡ false) × AllReached command (bindings_of w) command.user_ids w')
          → Grows (IsNotice command (bindings_of w) command.user_ids) w.outbox w'.outbox
          → Ends (λ _ v. Delivered w v) Quiet (raise_if has_failed env w')
      go true w' all sent = record { by = tt }
      go false w' all sent = record { by = ((all refl).1, sent) }
