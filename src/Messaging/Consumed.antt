-- ===== src/Messaging/Consumed.antt =====
-- What becomes of the messages that the loop fetches.
use mathlib.Core.List.{append_assoc}
use eq_site_cms_vk_service.Messaging.Base.{Codec, handle, process_message}
use eq_site_cms_vk_service.Messaging.Answered.{
  Answers, AnsweredBy, once_asked, process_message_outcome,
}
use eq_site_cms_vk_service.Messaging.Consumer.{
  Arrival, treated, cut_off, Fetch, messages, timed_out, cancelled, Ending, going, stopped, broken,
  Progress, after_message, after_batch, process_each, consume,
}
use eq_site_cms_vk_service.Errors.{Error, nats_error}
use eq_site_cms_vk_service.Exec.{ok, err, Result, World, Env}
use eq_site_cms_vk_service.Shared.{
  refl, sym, inl, inr, true, false, List, [], ◌∷◌, ◌++◌, Bool, ◌≡◌, ◌⊎◌, ◌∙◌,
}

module _ {Payload Headers : Type 0} where
  -- What the fetches bring before the task is cancelled in one of them.
  unfoldable pub fetched : List (Fetch Payload Headers) → List (Arrival Payload Headers)
  fetched [] = []
  fetched (cancelled ∷ rest) = []
  fetched (messages ms ∷ rest) = ms ++ fetched rest
  fetched (_ ∷ rest) = fetched rest

  -- The task is cancelled in one of the fetches.
  abbrev pub IsCancelled : List (Fetch Payload Headers) → Type 0
  IsCancelled [] = ⊥
  IsCancelled (cancelled ∷ rest) = Unit
  IsCancelled (_ ∷ rest) = IsCancelled rest

joined :
    {A : Type 0} (xs done rest more : List A)
    → xs ≡ done ++ rest
    → xs ++ more ≡ done ++ (rest ++ more)
joined xs done rest more e = rw (e) (append_assoc done rest more)

module _ {Payload Headers : Type 0} (codec : Codec Payload Headers) (env : Env) where
  -- One after the other, each message is handled to its end and given the answer for how its handler
  -- ended, which the server takes.
  abbrev pub AreAnswered : List (Arrival Payload Headers) → List Bool → World → World → Type 0
  AreAnswered [] [] w u = u ≡ w
  AreAnswered (treated payload headers ∷ rest) (acknowledged ∷ answers) w u =
      let y = handle codec payload headers env w in
      Answers acknowledged y
      × (env.answered y.1.asked acknowledged ≡ true)
      × AreAnswered rest answers (once_asked y.1) u
  AreAnswered _ _ w u = ⊥

  -- The task has been cancelled while it treated the next message.
  abbrev pub IsCut : List (Arrival Payload Headers) → World → World → Type 0
  IsCut (cut_off payload headers left ∷ rest) w u = u ≡ left w
  IsCut _ w u = ⊥

  -- The next message has been handled, but its answer is not taken.
  abbrev pub IsUnanswered : List (Arrival Payload Headers) → Error → World → World → Type 0
  IsUnanswered (treated payload headers ∷ rest) e w u =
      let y = handle codec payload headers env w in
      (acknowledged : Bool) × Answers acknowledged y
      × (env.answered y.1.asked acknowledged ≡ false)
      × (e ≡ nats_error)
      × (u ≡ once_asked y.1)
  IsUnanswered _ e w u = ⊥

  -- Why the loop stands where it does, with these messages left, where `P` is that a fetch is cancelled.
  abbrev pub Stands : Type 0 → Ending → List (Arrival Payload Headers) → World → World → Type 0
  Stands P going rest w u = (P → ⊥) × (rest ≡ []) × (u ≡ w)
  Stands P stopped rest w u = (P × (rest ≡ []) × (u ≡ w)) ⊎ IsCut rest w u
  Stands P (broken e) rest w u = IsUnanswered rest e w u

  pub record Consumed (P : Type 0) (arrivals : List (Arrival Payload Headers)) (w : World)
      (p : Progress) : Type 0 where
    pub done : List (Arrival Payload Headers)
    pub rest : List (Arrival Payload Headers)
    pub reached : World
    pub in_order : arrivals ≡ done ++ rest
    pub answered : AreAnswered done p.answers w reached
    pub stands : Stands P p.ending rest reached p.world

  nothing_lem :
      (P : Type 0) (w : World)
      → (P → ⊥)
      → Consumed P [] w (record { ending = going; answers = []; world = w })
  nothing_lem P w n = record {
    done = [];
    rest = [];
    reached = w;
    in_order = refl;
    answered = refl;
    stands = (n, refl, refl);
  }

  message_lem :
      (P : Type 0) (payload : Payload) (headers : Headers)
      (arrivals : List (Arrival Payload Headers)) (w : World) (z : Result Bool × World)
      (later : World → Progress)
      → AnsweredBy env (handle codec payload headers env w) z
      → ((u : World) → Consumed P arrivals u (later u))
      → Consumed P (treated payload headers ∷ arrivals) w (after_message z later)
  message_lem P payload headers arrivals w (ok b, u) later (at, acknowledged, h, inl (taken, e)) k =
      let d = k u in
      let same : b ≡ acknowledged = cc e in
      record {
        done = treated payload headers ∷ d.done;
        rest = d.rest;
        reached = d.reached;
        in_order = cc d.in_order;
        answered = (rw (same) h, rw (same) taken, rw (← at) d.answered);
        stands = d.stands;
      }
  message_lem P payload headers arrivals w (ok b, u) later (at, acknowledged, h, inr (lost, e)) k =
      absurd (cc e)
  message_lem P payload headers arrivals w (err e', u) later (at, acknowledged, h, inl (taken, e))
        k =
      absurd (cc e)
  message_lem P payload headers arrivals w (err e', u) later (at, acknowledged, h, inr (lost, e))
        k =
      record {
        done = [];
        rest = treated payload headers ∷ arrivals;
        reached = w;
        in_order = refl;
        answered = refl;
        stands = (acknowledged, h, lost, cc e, at);
      }

  process_each_lem :
      (ms : List (Arrival Payload Headers)) (w : World)
      → Consumed ⊥ ms w (process_each codec ms env w)
  unfolding process_each
  process_each_lem [] w = nothing_lem ⊥ w (λ x. x)
  process_each_lem (treated payload headers ∷ rest) w =
      message_lem ⊥ payload headers rest w (process_message codec payload headers env w) _
        (process_message_outcome codec payload headers env w) (λ u. process_each_lem rest u)
  process_each_lem (cut_off payload headers left ∷ rest) w = record {
    done = [];
    rest = cut_off payload headers left ∷ rest;
    reached = w;
    in_order = refl;
    answered = refl;
    stands = inr refl;
  }

  AreAnswered-append :
      (done later : List (Arrival Payload Headers)) (answers more : List Bool) (w u v : World)
      → AreAnswered done answers w u
      → AreAnswered later more u v
      → AreAnswered (done ++ later) (answers ++ more) w v
  AreAnswered-append [] later [] more w u v h k = rw (← h) k
  AreAnswered-append [] later (b ∷ answers) more w u v h k = absurd h
  AreAnswered-append (treated payload headers ∷ done) later [] more w u v h k = absurd h
  AreAnswered-append (cut_off payload headers left ∷ done) later answers more w u v h k = absurd h
  AreAnswered-append (treated payload headers ∷ done) later (b ∷ answers) more w u v (a, t, h) k =
      (a, t, AreAnswered-append done later answers more _ u v h k)

  IsCut-append :
      (rest more : List (Arrival Payload Headers)) (w u : World)
      → IsCut rest w u
      → IsCut (rest ++ more) w u
  IsCut-append [] more w u h = absurd h
  IsCut-append (treated payload headers ∷ rest) more w u h = absurd h
  IsCut-append (cut_off payload headers left ∷ rest) more w u h = h

  IsUnanswered-append :
      (rest more : List (Arrival Payload Headers)) (e : Error) (w u : World)
      → IsUnanswered rest e w u
      → IsUnanswered (rest ++ more) e w u
  IsUnanswered-append [] more e w u h = absurd h
  IsUnanswered-append (treated payload headers ∷ rest) more e w u h = h
  IsUnanswered-append (cut_off payload headers left ∷ rest) more e w u h = absurd h

  batch_lem :
      (P : Type 0) (ms more : List (Arrival Payload Headers)) (w : World) (p : Progress)
      (later : World → Progress)
      → Consumed ⊥ ms w p
      → ((u : World) → Consumed P more u (later u))
      → Consumed P (ms ++ more) w (after_batch p.ending p.answers p.world later)
  batch_lem P ms more w p later d k = go p.ending d.stands
    where
      ordered :
          (rest later left : List (Arrival Payload Headers))
          → rest ≡ []
          → more ≡ later ++ left
          → d.done ++ (rest ++ more) ≡ (d.done ++ later) ++ left
      ordered rest later left empty e = rw (empty, e) (sym (append_assoc d.done later left))

      go :
          (ending : Ending)
          → Stands ⊥ ending d.rest d.reached p.world
          → Consumed P (ms ++ more) w (after_batch ending p.answers p.world later)
      go going (_, empty, same) =
          let n = k p.world in
          record {
            done = d.done ++ n.done;
            rest = n.rest;
            reached = n.reached;
            in_order =
                joined ms d.done d.rest more d.in_order
                ∙ ordered d.rest n.done n.rest empty n.in_order;
            answered =
                AreAnswered-append d.done n.done p.answers _ w d.reached n.reached d.answered
                  (rw (← same) n.answered);
            stands = n.stands;
          }
      go stopped (inl (x, _, _)) = absurd x
      go stopped (inr cut) = record {
        done = d.done;
        rest = d.rest ++ more;
        reached = d.reached;
        in_order = joined ms d.done d.rest more d.in_order;
        answered = d.answered;
        stands = inr (IsCut-append d.rest more d.reached p.world cut);
      }
      go (broken e) unanswered = record {
        done = d.done;
        rest = d.rest ++ more;
        reached = d.reached;
        in_order = joined ms d.done d.rest more d.in_order;
        answered = d.answered;
        stands = IsUnanswered-append d.rest more e d.reached p.world unanswered;
      }

  -- Whatever the fetches bring, the messages before some point have each been handled to the end, one
  -- after the other, and given the answer that its handler's ending asks for, which the server took. The
  -- loop goes on only where these are all messages and no fetch was cancelled. Otherwise it has stopped
  -- as it was cancelled, in a fetch, with all messages before it answered, or in the treatment of the
  -- next message, which is left unanswered with all that follow; or it has ended in the error of the
  -- next message's answer, which was handled, and none that follow has been looked at.
  pub consume_outcome :
      (fetches : List (Fetch Payload Headers)) (w : World)
      → Consumed (IsCancelled fetches) (fetched fetches) w (consume codec fetches env w)
  unfolding consume fetched
  consume_outcome [] w = nothing_lem ⊥ w (λ x. x)
  consume_outcome (cancelled ∷ rest) w = record {
    done = [];
    rest = [];
    reached = w;
    in_order = refl;
    answered = refl;
    stands = inl (tt, refl, refl);
  }
  consume_outcome (messages ms ∷ rest) w =
      batch_lem (IsCancelled rest) ms (fetched rest) w (process_each codec ms env w) _
        (process_each_lem ms w) (λ u. consume_outcome rest u)
  consume_outcome (timed_out ∷ rest) w = consume_outcome rest w
  consume_outcome (Fetch.failed ∷ rest) w = consume_outcome rest w
