-- ===== src/Bot/Closing.antt =====
-- Committing what has been done and answering.
use eq_site_cms_vk_service.Services.Messenger.{send_message_lem}
use eq_site_cms_vk_service.Bot.Base.{reply, Outcome}
use eq_site_cms_vk_service.Shared.{
  ◌∷◌, Bool, String, ℤ, if◌then◌else◌, ◌≡◌, refl, ◌⊎◌, inl, inr, true, false,
}
use eq_site_cms_vk_service.Exec.{
  ◌>>=◌, pure, Exec, Env, World, Ends, Ends-bind, commit, pure, ◌>>◌, ◌>>=◌,
}

-- Nothing has been sent, or one text.
abbrev pub Replied : ℤ → String → World → World → Type 0
Replied peer text w w' = (w'.outbox ≡ w.outbox) ⊎ (w'.outbox ≡ (peer, text) ∷ w.outbox)

-- All that was written has been committed, and then the reply has been sent.
pub record Closed (peer : ℤ) (text : String) (w w' : World) : Type 0 where
  pub db : w'.db ≡ w.db
  pub saved : w'.committed ≡ w.db
  pub replied : Replied peer text w w'

abbrev pub close : ℤ → String → Outcome → Exec Outcome
close peer text outcome = do commit; reply peer text; pure outcome

Replied-if :
    (peer : ℤ) (text : String) (w w' : World) (sent : Bool)
    → w'.outbox ≡ (if sent then (peer, text) ∷ w.outbox else w.outbox)
    → Replied peer text w w'
Replied-if peer text w w' true e = inr e
Replied-if peer text w w' false e = inl e

pub reply_lem :
    (peer : ℤ) (text : String) (env : Env) (w : World)
    → Ends
        (λ _ w'. (w'.db ≡ w.db) × (w'.committed ≡ w.committed) × Replied peer text w w')
        (λ _ _. ⊥)
        (reply peer text env w)
reply_lem peer text env w =
    Ends-bind _ _ env w (send_message_lem peer text env w) (λ _ _ h. h)
      λ sent w' (same_db, same_commit, out). record {
        by = (same_db, same_commit, Replied-if peer text w w' sent out);
      }

pub close_lem :
    (peer : ℤ) (text : String) (outcome : Outcome) (env : Env) (w : World)
    → Ends
        (λ o w'. (o ≡ outcome) × Closed peer text w w')
        (λ _ _. ⊥)
        (close peer text outcome env w)
close_lem peer text outcome env w =
    let saved : World = record w { committed = w.db } in
    Ends-bind {Q = λ _ u. u ≡ saved} {R' = λ _ _. ⊥} commit _ env w (record { by = refl })
      (λ _ _ h. h)
      λ _ u same. rw (same) (
        Ends-bind _ _ env saved (reply_lem peer text env saved) (λ _ _ h. h)
          λ _ w' (same_db, same_commit, out). record {
            by = (refl, record { db = same_db; saved = same_commit; replied = out });
          })

-- Committing and returning.
pub commit_lem :
    {A : Type 0} (a : A) (env : Env) (w : World)
    → Ends
        (λ r w'. (r ≡ a) × (w' ≡ record w { committed = w.db }))
        (λ _ _. ⊥)
        ((commit >> pure a) env w)
unfolding ◌>>=◌
commit_lem a env w = record { by = (refl, refl) }
