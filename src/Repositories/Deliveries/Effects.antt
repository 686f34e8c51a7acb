-- ===== src/Repositories/Deliveries/Effects.antt =====
-- What claiming a delivery does to the world.
use eq_site_cms_vk_service.Repositories.Deliveries.Rows.{
  Row, Recorded, Recorded-from, only_selected, update_one_lem,
}
use eq_site_cms_vk_service.Repositories.Query.{one_or_none-some, one_or_none-none, one_or_none}
use eq_site_cms_vk_service.Repositories.Deliveries.{
  claim, claim_attempt, is_sent, write_attempt, max_integer, leb, data_error, suc, Bool,
  next_attempt, integrity_error, upsert, true, first_attempt, ℤ, is_delivery, update_one,
}
use eq_site_cms_vk_service.Db.{Db, DateTime, DeliveryStatus, VkNotificationDelivery, Uuid}
use eq_site_cms_vk_service.Shared.{
  inl, ◌⊎◌, inr, false, not, any, ◌==◌, arith, List, ap, Option, ◌≡◌, refl, none, some, [], ◌∷◌,
  select,
}
use eq_site_cms_vk_service.Exec.{
  Untouched-refl, Ends-if, lift, now_lem, Ends-bind, Untouched, ◌>>◌, gets, check, modify, pure,
  Ends-map, Quiet, Env, World, ok, Ends, ◌>>=◌,
}

gets_lem :
    {A : Type 0} (f : Db → A) (env : Env) (w : World)
    → Ends (λ a w'. (a ≡ f w.db) × (w' ≡ w)) (λ _ _. ⊥) (gets f env w)
gets_lem f env w = record { by = (refl, refl) }

one_or_none-Quiet :
    (xs : List VkNotificationDelivery) (env : Env) (w : World)
    → Ends (λ a w'. (one_or_none xs ≡ ok a) × (w' ≡ w)) Quiet (lift (one_or_none xs) env w)
unfolding one_or_none
one_or_none-Quiet [] env w = record { by = (refl, refl) }
one_or_none-Quiet (x ∷ []) env w = record { by = (refl, refl) }
one_or_none-Quiet (x ∷ y ∷ xs) env w = record { by = tt }

own_key :
    (event_uuid user_id : Uuid) (peer : ℤ) (at : DateTime) (id : Uuid) (created_at : DateTime)
    → is_delivery event_uuid user_id (first_attempt event_uuid user_id peer at id created_at) ≡ true
unfolding is_delivery
own_key event_uuid user_id peer at id created_at = ground arith

next_keeps :
    (event_uuid user_id : Uuid) (peer : ℤ) (at : DateTime) (r : VkNotificationDelivery)
    → is_delivery event_uuid user_id (next_attempt peer at r) ≡ is_delivery event_uuid user_id r
unfolding is_delivery
next_keeps event_uuid user_id peer at r = refl

module _ (event_uuid user_id : Uuid) where
  -- An attempt has been written: the only row of the recipient is PENDING.
  abbrev pub Attempted : World → Option VkNotificationDelivery → World → Type 0
  Attempted w r w' =
      (row : VkNotificationDelivery) × (r ≡ some row)
      × (row.status ≡ DeliveryStatus.pending)
      × Row event_uuid user_id w' (some row)
      × Recorded w w'

  Attempted-from :
      {u v w : World} {r : Option VkNotificationDelivery}
      → Untouched u v
      → Attempted v r w
      → Attempted u r w
  Attempted-from t (row, e, fresh, found, kept) = (row, e, fresh, found, Recorded-from t kept)

  -- The insertion of a row for a recipient that has none.
  insert_lem :
      (row : VkNotificationDelivery) (env : Env) (w : World)
      → is_delivery event_uuid user_id row ≡ true
      → row.status ≡ DeliveryStatus.pending
      → select (is_delivery event_uuid user_id) w.db.vk_notification_deliveries ≡ []
      → Ends
          (λ r w'. Attempted w (some r) w')
          Quiet
          ((do
            rows ← gets (λ db. db.vk_notification_deliveries)
            check (not (any (λ (r : VkNotificationDelivery). r.id == row.id) rows)) integrity_error
            modify (λ db. record db { vk_notification_deliveries = row ∷ rows })
            pure row)
            env w)
  unfolding ◌>>=◌
  insert_lem row env w own fresh absent =
      go
        (not (any (λ (r : VkNotificationDelivery). r.id == row.id) w.db.vk_notification_deliveries))
    where
      w' : World
      w' = record w {
        db = record (w.db) { vk_notification_deliveries = row ∷ w.db.vk_notification_deliveries };
      }

      go :
          (b : Bool)
          → Ends
              (λ r w'. Attempted w (some r) w')
              Quiet
              ((do
                check b integrity_error
                modify (λ db. record db {
                  vk_notification_deliveries = row ∷ w.db.vk_notification_deliveries;
                })
                pure row)
                env w)
      go true = record {
        by = (
          row,
          refl,
          fresh,
          only_selected (is_delivery event_uuid user_id) row w.db.vk_notification_deliveries own
              absent,
          record {
            user_vks = refl;
            vk_confirmations = refl;
            vk_logs = refl;
            committed = refl;
            outbox = refl;
          },
        );
      }
      go false = record { by = tt }

  upsert_lem :
      (peer : ℤ) (at : DateTime) (env : Env) (w : World) (existing : Option VkNotificationDelivery)
      → Row event_uuid user_id w existing
      → Ends
          (λ r w'. Attempted w (some r) w')
          Quiet
          (upsert event_uuid user_id peer at
            (select (is_delivery event_uuid user_id) w.db.vk_notification_deliveries)
            env
            w)
  unfolding ◌>>=◌
  upsert_lem peer at env w none found =
      let absent =
        one_or_none-none (select (is_delivery event_uuid user_id) w.db.vk_notification_deliveries)
          found in
      let row =
        first_attempt event_uuid user_id peer at (env.uuid w.asked)
          (env.server_now (suc w.asked)) in
      rw (absent) (
        Ends-map _
          (insert_lem row env (record w { asked = suc (suc w.asked) })
            (own_key event_uuid user_id peer at (env.uuid w.asked) (env.server_now (suc w.asked)))
            refl absent)
          (λ r w' h. Attempted-from (record { db = refl; committed = refl; outbox = refl }) h)
          (λ _ _ h. h))
  upsert_lem peer at env w (some x) found =
      let selected =
        one_or_none-some (select (is_delivery event_uuid user_id) w.db.vk_notification_deliveries) x
          found in
      rw (selected) (go (leb (suc x.attempts) max_integer))
    where
      go :
          (b : Bool)
          → Ends
              (λ r w'. Attempted w (some r) w')
              Quiet
              ((do check b data_error; update_one event_uuid user_id (next_attempt peer at)) env w)
      go true =
          Ends-map _
            (update_one_lem event_uuid user_id (next_attempt peer at) x env w
              (next_keeps event_uuid user_id peer at) found)
            (λ r w' (e, row, kept). (next_attempt peer at x, ap some e, refl, row, kept))
            (λ _ _ h. absurd h)
      go false = record { by = tt }

  write_attempt_lem :
      (peer : ℤ) (env : Env) (w : World) (existing : Option VkNotificationDelivery)
      → Row event_uuid user_id w existing
      → Ends (Attempted w) Quiet (write_attempt event_uuid user_id peer env w)
  unfolding write_attempt
  write_attempt_lem peer env w existing found =
      Ends-bind _ _ env w (now_lem env w) (λ _ _ h. h)
        λ at u (_, t).
          Ends-bind _ _ env u
            (gets_lem (λ db. select (is_delivery event_uuid user_id) db.vk_notification_deliveries)
              env u)
            (λ _ _ h. absurd h)
            λ clashing v (read, same).
              rw (read, same)
                (Ends-bind _ _ env u (upsert_lem peer at env u existing (rw t.db found))
                  (λ _ _ h. h) λ row w' h. record { by = Attempted-from t h })

  -- A claim: nothing where the recipient has been sent this event, and else a new attempt.
  abbrev pub Claimed : World → Option VkNotificationDelivery → World → Type 0
  Claimed w r w' =
      ((r ≡ none)
        × Untouched w w'
        × ((x : VkNotificationDelivery) × Row event_uuid user_id w (some x)
            × (is_sent x.status ≡ true)))
      ⊎ Attempted w r w'

  claim_lem :
      (peer : ℤ) (existing : Option VkNotificationDelivery) (env : Env) (w : World)
      → Row event_uuid user_id w existing
      → Ends (Claimed w) Quiet (claim event_uuid user_id peer existing env w)
  claim_lem peer none env w found =
      Ends-map _ (write_attempt_lem peer env w none found) (λ r w' h. inr h) (λ _ _ h. h)
  claim_lem peer (some x) env w found =
      Ends-if (is_sent x.status) (pure none) (write_attempt event_uuid user_id peer) env w
        (λ done. record { by = inl (refl, Untouched-refl w, (x, found, done)) })
        (λ _.
          Ends-map _ (write_attempt_lem peer env w (some x) found) (λ r w' h. inr h) (λ _ _ h. h))

  pub claim_attempt_lem :
      (peer : ℤ) (env : Env) (w : World)
      → Ends (Claimed w) Quiet (claim_attempt event_uuid user_id peer env w)
  unfolding claim_attempt
  claim_attempt_lem peer env w =
      Ends-bind _ _ env w (gets_lem (λ db. db.vk_notification_deliveries) env w) (λ _ _ h. absurd h)
        λ rows v (read, same).
          rw (read, same)
            (Ends-bind _ _ env w
              (one_or_none-Quiet
                (select (is_delivery event_uuid user_id) w.db.vk_notification_deliveries) env w)
              (λ _ _ h. h)
              λ existing u (found, same_world).
                rw (same_world) (claim_lem peer existing env w found))
