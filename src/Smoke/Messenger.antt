-- ===== src/Smoke/Messenger.antt =====
-- src/smoke_harness/messenger.py: a messenger that answers by a plan for each peer.
use eq_site_cms_vk_service.Shared.{
  inl, sym, inr, arith, ==ℤ_refl, Bool-cases, ==ℤ_iff, ◌∙◌, ℕ, ℤ, zero, suc, Bool, true, false,
  Option, none, some, List, [], ◌∷◌, ◌==ℤ◌, ltb, if◌then◌else◌, ◌≡◌, refl, ap,
}

pub data ScriptedPlan : Type 0 where
  success fail_always fail_first_then_success : ScriptedPlan

-- The dictionaries of plans and of attempts.
pub record ScriptedVkMessenger : Type 0 where
  pub plans : ℤ → Option ScriptedPlan
  pub attempts : ℤ → ℕ

abbrev attempted : ℤ → (ℤ → ℕ) → ℤ → ℕ
attempted peer attempts p = if p ==ℤ peer then suc (attempts p) else attempts p

-- The answer by a plan, at an attempt that is the n-th.
abbrev answer : ScriptedPlan → ℕ → Bool
answer success n = true
answer fail_always n = false
answer fail_first_then_success n = ltb 1 n

abbrev send_by : ScriptedVkMessenger → ℤ → Option ScriptedPlan → Bool × ScriptedVkMessenger
send_by m peer none = (false, m)
send_by m peer (some plan) =
    let m' : ScriptedVkMessenger = record m { attempts = attempted peer m.attempts } in
    (answer plan (m'.attempts peer), m')

unfoldable pub send_message : ScriptedVkMessenger → ℤ → Bool × ScriptedVkMessenger
send_message m peer = send_by m peer (m.plans peer)

-- The answers that a peer gets among messages to any peers.
unfoldable pub answers_to : ℤ → List ℤ → ScriptedVkMessenger → List Bool
unfolding send_message
answers_to peer [] m = []
answers_to peer (p ∷ rest) m =
    let (sent, m') = send_message m p in
    let later = answers_to peer rest m' in if p ==ℤ peer then sent ∷ later else later

unfoldable pub count : ℤ → List ℤ → ℕ
count peer [] = zero
count peer (p ∷ rest) = let n = count peer rest in if p ==ℤ peer then suc n else n

unfoldable pub repeat : ℕ → Bool → List Bool
repeat zero b = []
repeat (suc n) b = b ∷ repeat n b

-- What a plan says of n messages after `before` ones.
unfoldable pub planned : Option ScriptedPlan → ℕ → ℕ → List Bool
planned none before n = repeat n false
planned (some success) before n = repeat n true
planned (some fail_always) before n = repeat n false
planned (some fail_first_then_success) zero zero = []
planned (some fail_first_then_success) zero (suc n) = false ∷ repeat n true
planned (some fail_first_then_success) (suc _) n = repeat n true

nothing : (k : Option ScriptedPlan) (before : ℕ) → [] ≡ planned k before zero
unfolding planned repeat
nothing none before = refl
nothing (some success) before = refl
nothing (some fail_always) before = refl
nothing (some fail_first_then_success) zero = refl
nothing (some fail_first_then_success) (suc before) = refl

-- One more message by the plan.
planned-suc :
    (plan : ScriptedPlan) (before n : ℕ)
    → planned (some plan) before (suc n)
      ≡ answer plan (suc before) ∷ planned (some plan) (suc before) n
unfolding planned repeat
planned-suc success before n = refl
planned-suc fail_always before n = refl
planned-suc fail_first_then_success zero n = refl
planned-suc fail_first_then_success (suc before) n =
    let later : ltb 1 (suc (suc before)) ≡ true = ground arith in rw (later) refl

module _ (peer : ℤ) (rest : List ℤ)
    (later : (m : ScriptedVkMessenger)
      → answers_to peer rest m ≡ planned (m.plans peer) (m.attempts peer) (count peer rest)) where
  -- A message to the peer itself.
  own :
      (m : ScriptedVkMessenger) (k : Option ScriptedPlan)
      → m.plans peer ≡ k
      → (send_by m peer k).0 ∷ answers_to peer rest (send_by m peer k).1
        ≡ planned (m.plans peer) (m.attempts peer) (suc (count peer rest))
  unfolding planned repeat
  own m none e = rw (later m, e) refl
  own m (some plan) e =
      let m' : ScriptedVkMessenger = record m { attempts = attempted peer m.attempts } in
      rw (later m', e, ==ℤ_refl peer) (sym (planned-suc plan (m.attempts peer) (count peer rest)))

  -- A message to another peer.
  other :
      (m : ScriptedVkMessenger) (p : ℤ) (k : Option ScriptedPlan)
      → (peer ==ℤ p) ≡ false
      → answers_to peer rest (send_by m p k).1
        ≡ planned (m.plans peer) (m.attempts peer) (count peer rest)
  other m p none e = later m
  other m p (some plan) e =
      later (record m { attempts = attempted p m.attempts })
      ∙ ap (λ n. planned (m.plans peer) n (count peer rest)) (rw (e) refl)

==ℤ-swap : (p q : ℤ) → (p ==ℤ q) ≡ false → (q ==ℤ p) ≡ false
==ℤ-swap p q e = elim (Bool-cases (q ==ℤ p)) [
  | inr f ↦ f
  | inl f ↦
      let same : q ≡ p = (==ℤ_iff q p).0 f in
      let back = (==ℤ_iff p q).1 (sym same) in absurd (cc (e, back))
]

-- Among messages to any peers, in any order, each peer is answered by its plan and by the number of
-- messages that it has had before: always true, never, or from the second message on; a peer without a
-- plan gets no message.
pub answers_to-planned :
    (peer : ℤ) (peers : List ℤ) (m : ScriptedVkMessenger)
    → answers_to peer peers m ≡ planned (m.plans peer) (m.attempts peer) (count peer peers)
unfolding answers_to count send_message
answers_to-planned peer [] m = nothing (m.plans peer) (m.attempts peer)
answers_to-planned peer (p ∷ rest) m = go (p ==ℤ peer) refl (λ m. answers_to-planned peer rest m)
  where
    go :
        (b : Bool)
        → (p ==ℤ peer) ≡ b
        → ((m : ScriptedVkMessenger)
            → answers_to peer rest m ≡ planned (m.plans peer) (m.attempts peer) (count peer rest))
        → (if b
            then (send_by m p (m.plans p)).0 ∷ answers_to peer rest (send_by m p (m.plans p)).1
            else answers_to peer rest (send_by m p (m.plans p)).1)
          ≡ planned
              (m.plans peer)
              (m.attempts peer)
              (if b then suc (count peer rest) else count peer rest)
    go true e later =
        let same : p ≡ peer = (==ℤ_iff p peer).0 e in
        rw (same) (own peer rest later m (m.plans peer) refl)
    go false e later = other peer rest later m p (m.plans p) (==ℤ-swap p peer e)
