-- ===== src/Messaging/Registration.antt =====
-- How the registration of the consumer ends.
use eq_site_cms_vk_service.Shared.{
  ◌≢◌, ℕ, zero, suc, ◌+◌, ◌*◌, ◌<◌, List, [], ◌∷◌, ◌≡◌, refl, leb, arith, length, true, false, Bool,
  if◌then◌else◌,
}
use eq_site_cms_vk_service.Messaging.Setup.{
  Answer, registered, not_found, refused, SetupResult, done, no_stream, broken, never_tried,
  setup_from, setup_consumers,
}

-- The attempts before the last one, from `attempt` on, have found no stream.
abbrev pub NoStream : (ℕ → Answer) → ℕ → ℕ → Type 0
NoStream add attempt n = (i : ℕ) → i < n → add (attempt + i) ≡ not_found

abbrev pub Tried : (ℕ → Answer) → ℕ → ℕ → SetupResult × List ℕ → Type 0
Tried add attempt left (done, waits) =
    (length waits < left)
    × (add (attempt + length waits) ≡ registered)
    × NoStream add attempt (length waits)
Tried add attempt left (broken, waits) =
    (length waits < left)
    × (add (attempt + length waits) ≡ refused)
    × NoStream add attempt (length waits)
Tried add attempt left (no_stream, waits) = NoStream add attempt left
Tried add attempt left (never_tried, waits) = left ≡ 0

NoStream-suc :
    (add : ℕ → Answer) (attempt n : ℕ)
    → add attempt ≡ not_found
    → NoStream add (suc attempt) n
    → NoStream add attempt (suc n)
NoStream-suc add attempt n first h zero i<n =
    let e : attempt + 0 ≡ attempt = omega arith in rw (e) first
NoStream-suc add attempt n first h (suc i) i<n =
    let e : attempt + suc i ≡ suc attempt + i = omega arith in rw (e) (h i (omega arith))

Tried-suc :
    (add : ℕ → Answer) (attempt left wait : ℕ) (r : SetupResult × List ℕ)
    → add attempt ≡ not_found
    → left ≢ 0
    → Tried add (suc attempt) left r
    → Tried add attempt (suc left) (r.0, wait ∷ r.1)
Tried-suc add attempt left wait (done, waits) first some_left (few, last, before) =
    let e : attempt + suc (length waits) ≡ suc attempt + length waits = omega arith in
    (omega arith, rw (e) last, NoStream-suc add attempt (length waits) first before)
Tried-suc add attempt left wait (broken, waits) first some_left (few, last, before) =
    let e : attempt + suc (length waits) ≡ suc attempt + length waits = omega arith in
    (omega arith, rw (e) last, NoStream-suc add attempt (length waits) first before)
Tried-suc add attempt left wait (no_stream, waits) first some_left h =
    NoStream-suc add attempt left first h
Tried-suc add attempt left wait (never_tried, waits) first some_left h = absurd (some_left h)

setup_from_lem :
    (add : ℕ → Answer) (backoff attempt left : ℕ)
    → Tried add attempt left (setup_from add backoff attempt left)
unfolding setup_from
setup_from_lem add backoff attempt zero = refl
setup_from_lem add backoff attempt (suc left) =
    go (add attempt) refl (setup_from add backoff (suc attempt) left)
      (setup_from_lem add backoff (suc attempt) left)
  where
    here : (a : Answer) → add attempt ≡ a → add (attempt + 0) ≡ a
    here a e = let zero_on : attempt + 0 ≡ attempt = omega arith in rw (zero_on) e

    last :
        (b : Bool) (r : SetupResult × List ℕ)
        → leb left 0 ≡ b
        → add attempt ≡ not_found
        → Tried add (suc attempt) left r
        → Tried add attempt
            (suc left)
            (if b then (no_stream, []) else (r.0, backoff * attempt ∷ r.1))
    last true r none_left e h = NoStream-suc add attempt left e (λ i i<n. absurd (ground arith))
    last false r some_left e h =
        Tried-suc add attempt left (backoff * attempt) r e (λ z. absurd (ground arith)) h

    go :
        (a : Answer)
        → add attempt ≡ a
        → (r : SetupResult × List ℕ) → Tried add (suc attempt) left r
        → Tried add attempt (suc left) (elim a [
          | registered ↦ (done, [])
          | not_found ↦ if leb left 0 then (no_stream, []) else (r.0, backoff * attempt ∷ r.1)
          | refused ↦ (broken, [])
        ])
    go registered e r h = (omega arith, here registered e, λ i i<n. absurd (omega arith))
    go refused e r h = (omega arith, here refused e, λ i i<n. absurd (omega arith))
    go not_found e r h = last (leb left 0) r refl e h

-- The registration returns only after an attempt that the server accepted, and every attempt before it
-- has found no stream; it raises the error of the missing stream only when all `max_attempts`
-- attempts have found none, and any other refusal after attempts that have all found none. It ends
-- without having tried only where no attempts are allowed.
pub setup_consumers_outcome :
    (add : ℕ → Answer) (max_attempts backoff : ℕ)
    → Tried add 1 max_attempts (setup_consumers add max_attempts backoff)
unfolding setup_consumers
setup_consumers_outcome add max_attempts backoff = setup_from_lem add backoff 1 max_attempts
