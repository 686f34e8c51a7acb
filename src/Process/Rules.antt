-- ===== src/Process/Rules.antt =====
-- What holds of a script, call by call.
use eq_site_cms_vk_service.Process.Script.{
  ended_by, finally, Answers, Script, Ended, returned, raised, try, perform, ◌>>=◌,
}
use eq_site_cms_vk_service.Shared.{
  [], true, false, Bool, ℕ, ◌==◌, ◌||◌, ◌&&◌, is_none, Option, none, some, List, ◌∷◌, ◌≡◌, refl,
}

module _ {Call Failure : Type 0} (answers : Answers Call Failure) where
  abbrev pub After : Type 0 → Type 1
  After A = Ended Failure A × List Call → Type 0

  -- A call, and what is done where it returns.
  pub step :
      {A : Type 0} (Q : After A) (call : Call) (f : Unit → Script Call Failure A)
      (calls : List Call)
      → (answers calls call ≡ none → Q (f tt answers (call ∷ calls)))
      → ((e : Failure) → answers calls call ≡ some e → Q (raised e, call ∷ calls))
      → Q ((perform call >>= f) answers calls)
  unfolding ◌>>=◌ perform
  step Q call f calls good bad = go (answers calls call) good bad
    where
      go :
          (x : Option Failure)
          → (x ≡ none → Q (f tt answers (call ∷ calls)))
          → ((e : Failure) → x ≡ some e → Q (raised e, call ∷ calls))
          → Q (elim (ended_by x) [
            | returned a ↦ f a answers (call ∷ calls)
            | raised e ↦ (raised e, call ∷ calls)
          ])
      go none good bad = good refl
      go (some e) good bad = bad e refl

  -- The last call.
  pub last_step :
      (Q : After Unit) (call : Call) (calls : List Call)
      → (answers calls call ≡ none → Q (returned tt, call ∷ calls))
      → ((e : Failure) → answers calls call ≡ some e → Q (raised e, call ∷ calls))
      → Q (perform call answers calls)
  unfolding perform
  last_step Q call calls good bad = go (answers calls call) good bad
    where
      go :
          (x : Option Failure)
          → (x ≡ none → Q (returned tt, call ∷ calls))
          → ((e : Failure) → x ≡ some e → Q (raised e, call ∷ calls))
          → Q (ended_by x, call ∷ calls)
      go none good bad = good refl
      go (some e) good bad = bad e refl

  pub in_turn :
      {A B : Type 0} (P : After A) (Q : After B) (m : Script Call Failure A)
      (f : A → Script Call Failure B) (calls : List Call)
      → P (m answers calls)
      → ((a : A) (calls' : List Call) → P (returned a, calls') → Q (f a answers calls'))
      → ((e : Failure) (calls' : List Call) → P (raised e, calls') → Q (raised e, calls'))
      → Q ((m >>= f) answers calls)
  unfolding ◌>>=◌
  in_turn {A} {B} P Q m f calls h good bad = go (m answers calls) h
    where
      go :
          (x : Ended Failure A × List Call)
          → P x
          → Q (elim (x.0) [ returned a ↦ f a answers x.1 | raised e ↦ (raised e, x.1) ])
      go (returned a, calls') h = good a calls' h
      go (raised e, calls') h = bad e calls' h

  pub tried :
      {A B : Type 0} (P : After A) (Q : After B) (m : Script Call Failure A)
      (f : Ended Failure A → Script Call Failure B) (calls : List Call)
      → P (m answers calls)
      → ((r : Ended Failure A) (calls' : List Call) → P (r, calls') → Q (f r answers calls'))
      → Q ((try m >>= f) answers calls)
  unfolding ◌>>=◌ try
  tried P Q m f calls h next = next (m answers calls).0 (m answers calls).1 h

  -- What `try: m finally: n` ends with.
  abbrev pub closing :
      {A : Type 0} → Ended Failure A → Ended Failure Unit × List Call → Ended Failure A × List Call
  closing r (returned _, calls) = (r, calls)
  closing r (raised e, calls) = (raised e, calls)

  pub in_the_end :
      {A : Type 0} (P Q : After A) (m : Script Call Failure A) (n : Script Call Failure Unit)
      (calls : List Call)
      → P (m answers calls)
      → ((r : Ended Failure A) (calls' : List Call)
          → P (r, calls')
          → Q (closing r (n answers calls')))
      → Q (finally m n answers calls)
  unfolding finally
  in_the_end {A} P Q m n calls h next =
      go (m answers calls).0 (n answers (m answers calls).1)
        (next (m answers calls).0 (m answers calls).1 h)
    where
      go :
          (r : Ended Failure A) (x : Ended Failure Unit × List Call)
          → Q (closing r x)
          → Q (elim (x.0) [ returned _ ↦ (r, x.1) | raised e ↦ (raised e, x.1) ])
      go r (returned _, calls) h = h
      go r (raised e, calls) h = h

-- Whether a call has been made; calls are told apart by their numbers.
unfoldable pub called : {Call : Type 0} → (Call → ℕ) → Call → List Call → Bool
called number_of call [] = false
called number_of call (c ∷ calls) = (number_of c == number_of call) || called number_of call calls

-- Whether every call has returned.
unfoldable pub all_returned : {Call Failure : Type 0} → Answers Call Failure → List Call → Bool
all_returned answers [] = true
all_returned answers (c ∷ calls) = is_none (answers calls c) && all_returned answers calls
