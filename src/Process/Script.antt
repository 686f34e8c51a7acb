-- ===== src/Process/Script.antt =====
-- Code that calls the outside step by step, and what it does when a call raises. How a call ends depends
-- on all the calls before it; the newest stands first.
use eq_site_cms_vk_service.Shared.{Bool, true, false, Option, none, some, List, ◌∷◌}

pub data Ended (Failure A : Type 0) : Type 0 where
  returned : A → Ended Failure A
  raised : Failure → Ended Failure A

abbrev pub Answers : Type 0 → Type 0 → Type 0
Answers Call Failure = List Call → Call → Option Failure

abbrev pub Script : Type 0 → Type 0 → Type 0 → Type 0
Script Call Failure A = Answers Call Failure → List Call → Ended Failure A × List Call

abbrev pub ended_by : {Failure : Type 0} → Option Failure → Ended Failure Unit
ended_by none = returned tt
ended_by (some e) = raised e

module _ {Call Failure : Type 0} where
  abbrev pub pure : {A : Type 0} → A → Script Call Failure A
  pure a answers calls = (returned a, calls)

  abbrev pub raise : {A : Type 0} → Failure → Script Call Failure A
  raise e answers calls = (raised e, calls)

  infixl 5 ◌>>=◌ ◌>>◌
  unfoldable pub ◌>>=◌ :
      {A B : Type 0} → Script Call Failure A → (A → Script Call Failure B) → Script Call Failure B
  ◌>>=◌ m f answers calls =
      let (r, calls') = m answers calls in
      elim r [ returned a ↦ f a answers calls' | raised e ↦ (raised e, calls') ]

  abbrev pub ◌>>◌ :
      {A B : Type 0} → Script Call Failure A → Script Call Failure B → Script Call Failure B
  m >> n = m >>= λ _. n

  -- `try: m`, with what it raises as a value
  unfoldable pub try : {A : Type 0} → Script Call Failure A → Script Call Failure (Ended Failure A)
  try m answers calls = let (r, calls') = m answers calls in (returned r, calls')

  -- `try: m finally: n`; what `n` raises takes the place of what `m` has raised.
  unfoldable pub finally :
      {A : Type 0} → Script Call Failure A → Script Call Failure Unit → Script Call Failure A
  finally m n answers calls =
      let (r, calls') = m answers calls in
      let (s, calls'') = n answers calls' in
      elim s [ returned _ ↦ (r, calls'') | raised e ↦ (raised e, calls'') ]

  unfoldable pub perform : Call → Script Call Failure Unit
  perform call answers calls = (ended_by (answers calls call), call ∷ calls)

  -- What the code reads of the outside.
  abbrev pub observe : {A : Type 0} → (List Call → A) → Script Call Failure A
  observe f answers calls = (returned (f calls), calls)

  -- `if b: m`
  abbrev pub when : Bool → Script Call Failure Unit → Script Call Failure Unit
  when true m = m
  when false m = pure tt

abbrev pub IsRaised : {Failure A : Type 0} → Ended Failure A → Type 0
IsRaised (returned a) = ⊥
IsRaised (raised e) = Unit
