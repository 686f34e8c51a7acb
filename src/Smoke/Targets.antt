-- ===== src/Smoke/Targets.antt =====
-- The targets of a run and the plans that a scenario permits, of src/smoke_harness/config.py. `UUID(…)`
-- is a parameter; the nil identifier is 0.
use eq_site_cms_vk_service.Text.Parts.{Has, contains_iff}
use eq_site_cms_vk_service.Shared.{
  ◌↔◌, ap, any-Member, inl, Bool-cases, ◌≢◌, ◌⊎◌, arith, Member, inr, Bool, true, false, ◌||◌,
  Option, none, some, List, [], ◌∷◌, any, ◌==◌, if◌then◌else◌, ◌≡◌, refl,
}
use eq_site_cms_vk_service.Text.{Text, Unicode, codes, strip, contains, split_on_from}
use eq_site_cms_vk_service.Db.{Uuid}
use eq_site_cms_vk_service.Repositories.Query.{is_empty}
use eq_site_cms_vk_service.Settings.{Validated, valid, invalid}

abbrev not_exact : Text
not_exact = codes "synthetic targets must be exact UUIDs"

abbrev more_parsed : Uuid → Validated (List Uuid) → Validated (List Uuid)
more_parsed id (valid ids) = valid (id ∷ ids)
more_parsed id (invalid e) = invalid e

abbrev parsed : Option Uuid → Validated (List Uuid) → Validated (List Uuid)
parsed none more = invalid not_exact
parsed (some id) more = more_parsed id more

-- `len(set(values)) != len(values)`
unfoldable pub has_repeated : List Uuid → Bool
has_repeated [] = false
has_repeated (id ∷ ids) = any (λ other. other == id) ids || has_repeated ids

module _ (u : Unicode) (parse_uuid : Text → Option Uuid) where
  unfoldable pub parse_items : List Text → Validated (List Uuid)
  parse_items [] = valid []
  parse_items (item ∷ rest) = parsed (parse_uuid (strip u item)) (parse_items rest)

  abbrev pub require_unique : Validated (List Uuid) → Validated (List Uuid)
  require_unique (invalid e) = invalid e
  require_unique (valid ids) =
      if any (λ id. id == 0) ids || has_repeated ids
      then invalid (codes "synthetic targets must be unique non-nil UUIDs")
      else valid ids

  unfoldable pub uuid_list : Text → Validated (List Uuid)
  unfolding split_on_from parse_items
  uuid_list raw =
      if is_empty (strip u raw) || any (contains raw) (codes "*" ∷ codes ">" ∷ [])
      then valid []
      else require_unique (parse_items (split_on_from 44 [] raw))

-- No target is nil, and none stands twice.
abbrev pub AreExact : List Uuid → Type 0
AreExact [] = Unit
AreExact (id ∷ ids) = (id ≢ 0) × ((other : Uuid) → Member other ids → other ≢ id) × AreExact ids

AreExact-from :
    (ids : List Uuid) → any (λ id. id == 0) ids ≡ false → has_repeated ids ≡ false → AreExact ids
unfolding any has_repeated
AreExact-from [] e f = tt
AreExact-from (id ∷ ids) e f =
    let none_nil : any (λ id. id == 0) ids ≡ false = ground arith in
    let none_same : any (λ other. other == id) ids ≡ false = ground arith in
    let rest : has_repeated ids ≡ false = ground arith in
    let not_nil : id ≢ 0 = ground arith in
    (
      not_nil,
      (λ other m.
          let apart : (other == id) ≡ false =
            any-Member (λ other. other == id) other ids none_same m in
          differ other id apart),
      AreExact-from ids none_nil rest,
    )
  where
    differ : (a b : Uuid) → (a == b) ≡ false → a ≢ b
    differ a b e = ground arith

any-none :
    (p : Uuid → Bool) (ids : List Uuid)
    → ((id : Uuid) → Member id ids → p id ≡ false)
    → any p ids ≡ false
unfolding any
any-none p [] h = refl
any-none p (id ∷ ids) h =
    let here : p id ≡ false = h id (inl refl) in
    rw (here) (any-none p ids (λ other m. h other (inr m)))

differs : (a b : Uuid) → a ≢ b → (a == b) ≡ false
differs a b n = elim (Bool-cases (a == b)) [
  | inr e ↦ e
  | inl e ↦ let same : a ≡ b = ground arith in absurd (n same)
]

AreExact-tests :
    (ids : List Uuid) → AreExact ids → (any (λ id. id == 0) ids || has_repeated ids) ≡ false
unfolding any has_repeated
AreExact-tests [] h = refl
AreExact-tests (id ∷ ids) (not_nil, others, rest) =
    let here = differs id 0 not_nil in
    let none_same =
      any-none (λ other. other == id) ids (λ other m. differs other id (others other m)) in
    let later = AreExact-tests ids rest in ground arith

abbrev pub refused : Validated (List Uuid)
refused = invalid (codes "synthetic targets must be unique non-nil UUIDs")

module _ (u : Unicode) (parse_uuid : Text → Option Uuid) where
  -- The identifiers of the items, one for each, in their order.
  abbrev pub AreItems : List Text → List Uuid → Type 0
  AreItems [] [] = Unit
  AreItems (item ∷ rest) (id ∷ ids) = (parse_uuid (strip u item) ≡ some id) × AreItems rest ids
  AreItems _ _ = ⊥

  abbrev pub HasMalformed : List Text → Type 0
  HasMalformed items = (item : Text) × Member item items × (parse_uuid (strip u item) ≡ none)

  -- The items give their identifiers, unless some of them is none.
  abbrev Items : List Text → Validated (List Uuid) → Type 0
  Items items (valid ids) = AreItems items ids
  Items items (invalid e) = HasMalformed items × (e ≡ codes "synthetic targets must be exact UUIDs")

  parse_items_lem : (items : List Text) → Items items (parse_items u parse_uuid items)
  unfolding parse_items
  parse_items_lem [] = tt
  parse_items_lem (item ∷ rest) =
      go (parse_uuid (strip u item)) refl (parse_items u parse_uuid rest) (parse_items_lem rest)
    where
      go :
          (x : Option Uuid)
          → parse_uuid (strip u item) ≡ x
          → (more : Validated (List Uuid)) → Items rest more
          → Items (item ∷ rest) (parsed x more)
      go none e more h = ((item, inl refl, e), refl)
      go (some id) e (valid ids) h = (e, h)
      go (some id) e (invalid x) ((bad, m, f), same) = ((bad, inr m, f), same)

  -- What becomes of the items: they are refused where one is no identifier, and otherwise accepted
  -- exactly where their identifiers are exact.
  abbrev pub Verdict : List Text → Validated (List Uuid) → Type 0
  Verdict items x =
      (HasMalformed items × (x ≡ invalid (codes "synthetic targets must be exact UUIDs")))
      ⊎ ((ids : List Uuid) × AreItems items ids
          × ((AreExact ids × (x ≡ valid ids))
              ⊎ ((AreExact ids → ⊥)
                  × (x ≡ invalid (codes "synthetic targets must be unique non-nil UUIDs")))))

  require_unique-Verdict :
      (items : List Text) (v : Validated (List Uuid))
      → Items items v
      → Verdict items (require_unique u parse_uuid v)
  require_unique-Verdict items (invalid e) (bad, same) = inl (bad, ap invalid same)
  require_unique-Verdict items (valid ids) h =
      inr (ids, h, go (any (λ id. id == 0) ids || has_repeated ids) refl)
    where
      go :
          (b : Bool)
          → (any (λ id. id == 0) ids || has_repeated ids) ≡ b
          → (AreExact ids
              × ((if b
                    then invalid (codes "synthetic targets must be unique non-nil UUIDs")
                    else valid ids)
                  ≡ valid ids))
            ⊎ ((AreExact ids → ⊥)
                × ((if b
                      then invalid (codes "synthetic targets must be unique non-nil UUIDs")
                      else valid ids)
                    ≡ invalid (codes "synthetic targets must be unique non-nil UUIDs")))
      go true e = inr ((λ h. let f = AreExact-tests ids h in absurd (cc (e, f))), refl)
      go false e =
          let one : any (λ id. id == 0) ids ≡ false = ground arith in
          let two : has_repeated ids ≡ false = ground arith in inl (AreExact-from ids one two, refl)

  -- A blank list, or a wildcard in it.
  abbrev pub IsOpen : Text → Type 0
  IsOpen raw = (strip u raw ≡ []) ⊎ (Has (codes "*") raw ⊎ Has (codes ">") raw)

  is_blank : (s : Text) → (is_empty s ≡ true) ↔ (s ≡ [])
  is_blank [] = ((λ _. refl), (λ _. refl))
  is_blank (c ∷ s) = ((λ e. absurd (cc e)), (λ e. absurd (cc e)))

  open_if :
      {P Q R : Type 0} (a b c : Bool)
      → (a ≡ true) ↔ P
      → (b ≡ true) ↔ Q
      → (c ≡ true) ↔ R
      → ((a || (b || (c || false))) ≡ true) ↔ (P ⊎ (Q ⊎ R))
  open_if true b c f g h = ((λ _. inl (f.0 refl)), (λ _. refl))
  open_if false true c f g h = ((λ _. inr (inl (g.0 refl))), (λ _. refl))
  open_if false false true f g h = ((λ _. inr (inr (h.0 refl))), (λ _. refl))
  open_if {P} {Q} {R} false false false f g h = ((λ e. absurd (cc e)), back)
    where
      back : P ⊎ (Q ⊎ R) → false ≡ true
      back (inl p) = f.1 p
      back (inr (inl q)) = g.1 q
      back (inr (inr r)) = h.1 r

  IsOpen-iff :
      (raw : Text)
      → ((is_empty (strip u raw) || any (contains raw) (codes "*" ∷ codes ">" ∷ [])) ≡ true)
        ↔ IsOpen raw
  unfolding any
  IsOpen-iff raw =
      open_if (is_empty (strip u raw)) (contains raw (codes "*")) (contains raw (codes ">"))
        (is_blank (strip u raw)) (contains_iff raw (codes "*")) (contains_iff raw (codes ">"))

  -- A blank list of targets, or one with a wildcard, is no target. Any other is refused where one of its
  -- items between commas is no identifier, and otherwise gives the identifiers of all of them, in their
  -- order, where they are all different and none of them is nil, and is refused where they are not.
  pub uuid_list_outcome :
      (raw : Text)
      → (IsOpen raw × (uuid_list u parse_uuid raw ≡ valid []))
        ⊎ ((IsOpen raw → ⊥) × Verdict (split_on_from 44 [] raw) (uuid_list u parse_uuid raw))
  unfolding uuid_list
  uuid_list_outcome raw =
      go (is_empty (strip u raw) || any (contains raw) (codes "*" ∷ codes ">" ∷ []))
        (IsOpen-iff raw)
    where
      items : List Text
      items = split_on_from 44 [] raw

      go :
          (b : Bool)
          → (b ≡ true) ↔ IsOpen raw
          → let x : Validated (List Uuid) =
              if b
              then valid []
              else require_unique u parse_uuid (parse_items u parse_uuid items) in
            (IsOpen raw × (x ≡ valid [])) ⊎ ((IsOpen raw → ⊥) × Verdict items x)
      go true h = inl (h.0 refl, refl)
      go false h = inr (
        (λ p. let e = h.1 p in cc e),
        require_unique-Verdict items (parse_items u parse_uuid items) (parse_items_lem items),
      )
