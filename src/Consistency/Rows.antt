-- ===== src/Consistency/Rows.antt =====
-- How the constraints of a table are kept by the changes that are made to it.
use eq_site_cms_vk_service.Shared.{
  ℕ, ℤ, pos, negsuc, ◌==◌, ◌==ℤ◌, Option, none, some, if◌then◌else◌, ◌≡◌, refl, sym, ap, ◌∙◌, Bool,
  true, false, List, [], ◌∷◌, any, updated, update_where, Member-update_where, any-Member, ◌&&◌,
  arith, inl, inr,
}
use eq_site_cms_vk_service.Consistency.Base.{Distinct}
use eq_site_cms_vk_service.Text.{Text, text_eq}
use eq_site_cms_vk_service.Db.{DateTime, BindingState, UserVk, VkConfirmation}
use eq_site_cms_vk_service.Repositories.UserVks
use eq_site_cms_vk_service.Repositories.UserVks.{is_unique}
use eq_site_cms_vk_service.Repositories.UserVks.Effects.{deleted}
use eq_site_cms_vk_service.Services.State.Moved.{in_new_state}
use eq_site_cms_vk_service.Repositories.Confirmations
use eq_site_cms_vk_service.Repositories.Confirmations.{used}

module _ {A : Type 0} (conflicts : A → A → Bool) where
  pub Distinct-cons :
      (row : A) (xs : List A)
      → ((x y : A) → conflicts x y ≡ conflicts y x)
      → any (conflicts row) xs ≡ false
      → Distinct conflicts xs
      → Distinct conflicts (row ∷ xs)
  Distinct-cons row xs swap free h x y (inl e) (inl e') c = e ∙ sym e'
  Distinct-cons row xs swap free h x y (inl e) (inr m) c =
      absurd (clash (any-Member (conflicts row) y xs free m) (rw (← e) c))
    where
      clash : {b : Bool} → b ≡ false → b ≡ true → ⊥
      clash f t = cc (f, t)
  Distinct-cons row xs swap free h x y (inr m) (inl e) c =
      absurd (clash (any-Member (conflicts row) x xs free m) (rw (← e) (swap y x ∙ c)))
    where
      clash : {b : Bool} → b ≡ false → b ≡ true → ⊥
      clash f t = cc (f, t)
  Distinct-cons row xs swap free h x y (inr m) (inr m') c = h x y m m' c

  pub Distinct-update_where :
      (p : A → Bool) (f : A → A) (xs : List A)
      → ((x y : A) → conflicts (updated p f x) (updated p f y) ≡ true → conflicts x y ≡ true)
      → Distinct conflicts xs
      → Distinct conflicts (update_where p f xs)
  Distinct-update_where p f xs keep h x y m m' c =
      let (x₀, n, e) = Member-update_where p f x xs m in
      let (y₀, n', e') = Member-update_where p f y xs m' in
      e ∙ ap (updated p f) (h x₀ y₀ n n' (keep x₀ y₀ (rw (← e, ← e') c))) ∙ sym e'

==_comm : (a b : ℕ) → (a == b) ≡ (b == a)
==_comm a b = ground arith

==ℤ_comm : (a b : ℤ) → (a ==ℤ b) ≡ (b ==ℤ a)
unfolding ◌==ℤ◌
==ℤ_comm (pos a) (pos b) = ==_comm a b
==ℤ_comm (pos a) (negsuc b) = refl
==ℤ_comm (negsuc a) (pos b) = refl
==ℤ_comm (negsuc a) (negsuc b) = ==_comm a b

same_peer_comm : (a b : Option ℤ) → UserVks.same_peer a b ≡ UserVks.same_peer b a
unfolding UserVks.same_peer
same_peer_comm none none = refl
same_peer_comm none (some b) = refl
same_peer_comm (some a) none = refl
same_peer_comm (some a) (some b) = ==ℤ_comm a b

text_eq_comm : (s t : Text) → text_eq s t ≡ text_eq t s
unfolding text_eq
text_eq_comm [] [] = refl
text_eq_comm [] (b ∷ t) = refl
text_eq_comm (a ∷ s) [] = refl
text_eq_comm (a ∷ s) (b ∷ t) = rw (==_comm a b, text_eq_comm s t) refl

&&_comm : (a b : Bool) → (a && b) ≡ (b && a)
&&_comm a b = ground arith

user_vks-conflicts_comm : (a b : UserVk) → UserVks.conflicts a b ≡ UserVks.conflicts b a
unfolding UserVks.conflicts
user_vks-conflicts_comm a b =
    let ids = ==_comm a.id b.id in
    let owners = ==_comm a.user_id b.user_id in
    let peers = same_peer_comm a.vk_peer_id b.vk_peer_id in ground (arith, ids, owners, peers)

pub confirmations-conflicts_comm :
    (a b : VkConfirmation) → Confirmations.conflicts a b ≡ Confirmations.conflicts b a
unfolding Confirmations.conflicts
confirmations-conflicts_comm a b = rw (==_comm a.id b.id, text_eq_comm a.code b.code) refl

-- A test that has passed.
pub is_unique-Distinct :
    (rows : List UserVk) → is_unique rows ≡ true → Distinct UserVks.conflicts rows
unfolding is_unique
is_unique-Distinct [] h = λ x y m n c. absurd m
is_unique-Distinct (row ∷ rows) h =
    let rest : is_unique rows ≡ true = ground arith in
    let free : any (UserVks.conflicts row) rows ≡ false = ground arith in
    Distinct-cons UserVks.conflicts row rows user_vks-conflicts_comm free
      (is_unique-Distinct rows rest)

-- Neither a new state, nor a deletion, nor the use of a code makes a conflict.
pub Distinct-in_state :
    (p : UserVk → Bool) (state : BindingState) (now : DateTime) (rows : List UserVk)
    → Distinct UserVks.conflicts rows
    → Distinct UserVks.conflicts (update_where p (in_new_state state now) rows)
unfolding UserVks.conflicts
Distinct-in_state p state now rows =
    Distinct-update_where UserVks.conflicts p (in_new_state state now) rows
      (λ x y c. go x y (p x) (p y) c)
  where
    go :
        (x y : UserVk) (a b : Bool)
        → UserVks.conflicts
            (if a then in_new_state state now x else x)
            (if b then in_new_state state now y else y)
          ≡ true
        → UserVks.conflicts x y ≡ true
    go x y true true c = c
    go x y true false c = c
    go x y false true c = c
    go x y false false c = c

pub Distinct-deleted :
    (p : UserVk → Bool) (now : DateTime) (rows : List UserVk)
    → Distinct UserVks.conflicts rows
    → Distinct UserVks.conflicts (update_where p (deleted now) rows)
unfolding UserVks.conflicts
Distinct-deleted p now rows =
    Distinct-update_where UserVks.conflicts p (deleted now) rows (λ x y c. go x y (p x) (p y) c)
  where
    go :
        (x y : UserVk) (a b : Bool)
        → UserVks.conflicts (if a then deleted now x else x) (if b then deleted now y else y) ≡ true
        → UserVks.conflicts x y ≡ true
    go x y true true c = ground arith
    go x y true false c = ground arith
    go x y false true c = ground arith
    go x y false false c = c

pub Distinct-used :
    (p : VkConfirmation → Bool) (now : DateTime) (rows : List VkConfirmation)
    → Distinct Confirmations.conflicts rows
    → Distinct Confirmations.conflicts (update_where p (used now) rows)
unfolding Confirmations.conflicts
Distinct-used p now rows =
    Distinct-update_where Confirmations.conflicts p (used now) rows (λ x y c. go x y (p x) (p y) c)
  where
    go :
        (x y : VkConfirmation) (a b : Bool)
        → Confirmations.conflicts (if a then used now x else x) (if b then used now y else y) ≡ true
        → Confirmations.conflicts x y ≡ true
    go x y true true c = c
    go x y true false c = c
    go x y false true c = c
    go x y false false c = c
