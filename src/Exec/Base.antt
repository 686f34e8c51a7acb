-- ===== src/Exec/Base.antt =====
-- The state of a coroutine, and the ways to build one.
use eq_site_cms_vk_service.Shared.{ℕ, suc, ℤ, String, Bool, true, false, Option, List}
use eq_site_cms_vk_service.Text.{Text, Unicode}
use eq_site_cms_vk_service.Errors.{Error}
use eq_site_cms_vk_service.Db.{DateTime, Uuid, Db}

-- src/core/protocols/vk/messenger.py
pub record VkUserProfile : Type 0 where
  pub peer_id : ℤ
  pub screen_name : Option Text
  pub display_name : Option Text

-- A user of VK in a reply, as far as the code reads it.
pub record VkUser : Type 0 where
  pub first_name : Option Text
  pub last_name : Option Text
  pub screen_name : Option Text

-- What the outside answers, each time that it is asked.
pub record Env : Type 0 where
  -- `datetime.now(UTC)` of the process
  pub now : ℕ → DateTime
  -- `now()` of the database server
  pub server_now : ℕ → DateTime
  -- `uuid4()` of the process and `gen_random_uuid()` of the server
  pub uuid : ℕ → Uuid
  -- a draw of `secrets.choice`, before it is brought into the range of its sequence
  pub choice : ℕ → ℕ
  -- whether VK accepts `messages.send`; where it does not, the client raises
  pub accepts : ℕ → ℤ → String → Bool
  -- the users in the reply to `users.get`; nothing where the client raises
  pub users_get : ℕ → ℤ → Option (List VkUser)
  -- whether NATS takes the acknowledgement of a message, or its refusal; where not, the client raises
  pub answered : ℕ → Bool → Bool
  pub unicode : Unicode

pub record World : Type 0 where
  -- the database as the session's transaction sees it
  pub db : Db
  -- the database as it was last committed
  pub committed : Db
  -- the messages that VK has accepted, the newest first
  pub outbox : List (ℤ × String)
  -- how often the outside has been asked
  pub asked : ℕ

pub data Result {ℓ} (A : Type ℓ) : Type ℓ where
  ok : A → Result A
  err : Error → Result A

abbrev pub Exec : Type 0 → Type 0
Exec A = Env → World → Result A × World

abbrev pub pure : {A : Type 0} → A → Exec A
pure a env w = (ok a, w)

abbrev pub raise : {A : Type 0} → Error → Exec A
raise e env w = (err e, w)

abbrev pub lift : {A : Type 0} → Result A → Exec A
lift r env w = (r, w)

infixl 5 ◌>>=◌ ◌>>◌
unfoldable pub ◌>>=◌ : {A B : Type 0} → Exec A → (A → Exec B) → Exec B
◌>>=◌ m f env w = let (r, w') = m env w in elim r [ ok a ↦ f a env w' | err e ↦ (err e, w') ]

abbrev pub ◌>>◌ : {A B : Type 0} → Exec A → Exec B → Exec B
m >> n = m >>= λ _. n

-- `try: m except E as e: handler(e)`; the handler raises again what it does not catch.
unfoldable pub catch : {A : Type 0} → Exec A → (Error → Exec A) → Exec A
catch m handler env w =
    let (r, w') = m env w in elim r [ ok a ↦ (ok a, w') | err e ↦ handler e env w' ]

-- Asks the outside once.
abbrev pub ask : {A : Type 0} → (Env → ℕ → A) → Exec A
ask f env w = (ok (f env w.asked), record w { asked = suc w.asked })

abbrev pub reads : {A : Type 0} → (Env → A) → Exec A
reads f env w = (ok (f env), w)

abbrev pub gets : {A : Type 0} → (Db → A) → Exec A
gets f env w = (ok (f w.db), w)

abbrev pub modify : (Db → Db) → Exec Unit
modify f env w = (ok tt, record w { db = f w.db })

-- `raise e` unless `b` holds.
abbrev pub check : Bool → Error → Exec Unit
check true e = pure tt
check false e = raise e

-- `session.commit()` and `session.rollback()`
abbrev pub commit : Exec Unit
commit env w = (ok tt, record w { committed = w.db })

abbrev pub rollback : Exec Unit
rollback env w = (ok tt, record w { db = w.committed })

abbrev pub now : Exec DateTime
now = ask (λ env n. env.now n)

abbrev pub server_now : Exec DateTime
server_now = ask (λ env n. env.server_now n)

abbrev pub new_uuid : Exec Uuid
new_uuid = ask (λ env n. env.uuid n)
