-- ===== src/Messaging/Connection.antt =====
-- The connection of src/clients/nats/client.py, and what it lets the service do. What the library's
-- calls answer, and what its connection then says of itself, are parameters.
use eq_site_cms_vk_service.Messaging.Setup.{Answer, SetupResult, setup_consumers}
use eq_site_cms_vk_service.Messaging.Policy.{ErrorPolicy, new_policy, reset}
use eq_site_cms_vk_service.Shared.{
  refl, ◌≡◌, ◌≡◌, ℕ, Bool, true, false, not, ◌&&◌, Option, none, some, List, if◌then◌else◌,
}

-- What a connection of the library says of itself.
pub record Connection : Type 0 where
  pub is_connected : Bool
  pub is_closed : Bool

pub record Client : Type 0 where
  pub connection : Option Connection
  pub has_jetstream : Bool
  pub policy : ErrorPolicy

abbrev pub new_client : ℕ → Client
new_client limit = record { connection = none; has_jetstream = false; policy = new_policy limit }

unfoldable pub is_connected : Client → Bool
is_connected c = elim (c.connection) [ none ↦ false | some k ↦ k.is_connected ]

-- Whether `_get_jetstream` returns; it raises otherwise.
unfoldable pub get_jetstream : Client → Bool
unfolding is_connected
get_jetstream c = c.has_jetstream && is_connected c

-- How the library's `connect` ends, and its `drain`.
pub data Attempt : Type 0 where
  made refused : Connection → Attempt

pub data Drain : Type 0 where
  drained timed_out failed : Drain

-- A new state, and whether the call has raised.
abbrev connected : Client → Attempt → Client × Bool
connected c (made k) =
    (record { connection = some k; has_jetstream = true; policy = reset c.policy }, false)
connected c (refused k) = (record c { connection = some k; policy = reset c.policy }, true)

unfoldable pub connect : Attempt → Client → Client × Bool
unfolding is_connected reset
connect attempt c = if is_connected c then (c, false) else connected c attempt

-- Whether draining raises: what it does not catch, or the error of closing after it was caught.
abbrev drain_raises : Drain → Bool → Bool
drain_raises drained close_fails = false
drain_raises timed_out close_fails = close_fails
drain_raises failed close_fails = true

unfoldable pub close : Drain → Bool → Client → Client × Bool
close drain close_fails c = elim (c.connection) [
  | none ↦ (c, false)
  | some k ↦ (
    record c { connection = none; has_jetstream = false },
    not k.is_closed && drain_raises drain close_fails,
  )
]

-- `setup`, for what the server answers to each attempt to register the consumer; it raises, without one,
-- unless the client is connected.
unfoldable pub setup : (ℕ → Answer) → ℕ → ℕ → Client → Option (SetupResult × List ℕ)
unfolding is_connected setup_consumers
setup add max_attempts backoff c =
    if is_connected c then some (setup_consumers add max_attempts backoff) else none

-- A client that can neither publish nor register, and that a new connection makes usable.
pub record IsClosed (c : Client) : Type 0 where
  pub unconnected : c.connection ≡ none
  pub no_jetstream : get_jetstream c ≡ false
  pub no_setup :
      (add : ℕ → Answer) (max_attempts backoff : ℕ) → setup add max_attempts backoff c ≡ none
  pub reopens :
      (k : Connection)
      → let reopened = connect (made k) c in
        (reopened.1 ≡ false)
        × (get_jetstream reopened.0 ≡ k.is_connected)
        × (reopened.0.policy.consecutive_failures ≡ 0)

IsClosed-without : (c : Client) → c.connection ≡ none → IsClosed c
unfolding get_jetstream is_connected setup connect reset
IsClosed-without c e = record {
  unconnected = e;
  no_jetstream = go c.has_jetstream;
  no_setup = λ add max_attempts backoff. rw (e) refl;
  reopens = λ k. rw (e) (refl, refl, refl);
}
  where
    go : (b : Bool) → (b && is_connected c) ≡ false
    go true = rw (e) refl
    go false = refl

-- Closing leaves no connection, whether draining it succeeds, times out or raises, and whether closing it
-- then raises: the client neither publishes nor registers the consumer any more, until a new connection
-- is made, which it then uses with a fresh count of failures.
pub close-IsClosed :
    (drain : Drain) (close_fails : Bool) (c : Client) → IsClosed (close drain close_fails c).0
unfolding close
close-IsClosed drain close_fails c =
    IsClosed-without (close drain close_fails c).0 (go c.connection refl)
  where
    go :
        (k : Option Connection) → c.connection ≡ k → (close drain close_fails c).0.connection ≡ none
    go none e = rw (e) refl
    go (some k) e = rw (e) refl
