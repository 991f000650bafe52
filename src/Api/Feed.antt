-- ===== src/Api/Feed.antt =====
-- api/websocket.py: `LiveFeed` and the task of each client in api/routes.py. A queue object has a number
-- for its identity; the feed says of each number what has become of that client. A message is the text
-- that is sent, without the time that stands in it.
use mmp_meridian.Prelude.{
  ℕ, Bool, true, false, not, ◌&&◌, Option, none, some, List, [], ◌∷◌, ◌++◌, length, ltb, ◌==◌,
  if◌then◌else◌,
}
use mathlib.Core.Option

-- A client: whether the feed knows its queue, the queue, and what was sent to it, in order.
pub record Client (M : Type 0) : Type 0 where
  pub registered : Bool
  pub queue : List M
  pub sent : List M

abbrev pub LiveFeed : Type 0 → Type 0
LiveFeed M = ℕ → Option (Client M)

-- What happens to the feed, in the order in which the event loop lets it happen. `delivered` is a turn
-- of the task of a client: a message, or a heartbeat after 30 s without one.
pub data Event (M : Type 0) : Type 0 where
  subscribed unsubscribed delivered : ℕ → Event M
  -- An event of `EventType`, and one of another name, which `emit` sends itself.
  broadcasted emitted_raw : M → Event M

abbrev pub maxsize : ℕ
maxsize = 100

module _ {M : Type 0} where
  abbrev pub is_full : Client M → Bool
  is_full c = not (ltb (length c.queue) maxsize)

  abbrev pub push : M → Client M → Client M
  push m c = record c { queue = c.queue ++ m ∷ [] }

  -- A client whose queue is full is no longer known to the feed; its task goes on.
  unfoldable pub offered : M → Client M → Client M
  offered m c =
      if c.registered then (if is_full c then record c { registered = false } else push m c) else c

  unfoldable offered_raw : M → Client M → Client M
  offered_raw m c = if c.registered && not (is_full c) then push m c else c

  unfoldable pub broadcast : M → LiveFeed M → LiveFeed M
  unfolding offered
  broadcast m feed n = Option.map (offered m) (feed n)

  unfoldable emit_raw : M → LiveFeed M → LiveFeed M
  unfolding offered_raw
  emit_raw m feed n = Option.map (offered_raw m) (feed n)

  -- `unsubscribe` is called when the connection has ended.
  unfoldable pub subscribe : ℕ → LiveFeed M → LiveFeed M
  subscribe k feed n =
      if k == n then some (record { registered = true; queue = []; sent = [] }) else feed n

  unfoldable pub unsubscribe : ℕ → LiveFeed M → LiveFeed M
  unsubscribe k feed n = if k == n then none else feed n

  abbrev pub next : Client M → Client M
  next c = elim c.queue [ [] ↦ c | m ∷ rest ↦ record c { queue = rest; sent = c.sent ++ m ∷ [] } ]

  unfoldable pub deliver : ℕ → LiveFeed M → LiveFeed M
  deliver k feed n = if k == n then Option.map next (feed n) else feed n

  unfoldable pub handle : Event M → LiveFeed M → LiveFeed M
  unfolding broadcast emit_raw subscribe unsubscribe deliver
  handle (subscribed k) feed = subscribe k feed
  handle (unsubscribed k) feed = unsubscribe k feed
  handle (delivered k) feed = deliver k feed
  handle (broadcasted m) feed = broadcast m feed
  handle (emitted_raw m) feed = emit_raw m feed

  unfoldable pub run : List (Event M) → LiveFeed M → LiveFeed M
  unfolding handle
  run [] feed = feed
  run (e ∷ es) feed = run es (handle e feed)
