-- ===== src/Messaging/Hub.antt =====
-- The data-plane hub, `MsgHub` of desktop/internal/messaging/wshub.go: the clients with their
-- bounded send buffers, the two goroutines of each, and the removals. Each critical section, and
-- each receipt from a channel, is a move. A payload is kept as its bytes.
pub mod Delivery
pub mod Closing
use nats_desktop.Base.{
  Bool, List, [], false, if◌then◌else◌, length, ltb, map, not, suc, true, zero, ℕ, ◌++◌, ◌+◌, ◌-◌,
  ◌==◌, ◌∷◌,
}

abbrev pub msg_hub_send_buffer : ℕ
msg_hub_send_buffer = 64

abbrev pub Payload : Type 0
Payload = List ℕ

-- `hubClient`. `written` is what its socket has taken; `removals` counts the calls of `remove` that
-- have been made, or spawned, and have not begun; `done` is whether the channel is closed, which the
-- first one does; `deleting` is whether that one has still to take the lock.
pub record Client : Type 0 where
  pub send : List Payload
  pub written : List Payload
  pub writing : Bool
  pub reading : Bool
  pub removals : ℕ
  pub done : Bool
  pub deleting : Bool
  pub registered : Bool

abbrev pub new_client : Client
new_client = record {
  send = [];
  written = [];
  writing = true;
  reading = true;
  removals = 0;
  done = false;
  deleting = false;
  registered = true;
}

-- `BroadcastData` for one client.
unfoldable pub offer : Payload → Client → Client
offer b c =
    if not c.registered
    then c
    else if ltb (length c.send) msg_hub_send_buffer
    then record c { send = c.send ++ b ∷ [] }
    else record c { removals = c.removals + 1 }

-- A write of the socket, which succeeds or fails.
pub wrote : Bool → Payload → List Payload → Client → Client
wrote true b rest c = record c { send = rest; written = c.written ++ b ∷ [] }
wrote false b rest c = record c { send = rest; writing = false; removals = c.removals + 1 }

pub write_head : Bool → List Payload → Client → Client
unfolding wrote
write_head success [] c = c
write_head success (b ∷ rest) c = wrote success b rest c

-- `writeLoop` takes from the buffer.
unfoldable pub write_next : Bool → Client → Client
unfolding write_head
write_next success c = if c.writing then write_head success c.send c else c

-- `writeLoop` sees that the client is done.
unfoldable pub stop_writing : Client → Client
stop_writing c = if c.done then record c { writing = false } else c

-- `readLoop` ends.
unfoldable pub stop_reading : Client → Client
stop_reading c = if c.reading then record c { reading = false; removals = c.removals + 1 } else c

-- `remove` begins: only the first one does anything.
unfoldable pub begin_remove : Client → Client
begin_remove c =
    if c.removals == 0
    then c
    else if c.done
    then record c { removals = c.removals - 1 }
    else record c { removals = c.removals - 1; done = true; deleting = true }

-- `remove` under the lock.
unfoldable pub finish_remove : Client → Client
finish_remove c = if c.deleting then record c { deleting = false; registered = false } else c

-- `Close` for one client, which it removes from the map before it calls `remove`.
unfoldable pub evict : Client → Client
evict c = if c.registered then record c { registered = false; removals = c.removals + 1 } else c

pub data ClientMove : Type 0 where
  broadcasts : Payload → ClientMove
  writes : Bool → ClientMove
  stops_writing stops_reading begins finishes closes : ClientMove

unfoldable pub step : ClientMove → Client → Client
unfolding offer write_next stop_writing stop_reading begin_remove finish_remove evict
step (broadcasts b) c = offer b c
step (writes success) c = write_next success c
step stops_writing c = stop_writing c
step stops_reading c = stop_reading c
step begins c = begin_remove c
step finishes c = finish_remove c
step closes c = evict c

unfoldable pub run : List ClientMove → Client → Client
unfolding step
run [] c = c
run (m ∷ l) c = run l (step m c)

-- The clients in the order in which they came.
pub record MsgHub : Type 0 where
  pub clients : List Client
  pub closed : Bool

abbrev pub new_msg_hub : MsgHub
new_msg_hub = record { clients = []; closed = false }

-- `handleData` under the lock, for a request that has passed its checks.
unfoldable pub accept : MsgHub → MsgHub
accept h = if h.closed then h else record h { clients = h.clients ++ new_client ∷ [] }

unfoldable pub broadcast_data : Payload → MsgHub → MsgHub
unfolding offer
broadcast_data b h = if h.closed then h else record h { clients = map (offer b) h.clients }

unfoldable pub close : MsgHub → MsgHub
unfolding evict
close h = if h.closed then h else record { clients = map evict h.clients; closed = true }

pub update_at : (Client → Client) → ℕ → List Client → List Client
update_at f i [] = []
update_at f ℕ.zero (c ∷ l) = f c ∷ l
update_at f (suc i) (c ∷ l) = c ∷ update_at f i l

-- What the goroutines of one client do.
pub data Own : Type 0 where
  own_writes : Bool → Own
  own_stops_writing own_stops_reading own_begins own_finishes : Own

abbrev pub of_own : Own → ClientMove
of_own (own_writes success) = writes success
of_own own_stops_writing = stops_writing
of_own own_stops_reading = stops_reading
of_own own_begins = begins
of_own own_finishes = finishes

pub data HubMove : Type 0 where
  accepts hub_closes : HubMove
  hub_broadcasts : Payload → HubMove
  client_moves : ℕ → Own → HubMove

unfoldable pub hub_step : HubMove → MsgHub → MsgHub
unfolding accept broadcast_data close update_at step
hub_step accepts h = accept h
hub_step hub_closes h = close h
hub_step (hub_broadcasts b) h = broadcast_data b h
hub_step (client_moves i m) h = record h { clients = update_at (step (of_own m)) i h.clients }

unfoldable pub hub_run : List HubMove → MsgHub → MsgHub
unfolding hub_step
hub_run [] h = h
hub_run (m ∷ l) h = hub_run l (hub_step m h)
