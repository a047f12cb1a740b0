-- ===== src/Tests/Hub.antt =====
-- The hub of desktop/internal/messaging/wshub.go on concrete inputs.

use nats_desktop.Base.{List, [], false, refl, true, ◌∷◌, ◌≡◌}
use nats_desktop.Messaging.Hub.{
  ClientMove, HubMove, accept, accepts, broadcast_data, broadcasts, client_moves, close,
  hub_broadcasts, hub_closes, hub_run, hub_step, new_client, new_msg_hub, offer, own_begins,
  own_finishes, own_writes, run, step, write_next, writes,
}
use nats_desktop.Messaging.Hub.Delivery.{delivered, run_complete}
use nats_desktop.Messaging.Hub.Closing.{Each, Gone, Orderly, hub_run-Gone, hub_run-Orderly}

-- Two broadcasts around a write.
abbrev around : List ClientMove
around = broadcasts (1 ∷ []) ∷ writes true ∷ broadcasts (2 ∷ []) ∷ []

run_complete_example :
    ((run around new_client).registered ≡ true)
    × ((run around new_client).writing ≡ true)
    × (delivered (run around new_client) ≡ (1 ∷ []) ∷ (2 ∷ []) ∷ [])
unfolding run step offer write_next
run_complete_example = run_complete around refl

-- A client that comes between two broadcasts, a write that fails, and the end of the hub.
abbrev ending : List HubMove
ending =
    accepts
    ∷ hub_broadcasts (1 ∷ [])
    ∷ accepts
    ∷ hub_broadcasts (2 ∷ [])
    ∷ client_moves 0 (own_writes false)
    ∷ client_moves 0 own_begins
    ∷ hub_closes
    ∷ client_moves 0 own_finishes
    ∷ hub_broadcasts (3 ∷ [])
    ∷ []

hub_run-Orderly_example :
    Each (Orderly ((1 ∷ []) ∷ (2 ∷ []) ∷ (3 ∷ []) ∷ [])) (hub_run ending new_msg_hub).clients
hub_run-Orderly_example = hub_run-Orderly ending

hub_run-Gone_example : Each Gone (hub_run ending new_msg_hub).clients
unfolding hub_run hub_step close accept broadcast_data
hub_run-Gone_example = hub_run-Gone ending refl
