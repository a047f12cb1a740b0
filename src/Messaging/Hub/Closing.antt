-- ===== src/Messaging/Hub/Closing.antt =====
-- The hub of desktop/internal/messaging/wshub.go as a whole: its clients under every sequence of
-- moves, and its end.

use mathlib.Core.List.{Sublist}
use mathlib.Core.List.Sublist
use nats_desktop.Base.{
  Bool, List, [], ap, append-nil, append_assoc, false, if◌then◌else◌, length, map, refl, subst, suc,
  sym, true, ℕ, ◌++◌, ◌+◌, ◌==◌, ◌∙◌, ◌∷◌, ◌≡◌, ◌≤◌,
}
use nats_desktop.Messaging.Hub.{
  Client, HubMove, MsgHub, Own, Payload, accept, accepts, begin_remove, broadcast_data, broadcasts,
  client_moves, close, closes, evict, finish_remove, hub_broadcasts, hub_closes, hub_run, hub_step,
  msg_hub_send_buffer, new_client, new_msg_hub, of_own, offer, own_begins, own_finishes,
  own_stops_reading, own_stops_writing, own_writes, step, stop_reading, stop_writing, update_at,
  write_head, write_next, wrote,
}
use nats_desktop.Messaging.Hub.Delivery.{
  Served, delivered, later, new_client-Served, new_payloads, nothing, step-Served,
}

abbrev pub new_hub_payloads : HubMove → List Payload
new_hub_payloads (hub_broadcasts b) = b ∷ []
new_hub_payloads m = []

-- The payloads that the hub was given.
abbrev pub hub_payloads : List HubMove → List Payload
hub_payloads [] = []
hub_payloads (m ∷ l) = new_hub_payloads m ++ hub_payloads l

-- A client that came at some time, after so many broadcasts of the hub.
abbrev Joined : List Payload → Client → Type 0
Joined h c = (own : List Payload) × Sublist own h × Served own c

abbrev pub Each : (Client → Type 0) → List Client → Type 0
Each P [] = Unit
Each P (c ∷ l) = P c × Each P l

module _ (P Q : Client → Type 0) where
  Each-map :
      (f : Client → Client) (l : List Client)
      → ((c : Client) → P c → Q (f c))
      → Each P l
      → Each Q (map f l)
  Each-map f [] g e = tt
  Each-map f (c ∷ l) g (p, e) = (g c p, Each-map f l g e)

  Each-weaken : (l : List Client) → ((c : Client) → P c → Q c) → Each P l → Each Q l
  Each-weaken [] g e = tt
  Each-weaken (c ∷ l) g (p, e) = (g c p, Each-weaken l g e)

module _ (P : Client → Type 0) where
  Each-update_at :
      (f : Client → Client) (i : ℕ) (l : List Client)
      → ((c : Client) → P c → P (f c))
      → Each P l
      → Each P (update_at f i l)
  unfolding update_at
  Each-update_at f i [] g e = tt
  Each-update_at f ℕ.zero (c ∷ l) g (p, e) = (g c p, e)
  Each-update_at f (suc i) (c ∷ l) g (p, e) = (p, Each-update_at f i l g e)

  Each-append : (l : List Client) (c : Client) → Each P l → P c → Each P (l ++ c ∷ [])
  Each-append [] c e p = (p, tt)
  Each-append (d ∷ l) c (q, e) p = (q, Each-append l c e p)

own_silent : (m : Own) → new_payloads (of_own m) ≡ []
own_silent (own_writes success) = refl
own_silent own_stops_writing = refl
own_silent own_stops_reading = refl
own_silent own_begins = refl
own_silent own_finishes = refl

own-Joined : (h : List Payload) (m : Own) (c : Client) → Joined h c → Joined h (step (of_own m) c)
own-Joined h m c (own, s, v) = (
  own,
  s,
  subst (λ l. Served l (step (of_own m) c)) (ap (λ l. own ++ l) (own_silent m) ∙ append-nil own)
      (step-Served own (of_own m) c v),
)

offer-Joined :
    (h : List Payload) (b : Payload) (c : Client) → Joined h c → Joined (h ++ b ∷ []) (offer b c)
unfolding step
offer-Joined h b c (own, s, v) =
    (own ++ b ∷ [], Sublist.append s (Sublist.refl (b ∷ [])), step-Served own (broadcasts b) c v)

evict-Joined : (h : List Payload) (c : Client) → Joined h c → Joined h (evict c)
unfolding step
evict-Joined h c (own, s, v) = (own, s, rw (sym (append-nil own)) (step-Served own closes c v))

new_client-Joined : (h : List Payload) → Joined h new_client
new_client-Joined h = ([], nothing h, new_client-Served)

-- A client that the hub does not send to any more.
abbrev pub Gone : Client → Type 0
Gone c = c.registered ≡ false

either-Gone : (t : Bool) (x y : Client) → Gone x → Gone y → Gone (if t then x else y)
either-Gone true x y a b = a
either-Gone false x y a b = b

write_head-Gone :
    (success : Bool) (l : List Payload) (c : Client) → Gone c → Gone (write_head success l c)
unfolding write_head wrote
write_head-Gone success [] c g = g
write_head-Gone true (b ∷ l) c g = g
write_head-Gone false (b ∷ l) c g = g

own-Gone : (m : Own) (c : Client) → Gone c → Gone (step (of_own m) c)
unfolding step write_next stop_writing stop_reading begin_remove finish_remove
own-Gone (own_writes success) c g = either-Gone c.writing _ c (write_head-Gone success c.send c g) g
own-Gone own_stops_writing c g = either-Gone c.done _ c g g
own-Gone own_stops_reading c g = either-Gone c.reading _ c g g
own-Gone own_begins c g = either-Gone (c.removals == 0) c _ g (either-Gone c.done _ _ g g)
own-Gone own_finishes c g = either-Gone c.deleting _ c refl g

evicted :
    (c : Client) (t : Bool)
    → c.registered ≡ t
    → Gone (if t then record c { registered = false; removals = c.removals + 1 } else c)
evicted c true e = refl
evicted c false e = e

evict-Gone : (c : Client) → Gone (evict c)
unfolding evict
evict-Gone c = evicted c c.registered refl

-- What a hub holds, by whether it is closed.
abbrev Shut : Bool → List Client → Type 0
Shut true l = Each Gone l
Shut false l = Unit

abbrev Held : List Payload → MsgHub → Type 0
Held h hub = Each (Joined h) hub.clients × Shut hub.closed hub.clients

branch_hub :
    (P : MsgHub → Type 0) (t : Bool) (x y : MsgHub)
    → (t ≡ true → P x)
    → (t ≡ false → P y)
    → P (if t then x else y)
branch_hub P true x y a b = a refl
branch_hub P false x y a b = b refl

open_hub : (t : Bool) (l : List Client) → t ≡ false → Shut t l
open_hub t l e = subst (λ x. Shut x l) (sym e) tt

own-Shut :
    (t : Bool) (m : Own) (i : ℕ) (l : List Client)
    → Shut t l
    → Shut t (update_at (step (of_own m)) i l)
own-Shut true m i l g = Each-update_at Gone (step (of_own m)) i l (own-Gone m) g
own-Shut false m i l g = tt

hub_step-Held :
    (h : List Payload) (m : HubMove) (hub : MsgHub)
    → Held h hub
    → Held (h ++ new_hub_payloads m) (hub_step m hub)
unfolding hub_step accept broadcast_data close
hub_step-Held h accepts hub (j, s) = rw (append-nil h) (
    branch_hub (Held h) hub.closed hub _ (λ e. (j, s))
      (λ e. (
        Each-append (Joined h) hub.clients new_client j (new_client-Joined h),
        open_hub hub.closed _ e,
      )))
hub_step-Held h hub_closes hub (j, s) = rw (append-nil h) (
    branch_hub (Held h) hub.closed hub _ (λ e. (j, s))
      (λ e. (
        Each-map (Joined h) (Joined h) evict hub.clients (evict-Joined h) j,
        Each-map (Joined h) Gone evict hub.clients (λ c p. evict-Gone c) j,
      )))
hub_step-Held h (hub_broadcasts b) hub (j, s) =
    branch_hub (Held (h ++ b ∷ [])) hub.closed hub _
      (λ e. (
        Each-weaken (Joined h) (Joined (h ++ b ∷ [])) hub.clients (λ c p. (p.0, later h b p.1, p.2))
            j,
        s,
      ))
      (λ e. (
        Each-map (Joined h) (Joined (h ++ b ∷ [])) (offer b) hub.clients (offer-Joined h b) j,
        open_hub hub.closed _ e,
      ))
hub_step-Held h (client_moves i m) hub (j, s) = rw (append-nil h) (
  Each-update_at (Joined h) (step (of_own m)) i hub.clients (own-Joined h m) j,
  own-Shut hub.closed m i hub.clients s,
)

hub_run-Held :
    (l : List HubMove) (h : List Payload) (hub : MsgHub)
    → Held h hub
    → Held (h ++ hub_payloads l) (hub_run l hub)
unfolding hub_run
hub_run-Held [] h hub s = rw (append-nil h) s
hub_run-Held (m ∷ l) h hub s =
    rw (sym (append_assoc h (new_hub_payloads m) (hub_payloads l)))
      (hub_run-Held l (h ++ new_hub_payloads m) (hub_step m hub) (hub_step-Held h m hub s))

-- The buffer of a client is bounded, and what it gets is in the order of the broadcasts.
abbrev pub Orderly : List Payload → Client → Type 0
Orderly h c = (length c.send ≤ msg_hub_send_buffer) × Sublist (delivered c) h

-- Whatever the hub and the goroutines of its clients do, and in whatever order: no client has more
-- than 64 payloads waiting, and what it has taken, followed by what waits, is a subsequence of the
-- payloads that the hub was given.
pub hub_run-Orderly :
    (l : List HubMove) → Each (Orderly (hub_payloads l)) (hub_run l new_msg_hub).clients
hub_run-Orderly l =
    Each-weaken (Joined (hub_payloads l)) (Orderly (hub_payloads l)) (hub_run l new_msg_hub).clients
      (λ c p. (p.2.bounded, Sublist.trans p.2.ordered p.1))
      (hub_run-Held l [] new_msg_hub (tt, tt)).0

-- Once the hub is closed, whatever it and the goroutines of its clients have done before and since,
-- it sends to no client.
pub hub_run-Gone :
    (l : List HubMove)
    → (hub_run l new_msg_hub).closed ≡ true
    → Each Gone (hub_run l new_msg_hub).clients
hub_run-Gone l e =
    subst (λ t. Shut t (hub_run l new_msg_hub).clients) e (hub_run-Held l [] new_msg_hub (tt, tt)).1
