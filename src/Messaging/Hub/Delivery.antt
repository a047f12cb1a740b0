-- ===== src/Messaging/Hub/Delivery.antt =====
-- What a client of the hub of desktop/internal/messaging/wshub.go gets of the broadcasts.

use mathlib.Core.List.{Sublist}
use mathlib.Core.List.Sublist
use mathlib.Core.Bool.{true≢false}
use nats_desktop.Base.{
  Bool, List, [], ap, append-nil, append_assoc, arith, false, if◌then◌else◌, length, length-append,
  ltb, not, refl, subst, sym, true, ℕ, ◌&&◌, ◌++◌, ◌+◌, ◌-◌, ◌==◌, ◌∙◌, ◌∷◌, ◌≡◌, ◌≢◌, ◌≤◌,
}
use nats_desktop.Messaging.Hub.{
  Client, ClientMove, Payload, begin_remove, begins, broadcasts, closes, evict, finish_remove,
  finishes, msg_hub_send_buffer, new_client, offer, run, step, stop_reading, stop_writing,
  stops_reading, stops_writing, write_head, write_next, writes, wrote,
}

abbrev pub new_payloads : ClientMove → List Payload
new_payloads (broadcasts b) = b ∷ []
new_payloads m = []

-- The payloads that were broadcast in a list of moves.
abbrev pub payloads : List ClientMove → List Payload
payloads [] = []
payloads (m ∷ l) = new_payloads m ++ payloads l

-- What the socket has taken, and what waits for it.
abbrev pub delivered : Client → List Payload
delivered c = c.written ++ c.send

-- No removal of the client has been asked for.
abbrev pub calm : Client → Bool
calm c = c.removals == 0 && not c.done

-- A client that has missed nothing, or is on its way out, after some broadcasts.
pub record Served (h : List Payload) (c : Client) : Type 0 where
  pub bounded : length c.send ≤ msg_hub_send_buffer
  pub ordered : Sublist (delivered c) h
  pub leaving : c.deleting ≡ true → c.done ≡ true
  pub complete : calm c ≡ true → (c.registered ≡ true) × (c.writing ≡ true) × (delivered c ≡ h)

-- More broadcasts than a client gets.
pub later :
    (h : List Payload) (b : Payload) {l : List Payload} → Sublist l h → Sublist l (h ++ b ∷ [])
later h b {l} s =
    subst (λ x. Sublist x (h ++ b ∷ [])) (append-nil l)
      (Sublist.append s (Sublist.cons b (Sublist.refl [])))

pub nothing : (h : List Payload) → Sublist [] h
nothing [] = Sublist.refl []
nothing (b ∷ h) = Sublist.cons b (nothing h)

-- A call of `remove` is a sign that the client is on its way out.
hasty : (n : ℕ) (b : Bool) → (n + 1 == 0 && b) ≡ true → ⊥
hasty n b h = ground (arith, h)

calm-removals : (n : ℕ) (b : Bool) → (n == 0 && not b) ≡ true → (n ≡ 0) × (b ≡ false)
calm-removals n b h = ground (arith, h)

-- Either branch of a test.
branch :
    (h : List Payload) (t : Bool) (x y : Client)
    → (t ≡ true → Served h x)
    → (t ≡ false → Served h y)
    → Served h (if t then x else y)
branch h true x y a b = a refl
branch h false x y a b = b refl

-- A client of which a removal has been asked for.
asked :
    (h : List Payload) (c : Client) (n : ℕ) (w r g : Bool)
    → Served h c
    → Served h (record c { removals = n + 1; writing = w; reading = r; registered = g })
asked h c n w r g s = record {
  bounded = s.bounded;
  ordered = s.ordered;
  leaving = s.leaving;
  complete = λ k. absurd (hasty n (not c.done) k);
}

-- A client that is done.
done-Served :
    (h : List Payload) (c : Client) (n : ℕ) (w g d : Bool)
    → c.done ≡ true
    → Served h c
    → Served h (record c { removals = n; writing = w; registered = g; deleting = d })
done-Served h c n w g d e s = record {
  bounded = s.bounded;
  ordered = s.ordered;
  leaving = λ k. e;
  complete = λ k. absurd (true≢false (sym e ∙ (calm-removals n c.done k).1));
}

missed :
    (h : List Payload) (b : Payload) (c : Client)
    → Served h c
    → calm c ≢ true
    → Served (h ++ b ∷ []) c
missed h b c s n = record {
  bounded = s.bounded;
  ordered = later h b s.ordered;
  leaving = s.leaving;
  complete = λ k. absurd (n k);
}

offer-Served :
    (h : List Payload) (b : Payload) (c : Client) → Served h c → Served (h ++ b ∷ []) (offer b c)
unfolding offer
offer-Served h b c s =
    let e = append_assoc c.written c.send (b ∷ []) in
    let n = length-append c.send (b ∷ []) in
    branch (h ++ b ∷ []) (not c.registered) _ _
      (λ r. missed h b c s (λ k. true≢false (sym (rw ((s.complete k).0) at r))))
      (λ r.
        branch (h ++ b ∷ []) (ltb (length c.send) msg_hub_send_buffer) _ _
          (λ room. record {
            bounded = ground (arith, room, n);
            ordered = rw (sym e) (Sublist.append s.ordered (Sublist.refl (b ∷ [])));
            leaving = s.leaving;
            complete = λ k. let (x, y, z) = s.complete k in (x, y, sym e ∙ ap (λ l. l ++ b ∷ []) z);
          })
          (λ full.
            let a = asked h c c.removals c.writing c.reading c.registered s in
            missed h b (record c { removals = c.removals + 1 }) a (hasty c.removals (not c.done))))

-- One payload less.
shorter :
    (l : List Payload) (b : Payload) (rest h : List Payload)
    → Sublist (l ++ b ∷ rest) h
    → Sublist (l ++ rest) h
shorter l b rest h s =
    Sublist.trans (Sublist.append (Sublist.refl l) (Sublist.cons b (Sublist.refl rest))) s

smaller :
    (rest : List Payload) (b : Payload) (c : Client)
    → c.send ≡ b ∷ rest
    → length c.send ≤ msg_hub_send_buffer
    → length rest ≤ msg_hub_send_buffer
smaller rest b c e n =
    let m : length (b ∷ rest) ≤ msg_hub_send_buffer =
      subst (λ l. length l ≤ msg_hub_send_buffer) e n in
    omega (arith, m)

write_head-Served :
    (h : List Payload) (success : Bool) (send : List Payload) (c : Client)
    → c.send ≡ send
    → Served h c
    → Served h (write_head success send c)
unfolding write_head wrote
write_head-Served h success [] c e s = s
write_head-Served h true (b ∷ rest) c e s =
    let d : (c.written ++ b ∷ []) ++ rest ≡ delivered c =
      append_assoc c.written (b ∷ []) rest ∙ ap (λ l. c.written ++ l) (sym e) in
    record {
      bounded = smaller rest b c e s.bounded;
      ordered = rw d s.ordered;
      leaving = s.leaving;
      complete = λ k. let (x, y, z) = s.complete k in (x, y, d ∙ z);
    }
write_head-Served h false (b ∷ rest) c e s = record {
  bounded = smaller rest b c e s.bounded;
  ordered = shorter c.written b rest h (subst (λ l. Sublist (c.written ++ l) h) e s.ordered);
  leaving = s.leaving;
  complete = λ k. absurd (hasty c.removals (not c.done) k);
}

write_next-Served :
    (h : List Payload) (success : Bool) (c : Client) → Served h c → Served h (write_next success c)
unfolding write_next
write_next-Served h success c s =
    branch h c.writing (write_head success c.send c) c
      (λ w. write_head-Served h success c.send c refl s) (λ w. s)

pub step-Served :
    (h : List Payload) (m : ClientMove) (c : Client)
    → Served h c
    → Served (h ++ new_payloads m) (step m c)
unfolding step stop_writing stop_reading begin_remove finish_remove evict
step-Served h (broadcasts b) c s = offer-Served h b c s
step-Served h (writes success) c s = rw (append-nil h) (write_next-Served h success c s)
step-Served h stops_writing c s = rw (append-nil h) (
    branch h c.done _ c (λ d. done-Served h c c.removals false c.registered c.deleting d s)
      (λ d. s))
step-Served h stops_reading c s =
    rw (append-nil h)
      (branch h c.reading _ c (λ d. asked h c c.removals c.writing false c.registered s) (λ d. s))
step-Served h begins c s = rw (append-nil h) (
    branch h (c.removals == 0) c _ (λ z. s)
      (λ z.
        branch h c.done _ _
          (λ d. done-Served h c (c.removals - 1) c.writing c.registered c.deleting d s)
          (λ d. record {
            bounded = s.bounded;
            ordered = s.ordered;
            leaving = λ k. refl;
            complete = λ k. absurd (true≢false ((calm-removals (c.removals - 1) true k).1));
          })))
step-Served h finishes c s = rw (append-nil h) (
    branch h c.deleting _ c (λ d. done-Served h c c.removals c.writing false false (s.leaving d) s)
      (λ d. s))
step-Served h closes c s =
    rw (append-nil h)
      (branch h c.registered _ c (λ d. asked h c c.removals c.writing c.reading false s) (λ d. s))

run-Served :
    (l : List ClientMove) (h : List Payload) (c : Client)
    → Served h c
    → Served (h ++ payloads l) (run l c)
unfolding run
run-Served [] h c s = rw (append-nil h) s
run-Served (m ∷ l) h c s =
    rw (sym (append_assoc h (new_payloads m) (payloads l)))
      (run-Served l (h ++ new_payloads m) (step m c) (step-Served h m c s))

pub new_client-Served : Served [] new_client
new_client-Served = record {
  bounded = omega arith;
  ordered = Sublist.refl [];
  leaving = λ k. cc;
  complete = λ k. (refl, refl, refl);
}

-- A client of which no removal has been asked for, whatever its goroutines and the hub have done and
-- in whatever order: it is still registered and its writer runs, and what its socket has taken,
-- followed by what waits in its buffer, is every payload that was broadcast since it came, once and in
-- order.
pub run_complete :
    (l : List ClientMove)
    → calm (run l new_client) ≡ true
    → ((run l new_client).registered ≡ true)
      × ((run l new_client).writing ≡ true)
      × (delivered (run l new_client) ≡ payloads l)
run_complete l h = (run-Served l [] new_client new_client-Served).complete h
