-- ===== src/Buckets/Registry/Stops.antt =====
-- Where the watchers of a service are.

use text.Mathlib.Text.{◌==◌ as str_eq}
use text.Mathlib.TextEquality.{eq_iff}
use nats_desktop.Base.{
  Bool-cases, List, Option, Option-cases, String, [], ap, arith, if◌then◌else◌, inl, inr, leb,
  length, mod-eq_of_lt, none, refl, some, sym, ℕ, ◌%◌, ◌&&◌, ◌++◌, ◌+◌, ◌<◌, ◌==◌, ◌^◌, ◌∙◌, ◌∷◌,
  ◌≡◌, ◌≤◌,
}
use nats_desktop.Connections.Manager.{
  State, connected, connecting, disconnected, failed, reconnecting,
}
use nats_desktop.Buckets.Registry.{
  Call, Registry, Watches, add, add_found, adds, allocate, call, calls, creates, handles, lookup,
  no_watches, notifies, notify_conn_state, put, stop_all, stop_found, stop_watch, stops, without,
}

one : ℕ → ℕ → ℕ
one x h = if x == h then 1 else 0

-- How often a watcher occurs.
pub times : ℕ → List ℕ → ℕ
unfolding one
times x [] = 0
times x (h ∷ hs) = one x h + times x hs

times-append : (x : ℕ) (l k : List ℕ) → times x (l ++ k) ≡ times x l + times x k
unfolding times
times-append x [] k = omega arith
times-append x (h ∷ l) k = omega (arith, times-append x l k)

handles-append : (l k : Watches) → handles (l ++ k) ≡ handles l ++ handles k
handles-append [] k = refl
handles-append (e ∷ l) k = rw (handles-append l k) refl

without-times :
    (id : String) (h x : ℕ) (l : Watches)
    → lookup id l ≡ some h
    → times x (handles (without id l)) + one x h ≡ times x (handles l)
unfolding lookup without times
without-times id h x [] q = cc
without-times id h x ((k, g) ∷ l) q = elim (Bool-cases (str_eq k id)) [
  | inl e ↦ let s : g ≡ h = ground (arith, e, q) in rw (e, s) (omega arith)
  | inr e ↦
      let s : lookup id l ≡ some h = ground (arith, e, q) in
      let r = without-times id h x l s in rw e (omega arith)
]

put-times :
    (id : String) (h x : ℕ) (l : Watches)
    → lookup id l ≡ none
    → times x (handles (put id h l)) ≡ times x (handles l) + one x h
unfolding lookup put times
put-times id h x [] q = omega arith
put-times id h x ((k, g) ∷ l) q = elim (Bool-cases (str_eq k id)) [
  | inl e ↦ absurd (ground (arith, e, q))
  | inr e ↦
      let s : lookup id l ≡ none = ground (arith, e, q) in
      let r = put-times id h x l s in rw e (omega arith)
]

found-times : (id : String) (h : ℕ) (l : Watches) → lookup id l ≡ some h → 1 ≤ times h (handles l)
unfolding one
found-times id h l q = let r = without-times id h h l q in ground arith

module _ (format : ℕ → String) where
  -- Every watcher stands under the id made of its number.
  pub Named : Watches → Type 0
  Named [] = Unit
  Named ((k, h) ∷ l) = (k ≡ format h) × Named l

  found-Named : (id : String) (h : ℕ) (l : Watches) → Named l → lookup id l ≡ some h → id ≡ format h
  unfolding Named lookup
  found-Named id h [] n q = cc
  found-Named id h ((k, g) ∷ l) (e, n) q = elim (Bool-cases (str_eq k id)) [
    | inl b ↦ let s : g ≡ h = ground (arith, b, q) in sym ((eq_iff k id).0 b) ∙ e ∙ ap format s
    | inr b ↦ let s : lookup id l ≡ some h = ground (arith, b, q) in found-Named id h l n s
  ]

  without-Named : (id : String) (l : Watches) → Named l → Named (without id l)
  unfolding Named without
  without-Named id [] n = n
  without-Named id ((k, g) ∷ l) (e, n) = elim (Bool-cases (str_eq k id)) [
    | inl b ↦ rw b n
    | inr b ↦ rw b (e, without-Named id l n)
  ]

  put-Named : (id : String) (h : ℕ) (l : Watches) → id ≡ format h → Named l → Named (put id h l)
  unfolding Named put
  put-Named id h [] q n = (q, n)
  put-Named id h ((k, g) ∷ l) q (e, n) = elim (Bool-cases (str_eq k id)) [
    | inl b ↦ rw b (q, n)
    | inr b ↦ rw b (e, put-Named id h l q n)
  ]

  append-Named : (l k : Watches) → Named l → Named k → Named (l ++ k)
  unfolding Named
  append-Named [] k n m = m
  append-Named ((i, h) ∷ l) k (e, n) m = (e, append-Named l k n m)

-- Where a watcher is: with its creator, in the map, or stopped.
pub total : ℕ → Registry → ℕ
total x r = times x (handles r.creating) + times x (handles r.entries) + times x r.stopped

pub known : ℕ → ℕ → ℕ
known x n = if leb 1 x && leb x n then 1 else 0

add-launched :
    (id : String) (o : Option ℕ) (r : Registry) → (add_found id o r).launched ≡ r.launched
unfolding add_found
add-launched id none r = refl
add-launched id (some h) r = refl

stop-launched :
    (id : String) (o : Option ℕ) (r : Registry) → (stop_found id o r).0.launched ≡ r.launched
unfolding stop_found
stop-launched id none r = refl
stop-launched id (some h) r = refl

notify-launched : (s : State) (r : Registry) → (notify_conn_state s r).launched ≡ r.launched
unfolding notify_conn_state stop_all
notify-launched s r = ground arith

call-launched :
    (format : ℕ → String) (c : Call) (r : Registry) → (call format c r).launched ≤ r.launched + 1
unfolding call add stop_watch allocate
call-launched format creates r = omega arith
call-launched format (adds id) r = omega (arith, add-launched id (lookup id r.creating) r)
call-launched format (stops id) r = ground (arith, stop-launched id (lookup id r.entries) r)
call-launched format (notifies s) r = omega (arith, notify-launched s r)

pub record Inv (format : ℕ → String) (r : Registry) : Type 0 where
  pub counted : r.next ≡ r.launched
  pub creating_named : Named format r.creating
  pub entries_named : Named format r.entries
  pub once : (x : ℕ) → total x r ≡ known x r.launched

known-suc : (x n : ℕ) → known x n + one x (n + 1) ≡ known x (n + 1)
unfolding known one
known-suc x n = ground arith

times-one : (x h : ℕ) → times x (h ∷ []) ≡ one x h
unfolding times
times-one x h = omega arith

allocate-once :
    (x : ℕ) (r : Registry)
    → ((y : ℕ) → total y r ≡ known y r.launched)
    → (format : ℕ → String) → total x (allocate format r) ≡ known x (r.launched + 1)
unfolding total allocate
allocate-once x r o format =
    let n = (r.next + 1) % (2 ^ 64) in
    let a = times-append x (handles r.creating) ((r.launched + 1) ∷ []) in
    let h =
      ap (λ (l : List ℕ). times x l)
        (handles-append r.creating ((format n, r.launched + 1) ∷ [])) in
    let c = times-one x (r.launched + 1) in
    let k = known-suc x r.launched in let p = o x in omega arith

known-le : (x n : ℕ) → known x n ≤ 1
unfolding known
known-le x n = ground arith

module _ (format : ℕ → String) (injective : (m n : ℕ) → format m ≡ format n → m ≡ n) where
  allocate-Inv :
      (r : Registry) → r.launched + 1 < 2 ^ 64 → Inv format r → Inv format (allocate format r)
  unfolding allocate Named
  allocate-Inv r b i =
      let n : (r.next + 1) % (2 ^ 64) ≡ r.launched + 1 =
        mod-eq_of_lt (let c = i.counted in omega arith) ∙ ap (λ (t : ℕ). t + 1) i.counted in
      record {
        counted = n;
        creating_named = append-Named format r.creating _ i.creating_named (ap format n, tt);
        entries_named = i.entries_named;
        once = λ x. allocate-once x r i.once format;
      }

  not_added :
      (id : String) (h : ℕ) (r : Registry)
      → Inv format r
      → lookup id r.creating ≡ some h
      → lookup id r.entries ≡ none
  unfolding total
  not_added id h r i q = elim (Option-cases (lookup id r.entries)) [
    | inl e ↦ e
    | inr (g, e) ↦
        let a = found-Named format id h r.creating i.creating_named q in
        let b = found-Named format id g r.entries i.entries_named e in
        let s : h ≡ g = injective h g (sym a ∙ b) in
        let x = found-times id h r.creating q in
        let y = found-times id h r.entries (e ∙ ap some (sym s)) in
        let o = i.once h in let k = known-le h r.launched in absurd (omega arith)
  ]

  add-Inv :
      (id : String) (o : Option ℕ) (r : Registry)
      → lookup id r.creating ≡ o
      → Inv format r
      → Inv format (add_found id o r)
  unfolding add_found total
  add-Inv id none r q i = i
  add-Inv id (some h) r q i = record {
    counted = i.counted;
    creating_named = without-Named format id r.creating i.creating_named;
    entries_named =
        put-Named format id h r.entries (found-Named format id h r.creating i.creating_named q)
          i.entries_named;
    once = λ x.
        let a = without-times id h x r.creating q in
        let b = put-times id h x r.entries (not_added id h r i q) in
        let o = i.once x in omega arith;
  }

  stop-Inv :
      (id : String) (o : Option ℕ) (r : Registry)
      → lookup id r.entries ≡ o
      → Inv format r
      → Inv format (stop_found id o r).0
  unfolding stop_found total
  stop-Inv id none r q i = i
  stop-Inv id (some h) r q i = record {
    counted = i.counted;
    creating_named = i.creating_named;
    entries_named = without-Named format id r.entries i.entries_named;
    once = λ x.
        let a = without-times id h x r.entries q in
        let b = times-append x r.stopped (h ∷ []) in
        let c = times-one x h in let o = i.once x in omega arith;
  }

  stop_all-Inv : (r : Registry) → Inv format r → Inv format (stop_all r)
  unfolding stop_all total Named times
  stop_all-Inv r i = record {
    counted = i.counted;
    creating_named = i.creating_named;
    entries_named = tt;
    once = λ x.
        let b = times-append x r.stopped (handles r.entries) in let o = i.once x in omega arith;
  }

  notify-Inv : (s : State) (r : Registry) → Inv format r → Inv format (notify_conn_state s r)
  unfolding notify_conn_state
  notify-Inv connected r i = i
  notify-Inv disconnected r i = stop_all-Inv r i
  notify-Inv connecting r i = stop_all-Inv r i
  notify-Inv reconnecting r i = stop_all-Inv r i
  notify-Inv failed r i = stop_all-Inv r i

  stop_watch-Inv : (id : String) (r : Registry) → Inv format r → Inv format (stop_watch id r).0
  unfolding stop_watch
  stop_watch-Inv id r i = elim (Bool-cases (str_eq id "")) [
    | inl e ↦ rw e i
    | inr e ↦ rw e (stop-Inv id (lookup id r.entries) r refl i)
  ]

  call-Inv :
      (c : Call) (r : Registry)
      → r.launched + 1 < 2 ^ 64
      → Inv format r
      → Inv format (call format c r)
  unfolding call add stop_watch
  call-Inv creates r b i = allocate-Inv r b i
  call-Inv (adds id) r b i = add-Inv id (lookup id r.creating) r refl i
  call-Inv (stops id) r b i = stop_watch-Inv id r i
  call-Inv (notifies s) r b i = notify-Inv s r i

  calls-Inv :
      (cs : List Call) (r : Registry)
      → r.launched + length cs < 2 ^ 64
      → Inv format r
      → Inv format (calls format cs r)
  unfolding calls
  calls-Inv [] r b i = i
  calls-Inv (c ∷ cs) r b i =
      let l = call-launched format c r in
      calls-Inv cs (call format c r) (omega arith) (call-Inv c r (omega arith) i)

no_watches-Inv : (format : ℕ → String) → Inv format no_watches
unfolding total known times Named
no_watches-Inv format = record {
  counted = refl;
  creating_named = tt;
  entries_named = tt;
  once = λ x. ground arith;
}

-- Under `format` injective and fewer than `2 ^ 64` calls, in any order of creations, `StopWatch`es
-- and changes of the connection state: every watcher that was launched is exactly once either with
-- the goroutine that creates it, or in the registry, or stopped; no other ever is.
pub calls-once :
    (format : ℕ → String)
    → ((m n : ℕ) → format m ≡ format n → m ≡ n)
    → (cs : List Call) → length cs < 2 ^ 64
    → (x : ℕ) → total x (calls format cs no_watches) ≡ known x (calls format cs no_watches).launched
calls-once format injective cs b x =
    (calls-Inv format injective cs no_watches (omega arith) (no_watches-Inv format)).once x
