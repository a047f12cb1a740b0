-- ===== src/JsAdmin/Browser/Served.antt =====
-- What a stream serves from a sequence on, and the page that is made of it.

use nats_desktop.Base.{
  Bool, Bool-cases, List, String, [], ap, arith, drop, false, if◌then◌else◌, inl, inr, length, ltb,
  map, mod-eq_of_lt, refl, some, suc, sym, take, true, ℕ, ◌%◌, ◌+◌, ◌<◌, ◌^◌, ◌∙◌, ◌∷◌, ◌≡◌, ◌≤◌,
  ◌⊎◌,
}
use nats_desktop.Base.Int.{ℤ}
use nats_desktop.JsAdmin.Errors.{Failure}
use nats_desktop.JsAdmin.Browser.{
  BrowserMsg, Message, browse_payload_truncate_over, collect, encode_from_header, next_start, row,
}

-- A message as the server stores it.
pub record Stored : Type 0 where
  pub seq : ℕ
  pub subject : String
  pub headers : List (String × List String)
  pub payload : List ℕ
  pub timestamp_ms : ℤ

abbrev pub delivered : Stored → Message
delivered m = record {
  subject = m.subject;
  headers = m.headers;
  payload = m.payload;
  stream_seq = some m.seq;
  timestamp_ms = m.timestamp_ms;
}

abbrev pub row_of : Stored → BrowserMsg
row_of m = row (delivered m) m.seq

-- The messages from a sequence on.
unfoldable pub from : ℕ → List Stored → List Stored
from start [] = []
from start (m ∷ ms) = if ltb m.seq start then from start ms else m ∷ from start ms

-- What a consumer over these messages delivers, at most so many.
unfoldable pub deliver : List Stored → ℕ → String → ℕ → Failure ⊎ List Message
unfolding from
deliver log start filter n = inr (map delivered (take n (from start log)))

-- The sequences grow from a bound on.
unfoldable pub Growing : ℕ → List Stored → Type 0
Growing low [] = Unit
Growing low (m ∷ ms) = (low ≤ m.seq) × (m.seq + 1 < 2 ^ 64) × Growing (m.seq + 1) ms

pub order : (m n : ℕ) → (m < n) ⊎ (n ≤ m)
order m n = elim (Bool-cases (ltb m n)) [ inl b ↦ inl (ground arith) | inr b ↦ inr (ground arith) ]

pub ltb-false : (m n : ℕ) → n ≤ m → ltb m n ≡ false
ltb-false m n h = ground arith

pub ltb-true : (m n : ℕ) → m < n → ltb m n ≡ true
ltb-true m n h = ground arith

pub from-below : (s : ℕ) (x : Stored) (l : List Stored) → x.seq < s → from s (x ∷ l) ≡ from s l
unfolding from
from-below s x l h = rw (ltb-true x.seq s h) refl

pub from-above : (s : ℕ) (x : Stored) (l : List Stored) → s ≤ x.seq → from s (x ∷ l) ≡ x ∷ from s l
unfolding from
from-above s x l h = rw (ltb-false x.seq s h) refl

pub row-seq : (m : Message) (seq : ℕ) → (row m seq).seq ≡ seq
unfolding row encode_from_header
row-seq m seq = elim (Bool-cases (ltb browse_payload_truncate_over (length m.payload))) [
  | inl b ↦ rw b refl
  | inr b ↦ rw b refl
]

pub collect-take :
    (n : ℕ) (xs : List Stored)
    → collect n (map delivered (take (suc n) xs)) ≡ (map row_of (take n xs), ltb n (length xs))
unfolding collect
collect-take ℕ.zero [] = refl
collect-take (suc n) [] = ap (λ (b : Bool). ([], b)) (sym (ltb-false (suc n) 0 (omega arith)))
collect-take ℕ.zero (x ∷ xs) = ground arith
collect-take (suc n) (x ∷ xs) =
    let r = collect-take n xs in
    rw r (ap (λ (b : Bool). (row_of x ∷ map row_of (take n xs), b)) (ground arith))

-- Where the next page starts.
unfoldable pub after : ℕ → List Stored → ℕ
after low [] = low
after low (m ∷ ms) = after (m.seq + 1) ms

pub next_start-rows :
    (low s : ℕ) (n : ℕ) (xs : List Stored)
    → Growing low xs
    → next_start s (map row_of (take n xs)) ≡ after s (take n xs)
unfolding next_start after Growing
next_start-rows low s ℕ.zero xs g = refl
next_start-rows low s (suc n) [] g = refl
next_start-rows low s (suc n) (x ∷ xs) (a, b, g) =
    let q = mod-eq_of_lt b in
    let e = row-seq (delivered x) x.seq in
    ap (λ (k : ℕ). next_start ((k + 1) % (2 ^ 64)) (map row_of (take n xs))) e
    ∙ ap (λ (k : ℕ). next_start k (map row_of (take n xs))) q
    ∙ next_start-rows (x.seq + 1) (x.seq + 1) n xs g

pub after-ge : (low n : ℕ) (xs : List Stored) → Growing low xs → low ≤ after low (take n xs)
unfolding after Growing
after-ge low ℕ.zero xs g = omega arith
after-ge low (suc n) [] g = omega arith
after-ge low (suc n) (x ∷ xs) (a, b, g) = let r = after-ge (x.seq + 1) n xs g in omega arith

pub Growing-weaken : (k low : ℕ) (l : List Stored) → k ≤ low → Growing low l → Growing k l
unfolding Growing
Growing-weaken k low [] h g = g
Growing-weaken k low (x ∷ l) h (a, b, g) = (omega arith, b, g)

pub from_all : (low : ℕ) (xs : List Stored) → Growing low xs → from low xs ≡ xs
unfolding from Growing
from_all low [] g = refl
from_all low (x ∷ xs) (a, b, g) =
    from-above low x xs a
    ∙ ap (λ (l : List Stored). x ∷ l)
        (from_all low xs (Growing-weaken low (x.seq + 1) xs (omega arith) g))

pub from-after :
    (low n : ℕ) (xs : List Stored) → Growing low xs → from (after low (take n xs)) xs ≡ drop n xs
unfolding from after Growing
from-after low ℕ.zero xs g = from_all low xs g
from-after low (suc n) [] g = refl
from-after low (suc n) (x ∷ xs) (a, b, g) =
    let r = from-after (x.seq + 1) n xs g in
    let q = after-ge (x.seq + 1) n xs g in
    from-below (after (x.seq + 1) (take n xs)) x xs (omega arith) ∙ r

pub from-from : (s t : ℕ) (l : List Stored) → s ≤ t → from t (from s l) ≡ from t l
unfolding from
from-from s t [] h = refl
from-from s t (x ∷ l) h =
    let r = from-from s t l h in
    elim (order x.seq s) [
      | inl b ↦ simp (from-below s x l b, from-below t x l (omega arith)) r
      | inr b ↦ simp (from-above s x l b) (elim (order x.seq t) [
        | inl c ↦ simp (from-below t x (from s l) c, from-below t x l c) r
        | inr c ↦ simp (from-above t x l c, r) refl
      ])
    ]

pub from-Growing : (low s : ℕ) (l : List Stored) → Growing low l → Growing low (from s l)
unfolding from Growing
from-Growing low s [] g = g
from-Growing low s (x ∷ l) (a, b, g) = elim (order x.seq s) [
  | inl e ↦
      simp (from-below s x l e)
        (Growing-weaken low (x.seq + 1) (from s l) (omega arith) (from-Growing (x.seq + 1) s l g))
  | inr e ↦ simp (from-above s x l e) (a, b, from-Growing (x.seq + 1) s l g)
]

pub from-length : (s : ℕ) (l : List Stored) → length (from s l) ≤ length l
unfolding from
from-length s [] = let e : from s [] ≡ [] = refl in omega arith
from-length s (x ∷ l) =
    let r = from-length s l in
    elim (order x.seq s) [
      | inl e ↦ simp (from-below s x l e) (omega arith)
      | inr e ↦ simp (from-above s x l e) (omega arith)
    ]

pub from-Growing_start :
    (low start : ℕ) (l : List Stored) → Growing low l → Growing start (from start l)
unfolding Growing from
from-Growing_start low start [] g = g
from-Growing_start low start (x ∷ l) (a, b, g) = elim (order x.seq start) [
  | inl e ↦ simp (from-below start x l e) (from-Growing_start (x.seq + 1) start l g)
  | inr e ↦ simp (from-above start x l e) (e, b, from-Growing (x.seq + 1) start l g)
]
