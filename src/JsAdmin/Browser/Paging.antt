-- ===== src/JsAdmin/Browser/Paging.antt =====
-- The pages of a caller that follows `NextStartSeq` and `HasMore`.
use native.Mathlib.Numerals.{add-one}
use nats_desktop.Base.{
  List, Option, [], ap, arith, drop, false, if◌then◌else◌, inl, inr, length, length-drop, ltb, map,
  none, refl, some, suc, sym, take, take-append-drop, true, ℕ, ◌++◌, ◌+◌, ◌<◌, ◌==◌, ◌∙◌, ◌∷◌, ◌≡◌,
  ◌≤◌, ◌⊎◌,
}
use nats_desktop.JsAdmin.Errors.{CallResult}
use nats_desktop.JsAdmin.Browser.{
  BrowserMsg, Page, browse_page_size_allowed, browse_stream, browse_with, collect, next_start,
  page_of,
}
use nats_desktop.JsAdmin.Browser.Served.{
  Growing, Stored, after, after-ge, collect-take, deliver, delivered, from, from-Growing_start,
  from-after, from-from, from-length, ltb-false, ltb-true, next_start-rows, order, row_of,
}

-- The pages from a start on, following the answers. No answer, if the fuel does not suffice or a
-- page fails.
follow : List BrowserMsg → Option (List BrowserMsg) → Option (List BrowserMsg)
follow rows none = none
follow rows (some more) = some (rows ++ more)

next_pages : ℕ → CallResult ⊎ Page → (ℕ → Option (List BrowserMsg)) → Option (List BrowserMsg)
unfolding follow
next_pages fuel (inl res) go_on = none
next_pages fuel (inr page) go_on =
    if page.has_more then follow page.messages (go_on page.next_start_seq) else some page.messages

pub pages : ℕ → List Stored → ℕ → ℕ → Option (List BrowserMsg)
unfolding next_pages
pages ℕ.zero log count start = none
pages (suc fuel) log count start =
    next_pages fuel
      (browse_stream none (deliver log)
        (record { start_seq = start; count = count; subject_filter = "" }))
      (pages fuel log count)

map-append : (xs ys : List Stored) → map row_of (xs ++ ys) ≡ map row_of xs ++ map row_of ys
map-append [] ys = refl
map-append (x ∷ xs) ys = rw (map-append xs ys) refl

page-of :
    (start count : ℕ) (log : List Stored)
    → collect count (map delivered (take (suc count) (from start log)))
      ≡ (map row_of (take count (from start log)), ltb count (length (from start log)))
    → page_of start count (deliver log start "" (count + 1))
      ≡ inr (record {
        messages = map row_of (take count (from start log));
        next_start_seq = next_start start (map row_of (take count (from start log)));
        has_more = ltb count (length (from start log));
      })
unfolding page_of deliver
page-of start count log c = rw (add-one count, c) refl

-- A page of what the server has from a start on.
page-rows :
    (log : List Stored) (count start : ℕ)
    → browse_page_size_allowed count ≡ true
    → 0 < start
    → browse_stream none
        (deliver log)
        (record { start_seq = start; count = count; subject_filter = "" })
      ≡ inr (record {
        messages = map row_of (take count (from start log));
        next_start_seq = next_start start (map row_of (take count (from start log)));
        has_more = ltb count (length (from start log));
      })
unfolding browse_stream browse_with
page-rows log count start a h =
    let z : (start == 0) ≡ false = ground arith in
    let c = collect-take count (from start log) in rw (a, z) (page-of start count log c)

allowed-pos : (count : ℕ) → browse_page_size_allowed count ≡ true → 0 < count
unfolding browse_page_size_allowed
allowed-pos count a = ground arith

take_all : (n : ℕ) (xs : List Stored) → length xs ≤ n → take n xs ≡ xs
take_all ℕ.zero [] h = refl
take_all ℕ.zero (x ∷ xs) h = absurd (omega arith)
take_all (suc n) [] h = refl
take_all (suc n) (x ∷ xs) h = ap (λ (l : List Stored). x ∷ l) (take_all n xs (omega arith))

-- The next page starts no earlier, and what is left begins there.
next-rest :
    (log : List Stored) (count start : ℕ)
    → Growing 1 log
    → (start ≤ next_start start (map row_of (take count (from start log))))
      × (from (next_start start (map row_of (take count (from start log)))) log
          ≡ drop count (from start log))
next-rest log count start g =
    let k = from-Growing_start 1 start log g in
    let n = next_start-rows start start count (from start log) k in
    let o = after-ge start count (from start log) k in
    let m = from-after start count (from start log) k in
    (
      omega arith,
      ap (λ (t : ℕ). from t log) n
          ∙ sym (from-from start (after start (take count (from start log))) log o)
          ∙ m,
    )

-- One page, then the pages after it.
pages-more :
    (log : List Stored) (count : ℕ)
    → browse_page_size_allowed count ≡ true
    → (fuel start : ℕ) → 0 < start
    → count < length (from start log)
    → (rest : List BrowserMsg)
    → pages fuel log count (next_start start (map row_of (take count (from start log)))) ≡ some rest
    → pages (suc fuel) log count start ≡ some (map row_of (take count (from start log)) ++ rest)
unfolding pages next_pages follow
pages-more log count a fuel start h b rest r =
    simp (page-rows log count start a h, ltb-true count (length (from start log)) b, r) refl

pages-last :
    (log : List Stored) (count : ℕ)
    → browse_page_size_allowed count ≡ true
    → (fuel start : ℕ) → 0 < start
    → length (from start log) ≤ count
    → pages (suc fuel) log count start ≡ some (map row_of (from start log))
unfolding pages next_pages
pages-last log count a fuel start h b =
    simp
      (
        page-rows log count start a h,
        ltb-false count (length (from start log)) b,
        take_all count (from start log) b,
      )
      refl

pages-from :
    (log : List Stored) (count : ℕ)
    → Growing 1 log
    → browse_page_size_allowed count ≡ true
    → (fuel start : ℕ) → 0 < start
    → length (from start log) ≤ fuel
    → pages (suc fuel) log count start ≡ some (map row_of (from start log))
pages-from log count g a ℕ.zero start h l = pages-last log count a 0 start h (omega arith)
pages-from log count g a (suc fuel) start h l = elim (order count (length (from start log))) [
  | inl b ↦
      let (s, t) = next-rest log count start g in
      let c = allowed-pos count a in
      let d = length-drop count (from start log) in
      let k = ap (λ (x : List Stored). length x) t in
      let r =
        pages-from log count g a fuel (next_start start (map row_of (take count (from start log))))
          (omega arith) (omega arith) in
      pages-more log count a (suc fuel) start h b (map row_of (drop count (from start log)))
        (r ∙ ap (λ (x : List Stored). some (map row_of x)) t)
      ∙ ap (λ (x : List BrowserMsg). some x)
          (sym (map-append (take count (from start log)) (drop count (from start log)))
            ∙ ap (λ (x : List Stored). map row_of x) (take-append-drop count (from start log)))
  | inr b ↦ pages-last log count a (suc fuel) start h b
]

-- A caller that starts at any sequence and asks for the next page at `NextStartSeq` as long as
-- `HasMore` is set gets every message of the stream from there on, each once and in its order, with
-- any of the allowed page sizes; and this ends, within one page more than the stream has messages.
-- The stream's sequences grow from 1 or later and stay below `2 ^ 64 - 1`, and the messages that
-- the library delivers are those that the stream has from the asked sequence on.
pub pages_complete :
    (log : List Stored) (count start : ℕ)
    → Growing 1 log
    → browse_page_size_allowed count ≡ true
    → 0 < start
    → pages (length log + 1) log count start ≡ some (map row_of (from start log))
pages_complete log count start g a h =
    simp (add-one (length log))
      (pages-from log count g a (length log) start h (from-length start log))
