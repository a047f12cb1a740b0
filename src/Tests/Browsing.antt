-- ===== src/Tests/Browsing.antt =====
-- Message browsing of internal/jsadmin on concrete inputs.
use nats_desktop.Base.{
  List, [], arith, length, map, refl, some, suc, ℕ, ◌*◌, ◌+◌, ◌-◌, ◌<◌, ◌^◌, ◌∷◌, ◌≡◌, ◌≤◌,
}
use nats_desktop.Base.Int.{pos}
use nats_desktop.JsAdmin.Browser.{browse_page_size_allowed}
use nats_desktop.JsAdmin.Browser.Served.{Growing, Stored, from, row_of}
use nats_desktop.JsAdmin.Browser.Paging.{pages, pages_complete}

abbrev stored : ℕ → Stored
stored seq = record {
  seq = seq;
  subject = "orders.new";
  headers = [];
  payload = seq ∷ [];
  timestamp_ms = pos 0;
}

-- Every second sequence.
stored_from : ℕ → ℕ → List Stored
stored_from seq ℕ.zero = []
stored_from seq (suc n) = stored seq ∷ stored_from (seq + 2) n

stored_from-Growing :
    (low seq n : ℕ) → low ≤ seq → seq + 2 * n < 2 ^ 64 - 2 → Growing low (stored_from seq n)
unfolding stored_from Growing
stored_from-Growing low seq ℕ.zero l h = tt
stored_from-Growing low seq (suc n) l h =
    (l, omega arith, stored_from-Growing (seq + 1) (seq + 2) n (omega arith) (omega arith))

abbrev log : List Stored
log = stored_from 1 45

-- Three pages of twenty messages at most.
pages_complete_example : pages (length log + 1) log 20 1 ≡ some (map row_of (from 1 log))
unfolding browse_page_size_allowed
pages_complete_example =
    pages_complete log 20 1 (stored_from-Growing 1 1 45 (omega arith) (omega arith)) refl
      (omega arith)
