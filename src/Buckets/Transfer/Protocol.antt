-- ===== src/Buckets/Transfer/Protocol.antt =====
-- What a listener sees of one transfer.

use text.Mathlib.Text.{◌==◌ as str_eq}
use nats_desktop.Base.{
  Bool, Bool-cases, List, Option, [], false, if◌then◌else◌, inl, inr, ltb, none, not, refl, some,
  true, ℕ, ◌%◌, ◌&&◌, ◌++◌, ◌+◌, ◌==◌, ◌^◌, ◌∷◌, ◌≡◌, ◌⊎◌,
}
use nats_desktop.Buckets.Errors.{
  CallResult, KvFailure, classify_kv_error-fails, fail, is_ok, not_connected, validation,
}
use nats_desktop.Buckets.Checks.{
  AllFailures, IsFailure, checks, checks-IsFailure, local, local-IsFailure, not_ok-IsFailure,
  of_object-IsFailure, of_store-IsFailure, unless-IsFailure,
}
use nats_desktop.Buckets.Names.{safe_object_name}
use nats_desktop.Buckets.Transfer.{
  Counter, Download, Outcome, Service, Throttle, TransferEvent, Upload, allow, complete, count,
  counted, counts, download_checks, download_end, download_event, download_object, download_open,
  gate, incomplete, new_counter, next_transfer_id, reject, running, transfer, upload_checks,
  upload_end, upload_event, upload_object, upload_open,
}

-- How a list of events goes on after the first: progress, then one last event, which says
-- whether the call succeeds.
pub data Course (id : ℕ) (success : Bool) : List TransferEvent → Type 0 where
  ends :
      (e : TransferEvent)
      → e.transfer_id ≡ id
      → e.phase ≡ (if success then complete else incomplete)
      → Course id success (e ∷ [])
  goes_on :
      (e : TransferEvent) {es : List TransferEvent}
      → e.transfer_id ≡ id
      → e.phase ≡ running
      → Course id success es
      → Course id success (e ∷ es)

-- The events of a call: none, if it fails before the transfer, or a whole course.
pub data Reported (success : Bool) : List TransferEvent → Type 0 where
  silent : success ≡ false → Reported success []
  reports :
      (e : TransferEvent) {es : List TransferEvent}
      → e.phase ≡ running
      → e.bytes_done ≡ 0
      → Course e.transfer_id success es
      → Reported success (e ∷ es)

abbrev at : TransferEvent → ℕ → TransferEvent
at tpl d = record tpl { phase = running; bytes_done = d }

-- One read emits nothing or one progress event, and nothing once the transfer has finished.
counted-cases :
    (tpl : TransferEvent) (d : ℕ) (o : Bool × Throttle) (c : Counter)
    → ((counted tpl d o c).1 ≡ []) ⊎ ((counted tpl d o c).1 ≡ at tpl d ∷ [])
unfolding counted
counted-cases tpl d (o, th) c = elim (Bool-cases c.fin) [
  | inl b ↦ inl (simp b refl)
  | inr b ↦ elim (Bool-cases o) [ inl e ↦ inr (simp (b, e) refl) | inr e ↦ inl (simp (b, e) refl) ]
]

counted-finished :
    (tpl : TransferEvent) (d : ℕ) (o : Bool × Throttle) (c : Counter)
    → c.fin ≡ true
    → ((counted tpl d o c).1 ≡ []) × ((counted tpl d o c).0.fin ≡ true)
unfolding counted
counted-finished tpl d (o, th) c b = (simp b refl, simp b refl)

count-cases :
    (tpl : TransferEvent) (now k : ℕ) (c : Counter)
    → ((count tpl now k c).1 ≡ []) ⊎ ((d : ℕ) × ((count tpl now k c).1 ≡ at tpl d ∷ []))
unfolding count
count-cases tpl now k c = elim (Bool-cases (k == 0)) [
  | inl b ↦ inl (simp b refl)
  | inr b ↦
      let d = (c.n + k) % (2 ^ 64) in
      elim (counted-cases tpl d (allow now d c.th) c) [
        | inl e ↦ inl (simp (b, e) refl)
        | inr e ↦ inr (d, simp (b, e) refl)
      ]
]

count-finished :
    (tpl : TransferEvent) (now k : ℕ) (c : Counter)
    → c.fin ≡ true
    → ((count tpl now k c).1 ≡ []) × ((count tpl now k c).0.fin ≡ true)
unfolding count
count-finished tpl now k c h = elim (Bool-cases (k == 0)) [
  | inl b ↦ (simp b refl, simp b h)
  | inr b ↦
      let d = (c.n + k) % (2 ^ 64) in
      let (p, q) = counted-finished tpl d (allow now d c.th) c h in
      (simp (b, p) refl, simp (b, q) refl)
]

finished-silent :
    (tpl : TransferEvent) (l : List (ℕ × ℕ)) (c : Counter) → c.fin ≡ true → (counts tpl l c).1 ≡ []
unfolding counts
finished-silent tpl [] c h = refl
finished-silent tpl ((now, k) ∷ l) c h =
    let (p, q) = count-finished tpl now k c h in
    let r = finished-silent tpl l (count tpl now k c).0 q in simp (p, r) refl

-- Progress before a course is a course.
counts-Course :
    (tpl : TransferEvent) (success : Bool) (rest : List TransferEvent)
    → Course tpl.transfer_id success rest
    → (l : List (ℕ × ℕ)) (c : Counter) → Course tpl.transfer_id success ((counts tpl l c).1 ++ rest)
unfolding counts
counts-Course tpl success rest k [] c = k
counts-Course tpl success rest k ((now, n) ∷ l) c =
    let r = counts-Course tpl success rest k l (count tpl now n c).0 in
    elim (count-cases tpl now n c) [
      | inl e ↦ simp e r
      | inr (d, e) ↦ simp e (goes_on (at tpl d) refl refl r)
    ]

transfer-busy :
    (tpl : TransferEvent) (start : ℕ) (reads late : List (ℕ × ℕ)) (o : TransferEvent × CallResult)
    (s : Service)
    → (transfer tpl start reads late o s).0.busy ≡ s.busy
unfolding transfer
transfer-busy tpl start reads late o s = refl

-- A transfer that has begun.
transfer-Reported :
    (tpl : TransferEvent) (start : ℕ) (reads late : List (ℕ × ℕ)) (last : TransferEvent)
    (res : CallResult) (s : Service)
    → tpl.phase ≡ running
    → tpl.bytes_done ≡ 0
    → last.transfer_id ≡ tpl.transfer_id
    → last.phase ≡ (if is_ok res then complete else incomplete)
    → Reported (is_ok res) (transfer tpl start reads late (last, res) s).1
unfolding transfer
transfer-Reported tpl start reads late last res s p z i h =
    let c = record (counts tpl reads (new_counter start)).0 { fin = true } in
    let q = finished-silent tpl late c refl in
    reports tpl p z
      (simp q (counts-Course tpl (is_ok res) (last ∷ []) (ends last i h) reads (new_counter start)))

upload_end-agrees :
    (u : Upload) (tpl : TransferEvent) (o : Option KvFailure)
    → ((upload_end u tpl o).0.transfer_id ≡ tpl.transfer_id)
      × ((upload_end u tpl o).0.phase
          ≡ (if is_ok (upload_end u tpl o).1 then complete else incomplete))
unfolding upload_end
upload_end-agrees u tpl (some e) = (
  refl,
  elim (Bool-cases e.connection_closed) [
    | inl b ↦ simp b refl
    | inr b ↦ simp (b, classify_kv_error-fails e) refl
  ],
)
upload_end-agrees u tpl none = elim (Bool-cases u.dropped) [
  | inl b ↦ simp b (refl, refl)
  | inr b ↦ simp b (refl, refl)
]

upload_open-Reported :
    (u : Upload) (s : Service)
    → ((upload_open u s).0.busy ≡ false) × Reported (is_ok (upload_open u s).2) (upload_open u s).1
unfolding upload_open transfer next_transfer_id
upload_open-Reported u s =
    let tpl = upload_event u (next_transfer_id s).transfer_seq in
    let (i, h) = upload_end-agrees u tpl u.put_error in
    (
      refl,
      transfer-Reported tpl u.start u.reads u.late (upload_end u tpl u.put_error).0
          (upload_end u tpl u.put_error).1 (record (next_transfer_id s) { busy = false }) refl refl
          i h,
    )

free-Reported :
    (b : Bool) (x y : Outcome)
    → b ≡ false
    → (y.0.busy ≡ false) × Reported (is_ok y.2) y.1
    → ((if b then x else y).0.busy ≡ false)
      × Reported (is_ok (if b then x else y).2) (if b then x else y).1
free-Reported true x y h r = cc
free-Reported false x y h r = r

gate-Reported :
    (early : Option CallResult) (go_on : Outcome) (s : Service)
    → IsFailure early
    → (go_on.0.busy ≡ false) × Reported (is_ok go_on.2) go_on.1
    → ((gate early go_on s).0.busy ≡ false)
      × Reported (is_ok (gate early go_on s).2) (gate early go_on s).1
unfolding gate reject
gate-Reported none go_on s f r = r
gate-Reported (some res) go_on s f r = (refl, rw f (silent refl))

upload-AllFailures : (u : Upload) → AllFailures (upload_checks u)
upload-AllFailures u = (
  unless-IsFailure (not (str_eq u.path "")) (fail validation "path must not be empty") refl,
  (
    not_ok-IsFailure u.handles,
    (
      of_store-IsFailure u.store,
      (
        local-IsFailure u.opened,
        (
          local-IsFailure u.stat,
          (
            unless-IsFailure (not u.is_dir) (fail validation "path is a directory, not a file")
                refl,
            (unless-IsFailure u.connected (fail not_connected "not connected") refl, tt),
          ),
        ),
      ),
    ),
  ),
)

download-AllFailures : (d : Download) → AllFailures (download_checks d)
download-AllFailures d = (
  unless-IsFailure (not (str_eq d.name "")) _ refl,
  (
    unless-IsFailure (not (str_eq d.dir "")) _ refl,
    (
      unless-IsFailure (safe_object_name d.name_bytes) _ refl,
      (
        not_ok-IsFailure d.handles,
        (
          of_store-IsFailure d.store,
          (
            unless-IsFailure d.connected _ refl,
            (
              of_object-IsFailure d.get,
              (
                of_object-IsFailure d.info,
                (unless-IsFailure (not (ltb 0 d.free && ltb d.free d.size)) _ refl, tt),
              ),
            ),
          ),
        ),
      ),
    ),
  ),
)

download_end-agrees :
    (d : Download) (tpl : TransferEvent) (o : Option KvFailure)
    → ((download_end d tpl o).0.transfer_id ≡ tpl.transfer_id)
      × ((download_end d tpl o).0.phase
          ≡ (if is_ok (download_end d tpl o).1 then complete else incomplete))
unfolding download_end
download_end-agrees d tpl (some e) = (refl, refl)
download_end-agrees d tpl none = elim (Bool-cases d.digest_ok) [
  | inl b ↦ simp b (refl, refl)
  | inr b ↦ simp b (refl, refl)
]

download_open-Reported :
    (d : Download) (s : Service)
    → ((download_open d s).0.busy ≡ false)
      × Reported (is_ok (download_open d s).2) (download_open d s).1
unfolding download_open
download_open-Reported d s =
    let t = next_transfer_id s in
    let tpl = download_event d t.transfer_seq in
    let (i, h) = download_end-agrees d tpl d.copy_error in
    gate-Reported (checks (local d.mkdir ∷ local d.create ∷ []))
      (transfer tpl d.start d.writes d.late (download_end d tpl d.copy_error)
        (record t { busy = false }))
      t
      (checks-IsFailure (local d.mkdir ∷ local d.create ∷ [])
        (local-IsFailure d.mkdir, (local-IsFailure d.create, tt)))
      (
        transfer-busy tpl d.start d.writes d.late (download_end d tpl d.copy_error)
            (record t { busy = false }),
        transfer-Reported tpl d.start d.writes d.late (download_end d tpl d.copy_error).0
            (download_end d tpl d.copy_error).1 (record t { busy = false }) refl refl i h,
      )

-- An upload while no transfer runs, whatever happens during it: the gate is free again afterwards,
-- and a listener sees either nothing, if the answer is a failure, or a first event with no bytes
-- done, then progress, then exactly one last event, all of the same transfer; the last one is
-- `complete` exactly if the call succeeds, else `incomplete`. Reads after the end emit nothing.
pub upload_object-Reported :
    (u : Upload) (s : Service)
    → s.busy ≡ false
    → ((upload_object u s).0.busy ≡ false)
      × Reported (is_ok (upload_object u s).2) (upload_object u s).1
unfolding upload_object
upload_object-Reported u s h =
    let f = checks-IsFailure (upload_checks u) (upload-AllFailures u) in
    free-Reported s.busy _ _ h
      (gate-Reported (checks (upload_checks u)) (upload_open u s) s f (upload_open-Reported u s))

-- A download while no transfer runs, whatever happens during it: the gate is free again afterwards,
-- and a listener sees either nothing, if the answer is a failure, or a first event with no bytes
-- done, then progress, then exactly one last event, all of the same transfer; the last one is
-- `complete` exactly if the call succeeds, else `incomplete`.
pub download_object-Reported :
    (d : Download) (s : Service)
    → s.busy ≡ false
    → ((download_object d s).0.busy ≡ false)
      × Reported (is_ok (download_object d s).2) (download_object d s).1
unfolding download_object
download_object-Reported d s h =
    let f = checks-IsFailure (download_checks d) (download-AllFailures d) in
    free-Reported s.busy _ _ h (
      gate-Reported (checks (download_checks d)) (download_open d s) s f
        (download_open-Reported d s))
