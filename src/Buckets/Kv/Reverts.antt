-- ===== src/Buckets/Kv/Reverts.antt =====
-- `RevertKey` of desktop/internal/buckets/kv.go after writes and deletions, on a client library and
-- a server that answer as documented.

use nats_desktop.Base.{
  List, Option, [], ap, arith, drop, drop-append, false, length, length-append, none, refl, some,
  subst, sym, true, ℕ, ◌++◌, ◌+◌, ◌-◌, ◌∙◌, ◌∷◌, ◌≡◌, ◌≤◌,
}
use nats_desktop.Buckets.Checks.{checks}
use nats_desktop.Buckets.Forms.{validate_key_name}
use nats_desktop.Buckets.Errors.{KvFailure, call_ok, classify_kv_error, is_ok}
use nats_desktop.Buckets.Kv.{
  Answer, KvClient, KvEntry, PutKeyResult, answered, bucket_checks, checked, delete_key, deleted,
  failed, is_marker, no_history, of_name, put_answer, put_done, put_failed, put_op, revert_found,
  revert_from, revert_key,
}
use nats_desktop.Buckets.Kv.Targets.{last_valid, last_valid-append, revert_target_lem}
use nats_desktop.Buckets.Kv.Documented.{
  Documented, current, current-append, current-some, kept, kept_two, latest-append,
}

module _ (c : KvClient) (bucket key : List ℕ) (d : Documented c bucket key) where
  open c use {Store}
  open d use {Online, entries, depth, puts, deletes, purges, histories, opens}

  pub bucket_checks_pass : (s : Store) → Online s → checks (bucket_checks c bucket s) ≡ none
  bucket_checks_pass s o = let (a, b) = opens s o in simp (a, b) refl

  -- A write that has been answered, as a new entry.
  abbrev pub Wrote : List ℕ → Store → Store × PutKeyResult → Type 0
  Wrote v s p =
      (e : KvEntry) × (p.1 ≡ put_done e.revision)
      × Online p.0
      × (entries p.0 ≡ kept depth (entries s ++ e ∷ []))
      × (e.value ≡ v)
      × (e.operation ≡ put_op)

  put_answer-answered :
      (p : Store × Answer ℕ) (r : ℕ) → p.1 ≡ answered r → put_answer c p ≡ (p.0, put_done r)
  unfolding put_answer
  put_answer-answered (t, answered q) r h = cc
  put_answer-answered (t, failed f) r h = cc

  put-Wrote : (v : List ℕ) (s : Store) → Online s → Wrote v s (put_answer c (c.put bucket key v s))
  put-Wrote v s o =
      let (e, a, n, h, w, op) = puts v s o in
      subst (Wrote v s) (sym (put_answer-answered (c.put bucket key v s) e.revision a))
        (e, refl, n, h, w, op)

  -- What a revert comes to, given the history.
  reverts :
      (es : List KvEntry) (l : KvEntry) (s : Store)
      → Online s
      → validate_key_name key ≡ none
      → entries s ≡ es ++ l ∷ []
      → revert_key c bucket key s ≡ revert_found c bucket key (last_valid es) s
  unfolding revert_key revert_from checked last_valid of_name
  reverts es l s o k h =
      rw (k, bucket_checks_pass s o, histories s es l o h, revert_target_lem es l) refl

  -- A revert that has a target writes it.
  revert_writes :
      (es : List KvEntry) (l t : KvEntry) (s : Store)
      → Online s
      → validate_key_name key ≡ none
      → entries s ≡ es ++ l ∷ []
      → last_valid es ≡ some t
      → Wrote t.value s (revert_key c bucket key s)
  unfolding revert_found
  revert_writes es l t s o k h v =
      let r = reverts es l s o k h in
      subst (Wrote t.value s) (sym (rw (r, v) refl)) (put-Wrote t.value s o)

  -- Two more entries on a history that ends in a value: a revert goes back to that value.
  back :
      (xs : List KvEntry) (a b : KvEntry) (s : Store)
      → 2 ≤ depth
      → Online s
      → validate_key_name key ≡ none
      → is_marker a ≡ false
      → entries s ≡ kept depth ((xs ++ a ∷ []) ++ b ∷ [])
      → Wrote a.value s (revert_key c bucket key s)
  back xs a b s n o k m h =
      let ys = drop (length xs + 2 - depth) xs in
      revert_writes (ys ++ a ∷ []) b a s o k (h ∙ kept_two depth xs a b n)
        (last_valid-append ys a m)

  -- What a write leaves is live, if the bucket keeps anything.
  pub Wrote-current :
      (v : List ℕ) (s : Store) (p : Store × PutKeyResult)
      → 1 ≤ depth
      → Wrote v s p
      → (is_ok p.1.result ≡ true) × (current (entries p.0) ≡ some v)
  unfolding is_marker
  Wrote-current v s p n (e, r, o, h, w, op) =
      let l = length-append (entries s) (e ∷ []) in
      let q =
        drop-append (length (entries s ++ e ∷ []) - depth) (entries s) (e ∷ []) (omega arith) in
      let m : is_marker e ≡ false = rw op refl in
      (rw r refl, rw (h, q, current-append (drop _ (entries s)) e m) (ap some w))

  deleted_done :
      (p : Store × Option KvFailure) (s : Store) → p.1 ≡ none → deleted c none p s ≡ (p.0, call_ok)
  unfolding deleted classify_kv_error
  deleted_done (t, none) s h = refl
  deleted_done (t, some e) s h = cc

  deletes_key :
      (s : Store)
      → Online s
      → validate_key_name key ≡ none
      → (delete_key c bucket key "delete" s ≡ ((c.delete bucket key s).0, call_ok))
        × (delete_key c bucket key "purge" s ≡ ((c.purge bucket key s).0, call_ok))
  unfolding delete_key of_name
  deletes_key s o k =
      let h = bucket_checks_pass s o in
      let a = deleted_done (c.delete bucket key s) s (deletes s o).1 in
      let b = deleted_done (c.purge bucket key s) s (purges s o).1 in (rw (k, h) a, rw (k, h) b)

  -- On a bucket that keeps two revisions or more and answers as documented, for a valid key that has
  -- a value: after a deletion the key has no value, and a revert after it restores the value. Both
  -- calls succeed.
  pub delete_key-revert_key :
      (s : Store) (v : List ℕ)
      → 2 ≤ depth
      → Online s
      → validate_key_name key ≡ none
      → current (entries s) ≡ some v
      → let (t, r) = delete_key c bucket key "delete" s in
        let (u, q) = revert_key c bucket key t in
        (is_ok r ≡ true)
        × (current (entries t) ≡ none)
        × (is_ok q.result ≡ true)
        × (current (entries u) ≡ some v)
  unfolding is_marker current
  delete_key-revert_key s v n o k h =
      let (xs, l, eq, m, w) = current-some (entries s) v h in
      let (e, a, p, g, op) = deletes s o in
      let t = (c.delete bucket key s).0 in
      let (q, x) = deletes_key s o k in
      let held : entries t ≡ kept depth ((xs ++ l ∷ []) ++ e ∷ []) =
        g ∙ ap (λ y. kept depth (y ++ e ∷ [])) eq in
      let last = latest-append (drop (length xs + 2 - depth) xs ++ l ∷ []) e in
      let gone : current (entries t) ≡ none =
        ap current (held ∙ kept_two depth xs l e n) ∙ rw (last, op) refl in
      let (i, j) =
        Wrote-current l.value t (revert_key c bucket key t) (omega arith)
          (back xs l e t n p k m held) in
      rw q (refl, gone, i, j ∙ ap some w)

  -- After a purge a revert is refused, for want of an earlier value, and writes nothing.
  pub delete_key-revert_key_purged :
      (s : Store)
      → Online s
      → validate_key_name key ≡ none
      → let (t, r) = delete_key c bucket key "purge" s in
        (is_ok r ≡ true) × (revert_key c bucket key t ≡ (t, put_failed no_history))
  unfolding revert_found last_valid
  delete_key-revert_key_purged s o k =
      let (e, a, n, h, op) = purges s o in
      let (p, q) = deletes_key s o k in rw q (refl, reverts [] e (c.purge bucket key s).0 n k h)

  -- On a bucket that keeps two revisions or more and answers as documented, while connected, for a
  -- valid key whose latest revision is a value and that has an earlier revision which is one too: a
  -- revert writes the last such earlier value, and a second revert restores the value that the key
  -- had. Both calls succeed. Without an earlier value nothing is stated here.
  pub revert_key_twice :
      (es : List KvEntry) (l t : KvEntry) (s : Store)
      → 2 ≤ depth
      → Online s
      → validate_key_name key ≡ none
      → entries s ≡ es ++ l ∷ []
      → is_marker l ≡ false
      → last_valid es ≡ some t
      → let (u, r) = revert_key c bucket key s in
        let (w, q) = revert_key c bucket key u in
        (is_ok r.result ≡ true)
        × (current (entries u) ≡ some t.value)
        × (is_ok q.result ≡ true)
        × (current (entries w) ≡ some l.value)
  revert_key_twice es l t s n o k h m v =
      let first = revert_writes es l t s o k h v in
      let (e, r, p, g, x, op) = first in
      let second =
        back es l e (revert_key c bucket key s).0 n p k m
          (g ∙ ap (λ x. kept depth (x ++ e ∷ [])) h) in
      let (a, b) = Wrote-current t.value s (revert_key c bucket key s) (omega arith) first in
      let (i, j) =
        Wrote-current l.value (revert_key c bucket key s).0
          (revert_key c bucket key (revert_key c bucket key s).0) (omega arith) second in
      (a, b, i, j)
