-- ===== src/Buckets/Kv/Conflicts.antt =====
-- Conflicting writes of a key: the mode `update` of `PutKey` in desktop/internal/buckets/kv.go, on
-- a client library and a server that answer as documented.

use nats_desktop.Base.{
  List, String, [], ap, false, inr, length, none, refl, some, subst, sym, true, ℕ, ◌++◌, ◌∙◌, ◌∷◌,
  ◌≡◌, ◌≢◌, ◌≤◌,
}
use nats_desktop.Buckets.Errors.{conflict, fail, is_ok}
use nats_desktop.Buckets.Forms.{validate_key_name, validate_payload_size}
use nats_desktop.Buckets.Kv.{
  Answer, KvClient, KvEntry, answered, checked, failed, is_marker, of_name, put_done, put_key,
  revision_of, update_answer, write,
}
use nats_desktop.Buckets.Kv.Documented.{Documented, current, last_revision, latest, latest-append}
use nats_desktop.Buckets.Kv.Reverts.{Wrote, bucket_checks_pass, Wrote-current}

module _ (format : ℕ → String) (c : KvClient) (bucket key : List ℕ)
    (d : Documented c bucket key) where
  open c use {Store}
  open d use {Online, entries, depth, updates, mismatches, gets}

  update_answered :
      (p : Store × Answer ℕ) (r : ℕ)
      → p.1 ≡ answered r
      → update_answer c bucket key p ≡ (p.0, put_done r)
  unfolding update_answer
  update_answered (t, answered q) r h = cc
  update_answered (t, failed f) r h = cc

  update_write :
      (v : List ℕ) (r : ℕ) (s : Store)
      → Online s
      → validate_key_name key ≡ none
      → validate_payload_size (length v) ≡ true
      → put_key c format bucket key (inr v) "update" r s
        ≡ update_answer c bucket key (c.update bucket key v r s)
  unfolding put_key checked write of_name
  update_write v r s o k z = rw (k, z, bucket_checks_pass c bucket key d s o) refl

  update-Wrote :
      (v : List ℕ) (s : Store)
      → Online s
      → Wrote c bucket key d v s
          (update_answer c bucket key (c.update bucket key v (last_revision (entries s)) s))
  update-Wrote v s o =
      let (e, a, n, h, w, op) = updates v s o in
      subst (Wrote c bucket key d v s)
        (sym (update_answered (c.update bucket key v (last_revision (entries s)) s) e.revision a))
        (e, refl, n, h, w, op)

  -- For a valid key whose latest revision is a value, on a bucket that keeps at least one revision
  -- and answers as documented: an update with another expected revision than the latest is answered
  -- by a conflict and changes nothing, and the same update with the revision that the conflict
  -- reports succeeds, after which the key has the new value.
  pub put_key_again :
      (es : List KvEntry) (l : KvEntry) (v : List ℕ) (r : ℕ) (s : Store)
      → 1 ≤ depth
      → Online s
      → validate_key_name key ≡ none
      → validate_payload_size (length v) ≡ true
      → entries s ≡ es ++ l ∷ []
      → is_marker l ≡ false
      → r ≢ l.revision
      → let (t, q) = put_key c format bucket key (inr v) "update" r s in
        let (u, p) = put_key c format bucket key (inr v) "update" q.current_revision t in
        (t ≡ s)
        × (q.result.error_code ≡ conflict)
        × (is_ok p.result ≡ true)
        × (current (entries u) ≡ some v)
  unfolding update_answer revision_of last_revision
  put_key_again es l v r s n o k z h m ne =
      let last : latest (entries s) ≡ some l = ap latest h ∙ latest-append es l in
      let rev : last_revision (entries s) ≡ l.revision = rw last refl in
      let (f, a, b) = mismatches v r s o (λ e. ne (e ∙ rev)) in
      let g = gets s l o last m in
      let answer = put_key c format bucket key (inr v) "update" in
      let refused : answer r s ≡ (
        s,
        record {
          result = fail conflict f.general.text;
          revision = 0;
          current_revision = l.revision;
        },
      ) =
        update_write v r s o k z ∙ rw a (rw (b, g) refl) in
      let p = update_answer c bucket key (c.update bucket key v (last_revision (entries s)) s) in
      let retry : answer l.revision s ≡ p =
        update_write v l.revision s o k z
        ∙ ap (λ x. update_answer c bucket key (c.update bucket key v x s)) (sym rev) in
      let (i, j) = Wrote-current c bucket key d v s p n (update-Wrote v s o) in
      rw (refused, retry) (refl, refl, i, j)
