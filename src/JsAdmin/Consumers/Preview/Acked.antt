-- ===== src/JsAdmin/Consumers/Preview/Acked.antt =====
-- Which messages `PreviewNext` acknowledges.
use nats_desktop.Base.Int.{ltb_ℤ, pos, ℤ}
use nats_desktop.Base.{
  Bool, List, Option, [], ap, false, if◌then◌else◌, inl, inr, length, map, none, refl, some, suc,
  true, ℕ, ◌&&◌, ◌||◌, ◌∷◌, ◌≡◌, ◌⊎◌,
}
use nats_desktop.JsAdmin.Errors.{
  CallResult, Failure, classify_error, classify_error-fails, fail, is_ok, validation,
}
use nats_desktop.JsAdmin.Consumers.Preview.{
  Fetched, NextMsg, Preview, PreviewNext, collect_next, collect_one, no_preview, preview_batch_max,
  preview_done, preview_fetched, preview_found, preview_info, preview_next,
}

abbrev add_readable : Option ℕ → Fetched → List Fetched → List Fetched
add_readable none m l = l
add_readable (some seq) m l = m ∷ l

-- The messages with metadata, and the ids of messages.
unfoldable pub readable : List Fetched → List Fetched
readable [] = []
readable (m ∷ l) = add_readable m.message.stream_seq m (readable l)

abbrev pub ids : List Fetched → List ℕ
ids l = map (λ (m : Fetched). m.id) l

abbrev pub batch_of : Failure ⊎ List Fetched → List Fetched
batch_of (inl e) = []
batch_of (inr l) = l

abbrev pub is_paused : Failure ⊎ Bool → Bool
is_paused (inl e) = false
is_paused (inr paused) = paused

abbrev pub out_of_range : ℤ → Bool
out_of_range batch = ltb_ℤ batch (pos 1) || ltb_ℤ (pos preview_batch_max) batch

-- What is collected of a list of messages.
abbrev Collects : Bool → List NextMsg × List ℕ → List Fetched → Type 0
Collects auto_ack got l = (got.1 ≡ (if auto_ack then ids l else [])) × (length got.0 ≡ length l)

one :
    (auto_ack : Bool) (m : Fetched) (seq : Option ℕ) (got : List NextMsg × List ℕ)
    (l : List Fetched)
    → Collects auto_ack got l
    → Collects auto_ack (collect_one auto_ack m seq got) (add_readable seq m l)
unfolding collect_one
one auto_ack m none (shown, acks) l h = h
one true m (some seq) (shown, acks) l (a, b) = (ap (λ x. m.id ∷ x) a, ap suc b)
one false m (some seq) (shown, acks) l (a, b) = (a, ap suc b)

collected :
    (auto_ack : Bool) (l : List Fetched) → Collects auto_ack (collect_next auto_ack l) (readable l)
unfolding collect_next readable
collected true [] = (refl, refl)
collected false [] = (refl, refl)
collected auto_ack (m ∷ l) =
    one auto_ack m m.message.stream_seq (collect_next auto_ack l) (readable l)
      (collected auto_ack l)

-- The acknowledgements and the number of messages of an answer.
abbrev Acks : Bool → List Fetched → PreviewNext → Type 0
Acks auto_ack l o =
    (o.acked ≡ (if is_ok o.result && auto_ack then ids l else []))
    × (length o.messages ≡ (if is_ok o.result then length l else 0))

refused-Acks :
    (auto_ack requested : Bool) (l : List Fetched) (res : CallResult)
    → is_ok res ≡ false
    → Acks auto_ack l (no_preview requested res)
refused-Acks auto_ack requested l res h = rw h (refl, refl)

done-Acks :
    (auto_ack : Bool) (l : List Fetched) (o : List NextMsg × List ℕ)
    (error : Option (Failure × Bool))
    → Collects auto_ack o l
    → Acks auto_ack l (preview_done o error) × ((preview_done o error).requested ≡ true)
unfolding preview_done
done-Acks auto_ack l (shown, acks) none h = (h, refl)
done-Acks auto_ack l (shown, acks) (some (e, true)) h = (h, refl)
done-Acks auto_ack l (shown, acks) (some (e, false)) h =
    (refused-Acks auto_ack true l (classify_error (some e)) (classify_error-fails e), refl)

fetched-Acks :
    (p : Preview) (f : Failure ⊎ List Fetched)
    → Acks p.auto_ack (readable (batch_of f)) (preview_fetched p f)
unfolding preview_fetched readable
fetched-Acks p (inl e) =
    refused-Acks p.auto_ack true [] (classify_error (some e)) (classify_error-fails e)
fetched-Acks p (inr l) =
    (done-Acks p.auto_ack (readable l) (collect_next p.auto_ack l) p.batch_error
      (collected p.auto_ack l)).0

-- An answer, and that no batch is requested of a paused consumer.
abbrev Held : Preview → Failure ⊎ Bool → PreviewNext → Type 0
Held p info o =
    Acks p.auto_ack (readable (batch_of p.fetch)) o × ((o.requested && is_paused info) ≡ false)

refused-Held :
    (p : Preview) (info : Failure ⊎ Bool) (res : CallResult)
    → is_ok res ≡ false
    → Held p info (no_preview false res)
refused-Held p info res h =
    (refused-Acks p.auto_ack false (readable (batch_of p.fetch)) res h, refl)

and_false : (b : Bool) → (b && false) ≡ false
and_false true = refl
and_false false = refl

info-Held : (p : Preview) (info : Failure ⊎ Bool) → Held p info (preview_info p info)
unfolding preview_info
info-Held p (inl e) = refused-Held p (inl e) (classify_error (some e)) (classify_error-fails e)
info-Held p (inr true) =
    refused-Held p (inr true) (fail validation "consumer is paused; resume first") refl
info-Held p (inr false) = (fetched-Acks p p.fetch, and_false (preview_fetched p p.fetch).requested)

found-Held :
    (p : Preview) (stream consumer : Option Failure)
    → Held p p.info (preview_found p stream consumer)
unfolding preview_found
found-Held p (some e) consumer =
    refused-Held p p.info (classify_error (some e)) (classify_error-fails e)
found-Held p none (some e) =
    refused-Held p p.info (classify_error (some e)) (classify_error-fails e)
found-Held p none none = info-Held p p.info

handled-Held :
    (p : Preview) (b : Bool)
    → is_ok p.handles ≡ b
    → Held p p.info (if b then preview_found p p.stream p.consumer else no_preview false p.handles)
handled-Held p true h = found-Held p p.stream p.consumer
handled-Held p false h = refused-Held p p.info p.handles h

ranged :
    (p : Preview) (b : Bool) (o : PreviewNext)
    → Held p p.info o
    → let q =
        if b then no_preview false (fail validation "batch must be between 1 and 256") else o in
      Held p p.info q × ((q.requested && b) ≡ false)
ranged p true o h =
    (refused-Held p p.info (fail validation "batch must be between 1 and 256") refl, refl)
ranged p false o h = (h, and_false o.requested)

-- A preview acknowledges messages only if it succeeds and the caller asked for it, and then exactly
-- those of the batch that have metadata, in their order; it shows as many messages as there are of
-- those if it succeeds, and none otherwise. It requests no batch of a paused consumer, nor one whose
-- size is not between 1 and 256.
pub preview_next_lem :
    (p : Preview)
    → let o = preview_next p in
      let l = readable (batch_of p.fetch) in
      (o.acked ≡ (if is_ok o.result && p.auto_ack then ids l else []))
      × (length o.messages ≡ (if is_ok o.result then length l else 0))
      × ((o.requested && is_paused p.info) ≡ false)
      × ((o.requested && out_of_range p.batch) ≡ false)
unfolding preview_next
preview_next_lem p =
    let (((a, b), c), d) =
      ranged p (out_of_range p.batch) _ (handled-Held p (is_ok p.handles) refl) in
    (a, b, c, d)
