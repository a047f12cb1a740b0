-- ===== src/JsAdmin/Streams/Validity.antt =====
-- What the validation of a stream form lets pass.
use text.Mathlib.Text.{◌==◌ as str_eq}
use text.Mathlib.TextEquality.{eq_iff}
use nats_desktop.Base.{
  Bool, List, Option, String, [], ap, arith, false, if◌then◌else◌, inl, inr, none, not, refl, some,
  true, ℕ, ◌&&◌, ◌||◌, ◌↔◌, ◌∷◌, ◌≡◌, ◌≢◌, ◌⊎◌,
}
use nats_desktop.Base.Int.{negsuc, pos, ℤ, ◌≤ℤ◌}
use nats_desktop.Base.Text.{all_chars, is_blank_text}
use nats_desktop.JsAdmin.Streams.{
  StreamForm, StreamFormError, StreamSourceForm, any_blank_name, any_blank_source, below,
  blank_mirror, default_replicas, is_empty, is_none, legal_char, validate_stream_form,
}

-- What a form must be.
pub record IsValid (alnum : ℕ → Bool) (f : StreamForm) : Type 0 where
  pub named : (is_blank_text f.name ≡ false) × (all_chars (legal_char alnum) f.name ≡ true)
  pub subjects : (f.mirror ≡ none) → f.subjects ≢ []
  pub subject : any_blank_name f.subjects ≡ false
  pub storage : (f.storage ≡ "file") ⊎ (f.storage ≡ "memory")
  pub retention :
      (f.retention ≡ "limits") ⊎ (f.retention ≡ "interest") ⊎ (f.retention ≡ "workqueue")
  pub limits :
      (negsuc 0 ≤ℤ f.max_msgs) × (negsuc 0 ≤ℤ f.max_bytes) × (negsuc 0 ≤ℤ f.max_msgs_per_subject)
  pub age : pos 0 ≤ℤ f.max_age_seconds
  pub replicas : (pos 0 ≤ℤ f.replicas) × (f.replicas ≤ℤ pos 5)
  pub mirror : (s : StreamSourceForm) → f.mirror ≡ some s → is_blank_text s.name ≡ false
  pub sources : any_blank_source f.sources ≡ false

-- A check that is passed, and the rest of the chain.
pass :
    {A E : Type 0} (b : Bool) (x : A) (e : E) (y : A × Option E)
    → (if b then (x, some e) else y).1 ≡ none
    → (b ≡ false) × (y.1 ≡ none)
pass true x e y h = absurd (ground arith)
pass false x e y h = (refl, h)

below_false : (a b : ℤ) → below a b ≡ false → b ≤ℤ a
unfolding below
below_false a b h = ground arith

not-false : (b : Bool) → not b ≡ false → b ≡ true
not-false b h = ground arith

empty_case :
    (f : StreamForm)
    → (is_none f.mirror && is_empty f.subjects) ≡ false
    → f.mirror ≡ none
    → f.subjects ≢ []
empty_case f h m s = ground arith

storage_case :
    (s : String)
    → not (str_eq s "file" || str_eq s "memory") ≡ false
    → (s ≡ "file") ⊎ (s ≡ "memory")
storage_case s h = ground (arith, eq_iff s "file", eq_iff s "memory")

retention_case :
    (s : String)
    → not (str_eq s "limits" || str_eq s "interest" || str_eq s "workqueue") ≡ false
    → (s ≡ "limits") ⊎ (s ≡ "interest") ⊎ (s ≡ "workqueue")
retention_case s h = ground (arith, eq_iff s "limits", eq_iff s "interest", eq_iff s "workqueue")

limits_case :
    (a b c : ℤ)
    → (below a (negsuc 0) || below b (negsuc 0) || below c (negsuc 0)) ≡ false
    → (negsuc 0 ≤ℤ a) × (negsuc 0 ≤ℤ b) × (negsuc 0 ≤ℤ c)
limits_case a b c h = (
  below_false a (negsuc 0) (ground arith),
  below_false b (negsuc 0) (ground arith),
  below_false c (negsuc 0) (ground arith),
)

replicas_case :
    (n : ℤ)
    → (below (default_replicas n) (pos 1) || below (pos 5) (default_replicas n)) ≡ false
    → (pos 0 ≤ℤ n) × (n ≤ℤ pos 5)
unfolding below
replicas_case n h = ground arith

mirror_case :
    (m : Option StreamSourceForm)
    → blank_mirror m ≡ false
    → (s : StreamSourceForm) → m ≡ some s
    → is_blank_text s.name ≡ false
unfolding blank_mirror
mirror_case m h s e = ground arith

-- The form is valid, if the validation finds no error.
sound :
    (alnum : ℕ → Bool) (f : StreamForm) → (validate_stream_form alnum f).1 ≡ none → IsValid alnum f
unfolding validate_stream_form
sound alnum f h0 =
    let g = record f { replicas = default_replicas f.replicas } in
    let (a, h1) = pass (is_blank_text f.name) _ _ _ h0 in
    let (b, h2) = pass (not (all_chars (legal_char alnum) f.name)) _ _ _ h1 in
    let (c, h3) = pass (is_none f.mirror && is_empty f.subjects) _ _ _ h2 in
    let (d, h4) = pass (any_blank_name f.subjects) _ _ _ h3 in
    let (i, h5) = pass (not (str_eq f.storage "file" || str_eq f.storage "memory")) _ _ _ h4 in
    let (j, h6) =
      pass
        (not (
          str_eq f.retention "limits"
          || str_eq f.retention "interest"
          || str_eq f.retention "workqueue"))
        _ _ _ h5 in
    let (k, h7) =
      pass
        (below f.max_msgs (negsuc 0)
          || below f.max_bytes (negsuc 0)
          || below f.max_msgs_per_subject (negsuc 0))
        _ _ _ h6 in
    let (l, h8) = pass (below f.max_age_seconds (pos 0)) _ _ _ h7 in
    let (m, h9) = pass (below g.replicas (pos 1) || below (pos 5) g.replicas) _ _ _ h8 in
    let (n, h10) = pass (blank_mirror g.mirror) _ _ _ h9 in
    let (o, h11) = pass (any_blank_source g.sources) _ _ _ h10 in
    record {
      named = (a, not-false (all_chars (legal_char alnum) f.name) b);
      subjects = empty_case f c;
      subject = d;
      storage = storage_case f.storage i;
      retention = retention_case f.retention j;
      limits = limits_case f.max_msgs f.max_bytes f.max_msgs_per_subject k;
      age = below_false f.max_age_seconds (pos 0) l;
      replicas = replicas_case f.replicas m;
      mirror = mirror_case f.mirror n;
      sources = o;
    }

le_below : (a b : ℤ) → b ≤ℤ a → below a b ≡ false
unfolding below
le_below a b h = ground arith

named_check : (b : Bool) → b ≡ true → not b ≡ false
named_check b h = ground arith

empty_check :
    (f : StreamForm)
    → (f.mirror ≡ none → f.subjects ≢ [])
    → (is_none f.mirror && is_empty f.subjects) ≡ false
empty_check f h = empty_parts f.mirror f.subjects h
  where
    empty_parts :
        (m : Option StreamSourceForm) (l : List String)
        → (m ≡ none → l ≢ [])
        → (is_none m && is_empty l) ≡ false
    empty_parts none [] h = absurd (h refl refl)
    empty_parts none (s ∷ l) h = refl
    empty_parts (some s) l h = refl

storage_check :
    (s : String)
    → (s ≡ "file") ⊎ (s ≡ "memory")
    → not (str_eq s "file" || str_eq s "memory") ≡ false
storage_check s (inl e) = rw e refl
storage_check s (inr e) = rw e refl

retention_check :
    (s : String)
    → (s ≡ "limits") ⊎ (s ≡ "interest") ⊎ (s ≡ "workqueue")
    → not (str_eq s "limits" || str_eq s "interest" || str_eq s "workqueue") ≡ false
retention_check s (inl e) = rw e refl
retention_check s (inr (inl e)) = rw e refl
retention_check s (inr (inr e)) = rw e refl

limits_check :
    (a b c : ℤ)
    → (negsuc 0 ≤ℤ a) × (negsuc 0 ≤ℤ b) × (negsuc 0 ≤ℤ c)
    → (below a (negsuc 0) || below b (negsuc 0) || below c (negsuc 0)) ≡ false
limits_check a b c (h, k, l) =
    rw (le_below a (negsuc 0) h, le_below b (negsuc 0) k, le_below c (negsuc 0) l) refl

replicas_check :
    (n : ℤ)
    → (pos 0 ≤ℤ n) × (n ≤ℤ pos 5)
    → (below (default_replicas n) (pos 1) || below (pos 5) (default_replicas n)) ≡ false
unfolding below
replicas_check n h = ground arith

mirror_check :
    (m : Option StreamSourceForm)
    → ((s : StreamSourceForm) → m ≡ some s → is_blank_text s.name ≡ false)
    → blank_mirror m ≡ false
unfolding blank_mirror
mirror_check none h = refl
mirror_check (some s) h = h s refl

complete :
    (alnum : ℕ → Bool) (f : StreamForm)
    → IsValid alnum f
    → validate_stream_form alnum f ≡ (record f { replicas = default_replicas f.replicas }, none)
unfolding validate_stream_form
complete alnum f h =
    rw
      (
        h.named.0,
        named_check (all_chars (legal_char alnum) f.name) h.named.1,
        empty_check f h.subjects,
        h.subject,
        storage_check f.storage h.storage,
        retention_check f.retention h.retention,
        limits_check f.max_msgs f.max_bytes f.max_msgs_per_subject h.limits,
        le_below f.max_age_seconds (pos 0) h.age,
        replicas_check f.replicas h.replicas,
        mirror_check f.mirror h.mirror,
        h.sources,
      )
      refl

-- The validation finds no error in exactly the forms that are valid: a name that is not blank, of
-- legal characters, subjects that are not blank, and at least one unless there is a mirror, a known
-- storage and retention, limits of at least -1, an age of at least 0, 0 to 5 replicas, and names
-- for the mirror and the sources. In exactly those it gives back the form with 0 replicas changed
-- to 1, and nothing else changed.
pub validate_stream_form_iff :
    (alnum : ℕ → Bool) (f : StreamForm)
    → let r = validate_stream_form alnum f in
      ((r.1 ≡ none) ↔ IsValid alnum f)
      × ((r ≡ (record f { replicas = default_replicas f.replicas }, none)) ↔ IsValid alnum f)
validate_stream_form_iff alnum f =
    let second = λ (r : StreamForm × Option StreamFormError). r.1 in
    (
      (sound alnum f, λ h. ap second (complete alnum f h)),
      (λ e. sound alnum f (ap second e), complete alnum f),
    )
