-- ===== src/JsAdmin/Consumers/Modes.antt =====
-- What a validated consumer form becomes.

use text.Mathlib.Text.{◌==◌ as str_eq}
use text.Mathlib.TextEquality.{eq_iff}
use nats_desktop.Base.{
  Bool, Bool-cases, String, arith, false, if◌then◌else◌, inl, inr, ltb, none, refl, some, true,
  ◌||◌, ◌↔◌, ◌≡◌, ◌≢◌, ◌≤◌,
}
use nats_desktop.Base.Text.{blank_empty, is_blank_text}
use nats_desktop.JsAdmin.Consumers.{
  ConsumerForm, ack_policy_from_api, ack_policy_to_api, bad_start_seq, check_deliver_policy,
  check_mode, consumer_form_to_config, deliver_by_start_sequence, deliver_by_start_time,
  deliver_policy_from_api, deliver_policy_to_api, is_pull, replay_policy_from_api,
  replay_policy_to_api, validate_consumer_form,
}

not_blank : (s : String) → is_blank_text s ≡ false → s ≢ ""
not_blank s h e = ground (arith, blank_empty)

-- The parts of a validation that found nothing.
mode_ok :
    (f : ConsumerForm) (editing : Bool)
    → validate_consumer_form f editing ≡ none
    → check_mode f ≡ none
unfolding validate_consumer_form
mode_ok f editing h = ground arith

policy_ok :
    (f : ConsumerForm) (editing : Bool)
    → validate_consumer_form f editing ≡ none
    → check_deliver_policy f ≡ none
unfolding validate_consumer_form
policy_ok f editing h = ground arith

ack_ok :
    (f : ConsumerForm) (editing : Bool)
    → validate_consumer_form f editing ≡ none
    → (str_eq f.ack_policy "explicit" || str_eq f.ack_policy "none" || str_eq f.ack_policy "all")
      ≡ true
unfolding validate_consumer_form
ack_ok f editing h = ground arith

replay_ok :
    (f : ConsumerForm) (editing : Bool)
    → validate_consumer_form f editing ≡ none
    → (str_eq f.replay_policy "instant" || str_eq f.replay_policy "original") ≡ true
unfolding validate_consumer_form
replay_ok f editing h = ground arith

mode_agrees :
    (f : ConsumerForm)
    → check_mode f ≡ none
    → is_pull (consumer_form_to_config f) ≡ str_eq f.deliver_mode "pull"
unfolding check_mode consumer_form_to_config is_pull
mode_agrees f h = elim (Bool-cases (str_eq f.deliver_mode "pull")) [
  | inl e ↦ let q : f.deliver_mode ≡ "pull" = (eq_iff f.deliver_mode "pull").0 e in rw q refl
  | inr e ↦ ground (arith, not_blank f.deliver_subject, eq_iff f.deliver_subject "")
]

ack_back :
    (s : String)
    → (str_eq s "explicit" || str_eq s "none" || str_eq s "all") ≡ true
    → ack_policy_from_api (ack_policy_to_api s) ≡ s
unfolding ack_policy_to_api ack_policy_from_api
ack_back s h = ground (arith, eq_iff s "explicit", eq_iff s "none", eq_iff s "all")

replay_back :
    (s : String)
    → (str_eq s "instant" || str_eq s "original") ≡ true
    → replay_policy_from_api (replay_policy_to_api s) ≡ s
unfolding replay_policy_to_api replay_policy_from_api
replay_back s h = ground (arith, eq_iff s "instant", eq_iff s "original")

policy_back :
    (f : ConsumerForm)
    → check_deliver_policy f ≡ none
    → deliver_policy_from_api (deliver_policy_to_api f.deliver_policy) ≡ f.deliver_policy
unfolding check_deliver_policy deliver_policy_to_api deliver_policy_from_api
policy_back f h =
    let s = f.deliver_policy in
    ground (
      arith,
      eq_iff s "all",
      eq_iff s "last",
      eq_iff s "new",
      eq_iff s "start_sequence",
      eq_iff s "start_time",
    )

at_sequence :
    (f : ConsumerForm)
    → f.deliver_policy ≡ "start_sequence"
    → check_deliver_policy f ≡ none
    → ltb f.opt_start_seq 1 ≡ false
unfolding check_deliver_policy
at_sequence f q h =
    let k : (if ltb f.opt_start_seq 1 then some bad_start_seq else none) ≡ none = rw q at h in
    ground (arith, k)

-- Where a consumer starts: a sequence goes with its policy alone, and so does a time.
start_given :
    (f : ConsumerForm)
    → check_deliver_policy f ≡ none
    → let cfg = consumer_form_to_config f in
      ((1 ≤ cfg.opt_start_seq) ↔ (cfg.deliver_policy ≡ deliver_by_start_sequence))
      × ((cfg.opt_start_time ≢ none) ↔ (cfg.deliver_policy ≡ deliver_by_start_time))
unfolding check_deliver_policy consumer_form_to_config deliver_policy_to_api
start_given f h = elim (Bool-cases (str_eq f.deliver_policy "start_sequence")) [
  | inl e ↦
      let q : f.deliver_policy ≡ "start_sequence" =
        (eq_iff f.deliver_policy "start_sequence").0 e in
      let k : ltb f.opt_start_seq 1 ≡ false = ground (arith, at_sequence f q h) in
      rw q ((λ x. refl, λ x. ground arith), (λ x. absurd (x refl), λ x. cc))
  | inr e ↦ elim (Bool-cases (str_eq f.deliver_policy "start_time")) [
    | inl d ↦
        let q : f.deliver_policy ≡ "start_time" = (eq_iff f.deliver_policy "start_time").0 d in
        rw q ((λ x. ground arith, λ x. cc), (λ x. refl, λ x. λ y. cc))
    | inr d ↦
        rw (e, d)
          ((λ x. ground arith, λ x. ground arith), (λ x. absurd (x refl), λ x. ground arith))
  ]
]

-- A form that passes the validation becomes a configuration of the mode that it names: pull, as the
-- list of consumers shows it, exactly if the form says pull. Its three policies are read back as
-- the form has them; a start sequence of at least 1 is sent exactly with the policy by sequence,
-- and a start time exactly with the policy by time.
pub validate_consumer_form-consumer_form_to_config :
    (f : ConsumerForm) (editing : Bool)
    → validate_consumer_form f editing ≡ none
    → let cfg = consumer_form_to_config f in
      (is_pull cfg ≡ str_eq f.deliver_mode "pull")
      × (ack_policy_from_api cfg.ack_policy ≡ f.ack_policy)
      × (replay_policy_from_api cfg.replay_policy ≡ f.replay_policy)
      × (deliver_policy_from_api cfg.deliver_policy ≡ f.deliver_policy)
      × ((1 ≤ cfg.opt_start_seq) ↔ (cfg.deliver_policy ≡ deliver_by_start_sequence))
      × ((cfg.opt_start_time ≢ none) ↔ (cfg.deliver_policy ≡ deliver_by_start_time))
unfolding consumer_form_to_config
validate_consumer_form-consumer_form_to_config f editing h =
    let p = policy_ok f editing h in
    let (a, b) = start_given f p in
    (
      mode_agrees f (mode_ok f editing h),
      ack_back f.ack_policy (ack_ok f editing h),
      replay_back f.replay_policy (replay_ok f editing h),
      policy_back f p,
      a,
      b,
    )
