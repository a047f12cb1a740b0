-- ===== src/JsAdmin/Consumers/Edits/Unchanged.antt =====
-- What an edit of a consumer submits when nothing in its form is changed.
use text.Mathlib.Text.{◌==◌ as str_eq}
use text.Mathlib.TextEquality.{eq_iff}
use nats_desktop.Base.{
  Bool, Bool-cases, List, Option, String, [], ap, arith, false, none, some, if◌then◌else◌, inl, inr,
  map, not, refl, sym, true, ◌&&◌, ◌∙◌, ◌∷◌, ◌≡◌, ◌≢◌,
}
use nats_desktop.Base.Int.{negsuc, ℤ}
use nats_desktop.Base.Duration
use nats_desktop.Base.Text.{is_blank_text}
use nats_desktop.JsAdmin.Errors.{Failure, classify_error, done}
use nats_desktop.JsAdmin.Consumers.{
  AckPolicy, ConsumerConfig, ConsumerForm, DeliverPolicy, deliver_last_per_subject,
  needs_server_211, validate_consumer_form, ReplayPolicy, ack_all, ack_explicit, ack_none,
  ack_policy_from_api, ack_policy_to_api, all_seconds, consumer_form_to_config, deliver_all,
  deliver_by_start_sequence, deliver_by_start_time, deliver_last, deliver_new,
  deliver_policy_from_api, deliver_policy_to_api, has_any, replay_instant, replay_original,
  replay_policy_from_api, replay_policy_to_api, seconds,
}
use nats_desktop.JsAdmin.Consumers.Edits.{
  ApiConsumer, refused, submits, update_checked, update_consumer, update_loaded, api_of_form,
  consumer_config_to_form, edited, is_zero, keep_filters, keep_replicas, keep_start, no_other,
  shown_filters, shown_max_deliver, whole_seconds,
}

-- A duration that a form in seconds can show.
abbrev pub IsWhole : ℤ → Type 0
IsWhole d = Duration.times (Duration.whole d Duration.second) Duration.second ≡ d

abbrev pub AllWhole : List ℤ → Type 0
AllWhole [] = Unit
AllWhole (d ∷ l) = IsWhole d × AllWhole l

-- A configuration that the form can show: named after its durable, its times whole seconds, a group
-- with a subject only, and its filters in one of the two fields.
pub record Shown (a : ApiConsumer) : Type 0 where
  pub named : a.config.name ≡ a.config.durable
  pub ack_wait : IsWhole a.config.ack_wait
  pub expires : IsWhole a.config.max_request_expires
  pub threshold : IsWhole a.config.inactive_threshold
  pub backoff : AllWhole a.config.backoff
  pub group : a.config.deliver_subject ≡ "" → a.config.deliver_group ≡ ""
  pub filters : a.config.filter_subjects ≢ [] → a.filter_subject ≡ ""

all_seconds-map : (l : List ℤ) → AllWhole l → all_seconds (map whole_seconds l) ≡ l
unfolding all_seconds seconds
all_seconds-map [] h = refl
all_seconds-map (d ∷ l) (w, h) = rw (w, all_seconds-map l h) refl

ack_policy_back : (p : AckPolicy) → ack_policy_to_api (ack_policy_from_api p) ≡ p
unfolding ack_policy_to_api ack_policy_from_api
ack_policy_back ack_none = refl
ack_policy_back ack_all = refl
ack_policy_back ack_explicit = refl

-- A policy that the form cannot name comes back as the one it shows instead.
abbrev pub resubmitted_policy : DeliverPolicy → DeliverPolicy
resubmitted_policy deliver_last_per_subject = deliver_all
resubmitted_policy deliver_all = deliver_all
resubmitted_policy deliver_last = deliver_last
resubmitted_policy deliver_new = deliver_new
resubmitted_policy deliver_by_start_sequence = deliver_by_start_sequence
resubmitted_policy deliver_by_start_time = deliver_by_start_time

deliver_policy_back :
    (p : DeliverPolicy) → deliver_policy_to_api (deliver_policy_from_api p) ≡ resubmitted_policy p
unfolding deliver_policy_to_api deliver_policy_from_api
deliver_policy_back deliver_all = refl
deliver_policy_back deliver_last_per_subject = refl
deliver_policy_back deliver_last = refl
deliver_policy_back deliver_new = refl
deliver_policy_back deliver_by_start_sequence = refl
deliver_policy_back deliver_by_start_time = refl

replay_policy_back : (p : ReplayPolicy) → replay_policy_to_api (replay_policy_from_api p) ≡ p
unfolding replay_policy_to_api replay_policy_from_api
replay_policy_back replay_instant = refl
replay_policy_back replay_original = refl

-- The limit of deliveries that comes back: -1 without acknowledgements, else none for a negative one.
abbrev pub resubmitted_max_deliver : ConsumerConfig → ℤ
resubmitted_max_deliver cfg =
    if str_eq (ack_policy_from_api cfg.ack_policy) "none"
    then negsuc 0
    else shown_max_deliver cfg.max_deliver

-- The configuration after the form has been read back, before what is kept of the current one.
abbrev pub resubmitted : ApiConsumer → ApiConsumer
resubmitted a = record {
  config = record a.config {
    deliver_policy = resubmitted_policy a.config.deliver_policy;
    max_deliver = resubmitted_max_deliver a.config;
    filter_subjects = shown_filters a;
  };
  filter_subject = "";
  priority_groups = [];
  other = no_other;
}

mode_back :
    (subject s : String)
    → (subject ≡ "" → s ≡ "")
    → let push = not (str_eq subject "") in
      (if str_eq (if push then "push" else "pull") "push" then (if push then s else "") else "") ≡ s
mode_back subject s h = elim (Bool-cases (str_eq subject "")) [
  | inl e ↦ rw e (sym (h ((eq_iff subject "").0 e)))
  | inr e ↦ rw e refl
]

read_back :
    (stream : String) (a : ApiConsumer)
    → Shown a
    → keep_start a (api_of_form (consumer_config_to_form stream a)) ≡ resubmitted a
unfolding consumer_config_to_form consumer_form_to_config seconds
read_back stream a h =
    let subject = mode_back a.config.deliver_subject a.config.deliver_subject (λ e. e) in
    let group = mode_back a.config.deliver_subject a.config.deliver_group h.group in
    rw
      (
        all_seconds-map a.config.backoff h.backoff,
        ack_policy_back a.config.ack_policy,
        deliver_policy_back a.config.deliver_policy,
        replay_policy_back a.config.replay_policy,
        h.ack_wait,
        h.expires,
        h.threshold,
        subject,
        group,
        h.named,
      )
      refl

no_subject : (b : Bool) (s : String) → has_any (if not b then s ∷ [] else []) ≡ false → b ≡ true
no_subject true s h = refl
no_subject false s h = cc

no_filters :
    (l : List String) (s : String)
    → has_any (if not (has_any l) && not (str_eq s "") then s ∷ [] else l) ≡ false
    → (l ≡ []) × (s ≡ "")
no_filters [] s h = (refl, (eq_iff s "").0 (no_subject (str_eq s "") s h))
no_filters (x ∷ l) s h = cc

filters_back :
    (a : ApiConsumer) (b : Bool)
    → has_any (shown_filters a) ≡ b
    → keep_filters b a (resubmitted a) ≡ resubmitted a
unfolding shown_filters
filters_back a true h = refl
filters_back a false h =
    let (l, s) = no_filters a.config.filter_subjects a.filter_subject h in rw (s, l) refl

replicas_back : (a : ApiConsumer) (b : Bool) → keep_replicas b a (resubmitted a) ≡ resubmitted a
replicas_back a true = refl
replicas_back a false = refl

edited_lem :
    (stream : String) (a : ApiConsumer)
    → Shown a
    → edited (consumer_config_to_form stream a) a ≡ resubmitted a
unfolding edited consumer_config_to_form
edited_lem stream a h =
    let kept : ApiConsumer → ApiConsumer = λ b. keep_replicas (is_zero b.config.replicas) a b in
    ap (λ x. kept (keep_filters (has_any (shown_filters a)) a x)) (read_back stream a h)
    ∙ ap kept (filters_back a (has_any (shown_filters a)) refl)
    ∙ replicas_back a (is_zero a.config.replicas)

-- The validation, the priority groups apart.
abbrev pub without_groups : ConsumerForm → ConsumerForm
without_groups f = record f { priority_groups = [] }

validate_groups :
    (f : ConsumerForm) (groups : List String)
    → validate_consumer_form (without_groups f) true ≡ none
    → validate_consumer_form (record f { priority_groups = groups }) true
      ≡ (if has_any groups then some needs_server_211 else none)
unfolding validate_consumer_form
validate_groups f [] h = h
validate_groups f (g ∷ l) h = ground arith

update_checked_lem :
    (stream : String) (a : ApiConsumer) (answer : Option Failure) (b : Bool)
    → Shown a
    → update_checked
        (consumer_config_to_form stream a)
        (record { handles = done; current = inr a; answer = answer })
        (if b then some needs_server_211 else none)
      ≡ (if b then refused needs_server_211 else submits (resubmitted a) (classify_error answer))
unfolding update_checked update_loaded
update_checked_lem stream a answer true h = refl
update_checked_lem stream a answer false h =
    ap (λ x. submits x (classify_error answer)) (edited_lem stream a h)

-- When the form of a consumer, as `GetConsumerDetail` shows it, is submitted as it is, on a live
-- connection, the configuration is one that the form can show, and the form passes the validation
-- apart from its priority groups: a consumer with priority groups is refused before any request. Of
-- another consumer `UpdateConsumer` submits the server's configuration with the filters in the list,
-- the limit of deliveries set again from the form, a delivery of the last message of each subject
-- turned into one of all messages, and everything that no form has (the metadata, the pause, the
-- heartbeat, the flow control, the rate limit, the sampling) at its zero value; the answer is the
-- server's.
pub update_consumer-consumer_config_to_form :
    (stream : String) (a : ApiConsumer) (answer : Option Failure)
    → Shown a
    → is_blank_text a.config.durable ≡ false
    → validate_consumer_form (without_groups (consumer_config_to_form stream a)) true ≡ none
    → update_consumer
        (consumer_config_to_form stream a)
        (record { handles = done; current = inr a; answer = answer })
      ≡ (if has_any a.priority_groups
          then refused needs_server_211
          else submits
              (record {
                config = record a.config {
                  deliver_policy = resubmitted_policy a.config.deliver_policy;
                  max_deliver = resubmitted_max_deliver a.config;
                  filter_subjects = shown_filters a;
                };
                filter_subject = "";
                priority_groups = [];
                other = no_other;
              })
              (classify_error answer))
unfolding update_consumer consumer_config_to_form
update_consumer-consumer_config_to_form stream a answer h d v =
    rw (d, validate_groups (consumer_config_to_form stream a) a.priority_groups v)
      (update_checked_lem stream a answer (has_any a.priority_groups) h)
