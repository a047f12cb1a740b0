-- ===== src/Messaging/Session/Subscribe/Positions.antt =====
-- The position of a JetStream session: `consumerConfigFor` of jsposition.go.
-- `parse_time` is what `time.Parse(time.RFC3339, strings.TrimSpace(text))` gives, a moment in
-- milliseconds.
use text.Mathlib.Text.{◌==◌ as str_eq}
use nats_desktop.Base.{
  Option, String, arith, if◌then◌else◌, inl, inr, none, refl, some, ℕ, ◌==◌, ◌≡◌, ◌⊎◌,
}
use nats_desktop.Base.Int.{ℤ}
use nats_desktop.Messaging.Wire.{JsPosition}
use nats_desktop.Base.Text.{differ}
use text.Mathlib.TextEquality.{eq_iff}
use nats_desktop.JsAdmin.Consumers.{
  AckPolicy, ConsumerForm, DeliverPolicy, ack_none, consumer_form_to_config, deliver_all,
  deliver_by_start_sequence, deliver_by_start_time, deliver_new, deliver_policy_to_api,
}

-- The fields of the library's consumer configuration that a position sets.
pub record Positioned : Type 0 where
  pub ack_policy : AckPolicy
  pub filter_subject : String
  pub deliver_policy : DeliverPolicy
  pub opt_start_seq : ℕ
  pub opt_start_time : Option ℤ

pub data PositionError : Type 0 where
  needs_start_seq needs_start_time : PositionError
  invalid_position : String → PositionError

abbrev config : String → DeliverPolicy → ℕ → Option ℤ → PositionError ⊎ Positioned
config subject policy seq time = inr (record {
  ack_policy = ack_none;
  filter_subject = subject;
  deliver_policy = policy;
  opt_start_seq = seq;
  opt_start_time = time;
})

module _ (parse_time : String → Option ℤ) where
  start_at : String → Option ℤ → PositionError ⊎ Positioned
  start_at subject none = inl needs_start_time
  start_at subject (some t) = config subject deliver_by_start_time 0 (some t)

  unfoldable pub consumer_config_for : JsPosition → String → PositionError ⊎ Positioned
  unfolding start_at
  consumer_config_for p subject =
      if str_eq p.mode "all"
      then config subject deliver_all 0 none
      else if str_eq p.mode "new"
      then config subject deliver_new 0 none
      else if str_eq p.mode "start_sequence"
      then (if p.start_seq == 0
          then inl needs_start_seq
          else config subject deliver_by_start_sequence p.start_seq none)
      else if str_eq p.mode "start_time"
      then start_at subject (parse_time p.start_time)
      else inl (invalid_position p.mode)

-- A position is taken as the consumer form of the stream administration takes the same choice: if a
-- position is accepted, and a form has its mode, start sequence and start time, then the two
-- configurations have the same delivery policy, start sequence and start time.
pub consumer_config_for-agrees :
    (parse_time : String → Option ℤ) (p : JsPosition) (subject : String) (f : ConsumerForm)
    (cfg : Positioned)
    → consumer_config_for parse_time p subject ≡ inr cfg
    → f.deliver_policy ≡ p.mode
    → f.opt_start_seq ≡ p.start_seq
    → parse_time p.start_time ≡ some f.opt_start_time_ms
    → (cfg.deliver_policy ≡ (consumer_form_to_config f).deliver_policy)
      × (cfg.opt_start_seq ≡ (consumer_form_to_config f).opt_start_seq)
      × (cfg.opt_start_time ≡ (consumer_form_to_config f).opt_start_time)
unfolding consumer_config_for start_at consumer_form_to_config deliver_policy_to_api
consumer_config_for-agrees parse_time p subject f cfg h e1 e2 e3 = ground (
  arith,
  eq_iff p.mode "all",
  eq_iff p.mode "last",
  eq_iff p.mode "new",
  eq_iff p.mode "start_sequence",
  eq_iff p.mode "start_time",
  differ "all" "last" refl,
  differ "all" "new" refl,
  differ "all" "start_sequence" refl,
  differ "all" "start_time" refl,
  differ "new" "last" refl,
  differ "start_sequence" "last" refl,
  differ "start_time" "last" refl,
  differ "new" "start_sequence" refl,
  differ "new" "start_time" refl,
  differ "start_sequence" "start_time" refl,
  e1,
)
