-- ===== src/Monitor/Events.antt =====
-- The subjects of the system events, `EventSubjects`, and the checks of a list of connections,
-- `ValidateConnQuery`, of desktop/internal/monitor/forms.go. `advisory` and `metric` are what
-- `jsm.EventSubject` makes of a prefix, for the subjects of the client library.
pub mod Distinct
use Prim.Native.String.{◌++◌ as ◌++ˢ◌}
use text.Mathlib.Text.{◌==◌ as str_eq}
use nats_desktop.Base.{
  Bool, List, Option, String, [], false, if◌then◌else◌, none, not, some, ◌&&◌, ◌++◌, ◌||◌, ◌∷◌,
}
use nats_desktop.Base.Int.{ltb_ℤ, pos, ℤ}

-- `seen`, a set of subjects.
unfoldable pub contains : String → List String → Bool
contains s [] = false
contains s (t ∷ l) = str_eq s t || contains s l

-- The prefix of the JetStream events: an explicit one, else one of the domain, else none.
unfoldable pub js_prefix : String → String → String
js_prefix event_prefix domain =
    if str_eq event_prefix "" && not (str_eq domain "")
    then "$JS." ++ˢ domain ++ˢ ".EVENT"
    else event_prefix

module _ (advisory metric : String → String) where
  -- The subject of an event type.
  unfoldable pub subject_of : String → String → Option String
  subject_of prefix t =
      if str_eq t "account_connect"
      then some "$SYS.ACCOUNT.*.CONNECT"
      else if str_eq t "account_disconnect"
      then some "$SYS.ACCOUNT.*.DISCONNECT"
      else if str_eq t "auth_error"
      then some "$SYS.SERVER.*.CLIENT.AUTH.ERR"
      else if str_eq t "js_advisory"
      then some (advisory prefix ++ˢ ".>")
      else if str_eq t "js_metric"
      then some (metric prefix ++ˢ ".>")
      else none

-- One type of the loop, given its subject, the subjects so far, and the rest of the loop on them.
pub next_subject :
    Option String → List String → (List String → Option (List String)) → Option (List String)
next_subject none out rest = none
next_subject (some subject) out rest =
    if contains subject out then rest out else rest (out ++ subject ∷ [])

-- The subjects that the types name, one after the other.
unfoldable pub gather : (String → Option String) → List String → List String → Option (List String)
unfolding next_subject
gather name [] out = some out
gather name (t ∷ types) out = next_subject (name t) out (gather name types)

-- `none` is the error of an unknown type.
unfoldable pub event_subjects :
    (String → String) → (String → String) → List String → String → String → Option (List String)
unfolding gather
event_subjects advisory metric types event_prefix domain =
    gather (subject_of advisory metric (js_prefix event_prefix domain)) types []

pub data QueryError : Type 0 where
  bad_sort : String → QueryError
  bad_offset bad_limit : QueryError

abbrev conn_query_sort_whitelist : List String
conn_query_sort_whitelist =
    "cid" ∷ "subs" ∷ "pending" ∷ "msgs_to" ∷ "msgs_from" ∷ "bytes_to" ∷ "bytes_from" ∷ "last"
    ∷ "idle" ∷ "uptime" ∷ "rtt" ∷ []

unfoldable pub validate_conn_query : String → ℤ → ℤ → Option QueryError
unfolding contains
validate_conn_query sort offset limit =
    if not (str_eq sort "") && not (contains sort conn_query_sort_whitelist)
    then some (bad_sort sort)
    else if ltb_ℤ offset (pos 0)
    then some bad_offset
    else if ltb_ℤ limit (pos 1) || ltb_ℤ (pos 1024) limit
    then some bad_limit
    else none
