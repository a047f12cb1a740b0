-- ===== src/Tests/Monitoring.antt =====
-- The table of servers of internal/monitor on concrete inputs.

use mathlib.Core.List.{Sublist}
use nats_desktop.Monitor.Events.{contains, event_subjects, js_prefix, subject_of}
use nats_desktop.Monitor.Events.Distinct.{AllIn, AllKnown, Distinct, event_subjects-Distinct, known}
use nats_desktop.Base.{List, Option, String, [], refl, some, true, ℕ, ◌∷◌, ◌≡◌}
use nats_desktop.Monitor.Servers.{Cycle, Row, answered, cycles, degraded}
use nats_desktop.Monitor.Servers.Known.{find, find-cycles, server_cycles}

abbrev up : String → ℕ → Row ℕ
up name n = record { name = name; online = true; offline_since_ms = 0; error = ""; columns = n }

-- The second server misses the second and the fourth cycle.
abbrev observed : List (Cycle ℕ)
observed =
    answered 10 (up "n1" 1 ∷ up "n2" 2 ∷ [])
    ∷ answered 20 (up "n1" 3 ∷ [])
    ∷ degraded
    ∷ answered 40 (up "n1" 5 ∷ [])
    ∷ []

find-cycles_example : find "n2" (cycles observed []) ≡ server_cycles "n2" observed (find "n2" [])
find-cycles_example = find-cycles "n2" observed []

abbrev two_types : List String
two_types = "auth_error" ∷ "js_metric" ∷ "auth_error" ∷ []

abbrev with_prefix : String → String
with_prefix prefix = prefix

abbrev names : String → Option String
names = subject_of with_prefix with_prefix (js_prefix "" "hub")

two_types-AllKnown : AllKnown names two_types
unfolding subject_of js_prefix
two_types-AllKnown = (
  ("$SYS.SERVER.*.CLIENT.AUTH.ERR", refl),
  (("$JS.hub.EVENT.>", refl), (("$SYS.SERVER.*.CLIENT.AUTH.ERR", refl), tt)),
)

event_subjects-Distinct_example :
    (out : List String) × (event_subjects with_prefix with_prefix two_types "" "hub" ≡ some out)
    × Distinct out
    × AllIn names two_types out
    × Sublist out (known names two_types)
event_subjects-Distinct_example =
    event_subjects-Distinct with_prefix with_prefix two_types "" "hub" two_types-AllKnown

three_become_two :
    event_subjects with_prefix with_prefix two_types "" "hub"
    ≡ some ("$SYS.SERVER.*.CLIENT.AUTH.ERR" ∷ "$JS.hub.EVENT.>" ∷ [])
unfolding event_subjects subject_of contains js_prefix
three_become_two = refl
