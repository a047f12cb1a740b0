-- ===== src/JsAdmin/Cluster.antt =====
-- The health of a cluster: `clusterHealth` of internal/jsadmin/forms.go. A peer is a pointer, which
-- can be nil.

use text.Mathlib.Text.{◌==◌ as str_eq}
use nats_desktop.Base.{
  Bool, List, Option, String, [], arith, false, if◌then◌else◌, none, not, some, true, ℕ, ◌+◌, ◌||◌,
  ◌∙◌, ◌∷◌, ◌≡◌, ◌≤◌,
}

pub record Peer : Type 0 where
  pub offline : Bool
  pub current : Bool

pub record ClusterInfo : Type 0 where
  pub leader : String
  pub replicas : List (Option Peer)

pub record Health : Type 0 where
  pub leader_missing : Bool
  pub unhealthy : ℕ
  pub count : ℕ

abbrev pub is_unhealthy : Peer → Bool
is_unhealthy p = p.offline || not p.current

-- The loop over the replicas, from the counts so far.
pub count_peers : List (Option Peer) → Health → Health
count_peers [] h = h
count_peers (none ∷ l) h = count_peers l h
count_peers (some p ∷ l) h = count_peers l (record h {
  count = h.count + 1;
  unhealthy = if is_unhealthy p then h.unhealthy + 1 else h.unhealthy;
})

unfoldable pub cluster_health : Option ClusterInfo → Health
cluster_health none = record { leader_missing = false; unhealthy = 0; count = 0 }
cluster_health (some c) =
    let h =
      count_peers c.replicas
        (record { leader_missing = str_eq c.leader ""; unhealthy = 0; count = 0 }) in
    if str_eq c.leader "" then h else record h { count = h.count + 1 }

-- The peers that are given and pass a test.
pub peers_with : (Peer → Bool) → List (Option Peer) → ℕ
peers_with test [] = 0
peers_with test (none ∷ l) = peers_with test l
peers_with test (some p ∷ l) = if test p then peers_with test l + 1 else peers_with test l

abbrev pub any_peer : Peer → Bool
any_peer p = true

count_peers_lem :
    (l : List (Option Peer)) (h : Health)
    → count_peers l h ≡ record h {
      unhealthy = h.unhealthy + peers_with is_unhealthy l;
      count = h.count + peers_with any_peer l;
    }
unfolding count_peers peers_with
count_peers_lem [] h = ground arith
count_peers_lem (none ∷ l) h = count_peers_lem l h
count_peers_lem (some p ∷ l) h = count_peers_lem l _ ∙ ground arith

unhealthy_le : (l : List (Option Peer)) → peers_with is_unhealthy l ≤ peers_with any_peer l
unfolding peers_with
unhealthy_le [] = ground arith
unhealthy_le (none ∷ l) = unhealthy_le l
unhealthy_le (some p ∷ l) = ground (arith, unhealthy_le l)

-- The replicas counted are the peers that are given, and the leader if there is one; those counted
-- unhealthy are the peers that are offline or not current, and never more than those counted.
pub cluster_health_lem :
    (c : ClusterInfo)
    → let h = cluster_health (some c) in
      (h.unhealthy ≡ peers_with is_unhealthy c.replicas)
      × (h.count ≡ peers_with any_peer c.replicas + (if h.leader_missing then 0 else 1))
      × (h.unhealthy ≤ h.count)
unfolding cluster_health
cluster_health_lem c =
    let h : Health = record { leader_missing = str_eq c.leader ""; unhealthy = 0; count = 0 } in
    rw (count_peers_lem c.replicas h) (ground (arith, unhealthy_le c.replicas))
