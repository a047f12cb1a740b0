-- ===== src/Monitor/Servers.antt =====
-- The table of servers from cycle to cycle: `collectSnapshot` and `rowByName` of
-- desktop/internal/monitor/snapshot.go. What `mergeStatszJsz` makes of the answers of a cycle is an
-- argument; `A` holds the columns of a row that only it sets. A map is an association list, in the
-- order of its iteration.
pub mod Known
use text.Mathlib.Text.{◌==◌ as str_eq}
use nats_desktop.Base.{Bool, List, String, [], false, if◌then◌else◌, ℕ, ◌++◌, ◌==◌, ◌||◌, ◌∷◌}

pub record Row {ℓ} (A : Type ℓ) : Type ℓ where
  pub name : String
  pub online : Bool
  pub offline_since_ms : ℕ
  pub error : String
  pub columns : A

module _ {ℓ} {A : Type ℓ} where
  -- Whether `rowByName` finds a row.
  unfoldable pub row_by_name : List (Row A) → String → Bool
  row_by_name [] name = false
  row_by_name (r ∷ rows) name = str_eq r.name name || row_by_name rows name

  -- A known server that has not answered.
  unfoldable pub missed : ℕ → Row A → Row A
  missed now prev = record prev {
    online = false;
    offline_since_ms = if prev.offline_since_ms == 0 then now else prev.offline_since_ms;
    error = if str_eq prev.error "" then "no response within 2s" else prev.error;
  }

  -- The loop over the known servers.
  unfoldable pub carry : ℕ → List (Row A) → List (Row A) → List (Row A)
  unfolding row_by_name missed
  carry now rows [] = rows
  carry now rows (prev ∷ known) =
      carry now (if row_by_name rows prev.name then rows else rows ++ (missed now prev ∷ [])) known

  -- `newKnown[r.Name] = r`
  unfoldable pub put : Row A → List (Row A) → List (Row A)
  put r [] = r ∷ []
  put r (k ∷ known) = if str_eq k.name r.name then r ∷ known else k ∷ put r known

  unfoldable pub put_all : List (Row A) → List (Row A) → List (Row A)
  unfolding put
  put_all [] known = known
  put_all (r ∷ rows) known = put_all rows (put r known)

-- One cycle: it fails before the merge, or it has the rows of those who answered.
pub data Cycle {ℓ} (A : Type ℓ) : Type ℓ where
  degraded : Cycle A
  answered : ℕ → List (Row A) → Cycle A

module _ {ℓ} {A : Type ℓ} where
  -- The known servers after it, and the rows that it shows.
  unfoldable pub collect_snapshot : Cycle A → List (Row A) → List (Row A) × List (Row A)
  unfolding carry put_all
  collect_snapshot degraded known = (known, [])
  collect_snapshot (answered now rows) known =
      let all = carry now rows known in (put_all all [], all)

  unfoldable pub cycles : List (Cycle A) → List (Row A) → List (Row A)
  unfolding collect_snapshot
  cycles [] known = known
  cycles (c ∷ cs) known = cycles cs (collect_snapshot c known).0
