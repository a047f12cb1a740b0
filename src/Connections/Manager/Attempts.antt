-- ===== src/Connections/Manager/Attempts.antt =====
-- `Connect` as the sections that it runs.

use Prim.Native.String.{◌++◌ as ◌++ˢ◌}
use nats_desktop.Base.{
  List, Option, String, [], ap, append-nil, append_assoc, none, refl, some, sym, ℕ, ◌++◌, ◌+◌, ◌∙◌,
  ◌∷◌, ◌≡◌,
}
use nats_desktop.Connections.Manager.{
  Attempt, Manager, StateEvent, adopt, begin_attempt, connect, connecting, dial_fails, dials,
  disconnected, failed, load_fails, options_fail, outcome, replaced, set_state_if_current,
}
use nats_desktop.Connections.Manager.Schedules.{Move, Moves, adopts, move, moves, sets}

-- The moves of an attempt: those before the context is loaded, and those of its outcome, with what
-- others do during the dial.
pub opening : String → ℕ → Option ℕ → Moves
opening now gen none = (now, gen, sets connecting "") ∷ []
opening now gen (some old) = (now, gen, sets disconnected "") ∷ (now, gen, sets connecting "") ∷ []

pub ending : String → ℕ → Moves → Attempt → Moves
ending now gen others (load_fails text) = (now, gen, sets failed ("load context: " ++ˢ text)) ∷ []
ending now gen others (options_fail text) =
    (now, gen, sets failed ("context options: " ++ˢ text)) ∷ []
ending now gen others (dial_fails text) = others ++ (now, gen, sets failed text) ∷ []
ending now gen others (dials nc) = others ++ (now, gen, adopts nc) ∷ []

moves-append :
    (k l : Moves) (m : Manager)
    → moves (k ++ l) m ≡ ((moves l (moves k m).0).0, (moves k m).1 ++ (moves l (moves k m).0).1)
unfolding moves
moves-append [] l m = refl
moves-append ((now, gen, a) ∷ k) l m =
    let t = (move now gen a m).0 in
    let es = (move now gen a m).1 in
    rw (moves-append k l t) (
      ap (λ r. ((moves l (moves k t).0).0, r))
        (sym (append_assoc es (moves k t).1 (moves l (moves k t).0).1)))

single :
    (now : String) (gen : ℕ) (a : Move) (m : Manager)
    → moves ((now, gen, a) ∷ []) m ≡ move now gen a m
unfolding moves
single now gen a m = ap (λ r. ((move now gen a m).0, r)) (append-nil (move now gen a m).1)

replaced-moves :
    (now : String) (gen : ℕ) (old : Option ℕ) (m : Manager)
    → let (t, es) = replaced now gen old m in
      let (u, fs) = set_state_if_current now gen connecting "" t in
      moves (opening now gen old) m ≡ (u, es ++ fs)
unfolding moves move opening replaced
replaced-moves now gen none m = single now gen (sets connecting "") m
replaced-moves now gen (some old) m =
    let t = (set_state_if_current now gen disconnected "" m).0 in
    ap
      (λ (r : Manager × List StateEvent).
        (r.0, (set_state_if_current now gen disconnected "" m).1 ++ r.1))
      (single now gen (sets connecting "") t)

outcome-moves :
    (now : String) (gen : ℕ) (others : Moves) (attempt : Attempt) (m : Manager)
    → let (t, es, err) = outcome now gen (moves others) attempt m in
      moves (ending now gen others attempt) m ≡ (t, es)
unfolding ending outcome move
outcome-moves now gen others (load_fails text) m =
    single now gen (sets failed ("load context: " ++ˢ text)) m
outcome-moves now gen others (options_fail text) m =
    single now gen (sets failed ("context options: " ++ˢ text)) m
outcome-moves now gen others (dial_fails text) m =
    moves-append others ((now, gen, sets failed text) ∷ []) m
    ∙ ap (λ (r : Manager × List StateEvent). (r.0, (moves others m).1 ++ r.1))
        (single now gen (sets failed text) (moves others m).0)
outcome-moves now gen others (dials nc) m =
    moves-append others ((now, gen, adopts nc) ∷ []) m
    ∙ ap (λ (r : Manager × List StateEvent). (r.0, (moves others m).1 ++ r.1))
        (single now gen (adopts nc) (moves others m).0)
    ∙ ap (λ r. ((adopt gen nc (moves others m).0).0, r)) (append-nil (moves others m).1)

-- `Connect` has the result and the events of its first section followed by moves of the new
-- generation, among which stand those that other goroutines make during the dial.
pub connect-moves :
    (now name : String) (others : Moves) (attempt : Attempt) (m : Manager)
    → let gen = m.gen + 1 in
      let (t, es, err) = connect now name (moves others) attempt m in
      moves (opening now gen m.nc ++ ending now gen others attempt) (begin_attempt name m) ≡ (t, es)
unfolding connect
connect-moves now name others attempt m =
    let gen = m.gen + 1 in
    let b = begin_attempt name m in
    let (t, es) = replaced now gen m.nc b in
    let (u, fs) = set_state_if_current now gen connecting "" t in
    moves-append (opening now gen m.nc) (ending now gen others attempt) b
    ∙ rw (replaced-moves now gen m.nc b) (rw (outcome-moves now gen others attempt u) refl)
