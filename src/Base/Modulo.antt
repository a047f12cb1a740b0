-- ===== src/Base/Modulo.antt =====
-- Remainders by a variable modulus, for indices into a ring of slots.
use nats_desktop.Base.{ap, arith, mod-add-mod, suc, ℕ, ◌%◌, ◌+◌, ◌<◌, ◌∙◌, ◌≡◌, ◌≢◌}
use native.Mathlib.Nat.{mod-eq-sub-mod}
use native.Mathlib.Numerals.{add-one}

pub suc_mod : (i j c : ℕ) → i % c ≡ j % c → suc i % c ≡ suc j % c
suc_mod i j c h = cc (mod-add-mod i c 1, mod-add-mod j c 1, add-one i, add-one j, h)

pub wrap_mod : (i c : ℕ) → (i + c) % c ≡ i % c
wrap_mod i c = mod-eq-sub-mod (omega arith) ∙ ap (λ (t : ℕ). t % c) (omega arith)

pub mod-ne : (i j c : ℕ) → i < j → j < i + c → j % c ≢ i % c
mod-ne i j c h l e = grind arith
