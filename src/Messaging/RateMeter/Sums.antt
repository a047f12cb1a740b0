-- ===== src/Messaging/RateMeter/Sums.antt =====
-- Sums over the slots of a circular array.
use nats_desktop.Base.{
  List, [], arith, get_or, length, refl, suc, zero, ℕ, ◌%◌, ◌+◌, ◌-◌, ◌<◌, ◌∷◌, ◌≡◌,
}
use nats_desktop.Messaging.RateMeter.{sum}

abbrev pub sum_below : ℕ → (ℕ → ℕ) → ℕ
sum_below zero f = 0
sum_below (suc n) f = f n + sum_below n f

sum_below-shift : (n : ℕ) (f : ℕ → ℕ) → sum_below (suc n) f ≡ f 0 + sum_below n (λ i. f (suc i))
sum_below-shift zero f = refl
sum_below-shift (suc n) f = omega (arith, sum_below-shift n f)

pub sum-sum_below : (cs : List ℕ) → sum cs ≡ sum_below (length cs) (λ i. get_or cs i 0)
unfolding sum
sum-sum_below [] = refl
sum-sum_below (c ∷ cs) =
    omega (arith, sum-sum_below cs, sum_below-shift (length cs) (λ i. get_or (c ∷ cs) i 0))

pub sum_below-eq :
    (n : ℕ) (f g : ℕ → ℕ) → ((i : ℕ) → i < n → f i ≡ g i) → sum_below n f ≡ sum_below n g
sum_below-eq zero f g h = refl
sum_below-eq (suc n) f g h =
    omega (arith, h n (omega arith), sum_below-eq n f g (λ i l. h i (omega arith)))

-- Going backwards round the ten slots meets each of them once.
pub sum_below-rotate :
    (f : ℕ → ℕ) (cur : ℕ) → cur < 10 → sum_below 10 f ≡ sum_below 10 (λ j. f ((cur + 10 - j) % 10))
sum_below-rotate f zero h = omega arith
sum_below-rotate f (suc zero) h = omega arith
sum_below-rotate f (suc (suc zero)) h = omega arith
sum_below-rotate f (suc (suc (suc zero))) h = omega arith
sum_below-rotate f (suc (suc (suc (suc zero)))) h = omega arith
sum_below-rotate f (suc (suc (suc (suc (suc zero))))) h = omega arith
sum_below-rotate f (suc (suc (suc (suc (suc (suc zero)))))) h = omega arith
sum_below-rotate f (suc (suc (suc (suc (suc (suc (suc zero))))))) h = omega arith
sum_below-rotate f (suc (suc (suc (suc (suc (suc (suc (suc zero)))))))) h = omega arith
sum_below-rotate f (suc (suc (suc (suc (suc (suc (suc (suc (suc zero))))))))) h = omega arith
sum_below-rotate f (suc (suc (suc (suc (suc (suc (suc (suc (suc (suc n)))))))))) h =
    absurd (omega arith)
