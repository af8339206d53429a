-- ===== src/Samples/Rotation.antt =====
-- `rotate` of src/test.hpp: a square of six rows, turned in place layer by layer.
use redis_rest.Base.{ℕ, zero, suc, ◌-◌, ◌<◌, ◌&&◌, ◌≡◌, refl, ◌==◌, if◌then◌else◌, arith}

-- vec[i][j], for the indices in use.
abbrev pub Square {ℓ} : Type ℓ → Type ℓ
Square A = ℕ → ℕ → A

module _ {A : Type 0} where
  -- vec[i][j] = x
  abbrev pub set : Square A → ℕ → ℕ → A → Square A
  set vec i j x = λ k l. if k == i && l == j then x else vec k l

  -- The five statements of the inner loop.
  abbrev pub turn : ℕ → ℕ → ℕ → Square A → Square A
  turn first last i vec =
      let top = vec first i in
      let a = set vec first i (vec (last - i) first) in
      let b = set a (last - i) first (a last (last - i)) in
      let c = set b last (last - i) (b i last) in set c i last top

  -- for (int i = first; i < last; ++i), for the `n` rounds from `i` on.
  abbrev pub turn_from : ℕ → ℕ → ℕ → ℕ → Square A → Square A
  turn_from zero first last i vec = vec
  turn_from (suc n) first last i vec = turn_from n first last (suc i) (turn first last i vec)

  -- for (int layer = 0; layer < 6 / 2; ++layer), for `n` layers from `layer` on.
  abbrev pub rotate_from : ℕ → ℕ → Square A → Square A
  rotate_from zero layer vec = vec
  rotate_from (suc n) layer vec =
      let last = 6 - 1 - layer in
      rotate_from n (suc layer) (turn_from (last - layer) layer last layer vec)

  unfoldable pub rotate : Square A → Square A
  rotate vec = rotate_from 3 0 vec

-- The second layer is not turned: this place should hold what row 3 and column 1 held.
pub rotate-second_layer : {A : Type 0} (vec : Square A) → rotate vec 1 2 ≡ vec 4 3
unfolding rotate
rotate-second_layer vec = refl

-- For every square: after rotate, the four outer sides are those of the square turned clockwise by a
-- quarter, for each place k of a side.
pub rotate-sides :
    {A : Type 0} (vec : Square A) (k : ℕ)
    → k < 6
    → (rotate vec 0 k ≡ vec (5 - k) 0)
      × (rotate vec k 5 ≡ vec 0 k)
      × (rotate vec 5 k ≡ vec (5 - k) 5)
      × (rotate vec k 0 ≡ vec 5 k)
unfolding rotate
rotate-sides vec zero h = (refl, refl, refl, refl)
rotate-sides vec (suc zero) h = (refl, refl, refl, refl)
rotate-sides vec (suc (suc zero)) h = (refl, refl, refl, refl)
rotate-sides vec (suc (suc (suc zero))) h = (refl, refl, refl, refl)
rotate-sides vec (suc (suc (suc (suc zero)))) h = (refl, refl, refl, refl)
rotate-sides vec (suc (suc (suc (suc (suc zero))))) h = (refl, refl, refl, refl)
rotate-sides vec (suc (suc (suc (suc (suc (suc k)))))) h = absurd (omega (arith, h))
