-- ===== src/Samples/Length.antt =====
-- `length` of src/test.hpp: how many bits a number has.
use redis_rest.Base.{
  ℕ, zero, suc, ◌+◌, ◌*◌, ◌/◌, ◌^◌, ◌≤◌, ◌<◌, false, Option, none, some, ◌≡◌, ◌⊎◌, inl, inr, refl,
  ap, ◌∙◌, ltb, if◌then◌else◌, Bool-cases, arith,
}
use redis_rest.Base.Int.{ℤ, pos, negsuc}

-- while (x > 0) { ret++; x = x >> 1; }, on fuel, for an x that is not negative.
unfoldable pub length_from : ℕ → ℕ → ℕ → Option ℕ
length_from zero x ret = none
length_from (suc fuel) x ret =
    let later = length_from fuel (x / 2) (suc ret) in if ltb 0 x then later else some ret

-- The loop shifts an `int`, below 2 ^ 31, at most 31 times.
unfoldable pub length : ℤ → Option ℕ
length (pos x) = length_from 32 x 0
length (negsuc x) = some 0

-- `n` is the least number with x < 2 ^ n.
abbrev Bits : ℕ → ℕ → Type 0
Bits n x = (x < 2 ^ n) × ((x ≡ 0) × (n ≡ 0) ⊎ (2 ^ n ≤ 2 * x))

Counted : ℕ → ℕ → ℕ → ℕ → Type 0
Counted fuel k x ret = (n : ℕ) × (length_from fuel x ret ≡ some (ret + n)) × Bits n x × (n ≤ k)

ends : (fuel k x ret : ℕ) → ltb 0 x ≡ false → Counted (suc fuel) k x ret
unfolding length_from Counted
ends fuel k x ret over =
    let e : x ≡ 0 = ground (arith, over) in
    (0, rw over (ap some (omega arith)), (rw e (omega arith), inl (e, refl)), omega arith)

-- From the bits of the half to those of the whole.
doubled : (n x : ℕ) → 0 < x → Bits n (x / 2) → Bits (suc n) x
doubled n x more (below, inl (none_left, no_bits)) =
    (rw no_bits (omega (arith, none_left)), inr (rw no_bits (omega (arith, more))))
doubled n x more (below, inr above) = (omega (arith, below), inr (omega (arith, above)))

length_from-Bits : (fuel k x ret : ℕ) → x < 2 ^ k → k < fuel → Counted fuel k x ret
unfolding length_from Counted
length_from-Bits zero k x ret small enough = elim enough [ ]
length_from-Bits (suc fuel) zero x ret small enough = ends fuel 0 x ret (ground (arith, small))
length_from-Bits (suc fuel) (suc k) x ret small enough = elim (Bool-cases (ltb 0 x)) [
  | inl more ↦
      let (n, e, bits, fits) =
        length_from-Bits fuel k (x / 2) (suc ret) (omega (arith, small)) (omega (arith, enough)) in
      (
        suc n,
        rw more (e ∙ ap some (omega arith)),
        doubled n x (ground (arith, more)) bits,
        omega (arith, fits),
      )
  | inr over ↦ ends fuel (suc k) x ret over
]

least : (n x : ℕ) → 0 < x → Bits n x → 2 ^ n ≤ 2 * x
least n x positive (below, inl (zero_x, no_bits)) = absurd (omega (arith, zero_x, positive))
least n x positive (below, inr above) = above

-- For every positive `int` the loop ends, and the length is the number of its bits: at most 31, with
-- the number below that power of two and not below half of it.
pub length-Bits :
    (x : ℕ)
    → 0 < x
    → x < 2 ^ 31
    → (n : ℕ) × (length (pos x) ≡ some n) × (x < 2 ^ n) × (2 ^ n ≤ 2 * x) × (n ≤ 31)
unfolding length Counted
length-Bits x positive small =
    let (n, e, bits, fits) = length_from-Bits 32 31 x 0 small (omega arith) in
    (n, e ∙ ap some (omega arith), bits.0, least n x positive bits, fits)
